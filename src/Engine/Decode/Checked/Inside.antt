-- ===== src/Engine/Decode/Checked/Inside.antt =====
-- Up to 32 positions every access of the two loops of `main` is inside, and with more of them one is not.
use npu_gpu_cpu.Prelude.{
  ℕ, ◌+◌, ◌≤◌, ◌<◌, ◌≡◌, refl, ap, ◌∙◌, Array, none, some, List, [], ◌∷◌, length, leb,
  if◌then◌else◌, arith,
}
use native.Mathlib.Decide.{dec_lt}
use npu_gpu_cpu.Prelude.Checked.{
  ◌>>=◌, for_option-keep, for_option-first, bind_some, bind_none, bind_failed, read_in,
}
use npu_gpu_cpu.Engine.Floats.{Floats}
use npu_gpu_cpu.Engine.Layer.{LayerData}
use npu_gpu_cpu.Engine.Layer.Checked.Inside.{layer_inside, layer_overrun}
use npu_gpu_cpu.Engine.Decode.{
  Session, vocabulary, embed, run_layer, run_layers, prefill_token, prefill, generate_token,
  generate, decode,
}
use npu_gpu_cpu.Engine.Decode.Tokens.{AllInTable, next_token-lt}
use npu_gpu_cpu.Engine.Decode.Checked.Token.{embed_checked_lem, next_token_checked_lem}
use npu_gpu_cpu.Engine.Decode.Checked.{
  embed_checked, run_layer_checked, run_layers_checked, prefill_token_checked, prefill_checked,
  generate_token_checked, generate_checked, decode_checked,
}

module _ {F D : Type 0} (f : Floats F D) (blank rc rs : Array F) (lo : ℕ → LayerData F) where
  run_layers_inside :
      (s : Session F)
      → s.sp < 32
      → (run_layers_checked f blank rc rs lo s ≡ some (run_layers f blank rc rs lo s))
        × ((run_layers f blank rc rs lo s).sp ≡ s.sp)
  unfolding run_layers_checked run_layers run_layer_checked run_layer
  run_layers_inside s lt =
      for_option-keep (λ t. t.sp ≡ s.sp) 28 _ (run_layer f blank rc rs lo) s refl
        (λ l t ll e. (
          bind_some {o = read_in 28 t.kv l} {a = t.kv l} _ (ground arith) (
              bind_some _ (layer_inside f blank rc rs (lo l) t.sp t.h (t.kv l) (omega (arith, e)))
                (ground arith)),
          e,
        ))

  run_layers_overrun : (s : Session F) → 32 ≤ s.sp → run_layers_checked f blank rc rs lo s ≡ none
  unfolding run_layers_checked run_layer_checked
  run_layers_overrun s le =
      for_option-first 27 _ s
        (bind_failed _ (layer_overrun f blank rc rs (lo 0) s.sp s.h (s.kv 0) le))

  module _ (emb : Array ℕ) where
    prefill_token_inside :
        (tok : ℕ) (s : Session F)
        → tok < vocabulary
        → s.sp < 32
        → (prefill_token_checked f blank rc rs lo emb tok s
            ≡ some (prefill_token f blank rc rs lo emb tok s))
          × ((prefill_token f blank rc rs lo emb tok s).sp ≡ s.sp + 1)
    unfolding prefill_token_checked prefill_token
    prefill_token_inside tok s lt ls =
        let (e, same) = run_layers_inside (record s { h = embed f blank emb tok }) ls in
        (
          bind_some _ (embed_checked_lem f emb blank tok lt) (bind_some _ e refl),
          ap (λ n. n + 1) same,
        )

    prefill_token_overrun :
        (tok : ℕ) (s : Session F)
        → 32 ≤ s.sp
        → prefill_token_checked f blank rc rs lo emb tok s ≡ none
    unfolding prefill_token_checked
    prefill_token_overrun tok s le =
        bind_none (embed_checked f emb blank tok) _
          (λ h. bind_failed _ (run_layers_overrun (record s { h = h }) le))

    module _ (fin : Array F) where
      generate_token_inside :
          (r : F) (s : Session F)
          → s.sp < 32
          → (generate_token_checked f blank rc rs lo emb fin r s
              ≡ some (generate_token f blank rc rs lo emb fin r s))
            × ((generate_token f blank rc rs lo emb fin r s).1.sp ≡ s.sp + 1)
      unfolding generate_token_checked generate_token
      generate_token_inside r s ls =
          let (e, same) = run_layers_inside s ls in
          (
            bind_some _ e (
                bind_some _ (next_token_checked_lem f emb blank fin r _) (
                  bind_some _ (embed_checked_lem f emb blank _ (next_token-lt f blank emb fin r _))
                    refl)),
            ap (λ n. n + 1) same,
          )

      generate_token_overrun :
          (r : F) (s : Session F)
          → 32 ≤ s.sp
          → generate_token_checked f blank rc rs lo emb fin r s ≡ none
      unfolding generate_token_checked
      generate_token_overrun r s le = bind_failed _ (run_layers_overrun s le)

      -- The generation from position s.sp on.
      generate_checked_lem :
          (randoms : List F) (s : Session F)
          → s.sp ≤ 32
          → generate_checked f blank rc rs lo emb fin randoms s ≡ (
              if leb (s.sp + length randoms) 32
              then some (generate f blank rc rs lo emb fin randoms s)
              else none)
      unfolding generate_checked generate
      generate_checked_lem [] s le = ground arith
      generate_checked_lem (r ∷ randoms) s le = elim (dec_lt s.sp 32) [
        | yes lt ↦
            let (e, next) = generate_token_inside r s lt in
            let s' = (generate_token f blank rc rs lo emb fin r s).1 in
            bind_some _ e (
              ap (λ o. o >>= λ toks. some ((generate_token f blank rc rs lo emb fin r s).0 ∷ toks))
                (generate_checked_lem randoms s' (omega (arith, next)))
              ∙ ground (arith, next))
        | no ge ↦ bind_failed _ (generate_token_overrun r s (omega arith)) ∙ ground arith
      ]

      prefill_generate :
          (prompt : List ℕ) (randoms : List F) (s : Session F)
          → AllInTable prompt
          → s.sp ≤ 32
          → (prefill_checked f blank rc rs lo emb prompt s
              >>= generate_checked f blank rc rs lo emb fin randoms)
            ≡ (if leb (s.sp + (length prompt + length randoms)) 32
                then some (decode f blank rc rs lo emb fin prompt randoms s)
                else none)
      unfolding prefill_checked decode prefill
      prefill_generate [] randoms s all le =
          generate_checked_lem randoms s le
          ∙ ap (λ b. if b then some (generate f blank rc rs lo emb fin randoms s) else none)
              {x = leb (s.sp + length randoms) 32} (ground arith)
      prefill_generate (tok ∷ toks) randoms s (here, all) le = elim (dec_lt s.sp 32) [
        | yes lt ↦
            let (e, next) = prefill_token_inside tok s (omega (arith, here)) lt in
            let s' = prefill_token f blank rc rs lo emb tok s in
            ap
              (λ o.
                o
                >>= prefill_checked f blank rc rs lo emb toks
                >>= generate_checked f blank rc rs lo emb fin randoms)
              e
            ∙ prefill_generate toks randoms s' all (omega (arith, next))
            ∙ ap (λ b. if b then some (decode f blank rc rs lo emb fin toks randoms s') else none)
                {x = leb (s'.sp + (length toks + length randoms)) 32} (ground (arith, next))
        | no ge ↦
            ap
              (λ o.
                o
                >>= prefill_checked f blank rc rs lo emb toks
                >>= generate_checked f blank rc rs lo emb fin randoms)
              (prefill_token_overrun tok s (omega arith))
            ∙ ground arith
      ]

      -- From a position up to 32 on, and with a prompt of tokens that have a row in the table: if the prompt
      -- and the tokens to generate end at position 32 at the latest, then every access of the two loops is
      -- inside of its vector, buffer or table, and the tokens are those of the loops without the checks; if
      -- they go further, an access is outside.
      pub decode_checked_lem :
          (prompt : List ℕ) (randoms : List F) (s : Session F)
          → AllInTable prompt
          → s.sp ≤ 32
          → decode_checked f blank rc rs lo emb fin prompt randoms s ≡ (
              if leb (s.sp + (length prompt + length randoms)) 32
              then some (decode f blank rc rs lo emb fin prompt randoms s)
              else none)
      unfolding decode_checked
      decode_checked_lem prompt randoms s all le = prefill_generate prompt randoms s all le
