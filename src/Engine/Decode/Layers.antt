-- ===== src/Engine/Decode/Layers.antt =====
-- The two loops of `main` use the data of the 28 layers only.
use npu_gpu_cpu.Prelude.{for_to_congr, ℕ, ◌+◌, ◌<◌, ◌≡◌, refl, ap, ◌∙◌, Array, write, List, [], ◌∷◌}
use npu_gpu_cpu.Engine.Floats.{Floats}
use npu_gpu_cpu.Engine.Layer.{LayerData, layer}
use npu_gpu_cpu.Engine.Decode.{
  Session, next_token, embed, run_layer, run_layers, prefill_token, prefill, generate_token,
  generate, decode,
}

module _ {F D : Type 0} (f : Floats F D) (blank rc rs : Array F) (lo lo' : ℕ → LayerData F)
    (same : (l : ℕ) → l < 28 → lo l ≡ lo' l) where
  run_layers-agree :
      (s : Session F) → run_layers f blank rc rs lo s ≡ run_layers f blank rc rs lo' s
  unfolding run_layers run_layer
  run_layers-agree s = for_to_congr 28 s (λ l t lt.
      ap
        (λ d.
          let r = layer f blank rc rs d t.sp t.h (t.kv l) in
          record t { h = r.0; kv = write l r.1 t.kv })
        (same l lt))

  module _ (emb : Array ℕ) where
    prefill-agree :
        (toks : List ℕ) (s : Session F)
        → prefill f blank rc rs lo emb toks s ≡ prefill f blank rc rs lo' emb toks s
    unfolding prefill prefill_token
    prefill-agree [] s = refl
    prefill-agree (tok ∷ toks) s =
        prefill-agree toks (prefill_token f blank rc rs lo emb tok s)
        ∙ ap (λ t. prefill f blank rc rs lo' emb toks (record t { sp = t.sp + 1 }))
            (run_layers-agree (record s { h = embed f blank emb tok }))

    module _ (fin : Array F) where
      generate_token-agree :
          (r : F) (s : Session F)
          → generate_token f blank rc rs lo emb fin r s
            ≡ generate_token f blank rc rs lo' emb fin r s
      unfolding generate_token
      generate_token-agree r s =
          ap
            (λ t.
              let tok = next_token f blank emb fin r t.h in
              (tok, record t { h = embed f blank emb tok; sp = t.sp + 1 }))
            (run_layers-agree s)

      generate-agree :
          (randoms : List F) (s : Session F)
          → generate f blank rc rs lo emb fin randoms s
            ≡ generate f blank rc rs lo' emb fin randoms s
      unfolding generate
      generate-agree [] s = refl
      generate-agree (r ∷ randoms) s =
          ap (λ ts. (generate_token f blank rc rs lo emb fin r s).0 ∷ ts)
            (generate-agree randoms (generate_token f blank rc rs lo emb fin r s).1)
          ∙ ap (λ t. t.0 ∷ generate f blank rc rs lo' emb fin randoms t.1)
              (generate_token-agree r s)

      -- Data that agree on the 28 layers lead to the same tokens.
      pub decode-agree :
          (prompt : List ℕ) (randoms : List F) (s : Session F)
          → decode f blank rc rs lo emb fin prompt randoms s
            ≡ decode f blank rc rs lo' emb fin prompt randoms s
      unfolding decode
      decode-agree prompt randoms s =
          generate-agree randoms (prefill f blank rc rs lo emb prompt s)
          ∙ ap (generate f blank rc rs lo' emb fin randoms) (prefill-agree prompt s)
