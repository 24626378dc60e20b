-- ===== src/Engine/Decode/Prompt.antt =====
-- How much of the prompt the generated tokens rest on.
use mathlib.Core.Path.{ap₂}
use npu_gpu_cpu.Prelude.{
  ℕ, zero, suc, ◌+◌, ◌*◌, ◌≤◌, ◌≡◌, inl, inr, refl, sym, ap, ◌∙◌, Array, for_to, List, [], ◌∷◌,
  ◌++◌, length, Bool-cases, ◌==◌, arith,
}
use npu_gpu_cpu.Engine.Floats.{Floats}
use npu_gpu_cpu.Engine.Layer.{LayerData, KvCache, layer}
use npu_gpu_cpu.Engine.Layer.Window.{CachesAgreeFrom, layer_forgets}
use npu_gpu_cpu.Engine.Layer.Rows.{SameCell}
use npu_gpu_cpu.Engine.Decode.Rows.{run_layers-other_rows}
use npu_gpu_cpu.Engine.Decode.{
  Session, run_layer, run_layers, embed, prefill_token, prefill, next_token, generate_token,
  generate, decode,
}

module _ {F D : Type 0} (f : Floats F D) (blank rc rs : Array F) (lo : ℕ → LayerData F) where
  -- The same position, and caches that agree from its row on.
  pub record CachesAlike (s s' : Session F) : Type 0 where
    pub same_sp : s.sp ≡ s'.sp
    pub agree : (l : ℕ) → CachesAgreeFrom s.sp (s.kv l) (s'.kv l)

  -- The same hidden state too.
  pub record Alike (s s' : Session F) : Type 0 where
    pub same_h : s.h ≡ s'.h
    pub caches : CachesAlike s s'

  layer_alike :
      (d : LayerData F) {n n' : ℕ} {h h' : Array F} (kv kv' : KvCache F)
      → n ≡ n'
      → h ≡ h'
      → CachesAgreeFrom n kv kv'
      → ((layer f blank rc rs d n h kv).0 ≡ (layer f blank rc rs d n' h' kv').0)
        × CachesAgreeFrom n (layer f blank rc rs d n h kv).1 (layer f blank rc rs d n' h' kv').1
  layer_alike d {n} {n'} {h} {h'} kv kv' en eh agree =
      let (p, (k, v)) = layer_forgets f blank rc rs d n h kv kv' agree in
      let e = ap₂ (λ x y. layer f blank rc rs d x y kv') en eh in
      (
        p ∙ ap (λ r. r.0) e,
        ((λ i le. k i le ∙ ap (λ r. r.1.k i) e), (λ i le. v i le ∙ ap (λ r. r.1.v i) e)),
      )

  run_layer-Alike :
      (l : ℕ) {s s' : Session F}
      → Alike s s'
      → Alike (run_layer f blank rc rs lo l s) (run_layer f blank rc rs lo l s')
  unfolding run_layer
  run_layer-Alike l {s} {s'} a =
      let (p, c) =
        layer_alike (lo l) (s.kv l) (s'.kv l) a.caches.same_sp a.same_h (a.caches.agree l) in
      record {
        same_h = p;
        caches = record {
          same_sp = a.caches.same_sp;
          agree =
              λ m. elim (Bool-cases (m == l)) [ inl e ↦ rw e c | inr e ↦ rw e (a.caches.agree m) ];
        };
      }

  rounds-Alike :
      (n : ℕ) {s s' : Session F}
      → Alike s s'
      → Alike (for_to n (run_layer f blank rc rs lo) s) (for_to n (run_layer f blank rc rs lo) s')
  unfolding for_to
  rounds-Alike zero a = a
  rounds-Alike (suc n) a = run_layer-Alike n (rounds-Alike n a)

  run_layers-Alike :
      {s s' : Session F}
      → Alike s s'
      → Alike (run_layers f blank rc rs lo s) (run_layers f blank rc rs lo s')
  unfolding run_layers
  run_layers-Alike = rounds-Alike 28

  module _ (emb : Array ℕ) where
    -- The tokens may differ: what they store lies before the new row.
    prefill_token-CachesAlike :
        (t t' : ℕ) {s s' : Session F}
        → CachesAlike s s'
        → CachesAlike
            (prefill_token f blank rc rs lo emb t s)
            (prefill_token f blank rc rs lo emb t' s')
    unfolding prefill_token
    prefill_token-CachesAlike t t' {s} {s'} c = record {
      same_sp = omega (arith, kept, kept', c.same_sp);
      agree = λ l. ((λ i le. (cell l i le).0), (λ i le. (cell l i le).1));
    }
      where
        u : Session F
        u = record s { h = embed f blank emb t }

        u' : Session F
        u' = record s' { h = embed f blank emb t' }

        kept : (run_layers f blank rc rs lo u).sp ≡ s.sp
        kept =
            (run_layers-other_rows f blank rc rs lo u 0 ((s.sp + 1) * 1024) (inr (omega arith))).0

        kept' : (run_layers f blank rc rs lo u').sp ≡ s'.sp
        kept' =
            (run_layers-other_rows f blank rc rs lo u' 0 ((s'.sp + 1) * 1024) (inr (omega arith))).0

        cell :
            (l i : ℕ)
            → ((run_layers f blank rc rs lo u).sp + 1) * 1024 ≤ i
            → SameCell i
                ((run_layers f blank rc rs lo u).kv l)
                ((run_layers f blank rc rs lo u').kv l)
        cell l i le =
            let (e, (a, b)) =
              run_layers-other_rows f blank rc rs lo u l i (inr (omega (arith, kept))) in
            let (e', (a', b')) =
              run_layers-other_rows f blank rc rs lo u' l i
                (inr (omega (arith, kept, c.same_sp))) in
            (
              a ∙ (c.agree l).0 i (omega (arith, kept)) ∙ sym a',
              b ∙ (c.agree l).1 i (omega (arith, kept)) ∙ sym b',
            )

    prefill_token-Alike :
        (t : ℕ) {s s' : Session F}
        → CachesAlike s s'
        → Alike (prefill_token f blank rc rs lo emb t s) (prefill_token f blank rc rs lo emb t s')
    unfolding prefill_token
    prefill_token-Alike t {s} {s'} c =
        let b =
          run_layers-Alike {s = record s { h = embed f blank emb t }}
            {s' = record s' { h = embed f blank emb t }}
            (record { same_h = refl; caches = record { same_sp = c.same_sp; agree = c.agree } }) in
        record {
          same_h = b.same_h;
          caches = record {
            same_sp = ap (λ n. n + 1) b.caches.same_sp;
            agree = λ l. (
              (λ i le. (b.caches.agree l).0 i (omega arith)),
              (λ i le. (b.caches.agree l).1 i (omega arith)),
            );
          };
        }

    prefill-Alike :
        (p p' : List ℕ) (t : ℕ) {s s' : Session F}
        → length p ≡ length p'
        → CachesAlike s s'
        → Alike
            (prefill f blank rc rs lo emb (p ++ t ∷ []) s)
            (prefill f blank rc rs lo emb (p' ++ t ∷ []) s')
    unfolding prefill
    prefill-Alike [] [] t e c = prefill_token-Alike t c
    prefill-Alike [] (x ∷ p') t e c = absurd (omega arith)
    prefill-Alike (x ∷ p) [] t e c = absurd (omega arith)
    prefill-Alike (x ∷ p) (x' ∷ p') t e c =
        prefill-Alike p p' t (omega arith) (prefill_token-CachesAlike x x' c)

    module _ (fin : Array F) where
      generate_token-Alike :
          (r : F) {s s' : Session F}
          → Alike s s'
          → ((generate_token f blank rc rs lo emb fin r s).0
              ≡ (generate_token f blank rc rs lo emb fin r s').0)
            × Alike
                (generate_token f blank rc rs lo emb fin r s).1
                (generate_token f blank rc rs lo emb fin r s').1
      unfolding generate_token
      generate_token-Alike r {s} {s'} a =
          let b = run_layers-Alike a in
          let tok = ap (next_token f blank emb fin r) b.same_h in
          (
            tok,
            record {
              same_h = ap (embed f blank emb) tok;
              caches = record {
                same_sp = ap (λ n. n + 1) b.caches.same_sp;
                agree = λ l. (
                  (λ i le. (b.caches.agree l).0 i (omega arith)),
                  (λ i le. (b.caches.agree l).1 i (omega arith)),
                );
              };
            },
          )

      generate-Alike :
          (randoms : List F) {s s' : Session F}
          → Alike s s'
          → generate f blank rc rs lo emb fin randoms s
            ≡ generate f blank rc rs lo emb fin randoms s'
      unfolding generate
      generate-Alike [] a = refl
      generate-Alike (r ∷ randoms) a =
          let (tok, a') = generate_token-Alike r a in ap₂ ◌∷◌ tok (generate-Alike randoms a')

      -- Two prompts of the same length with the same last token lead to the same generated tokens,
      -- whatever the tokens before it are: from the same state, and for the same random numbers.
      pub decode-last_token :
          (p p' : List ℕ) (t : ℕ) (randoms : List F) (s : Session F)
          → length p ≡ length p'
          → decode f blank rc rs lo emb fin (p ++ t ∷ []) randoms s
            ≡ decode f blank rc rs lo emb fin (p' ++ t ∷ []) randoms s
      unfolding decode
      decode-last_token p p' t randoms s e = generate-Alike randoms (
          prefill-Alike p p' t e
            (record { same_sp = refl; agree = λ l. ((λ i le. refl), (λ i le. refl)) }))
