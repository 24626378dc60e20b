-- ===== src/Engine/Decode/Rows.antt =====
-- Which rows of the caches the loops of `main` write.
use npu_gpu_cpu.Prelude.{
  ==_iff, ℕ, zero, suc, ◌+◌, ◌*◌, ◌≤◌, ◌<◌, ◌≡◌, ◌⊎◌, inl, inr, refl, sym, ap, ◌∙◌, Array, for_to,
  List, [], ◌∷◌, length, Bool-cases, ◌==◌, arith,
}
use npu_gpu_cpu.Engine.Floats.{Floats}
use npu_gpu_cpu.Engine.Layer.{LayerData}
use npu_gpu_cpu.Engine.Layer.Rows.{SameCell, layer-other_rows}
use npu_gpu_cpu.Engine.Decode.{Session, run_layer, run_layers, embed, prefill_token, prefill}

module _ {F D : Type 0} (f : Floats F D) (blank rc rs : Array F) (lo : ℕ → LayerData F) where
  -- A layer leaves the rows other than the current one, and the position.
  run_layer-other_rows :
      (l : ℕ) (s : Session F) (m q : ℕ)
      → (q < s.sp * 1024) ⊎ ((s.sp + 1) * 1024 ≤ q)
      → ((run_layer f blank rc rs lo l s).sp ≡ s.sp)
        × SameCell q ((run_layer f blank rc rs lo l s).kv m) (s.kv m)
  unfolding run_layer
  run_layer-other_rows l s m q out = elim (Bool-cases (m == l)) [
    | inl e ↦
        let ((a, b), n) = layer-other_rows f blank rc rs (lo l) s.sp s.h (s.kv l) q out in
        let em = (==_iff m l).0 e in
        (refl, rw e (a ∙ ap (λ i. (s.kv i).k q) (sym em), b ∙ ap (λ i. (s.kv i).v q) (sym em)))
    | inr e ↦ (refl, rw e (refl, refl))
  ]

  rounds-other_rows :
      (n : ℕ) (s : Session F) (m q : ℕ)
      → (q < s.sp * 1024) ⊎ ((s.sp + 1) * 1024 ≤ q)
      → ((for_to n (run_layer f blank rc rs lo) s).sp ≡ s.sp)
        × SameCell q ((for_to n (run_layer f blank rc rs lo) s).kv m) (s.kv m)
  unfolding for_to
  rounds-other_rows zero s m q out = (refl, (refl, refl))
  rounds-other_rows (suc n) s m q out =
      let (e, (a, b)) = rounds-other_rows n s m q out in
      let (e', (a', b')) =
        run_layer-other_rows n (for_to n (run_layer f blank rc rs lo) s) m q (ground (arith, e)) in
      (e' ∙ e, (a' ∙ a, b' ∙ b))

  pub run_layers-other_rows :
      (s : Session F) (m q : ℕ)
      → (q < s.sp * 1024) ⊎ ((s.sp + 1) * 1024 ≤ q)
      → ((run_layers f blank rc rs lo s).sp ≡ s.sp)
        × SameCell q ((run_layers f blank rc rs lo s).kv m) (s.kv m)
  unfolding run_layers
  run_layers-other_rows = rounds-other_rows 28

  -- After a prompt the position is further by its length, and every layer's caches are as before but
  -- for the rows from the old position up to the new one.
  pub prefill-other_rows :
      (emb : Array ℕ) (p : List ℕ) (s : Session F) (m q : ℕ)
      → (q < s.sp * 1024) ⊎ ((s.sp + length p) * 1024 ≤ q)
      → ((prefill f blank rc rs lo emb p s).sp ≡ s.sp + length p)
        × SameCell q ((prefill f blank rc rs lo emb p s).kv m) (s.kv m)
  unfolding prefill prefill_token
  prefill-other_rows emb [] s m q out = (omega arith, (refl, refl))
  prefill-other_rows emb (t ∷ p) s m q out =
      let (e, (a, b)) =
        run_layers-other_rows (record s { h = embed f blank emb t }) m q (ground arith) in
      let (e', (a', b')) =
        prefill-other_rows emb p (prefill_token f blank rc rs lo emb t s) m q (ground (arith, e)) in
      (omega (arith, e, e'), (a' ∙ a, b' ∙ b))
