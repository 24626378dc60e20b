-- ===== src/Engine/Heads/Cache.antt =====
-- What the loop over the heads leaves in the caches.
use npu_gpu_cpu.Prelude.{
  sym, ℕ, zero, suc, ◌+◌, ◌-◌, ◌*◌, ◌/◌, ◌%◌, ◌≤◌, ◌<◌, ◌≡◌, ◌≢◌, ◌⊎◌, inl, inr, refl, ap, ◌∙◌,
  Array, for_to, for_to_miss, arith,
}
use native.Mathlib.Decide.{dec_lt, ℕ_discrete}
use npu_gpu_cpu.Engine.Fuse.{copy}
use npu_gpu_cpu.Engine.Fuse.Cells.{copy_at, copy_beside}
use npu_gpu_cpu.Engine.Floats.{Floats}
use npu_gpu_cpu.Engine.CpuAttn.{at_offset}
use npu_gpu_cpu.Engine.Vector.Elements.{ra-beyond}
use npu_gpu_cpu.Engine.Heads.{Heads, through, norm_head, prepare_head, one_head, heads}

module _ {F D : Type 0} (f : Floats F D) where
  norm_head-outside :
      (w : Array F) (base : ℕ) (x : Array F) (q : ℕ)
      → (q < base) ⊎ (base + 128 ≤ q)
      → norm_head f w base x q ≡ x q
  unfolding norm_head
  norm_head-outside w base x q h = for_to_miss 128 _ x q (λ j t p. ground arith)

  module _ (rc rs : Array F) (sp : ℕ) where
    prepare_head-outside :
        (w : Array F) (base : ℕ) (x : Array F) (q : ℕ)
        → (q < base) ⊎ (base + 128 ≤ q)
        → prepare_head f rc rs sp w base x q ≡ x q
    unfolding prepare_head through
    prepare_head-outside w base x q (inl h) = ground (arith, norm_head-outside w base x q (inl h))
    prepare_head-outside w base x q (inr h) = ground (
      arith,
      ra-beyond f rc rs (at_offset base (norm_head f w base x)) 128 sp (q - base) (omega arith)
          (omega arith),
      ap (norm_head f w base x) {x = base + (q - base)} {y = q} (omega arith),
      norm_head-outside w base x q (inr h),
    )

    module _ (qn kn vo : Array F) where
      abbrev step : ℕ → Heads F → Heads F
      step = one_head f rc rs sp qn kn vo

      -- A round with an even number stores its head.
      stored :
          (hh : ℕ) (c : Heads F)
          → hh % 2 ≡ 0
          → let ko' = prepare_head f rc rs sp kn (hh / 2 * 128) c.ko in
            ((step hh c).ko ≡ ko')
            × ((step hh c).k ≡ copy (sp * 8 * 128 + hh / 2 * 128) ko' (hh / 2 * 128) 128 c.k)
            × ((step hh c).v ≡ copy (sp * 8 * 128 + hh / 2 * 128) vo (hh / 2 * 128) 128 c.v)
      unfolding one_head
      stored hh c even = ground arith

      -- A round with an odd number stores nothing.
      skipped :
          (hh : ℕ) (c : Heads F)
          → hh % 2 ≢ 0
          → ((step hh c).ko ≡ c.ko) × ((step hh c).k ≡ c.k) × ((step hh c).v ≡ c.v)
      unfolding one_head
      skipped hh c odd = ground arith

      -- Element e of the row, for the head of this round.
      copied :
          (x y : Array F) (kvh e : ℕ)
          → kvh * 128 ≤ e
          → e < kvh * 128 + 128
          → copy (sp * 8 * 128 + kvh * 128) x (kvh * 128) 128 y (sp * 1024 + e) ≡ x e
      copied x y kvh e le lt =
          copy_at x (sp * 8 * 128 + kvh * 128) (kvh * 128) 128 y (sp * 1024 + e) (omega arith)
            (omega arith)
          ∙ ap x {y = e} (omega arith)

      uncopied :
          (x y : Array F) (kvh q : ℕ)
          → (q < sp * 1024 + kvh * 128) ⊎ (sp * 1024 + kvh * 128 + 128 ≤ q)
          → copy (sp * 8 * 128 + kvh * 128) x (kvh * 128) 128 y q ≡ y q
      uncopied x y kvh q h =
          copy_beside x (sp * 8 * 128 + kvh * 128) (kvh * 128) 128 y q (ground arith)

      abbrev Filled : ℕ → Heads F → Type 0
      Filled e c = (c.k (sp * 1024 + e) ≡ c.ko e) × (c.v (sp * 1024 + e) ≡ vo e)

      Filled-now :
          (hh e : ℕ) (c : Heads F)
          → hh % 2 ≡ 0
          → hh / 2 * 128 ≤ e
          → e < hh / 2 * 128 + 128
          → Filled e (step hh c)
      Filled-now hh e c even le lt =
          let (o, k, v) = stored hh c even in
          (
            ap (λ x. x (sp * 1024 + e)) k ∙ copied _ _ (hh / 2) e le lt ∙ ap (λ x. x e) (sym o),
            ap (λ x. x (sp * 1024 + e)) v ∙ copied vo _ (hh / 2) e le lt,
          )

      Filled-before :
          (hh e : ℕ) (c : Heads F)
          → (hh % 2 ≡ 0 → e < hh / 2 * 128)
          → Filled e c
          → Filled e (step hh c)
      Filled-before hh e c early (p, q) = elim (ℕ_discrete (hh % 2) 0) [
        | yes even ↦
            let (o, k, v) = stored hh c even in
            (
              ap (λ x. x (sp * 1024 + e)) k
                  ∙ uncopied _ _ (hh / 2) _ (inl (omega (arith, early even)))
                  ∙ p
                  ∙ sym (prepare_head-outside kn (hh / 2 * 128) c.ko e (inl (early even)))
                  ∙ ap (λ x. x e) (sym o),
              ap (λ x. x (sp * 1024 + e)) v
                  ∙ uncopied vo _ (hh / 2) _ (inl (omega (arith, early even)))
                  ∙ q,
            )
        | no odd ↦
            let (o, k, v) = skipped hh c odd in
            (
              ap (λ x. x (sp * 1024 + e)) k ∙ p ∙ ap (λ x. x e) (sym o),
              ap (λ x. x (sp * 1024 + e)) v ∙ q,
            )
      ]

      heads-Filled : (n e : ℕ) (c : Heads F) → e < (n + 1) / 2 * 128 → Filled e (for_to n step c)
      unfolding for_to
      heads-Filled zero e c h = absurd (omega arith)
      heads-Filled (suc n) e c h = elim (dec_lt e ((n + 1) / 2 * 128)) [
        | yes lt ↦ Filled-before n e (for_to n step c) (λ even. omega arith) (heads-Filled n e c lt)
        | no ge ↦ Filled-now n e (for_to n step c) (omega arith) (omega arith) (omega arith)
      ]

      beside :
          (n q : ℕ) (c : Heads F)
          → n ≤ 16
          → (q < sp * 1024) ⊎ ((sp + 1) * 1024 ≤ q)
          → ((for_to n step c).k q ≡ c.k q) × ((for_to n step c).v q ≡ c.v q)
      unfolding for_to
      beside zero q c le h = (refl, refl)
      beside (suc n) q c le h = elim (ℕ_discrete (n % 2) 0) [
        | yes even ↦
            let (o, k, v) = stored n (for_to n step c) even in
            let (p, r) = beside n q c (omega arith) h in
            (
              ap (λ x. x q) k ∙ uncopied _ _ (n / 2) q (ground arith) ∙ p,
              ap (λ x. x q) v ∙ uncopied vo _ (n / 2) q (ground arith) ∙ r,
            )
        | no odd ↦
            let (o, k, v) = skipped n (for_to n step c) odd in
            let (p, r) = beside n q c (omega arith) h in (ap (λ x. x q) k ∙ p, ap (λ x. x q) v ∙ r)
      ]

      -- After the loop over the heads in `layer`, row sp of the K cache is all of `ko`, as normalised and rotated, and row sp of
      -- the V cache is all of `vo`.
      pub heads-cache_row :
          (c : Heads F) (e : ℕ)
          → e < 1024
          → ((heads f rc rs sp qn kn vo c).k (sp * 1024 + e) ≡ (heads f rc rs sp qn kn vo c).ko e)
            × ((heads f rc rs sp qn kn vo c).v (sp * 1024 + e) ≡ vo e)
      unfolding heads
      heads-cache_row c e h = heads-Filled 16 e c (omega arith)

      -- The loop over the heads in `layer` keeps every element of the two caches outside of row sp.
      pub heads-other_rows :
          (c : Heads F) (q : ℕ)
          → (q < sp * 1024) ⊎ ((sp + 1) * 1024 ≤ q)
          → ((heads f rc rs sp qn kn vo c).k q ≡ c.k q)
            × ((heads f rc rs sp qn kn vo c).v q ≡ c.v q)
      unfolding heads
      heads-other_rows c q h = beside 16 q c (omega arith) h
