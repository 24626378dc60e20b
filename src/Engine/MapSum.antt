-- ===== src/Engine/MapSum.antt =====
-- The loop that replaces each element of an array by a function of it and adds the results up, as
-- `cpu_attn`, `sm` and `main` have it for their exponentials.
use npu_gpu_cpu.Prelude.{ℕ, zero, suc, ◌≤◌, ◌<◌, ◌≡◌, refl, Array, write, for_to, arith}
use mathlib.Core.Path.{ap₂}
use native.Mathlib.Decide.{ℕ_discrete}

module _ {F D : Type 0} (g : F → F) (plus : D → F → D) where
  unfoldable pub map_sum : ℕ → Array F × D → Array F × D
  map_sum n = for_to n λ p acc. let e = g (acc.0 p) in (write p e acc.0, plus acc.1 e)

  -- Elements behind the end are kept.
  pub map_sum-beyond : (arr : Array F) (d : D) (n p : ℕ) → n ≤ p → (map_sum n (arr, d)).0 p ≡ arr p
  unfolding map_sum for_to
  map_sum-beyond arr d zero p le = refl
  map_sum-beyond arr d (suc n) p le = ground (arith, map_sum-beyond arr d n p (omega arith))

  pub map_sum_cells :
      (arr : Array F) (d : D) (n p : ℕ) → p < n → (map_sum n (arr, d)).0 p ≡ g (arr p)
  unfolding map_sum for_to
  map_sum_cells arr d zero p lt = absurd (omega arith)
  map_sum_cells arr d (suc n) p lt = elim (ℕ_discrete p n) [
    | yes e ↦ rw e (ground (arith, map_sum-beyond arr d n n (omega arith)))
    | no ne ↦ ground (arith, map_sum_cells arr d n p (omega arith))
  ]

  -- The results are added in the order of the array.
  pub map_sum_total :
      (arr : Array F) (d : D) (n : ℕ)
      → (map_sum n (arr, d)).1 ≡ for_to n (λ p s. plus s (g (arr p))) d
  unfolding map_sum for_to
  map_sum_total arr d zero = refl
  map_sum_total arr d (suc n) =
      ap₂ (λ x s. plus s (g x)) (map_sum-beyond arr d n n (omega arith)) (map_sum_total arr d n)
