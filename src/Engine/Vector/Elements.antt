-- ===== src/Engine/Vector/Elements.antt =====
-- Each element of the results, by the elements of the operands.
use npu_gpu_cpu.Prelude.{
  ℕ, zero, suc, ◌+◌, ◌*◌, ◌/◌, ◌%◌, ◌≤◌, ◌<◌, ◌≡◌, ◌≢◌, ap, ◌∙◌, Array, for_to, for_to_apply,
  for_to_miss, for_to_congr, true, if◌then◌else◌, arith,
}
use native.Mathlib.Decide.{ℕ_discrete}
use npu_gpu_cpu.Engine.Floats.{Floats}
use npu_gpu_cpu.Engine.Vector.{cn, sum_of_squares, rn_c, rotate, ra}

module _ {F D : Type 0} (f : Floats F D) where
  -- Below n every element that is not finite has become 0 and every other is kept.
  pub cn_cells :
      (x : Array F) (n i : ℕ) → i < n → cn f x n i ≡ (if f.isfinite (x i) then x i else f.zero)
  unfolding cn
  cn_cells x n i h =
      for_to_apply n i _ x i (λ v. if f.isfinite v then v else f.zero) h (λ t. ground arith)
        (λ j t p ne. ground arith)

  cn-isfinite :
      (x : Array F) (n i : ℕ) → f.isfinite f.zero ≡ true → i < n → f.isfinite (cn f x n i) ≡ true
  cn-isfinite x n i z h = ap f.isfinite (cn_cells x n i h) ∙ ground arith

  sum_of_squares-finite :
      (y : Array F) (n : ℕ)
      → ((j : ℕ) → j < n → f.isfinite (y j) ≡ true)
      → sum_of_squares f y n ≡ for_to n (λ j acc. f.add_d acc (f.mul_d (y j) (y j))) f.zero_d
  unfolding sum_of_squares
  sum_of_squares-finite y n fin =
      for_to_congr n f.zero_d
        (λ j acc p. ap (λ b. if b then f.add_d acc (f.mul_d (y j) (y j)) else acc) (fin j p))

  -- If 0 is finite, `rn_c` is the plain normalisation of the cleaned vector: its own tests for finite
  -- elements, in the sum of squares and in the scaling, change nothing.
  pub rn_c_cells :
      (x w : Array F) (n i : ℕ)
      → f.isfinite f.zero ≡ true
      → i < n
      → let y = cn f x n in
        let ss = for_to n (λ j acc. f.add_d acc (f.mul_d (y j) (y j))) f.zero_d in
        rn_c f x w n i ≡ f.mul (f.mul (y i) (f.inverse_root ss n)) (w i)
  unfolding rn_c
  rn_c_cells x w n i z h =
      for_to_apply n i _ y i scaled h (λ t. ground arith) (λ j t p ne. ground arith)
      ∙ ap (λ b. if b then f.mul (f.mul (y i) ir) (w i) else f.zero) (cn-isfinite x n i z h)
      ∙ ap (λ ss. f.mul (f.mul (y i) (f.inverse_root ss n)) (w i))
          (sum_of_squares-finite y n (λ j p. cn-isfinite x n j z p))
    where
      y : Array F
      y = cn f x n

      ir : F
      ir = f.inverse_root (sum_of_squares f y n) n

      scaled : F → F
      scaled v = if f.isfinite v then f.mul (f.mul v ir) (w i) else f.zero

  module _ (rc rs x : Array F) (hd p : ℕ) where
    -- Rounds at other places leave a pair alone.
    kept : (n q : ℕ) → 2 * n ≤ q → for_to n (rotate f rc rs hd p) x q ≡ x q
    unfolding rotate
    kept n q h = for_to_miss n _ x q (λ j t lt. ground arith)

    -- Nothing behind an even length is written.
    pub ra-beyond : (q : ℕ) → hd % 2 ≡ 0 → hd ≤ q → ra f rc rs x hd p q ≡ x q
    unfolding ra
    ra-beyond q even h = kept ((hd + 1) / 2) q (omega arith)

    rotated :
        (n i odd : ℕ)
        → i < n
        → odd < 2
        → for_to n (rotate f rc rs hd p) x (2 * i + odd) ≡ rotate f rc rs hd p i x (2 * i + odd)
    unfolding for_to rotate
    rotated zero i odd h ho = absurd (omega arith)
    rotated (suc n) i odd h ho = elim (ℕ_discrete i n) [
      | yes e ↦
          rw e (ground (arith, kept n (2 * n) (omega arith), kept n (2 * n + 1) (omega arith)))
      | no ne ↦ untouched (for_to n (rotate f rc rs hd p) x) ne ∙ rotated n i odd (omega arith) ho
    ]
      where
        untouched : (t : Array F) → i ≢ n → rotate f rc rs hd p n t (2 * i + odd) ≡ t (2 * i + odd)
        untouched t ne = ground arith

    -- For an even length, each pair of neighbours is rotated by its entry of the tables for position
    -- p, from the values that it had before, and no pair twice.
    pub ra_pairs :
        (i : ℕ)
        → hd % 2 ≡ 0
        → 2 * i < hd
        → let a = x (2 * i) in
          let b = x (2 * i + 1) in
          let c = rc (p * hd + 2 * i) in
          let s = rs (p * hd + 2 * i) in
          (ra f rc rs x hd p (2 * i) ≡ f.sub (f.mul a c) (f.mul b s))
          × (ra f rc rs x hd p (2 * i + 1) ≡ f.add (f.mul b c) (f.mul a s))
    unfolding ra rotate
    ra_pairs i even h = (
      ap (ra f rc rs x hd p) {y = 2 * i + 0} (omega arith)
          ∙ rotated ((hd + 1) / 2) i 0 (omega arith) (omega arith)
          ∙ ground arith,
      rotated ((hd + 1) / 2) i 1 (omega arith) (omega arith) ∙ ground arith,
    )
