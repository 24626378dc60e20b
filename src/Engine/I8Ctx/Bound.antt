-- ===== src/Engine/I8Ctx/Bound.antt =====
-- `I8Ctx::packB` with every access checked: `w` has `from` elements, and the layer's B buffer `into`.
use npu_gpu_cpu.Prelude.{
  ℕ, ◌*◌, ◌≤◌, ◌<◌, ◌≡◌, refl, ℤ, Array, ◌&&◌, Option, none, some, if◌then◌else◌, arith,
}
use npu_gpu_cpu.Prelude.Checked.{
  ◌>>=◌, read_in, write_in, for_option, for_option-some, for_option-none, bind_some, bind_none,
  bind_failed,
}
use npu_gpu_cpu.Engine.Floats.{Floats}
use npu_gpu_cpu.Engine.I8Ctx.{quantise, abs_max, usable, pack_b}

module _ {F D : Type 0} (f : Floats F D) (from into : ℕ) where
  abs_max_checked : Array F → ℕ → Option F
  abs_max_checked w n =
      for_option n
        (λ i amax. do
          x ← read_in from w i
          let a = f.fabsf x
          some (if f.isfinite a && f.greater a amax then a else amax))
        f.zero

  fill_checked : Array F → F → ℕ → Array ℤ → Option (Array ℤ)
  fill_checked w scale n =
      for_option n λ i b. do x ← read_in from w i; write_in into i (quantise f scale x) b

  unfoldable pub pack_b_checked : Array F → ℕ → ℕ → Array ℤ → Option (F × Array ℤ)
  unfolding abs_max_checked fill_checked
  pack_b_checked w k n b_m = do
    m ← abs_max_checked w (k * n)
    b ← fill_checked w (f.div f.f127 (usable f m)) (k * n) b_m
    some (f.div (usable f m) f.f127, b)

  abs_max_checked_lem :
      (w : Array F) (n : ℕ) → n ≤ from → abs_max_checked w n ≡ some (abs_max f w n)
  unfolding abs_max_checked abs_max
  abs_max_checked_lem w n le = for_option-some n _ _ f.zero (λ i t lt. ground arith)

  pub pack_b_inside :
      (w : Array F) (k n : ℕ) (b_m : Array ℤ)
      → k * n ≤ from
      → k * n ≤ into
      → pack_b_checked w k n b_m ≡ some (pack_b f w k n b_m)
  unfolding pack_b_checked fill_checked pack_b
  pack_b_inside w k n b_m le le' =
      bind_some _ (abs_max_checked_lem w (k * n) le)
        (bind_some _ (for_option-some (k * n) _ _ b_m (λ i t lt. ground arith)) refl)

  -- A matrix that is larger than the buffer is written past its end.
  pub pack_b_overrun :
      (w : Array F) (k n : ℕ) (b_m : Array ℤ) → into < k * n → pack_b_checked w k n b_m ≡ none
  unfolding pack_b_checked fill_checked
  pack_b_overrun w k n b_m lt = bind_none (abs_max_checked w (k * n)) _ (λ m. bind_failed _ (
      for_option-none (k * n) into _ b_m lt
        (λ t. bind_none (read_in from w into) _ (λ x. ground arith))))
