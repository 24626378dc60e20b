-- ===== src/Engine/Vector/Checked.antt =====
-- `cn`, `rn_c` and the `memcpy` of floats with every access to a vector checked against its size; `none`
-- is an access outside of it.
use npu_gpu_cpu.Prelude.{ℕ, ◌+◌, ◌≤◌, ◌≡◌, Array, Option, some, if◌then◌else◌, arith}
use npu_gpu_cpu.Prelude.Checked.{◌>>=◌, read_in, write_in, for_option, for_option-some, bind_some}
use npu_gpu_cpu.Engine.Floats.{Floats}
use npu_gpu_cpu.Engine.Fuse.{copy}
use npu_gpu_cpu.Engine.Vector.{cn, sum_of_squares, rn_c}

module _ {F : Type 0} where
  -- From a vector of `from` elements to one of `into`.
  unfoldable pub copy_checked : ℕ → ℕ → ℕ → Array F → ℕ → ℕ → Array F → Option (Array F)
  copy_checked from into dst x src n =
      for_option n λ c y. do v ← read_in from x (src + c); write_in into (dst + c) v y

  pub copy_checked_lem :
      (from into dst : ℕ) (x : Array F) (src n : ℕ) (y : Array F)
      → src + n ≤ from
      → dst + n ≤ into
      → copy_checked from into dst x src n y ≡ some (copy dst x src n y)
  unfolding copy_checked copy
  copy_checked_lem from into dst x src n y le le' = for_option-some n _ _ y (λ c t lt. ground arith)

module _ {F D : Type 0} (f : Floats F D) where
  unfoldable pub cn_checked : ℕ → Array F → ℕ → Option (Array F)
  cn_checked size x n =
      for_option n
        (λ i y. do v ← read_in size y i; if f.isfinite v then some y else write_in size i f.zero y)
        x

  pub cn_checked_lem :
      (size : ℕ) (x : Array F) (n : ℕ) → n ≤ size → cn_checked size x n ≡ some (cn f x n)
  unfolding cn_checked cn
  cn_checked_lem size x n le = for_option-some n _ _ x (λ i t lt. ground arith)

  abbrev sum_checked : ℕ → Array F → ℕ → Option D
  sum_checked size x n =
      for_option n
        (λ i ss. do
          v ← read_in size x i
          some (if f.isfinite v then f.add_d ss (f.mul_d v v) else ss))
        f.zero_d

  sum_checked_lem :
      (size : ℕ) (x : Array F) (n : ℕ)
      → n ≤ size
      → sum_checked size x n ≡ some (sum_of_squares f x n)
  unfolding sum_of_squares
  sum_checked_lem size x n le = for_option-some n _ _ f.zero_d (λ i t lt. ground arith)

  -- The loop that scales, `ir` given.
  abbrev scale_checked : ℕ → ℕ → Array F → F → ℕ → Array F → Option (Array F)
  scale_checked size weights w ir n = for_option n λ i z. do
    v ← read_in size z i
    g ← if f.isfinite v then read_in weights w i else some f.zero
    write_in size i (if f.isfinite v then f.mul (f.mul v ir) g else f.zero) z

  -- `x` has `size` elements, `w` has `weights`.
  unfoldable pub rn_c_checked : ℕ → ℕ → Array F → Array F → ℕ → Option (Array F)
  unfolding cn_checked
  rn_c_checked size weights x w n = do
    y ← cn_checked size x n
    ss ← sum_checked size y n
    scale_checked size weights w (f.inverse_root ss n) n y

  pub rn_c_checked_lem :
      (size weights : ℕ) (x w : Array F) (n : ℕ)
      → n ≤ size
      → n ≤ weights
      → rn_c_checked size weights x w n ≡ some (rn_c f x w n)
  unfolding rn_c_checked rn_c
  rn_c_checked_lem size weights x w n le le' = bind_some _ (cn_checked_lem size x n le) (
      bind_some _ (sum_checked_lem size (cn f x n) n le)
        (for_option-some n _ _ (cn f x n) (λ i t lt. ground arith)))
