-- ===== src/Engine/Floats.antt =====
-- What the engine calculates with: `float` (F) and `double` (D), with no law assumed of them.
use npu_gpu_cpu.Prelude.{ℕ, ℤ, Bool}

pub record Floats (F D : Type 0) : Type 0 where
  pub zero : F
  pub one : F
  pub five : F
  pub f127 : F
  -- `1e-12f`, `-1e30`, `-80` and `80`
  pub tiny : F
  pub least : F
  pub minus_80 : F
  pub f80 : F
  pub add : F → F → F
  pub sub : F → F → F
  pub mul : F → F → F
  pub div : F → F → F
  pub neg : F → F
  pub fabsf : F → F
  pub expf : F → F
  pub isfinite : F → Bool
  -- `a > b` and `a >= b`
  pub greater : F → F → Bool
  pub at_least : F → F → Bool
  -- `(int)roundf(x)`
  pub round_to_int : F → ℤ
  pub of_int : ℤ → F
  -- the float of a 32-bit pattern
  pub of_bits : ℕ → F
  pub widen : F → D
  pub narrow : D → F
  pub zero_d : D
  pub one_d : D
  pub add_d : D → D → D
  -- `(double)a*b`
  pub mul_d : F → F → D
  -- division by `sqrtf((double)HD)`
  pub over_sqrt_hd : D → D
  pub not_positive : D → Bool
  -- `1.0f / (float)sum`
  pub reciprocal : D → F
  -- `1.0f/sqrtf((float)(ss/n)+EPS)`
  pub inverse_root : D → ℕ → F
