-- ===== src/Engine/Softmax.antt =====
-- `sm`: the softmax of the first n elements of a vector, in place. `float`, `double` and their
-- operations are a parameter. Nothing in the engine calls it.
pub mod Cells
use npu_gpu_cpu.Engine.Floats.{Floats}
use npu_gpu_cpu.Engine.Sample.{largest}
use npu_gpu_cpu.Engine.Vector.{cn}
use npu_gpu_cpu.Prelude.{ℕ, zero, suc, pos, Array, write, for_to, if◌then◌else◌}

module _ {F D : Type 0} (f : Floats F D) where
  -- `if(d>80)d=80;else if(d<-80)d=-80;`
  abbrev pub clamp_80 : F → F
  clamp_80 d = if f.greater d f.f80 then f.f80 else if f.greater f.minus_80 d then f.minus_80 else d

  -- The loop that makes the exponentials and their sum.
  pub sm_exponentials : F → ℕ → Array F → Array F × D
  sm_exponentials mx n sc =
      for_to n
        (λ i acc.
          let e = f.expf (clamp_80 (f.sub (acc.0 i) mx)) in
          (write i e acc.0, f.add_d acc.1 (f.widen e)))
        (sc, f.zero_d)

  -- What follows it: `s` is their sum.
  pub sm_scale : ℕ → Array F × D → Array F
  sm_scale n ex =
      if f.not_positive ex.1
      then for_to n (λ i. write i (f.div f.one (f.of_int (pos n)))) ex.0
      else for_to n (λ i sc. write i (f.mul (sc i) (f.reciprocal ex.1)) sc) ex.0

  -- `if(n<=0)return;` first: a negative n is as 0.
  unfoldable pub sm : Array F → ℕ → Array F
  unfolding sm_exponentials sm_scale
  sm sc zero = sc
  sm sc (suc m) =
      let y = cn f sc (suc m) in sm_scale (suc m) (sm_exponentials (largest f y m) (suc m) y)
