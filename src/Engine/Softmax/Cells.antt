-- ===== src/Engine/Softmax/Cells.antt =====
-- `sm` against the softmax as it is defined.
use npu_gpu_cpu.Prelude.{
  ℕ, zero, suc, pos, ◌<◌, ◌≡◌, ap, ◌∙◌, Array, for_to, for_to_hit, for_to_apply, for_to_congr, ◌-◌,
  ◌+◌, ◌==◌, Bool, true, false, if◌then◌else◌, arith,
}
use mathlib.Core.Path.{ap₂}
use npu_gpu_cpu.Engine.Floats.{Floats}
use npu_gpu_cpu.Engine.MapSum.{map_sum, map_sum_cells, map_sum_total}
use npu_gpu_cpu.Engine.Sample.{largest}
use npu_gpu_cpu.Engine.Softmax.{clamp_80, sm_exponentials, sm_scale, sm}
use npu_gpu_cpu.Engine.Vector.{cn}
use npu_gpu_cpu.Engine.Vector.Elements.{cn_cells}

module _ {F D : Type 0} (f : Floats F D) (x : Array F) where
  -- What is not finite counts as 0.
  abbrev pub cleaned : Array F
  cleaned i = if f.isfinite (x i) then x i else f.zero

  -- The largest of the first m + 1 cleaned elements.
  abbrev pub largest_cleaned : ℕ → F
  largest_cleaned m =
      for_to m (λ i mx. if f.greater (cleaned (i + 1)) mx then cleaned (i + 1) else mx) (cleaned 0)

  abbrev pub exponential : ℕ → ℕ → F
  exponential n i = f.expf (clamp_80 f (f.sub (cleaned i) (largest_cleaned (n - 1))))

  abbrev pub exponential_sum : ℕ → D
  exponential_sum n = for_to n (λ i s. f.add_d s (f.widen (exponential n i))) f.zero_d

  largest-cn : (n m : ℕ) → m < n → largest f (cn f x n) m ≡ largest_cleaned m
  unfolding largest
  largest-cn n m lt =
      ap (for_to m _) (cn_cells f x n 0 (omega arith))
      ∙ for_to_congr m (cleaned 0) (λ i mx p.
        ap (λ v. if f.greater v mx then v else mx) (cn_cells f x n (i + 1) (omega arith)))

  -- With the largest element that `sm` finds.
  module _ (m : ℕ) where
    found : F
    found = largest f (cn f x (suc m)) m

    exponential-cn :
        (i : ℕ)
        → i < suc m
        → f.expf (clamp_80 f (f.sub (cn f x (suc m) i) found)) ≡ exponential (suc m) i
    unfolding found
    exponential-cn i lt =
        ap₂ (λ v mx. f.expf (clamp_80 f (f.sub v mx))) (cn_cells f x (suc m) i lt)
          (largest-cn (suc m) m (omega arith) ∙ ap largest_cleaned {y = suc m - 1} (omega arith))

    sm_exponentials_cells :
        (i : ℕ)
        → i < suc m
        → (sm_exponentials f found (suc m) (cn f x (suc m))).0 i ≡ exponential (suc m) i
    unfolding sm_exponentials map_sum
    sm_exponentials_cells i lt =
        map_sum_cells (λ v. f.expf (clamp_80 f (f.sub v found))) (λ s e. f.add_d s (f.widen e))
          (cn f x (suc m)) f.zero_d (suc m) i lt
        ∙ exponential-cn i lt

    sm_exponentials_total :
        (sm_exponentials f found (suc m) (cn f x (suc m))).1 ≡ exponential_sum (suc m)
    unfolding sm_exponentials map_sum
    sm_exponentials_total =
        map_sum_total (λ v. f.expf (clamp_80 f (f.sub v found))) (λ s e. f.add_d s (f.widen e))
          (cn f x (suc m)) f.zero_d (suc m)
        ∙ for_to_congr (suc m) f.zero_d
            (λ i s lt. ap (λ e. f.add_d s (f.widen e)) (exponential-cn i lt))

sm_scale_cells :
    {F D : Type 0} (f : Floats F D) (n i : ℕ) (ex : Array F × D)
    → i < n
    → sm_scale f n ex i ≡ (
        if f.not_positive ex.1
        then f.div f.one (f.of_int (pos n))
        else f.mul (ex.0 i) (f.reciprocal ex.1))
unfolding sm_scale
sm_scale_cells f n i ex lt = by_sign (f.not_positive ex.1)
  where
    by_sign :
        (b : Bool)
        → (if b
              then for_to n (λ i t j. if j == i then f.div f.one (f.of_int (pos n)) else t j) ex.0
              else for_to n (λ i t j. if j == i then f.mul (t i) (f.reciprocal ex.1) else t j) ex.0)
            i
          ≡ (if b then f.div f.one (f.of_int (pos n)) else f.mul (ex.0 i) (f.reciprocal ex.1))
    by_sign true = for_to_hit n i _ ex.0 i _ lt (λ t. ground arith) (λ j t p ne. ground arith)
    by_sign false =
        for_to_apply n i _ ex.0 i (λ v. f.mul v (f.reciprocal ex.1)) lt (λ t. ground arith)
          (λ j t p ne. ground arith)

-- Each of the first n elements becomes the exponential of its distance to the largest one, held
-- between -80 and 80, times the reciprocal of the sum of these exponentials, or 1/n where that sum is not
-- positive; an element that is not finite counts as 0.
pub sm_cells :
    {F D : Type 0} (f : Floats F D) (x : Array F) (n i : ℕ)
    → i < n
    → sm f x n i ≡ (
        if f.not_positive (exponential_sum f x n)
        then f.div f.one (f.of_int (pos n))
        else f.mul (exponential f x n i) (f.reciprocal (exponential_sum f x n)))
unfolding sm found
sm_cells f x zero i lt = absurd (omega arith)
sm_cells f x (suc m) i lt =
    sm_scale_cells f (suc m) i _ lt
    ∙ ap₂
        (λ e s.
          if f.not_positive s
          then f.div f.one (f.of_int (pos (suc m)))
          else f.mul e (f.reciprocal s))
        (sm_exponentials_cells f x m i lt) (sm_exponentials_total f x m)
