-- ===== src/Engine/I8Ctx/Checked.antt =====
-- The two halves of `I8Ctx::go` with every access checked: `none` is an access outside of A, C, or the
-- buffers Am and Cm of the context.
use npu_gpu_cpu.Prelude.{
  ℕ, ◌+◌, ◌*◌, ◌≤◌, ◌<◌, ◌≡◌, ℤ, pos, Array, write, ltb, Option, some, if◌then◌else◌, arith,
}
use npu_gpu_cpu.Prelude.Index.{index-lt}
use npu_gpu_cpu.Prelude.Checked.{◌>>=◌, read_in, write_in, for_option, for_option-some}
use npu_gpu_cpu.Engine.Floats.{Floats}
use npu_gpu_cpu.Engine.I8Ctx.{quantise, stage_a, read_c}

module _ {F D : Type 0} (f : Floats F D) where
  -- A has `from` elements, and Am MD * KD.
  unfoldable pub stage_checked : ℕ → ℕ → ℕ → Array F → ℕ → ℕ → F → Array ℤ → Option (Array ℤ)
  stage_checked from md kd a am ak ascale a_m =
      for_option am
        (λ m. for_option ak λ k b. do
          v ← read_in from a (m * ak + k)
          write_in (md * kd) (m * kd + k) (quantise f (f.div f.one ascale) v) b)
        (λ i. if ltb i (md * kd) then pos 0 else a_m i)

  -- Cm has MD * ND elements, and C `into`.
  unfoldable pub read_c_checked : ℕ → ℕ → ℕ → Array ℤ → ℕ → ℕ → F → F → Array F → Option (Array F)
  read_c_checked into md nd c_m am an ascale bscale c =
      for_option am
        (λ m. for_option an λ n c. do
          x ← read_in (md * nd) c_m (m * nd + n)
          let val = f.mul (f.of_int x) (f.mul ascale bscale)
          write_in into (m * an + n) (if f.isfinite val then val else f.zero) c)
        c

  -- The places that the loops over am rows of ak elements come to.
  place_inside :
      (am ak from md kd m k : ℕ)
      → am * ak ≤ from
      → am ≤ md
      → ak ≤ kd
      → m < am
      → k < ak
      → (m * ak + k < from) × (m * kd + k < md * kd)
  place_inside am ak from md kd m k h1 h2 h3 lm lk =
      (omega (arith, index-lt m k am ak lm lk), index-lt m k md kd (omega arith) (omega arith))

  pub stage_checked_lem :
      (from md kd : ℕ) (a : Array F) (am ak : ℕ) (ascale : F) (a_m : Array ℤ)
      → am * ak ≤ from
      → am ≤ md
      → ak ≤ kd
      → stage_checked from md kd a am ak ascale a_m ≡ some (stage_a f md kd a am ak ascale a_m)
  unfolding stage_checked stage_a
  stage_checked_lem from md kd a am ak ascale a_m h1 h2 h3 =
      for_option-some am _ _ (λ i. if ltb i (md * kd) then pos 0 else a_m i)
        (λ m t lm.
          for_option-some ak _
            (λ k. write (m * kd + k) (quantise f (f.div f.one ascale) (a (m * ak + k)))) t
            (λ k b lk.
              let (l, l') = place_inside am ak from md kd m k h1 h2 h3 lm lk in
              ground (arith, l, l')))

  pub read_c_checked_lem :
      (into md nd : ℕ) (c_m : Array ℤ) (am an : ℕ) (ascale bscale : F) (c : Array F)
      → am * an ≤ into
      → am ≤ md
      → an ≤ nd
      → read_c_checked into md nd c_m am an ascale bscale c
        ≡ some (read_c f nd c_m am an ascale bscale c)
  unfolding read_c_checked read_c
  read_c_checked_lem into md nd c_m am an ascale bscale c h1 h2 h3 =
      for_option-some am _ _ c (λ m t lm. for_option-some an _ _ t (λ n b ln.
        let (l, l') = place_inside am an into md nd m n h1 h2 h3 lm ln in ground (arith, l, l')))
