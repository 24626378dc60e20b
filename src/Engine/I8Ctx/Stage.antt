-- ===== src/Engine/I8Ctx/Stage.antt =====
-- The operands as the kernel sees them.
use native.Mathlib.Decide.{dec_lt}
use npu_gpu_cpu.Prelude.{
  ◌⊎◌, ◌%◌, ℕ, ◌+◌, ◌*◌, ◌≤◌, ◌<◌, ◌≡◌, ◌≢◌, sym, ap, ◌∙◌, ℤ, pos, Array, for_to_hit, for_to_miss,
  ltb, ◌&&◌, if◌then◌else◌, inl, inr, arith,
}
use npu_gpu_cpu.Prelude.Index.{rows_apart, mod_index, index-lt}
use npu_gpu_cpu.Engine.Floats.{Floats}
use npu_gpu_cpu.Engine.I8Ctx.{quantise, stage_a, read_c}

column_apart : (w a b a' b' : ℕ) → b < w → b' < w → b ≢ b' → a * w + b ≢ a' * w + b'
column_apart w a b a' b' hb hb' ne e =
    ne (sym (mod_index a b w hb) ∙ ap (λ x. x % w) e ∙ mod_index a' b' w hb')

module _ {F D : Type 0} (f : Floats F D) (md kd : ℕ) (a : Array F) (am ak : ℕ) (ascale : F)
    (a_m : Array ℤ) (m k : ℕ) (hak : ak ≤ kd) (hm : m < md) (hk : k < kd) where
  inside :
      m < am
      → k < ak
      → stage_a f md kd a am ak ascale a_m (m * kd + k)
        ≡ quantise f (f.div f.one ascale) (a (m * ak + k))
  unfolding stage_a
  inside lm lk =
      for_to_hit am m _ _ _ _ lm
        (λ t. for_to_hit ak k _ t _ _ lk (λ u. ground arith) (λ j u p ne. ground arith))
        (λ i t p ne.
          for_to_miss ak _ t _
            (λ j u p'. ground (arith, rows_apart kd m k i j hk (omega arith) ne)))

  outside : (am ≤ m) ⊎ (ak ≤ k) → stage_a f md kd a am ak ascale a_m (m * kd + k) ≡ pos 0
  unfolding stage_a
  outside (inl le) =
      for_to_miss am _ _ _ (λ i t p.
        for_to_miss ak _ t _
          (λ j u p'. ground (arith, rows_apart kd m k i j hk (omega arith) (omega arith))))
      ∙ ground (arith, index-lt m k md kd hm hk)
  outside (inr le) =
      for_to_miss am _ _ _ (λ i t p.
        for_to_miss ak _ t _
          (λ j u p'. ground (arith, column_apart kd m k i j hk (omega arith) (omega arith))))
      ∙ ground (arith, index-lt m k md kd hm hk)

  -- If a row of the matrix fits a row of the md × kd buffer, then the buffer holds the am × ak matrix,
  -- quantised, in its upper left, and 0 elsewhere, whatever it held before.
  pub stage_a_cells :
      stage_a f md kd a am ak ascale a_m (m * kd + k)
      ≡ (if ltb m am && ltb k ak then quantise f (f.div f.one ascale) (a (m * ak + k)) else pos 0)
  stage_a_cells = elim (dec_lt m am) [
    | no h ↦ ground (arith, outside (inl (omega arith)))
    | yes h ↦ elim (dec_lt k ak) [
      | no g ↦ ground (arith, outside (inr (omega arith)))
      | yes g ↦ ground (arith, inside h g)
    ]
  ]

module _ {F D : Type 0} (f : Floats F D) where
  -- Every element of the result is the kernel's, scaled, and 0 where that is not finite.
  pub read_c_cells :
      (nd : ℕ) (c_m : Array ℤ) (am an : ℕ) (ascale bscale : F) (c : Array F) (m n : ℕ)
      → m < am
      → n < an
      → let val = f.mul (f.of_int (c_m (m * nd + n))) (f.mul ascale bscale) in
        read_c f nd c_m am an ascale bscale c (m * an + n)
        ≡ (if f.isfinite val then val else f.zero)
  unfolding read_c
  read_c_cells nd c_m am an ascale bscale c m n hm hn =
      for_to_hit am m _ c _ _ hm
        (λ t. for_to_hit an n _ t _ _ hn (λ u. ground arith) (λ j u p ne. ground arith))
        (λ i t p ne.
          for_to_miss an _ t _ (λ j u p'. ground (arith, rows_apart an m n i j hn p' ne)))

module _ {F D : Type 0} (f : Floats F D) where
  -- A matrix that fits the md × kd buffer is staged inside of it.
  pub stage_a-beyond :
      (md kd : ℕ) (a : Array F) (am ak : ℕ) (ascale : F) (a_m : Array ℤ) (q : ℕ)
      → am ≤ md
      → ak ≤ kd
      → md * kd ≤ q
      → stage_a f md kd a am ak ascale a_m q ≡ a_m q
  unfolding stage_a
  stage_a-beyond md kd a am ak ascale a_m q hm hk hq =
      for_to_miss am _ _ q (λ m t pm.
        for_to_miss ak _ t q
          (λ k u pk. ground (arith, index-lt m k md kd (omega arith) (omega arith))))
      ∙ ground arith
