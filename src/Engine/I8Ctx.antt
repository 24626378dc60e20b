-- ===== src/Engine/I8Ctx.antt =====
-- `I8Ctx::packB` and `I8Ctx::go`: 8-bit quantisation, and the staging of a GEMM's operands. `float`
-- and its operations are a parameter; an `int` is an integer. The matrix product itself is done by
-- the NPU kernel between the two halves of `go`.
pub mod Quantise
pub mod Stage
pub mod Checked
pub mod Bound
use npu_gpu_cpu.Engine.Floats.{Floats}
use npu_gpu_cpu.Prelude.{
  ℕ, ◌+◌, ◌*◌, ℤ, pos, negsuc, ltb_ℤ, Array, write, for_to, Bool, ◌&&◌, ltb, if◌then◌else◌,
}

-- `if (x > 127) x = 127; else if (x < -127) x = -127;`
unfoldable pub clamp : ℤ → ℤ
clamp x = if ltb_ℤ (pos 127) x then pos 127 else if ltb_ℤ x (negsuc 126) then negsuc 126 else x

module _ {F D : Type 0} (f : Floats F D) where
  -- One element: `if (!isfinite(v)) v = 0;`, scaled, rounded, clamped.
  unfoldable pub quantise : F → F → ℤ
  unfolding clamp
  quantise scale v = clamp (f.round_to_int (f.mul (if f.isfinite v then v else f.zero) scale))

  -- The largest finite magnitude among the first n elements.
  unfoldable pub abs_max : Array F → ℕ → F
  abs_max w n =
      for_to n
        (λ i amax. let a = f.fabsf (w i) in if f.isfinite a && f.greater a amax then a else amax)
        f.zero

  abbrev pub usable : F → F
  usable amax = if f.greater f.tiny amax then f.one else amax

  -- The scale that is handed back, and the layer's B buffer.
  pub pack_b : Array F → ℕ → ℕ → Array ℤ → F × Array ℤ
  unfolding abs_max quantise
  pack_b w k n b_m =
      let amax = usable (abs_max w (k * n)) in
      (f.div amax f.f127, for_to (k * n) (λ i. write i (quantise (f.div f.f127 amax) (w i))) b_m)

  -- The first half of `go`: A, cleared and filled with the quantised rows.
  pub stage_a : ℕ → ℕ → Array F → ℕ → ℕ → F → Array ℤ → Array ℤ
  unfolding quantise
  stage_a md kd a am ak ascale a_m =
      let ais = f.div f.one ascale in
      for_to am (λ m. for_to ak λ k. write (m * kd + k) (quantise ais (a (m * ak + k))))
        (λ i. if ltb i (md * kd) then pos 0 else a_m i)

  -- The second half: the kernel's C, scaled back, without what is not finite.
  pub read_c : ℕ → Array ℤ → ℕ → ℕ → F → F → Array F → Array F
  read_c nd c_m am an ascale bscale c =
      let cs = f.mul ascale bscale in
      for_to am
        (λ m. for_to an λ n.
          let val = f.mul (f.of_int (c_m (m * nd + n))) cs in
          write (m * an + n) (if f.isfinite val then val else f.zero))
        c
