-- ===== src/Engine/Load/Checked.antt =====
-- The weights of one layer in `main`, joined and packed with every access checked. The B buffers have the
-- sizes of the contexts in `main`: 1024 * 4096 for QKV, 2048 * 1024 for O, 1024 * 6144 for gate and up, and
-- 3072 * 1024 for down. A matrix of r rows that `dequant_i8_to_float` gives is taken to have r * 1024
-- elements.
pub mod Inside
use npu_gpu_cpu.Prelude.{
  ℕ, ◌+◌, ◌*◌, ◌≤◌, ◌<◌, ◌≡◌, refl, ◌∙◌, ℤ, Array, Bool, true, false, ◌&&◌, Option, none, some, leb,
  if◌then◌else◌, arith,
}
use native.Mathlib.Decide.{dec_lt}
use npu_gpu_cpu.Prelude.Checked.{◌>>=◌, bind_some, bind_none}
use npu_gpu_cpu.Engine.Floats.{Floats}
use npu_gpu_cpu.Engine.Fuse.{fuse_qkv, fuse_gate_up}
use npu_gpu_cpu.Engine.Fuse.Checked.{
  fuse_qkv_checked, fuse_gate_up_checked, fuse_qkv_checked_lem, fuse_gate_up_checked_lem,
}
use npu_gpu_cpu.Engine.I8Ctx.{pack_b}
use npu_gpu_cpu.Engine.I8Ctx.Bound.{pack_b_checked, pack_b_inside, pack_b_overrun}
use npu_gpu_cpu.Engine.Layer.{LayerData}
use npu_gpu_cpu.Engine.Load.{
  Offsets, offsets, i8p, norm_weights, pack_qkv, pack_o, pack_gate_up, pack_down, Kernels,
  load_layer,
}

module _ {F D : Type 0} (f : Floats F D) (dequant : ℕ → ℕ → Array F × ℕ) (b_m : Array ℤ)
    (md : ℕ → ℕ) where
  -- The rows that the QKV, the O, the gate and up, and the down matrices have.
  abbrev pub qkv_rows : Offsets → ℕ
  qkv_rows lo =
      (dequant (i8p md lo.qp) 256).1
      + (dequant (i8p md lo.kp) 128).1
      + (dequant (i8p md lo.vp) 128).1

  abbrev pub o_rows : Offsets → ℕ
  o_rows lo = (dequant (i8p md lo.op) 256).1

  abbrev pub gate_up_rows : Offsets → ℕ
  gate_up_rows lo = (dequant (i8p md lo.gp) 384).1 + (dequant (i8p md lo.up) 384).1

  abbrev pub down_rows : Offsets → ℕ
  down_rows lo = (dequant (i8p md lo.dp) 384).1

  unfoldable pub pack_qkv_checked : Offsets → Option (F × Array ℤ)
  pack_qkv_checked lo =
      let (qw, qr) = dequant (i8p md lo.qp) 256 in
      let (kw, kr) = dequant (i8p md lo.kp) 128 in
      let (vw, vr) = dequant (i8p md lo.vp) 128 in
      fuse_qkv_checked 1024 qr kr vr qw kw vw (λ _. f.zero) >>= λ w.
      pack_b_checked f (1024 * (qr + kr + vr)) (1024 * 4096) w 1024 (qr + kr + vr) b_m

  unfoldable pub pack_o_checked : Offsets → Option (F × Array ℤ)
  pack_o_checked lo =
      let (ow, or) = dequant (i8p md lo.op) 256 in
      pack_b_checked f (or * 1024) (2048 * 1024) ow or 1024 b_m

  unfoldable pub pack_gate_up_checked : Offsets → Option (F × Array ℤ)
  pack_gate_up_checked lo =
      let (gw, gr) = dequant (i8p md lo.gp) 384 in
      let (uw, ur) = dequant (i8p md lo.up) 384 in
      fuse_gate_up_checked 1024 gr ur gw uw (λ _. f.zero) >>= λ w.
      pack_b_checked f (1024 * (gr + ur)) (1024 * 6144) w 1024 (gr + ur) b_m

  unfoldable pub pack_down_checked : Offsets → Option (F × Array ℤ)
  pack_down_checked lo =
      let (dw, dr) = dequant (i8p md lo.dp) 384 in
      pack_b_checked f (dr * 1024) (3072 * 1024) dw dr 1024 b_m

module _ {F D : Type 0} (f : Floats F D) (blank : Array F) (b_m : Array ℤ)
    (dequant : ℕ → ℕ → Array F × ℕ) where
  unfoldable pub load_layer_checked : Kernels → (ℕ → ℕ) → ℕ → ℕ → Option (LayerData F)
  load_layer_checked run md size l = do
    let lo = offsets md size l
    q ← pack_qkv_checked f dequant b_m md lo
    o ← pack_o_checked f dequant b_m md lo
    g ← pack_gate_up_checked f dequant b_m md lo
    d ← pack_down_checked f dequant b_m md lo
    some (record {
      in_n = norm_weights f blank md lo.in_off 1024;
      pa_n = norm_weights f blank md lo.pa_off 1024;
      qn_w = norm_weights f blank md lo.qn_off 128;
      kn_w = norm_weights f blank md lo.kn_off 128;
      qk = q.0;
      o_ = o.0;
      g_ = g.0;
      d_ = d.0;
      run_q = λ a. run.cq a q.1;
      run_o = λ a. run.co a o.1;
      run_g = λ a. run.cg a g.1;
      run_d = λ a. run.cd a d.1;
    })

  -- The four buffers are large enough.
  abbrev pub fits : (ℕ → ℕ) → ℕ → ℕ → Bool
  fits md size l =
      let lo = offsets md size l in
      leb (qkv_rows f dequant b_m md lo) 4096
      && (leb (o_rows f dequant b_m md lo) 2048
          && (leb (gate_up_rows f dequant b_m md lo) 6144
              && leb (down_rows f dequant b_m md lo) 3072))
