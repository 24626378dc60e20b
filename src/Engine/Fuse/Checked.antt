-- ===== src/Engine/Fuse/Checked.antt =====
-- The joining of the weights with every access checked: a matrix of r rows, as `dequant_i8_to_float` gives it,
-- has `rows` * r elements.
use npu_gpu_cpu.Prelude.{ℕ, ◌+◌, ◌*◌, ◌≡◌, Array, Option, some, arith}
use npu_gpu_cpu.Prelude.Index.{row_end}
use npu_gpu_cpu.Prelude.Checked.{◌>>=◌, for_option, for_option-some, bind_some}
use npu_gpu_cpu.Engine.Fuse.{fuse_qkv, fuse_gate_up}
use npu_gpu_cpu.Engine.Vector.Checked.{copy_checked, copy_checked_lem}

module _ {F : Type 0} (rows : ℕ) where
  unfoldable pub fuse_qkv_checked :
      ℕ → ℕ → ℕ → Array F → Array F → Array F → Array F → Option (Array F)
  fuse_qkv_checked qr kr vr qw kw vw =
      let t = qr + kr + vr in
      for_option rows λ k w. do
        w1 ← copy_checked (rows * qr) (rows * t) (k * t) qw (k * qr) qr w
        w2 ← copy_checked (rows * kr) (rows * t) (k * t + qr) kw (k * kr) kr w1
        copy_checked (rows * vr) (rows * t) (k * t + qr + kr) vw (k * vr) vr w2

  unfoldable pub fuse_gate_up_checked : ℕ → ℕ → Array F → Array F → Array F → Option (Array F)
  fuse_gate_up_checked gr ur gw uw =
      let t = gr + ur in
      for_option rows λ k w. do
        w1 ← copy_checked (rows * gr) (rows * t) (k * t) gw (k * gr) gr w
        copy_checked (rows * ur) (rows * t) (k * t + gr) uw (k * ur) ur w1

  pub fuse_qkv_checked_lem :
      (qr kr vr : ℕ) (qw kw vw w : Array F)
      → fuse_qkv_checked qr kr vr qw kw vw w ≡ some (fuse_qkv rows qr kr vr qw kw vw w)
  unfolding fuse_qkv_checked fuse_qkv
  fuse_qkv_checked_lem qr kr vr qw kw vw w = for_option-some rows _ _ w (λ k y lt.
      let row = row_end k rows (qr + kr + vr) lt in
      bind_some _
        (copy_checked_lem (rows * qr) _ _ qw (k * qr) qr y (row_end k rows qr lt)
          (omega (arith, row)))
        (bind_some _
          (copy_checked_lem (rows * kr) _ _ kw (k * kr) kr _ (row_end k rows kr lt)
            (omega (arith, row)))
          (copy_checked_lem (rows * vr) _ _ vw (k * vr) vr _ (row_end k rows vr lt)
            (omega (arith, row)))))

  pub fuse_gate_up_checked_lem :
      (gr ur : ℕ) (gw uw w : Array F)
      → fuse_gate_up_checked gr ur gw uw w ≡ some (fuse_gate_up rows gr ur gw uw w)
  unfolding fuse_gate_up_checked fuse_gate_up
  fuse_gate_up_checked_lem gr ur gw uw w = for_option-some rows _ _ w (λ k y lt.
      let row = row_end k rows (gr + ur) lt in
      bind_some _
        (copy_checked_lem (rows * gr) _ _ gw (k * gr) gr y (row_end k rows gr lt)
          (omega (arith, row)))
        (copy_checked_lem (rows * ur) _ _ uw (k * ur) ur _ (row_end k rows ur lt)
          (omega (arith, row))))
