-- ===== src/Engine/Layer/Checked.antt =====
-- `layer` with every access to a vector and to a buffer of the NPU checked against its size: `h`, `sb`, `oo`
-- and `dwo` have 1024 elements, `qo` 4096, `ko` and `vo` 1024, `at` 2048, `gt` 6144 and `su` 3072; the
-- norm weights have 1024. `none` is an access outside.
pub mod Inside
use npu_gpu_cpu.Prelude.{ℕ, ◌+◌, ◌*◌, ℤ, pos, Array, Option, some, if◌then◌else◌}
use npu_gpu_cpu.Prelude.Checked.{◌>>=◌, read_in, write_in, for_option}
use npu_gpu_cpu.Engine.Floats.{Floats}
use npu_gpu_cpu.Engine.CpuAttn.Checked.{attend_windows_checked}
use npu_gpu_cpu.Engine.I8Ctx.Checked.{stage_checked, read_c_checked}
use npu_gpu_cpu.Engine.Heads.{Heads}
use npu_gpu_cpu.Engine.Heads.Checked.{heads_checked}
use npu_gpu_cpu.Engine.Vector.Checked.{cn_checked, rn_c_checked, copy_checked}
use npu_gpu_cpu.Engine.Layer.{LayerData, KvCache}

module _ {F D : Type 0} (f : Floats F D) where
  module _ (blank : Array F) where
    unfoldable pub go_checked :
        ℕ → ℕ → ℕ → ℕ → (Array ℤ → Array ℤ) → Array F → ℕ → F → ℕ → Option (Array F)
    go_checked from into kd nd run a ak bscale an = do
      let ascale = f.div f.five f.f127
      staged ← stage_checked f from 128 kd a 1 ak ascale (λ _. pos 0)
      read_c_checked f into 128 nd (run staged) 1 an ascale bscale blank

    unfoldable pub residual_checked : Array F → Array F → Option (Array F)
    residual_checked sb oo =
        for_option 1024
          (λ i h. do x ← read_in 1024 sb i; y ← read_in 1024 oo i; write_in 1024 i (f.add x y) h)
          blank

    unfoldable pub gated_checked : Array F → Option (Array F)
    gated_checked gt =
        for_option 3072
          (λ i su. do
            x ← read_in 6144 gt i
            y ← read_in 6144 gt (3072 + i)
            let gv = if f.isfinite x then x else f.zero
            write_in 3072 i (f.mul (f.div gv (f.add f.one (f.expf (f.neg gv)))) y) su)
          blank

    unfoldable pub feed_forward_checked : LayerData F → Array F → Option (Array F)
    unfolding go_checked residual_checked gated_checked
    feed_forward_checked d h = do
      sb ← copy_checked 1024 1024 0 h 0 1024 blank
      x ← rn_c_checked f 1024 1024 h d.pa_n 1024
      g ← go_checked 1024 6144 1024 6144 d.run_g x 1024 d.g_ 6144
      gt ← cn_checked f 6144 g 6144
      su ← gated_checked gt
      w ← go_checked 3072 1024 3072 1024 d.run_d su 3072 d.d_ 1024
      dwo ← cn_checked f 1024 w 1024
      residual_checked sb dwo

    -- `sb` has been copied before `h` was normalised.
    unfoldable pub add_attention_checked : LayerData F → Array F → Array F → Option (Array F)
    unfolding go_checked residual_checked
    add_attention_checked d sb at = do
      o ← go_checked 2048 1024 2048 1024 d.run_o at 2048 d.o_ 1024
      oo ← cn_checked f 1024 o 1024
      residual_checked sb oo

    module _ (rc rs : Array F) (d : LayerData F) (sp : ℕ) where
      unfoldable pub project_checked : Array F → KvCache F → Option (Heads F)
      unfolding go_checked
      project_checked h kv = do
        x ← rn_c_checked f 1024 1024 h d.in_n 1024
        q ← go_checked 1024 4096 1024 4096 d.run_q x 1024 d.qk 4096
        qo ← cn_checked f 4096 q 4096
        ko ← copy_checked 4096 1024 0 qo 2048 1024 blank
        vo ← copy_checked 4096 1024 0 qo 3072 1024 blank
        heads_checked f rc rs sp d.qn_w d.kn_w vo (record { qo = qo; ko = ko; k = kv.k; v = kv.v })

      unfoldable pub layer_checked : Array F → KvCache F → Option (Array F × KvCache F)
      unfolding project_checked add_attention_checked feed_forward_checked
      layer_checked h kv = do
        sb ← copy_checked 1024 1024 0 h 0 1024 blank
        c ← project_checked h kv
        at ← attend_windows_checked f c.qo c.k c.v sp blank blank
        h' ← add_attention_checked d sb at
        h'' ← feed_forward_checked d h'
        some (h'', record { k = c.k; v = c.v; n = sp + 1 })
