-- ===== src/Engine/Layer/Checked/Inside.antt =====
-- Below position 32 every access of `layer` is inside of its vector, and from there on one is not.
use npu_gpu_cpu.Prelude.{
  ℕ, ◌≤◌, ◌<◌, ◌≡◌, refl, ap, ◌∙◌, true, false, ℤ, pos, Array, none, some, ltb, if◌then◌else◌,
  arith,
}
use native.Mathlib.Decide.{dec_lt}
use npu_gpu_cpu.Prelude.Checked.{for_option-some, bind_some, bind_none, bind_failed}
use npu_gpu_cpu.Engine.Floats.{Floats}
use npu_gpu_cpu.Engine.Fuse.{copy}
use npu_gpu_cpu.Engine.CpuAttn.{attend_windows}
use npu_gpu_cpu.Engine.CpuAttn.Checked.{attend_windows_checked}
use npu_gpu_cpu.Engine.CpuAttn.Checked.Inside.{attend_windows_checked_lem}
use npu_gpu_cpu.Engine.I8Ctx.{stage_a}
use npu_gpu_cpu.Engine.I8Ctx.Checked.{stage_checked_lem, read_c_checked_lem}
use npu_gpu_cpu.Engine.Heads.{Heads}
use npu_gpu_cpu.Engine.Heads.Checked.Inside.{heads_checked_lem}
use npu_gpu_cpu.Engine.Vector.Checked.{
  copy_checked, cn_checked_lem, rn_c_checked_lem, copy_checked_lem,
}
use npu_gpu_cpu.Engine.Layer.{
  LayerData, KvCache, go, residual, gated, feed_forward, add_attention, project, layer,
}
use npu_gpu_cpu.Engine.Layer.Checked.{
  go_checked, residual_checked, gated_checked, feed_forward_checked, add_attention_checked,
  project_checked, layer_checked,
}

module _ {F D : Type 0} (f : Floats F D) (blank : Array F) where
  go_checked_lem :
      (from into kd nd : ℕ) (run : Array ℤ → Array ℤ) (a : Array F) (ak : ℕ) (bscale : F) (an : ℕ)
      → ak ≤ from
      → ak ≤ kd
      → an ≤ into
      → an ≤ nd
      → go_checked f blank from into kd nd run a ak bscale an
        ≡ some (go f blank kd nd run a ak bscale an)
  unfolding go_checked go
  go_checked_lem from into kd nd run a ak bscale an h1 h2 h3 h4 =
      let ascale = f.div f.five f.f127 in
      bind_some _
        (stage_checked_lem f from 128 kd a 1 ak ascale (λ _. pos 0) (omega arith) (omega arith) h2)
        (read_c_checked_lem f into 128 nd (run (stage_a f 128 kd a 1 ak ascale (λ _. pos 0))) 1 an
          ascale bscale blank (omega arith) (omega arith) h4)

  residual_checked_lem :
      (sb oo : Array F) → residual_checked f blank sb oo ≡ some (residual f blank sb oo)
  unfolding residual_checked residual
  residual_checked_lem sb oo = for_option-some 1024 _ _ blank (λ i t lt. ground arith)

  gated_checked_lem : (gt : Array F) → gated_checked f blank gt ≡ some (gated f blank gt)
  unfolding gated_checked gated
  gated_checked_lem gt = for_option-some 3072 _ _ blank (λ i t lt. ground arith)

  feed_forward_checked_lem :
      (d : LayerData F) (h : Array F)
      → feed_forward_checked f blank d h ≡ some (feed_forward f blank d h)
  unfolding feed_forward_checked feed_forward
  feed_forward_checked_lem d h =
      bind_some _ (copy_checked_lem 1024 1024 0 h 0 1024 blank (omega arith) (omega arith)) (
        bind_some _ (rn_c_checked_lem f 1024 1024 h d.pa_n 1024 (omega arith) (omega arith)) (
          bind_some _
            (go_checked_lem 1024 6144 1024 6144 d.run_g _ 1024 d.g_ 6144 (omega arith) (omega arith)
              (omega arith) (omega arith))
            (bind_some _ (cn_checked_lem f 6144 _ 6144 (omega arith)) (
              bind_some _ (gated_checked_lem _) (
                bind_some _
                  (go_checked_lem 3072 1024 3072 1024 d.run_d _ 3072 d.d_ 1024 (omega arith)
                    (omega arith) (omega arith) (omega arith))
                  (bind_some _ (cn_checked_lem f 1024 _ 1024 (omega arith))
                    (residual_checked_lem _ _)))))))

  add_attention_checked_lem :
      (d : LayerData F) (h at : Array F)
      → add_attention_checked f blank d (copy 0 h 0 1024 blank) at
        ≡ some (add_attention f blank d h at)
  unfolding add_attention_checked add_attention
  add_attention_checked_lem d h at =
      bind_some _
        (go_checked_lem 2048 1024 2048 1024 d.run_o at 2048 d.o_ 1024 (omega arith) (omega arith)
          (omega arith) (omega arith))
        (bind_some _ (cn_checked_lem f 1024 _ 1024 (omega arith)) (residual_checked_lem _ _))

  module _ (rc rs : Array F) (d : LayerData F) (sp : ℕ) where
    project_checked_lem :
        (h : Array F) (kv : KvCache F)
        → sp < 4096
        → project_checked f blank rc rs d sp h kv ≡ some (project f blank rc rs d sp h kv)
    unfolding project_checked project
    project_checked_lem h kv lt =
        bind_some _ (rn_c_checked_lem f 1024 1024 h d.in_n 1024 (omega arith) (omega arith)) (
          bind_some _
            (go_checked_lem 1024 4096 1024 4096 d.run_q _ 1024 d.qk 4096 (omega arith) (omega arith)
              (omega arith) (omega arith))
            (bind_some _ (cn_checked_lem f 4096 _ 4096 (omega arith)) (
              bind_some _
                (copy_checked_lem 4096 1024 0 _ 2048 1024 blank (omega arith) (omega arith))
                (bind_some _
                  (copy_checked_lem 4096 1024 0 _ 3072 1024 blank (omega arith) (omega arith))
                  (heads_checked_lem f rc rs sp d.qn_w d.kn_w _ _ lt)))))

    module _ (h : Array F) (kv : KvCache F) where
      pub layer_inside :
          sp < 32 → layer_checked f blank rc rs d sp h kv ≡ some (layer f blank rc rs d sp h kv)
      unfolding layer_checked layer
      layer_inside lt =
          let c = project f blank rc rs d sp h kv in
          bind_some _ (copy_checked_lem 1024 1024 0 h 0 1024 blank (omega arith) (omega arith)) (
            bind_some _ (project_checked_lem h kv (omega arith)) (
              bind_some _
                (attend_windows_checked_lem f c.qo c.k c.v sp blank blank
                  ∙ ap
                      (λ b. if b then some (attend_windows f c.qo c.k c.v sp blank blank) else none)
                      {x = ltb sp 32} {y = true} (ground arith))
                (bind_some _ (add_attention_checked_lem d h _)
                  (bind_some _ (feed_forward_checked_lem d _) refl))))

      attend_overrun :
          (c : Heads F) → 32 ≤ sp → attend_windows_checked f c.qo c.k c.v sp blank blank ≡ none
      attend_overrun c le =
          attend_windows_checked_lem f c.qo c.k c.v sp blank blank
          ∙ ap (λ b. if b then some (attend_windows f c.qo c.k c.v sp blank blank) else none)
              {x = ltb sp 32} {y = false} (ground arith)

      pub layer_overrun : 32 ≤ sp → layer_checked f blank rc rs d sp h kv ≡ none
      unfolding layer_checked
      layer_overrun le = bind_none (copy_checked 1024 1024 0 h 0 1024 blank) _ (λ sb.
          bind_none (project_checked f blank rc rs d sp h kv) _
            (λ c. bind_failed _ (attend_overrun c le)))

      -- At the positions 0 to 31, and at no other, every access that `layer` makes to a vector, to a cache or
      -- to a buffer of the NPU is inside of it; there it is the layer without the checks.
      pub layer_checked_lem :
          layer_checked f blank rc rs d sp h kv
          ≡ (if ltb sp 32 then some (layer f blank rc rs d sp h kv) else none)
      layer_checked_lem = elim (dec_lt sp 32) [
        | yes lt ↦ layer_inside lt ∙ ground arith
        | no ge ↦ layer_overrun (omega arith) ∙ ground arith
      ]
