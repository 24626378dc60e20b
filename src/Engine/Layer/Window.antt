-- ===== src/Engine/Layer/Window.antt =====
-- Which part of the caches a layer's result rests on.
use npu_gpu_cpu.Prelude.{ℕ, ◌≡◌, refl, ap, ◌∙◌, Array}
use npu_gpu_cpu.Engine.Floats.{Floats}
use npu_gpu_cpu.Engine.CpuAttn.{attend_windows}
use npu_gpu_cpu.Engine.CpuAttn.Window.{attend_windows_forgets}
use npu_gpu_cpu.Engine.Heads.Window.{AgreeFrom, AlikeFrom, heads-AlikeFrom}
use npu_gpu_cpu.Engine.Heads.{Heads}
use npu_gpu_cpu.Engine.Layer.{LayerData, KvCache, project, add_attention, feed_forward, layer}

abbrev pub CachesAgreeFrom : {F : Type 0} → ℕ → KvCache F → KvCache F → Type 0
CachesAgreeFrom sp c c' = AgreeFrom sp c.k c'.k × AgreeFrom sp c.v c'.v

module _ {F D : Type 0} (f : Floats F D) (blank rc rs : Array F) (d : LayerData F) (sp : ℕ) where
  project-AlikeFrom :
      (h : Array F) (kv kv' : KvCache F)
      → CachesAgreeFrom sp kv kv'
      → AlikeFrom sp (project f blank rc rs d sp h kv) (project f blank rc rs d sp h kv')
  unfolding project
  project-AlikeFrom h kv kv' (a, b) =
      heads-AlikeFrom f rc rs sp d.qn_w d.kn_w _
        (record { same_q = refl; same_k = refl; agree_k = a; agree_v = b })

  attention_same :
      (c c' : Heads F)
      → AlikeFrom sp c c'
      → attend_windows f c.qo c.k c.v sp blank blank
        ≡ attend_windows f c'.qo c'.k c'.v sp blank blank
  attention_same c c' a =
      ap (λ q. attend_windows f q c.k c.v sp blank blank) a.same_q
      ∙ attend_windows_forgets f c'.qo c.k c'.k c.v c'.v sp blank blank a.agree_k a.agree_v

  -- A layer's result at position sp is the same for any two caches that agree from row sp on, and so do
  -- the caches that it leaves: what earlier positions stored has no influence.
  pub layer_forgets :
      (h : Array F) (kv kv' : KvCache F)
      → CachesAgreeFrom sp kv kv'
      → ((layer f blank rc rs d sp h kv).0 ≡ (layer f blank rc rs d sp h kv').0)
        × CachesAgreeFrom sp (layer f blank rc rs d sp h kv).1 (layer f blank rc rs d sp h kv').1
  unfolding layer
  layer_forgets h kv kv' agree =
      let a = project-AlikeFrom h kv kv' agree in
      (
        ap (λ at. feed_forward f blank d (add_attention f blank d h at)) (attention_same _ _ a),
        (a.agree_k, a.agree_v),
      )
