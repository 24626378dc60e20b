-- ===== src/Engine/Layer/Rows.antt =====
-- Which rows of the caches a layer writes.
use npu_gpu_cpu.Prelude.{ℕ, ◌+◌, ◌*◌, ◌≤◌, ◌<◌, ◌≡◌, ◌⊎◌, refl, Array}
use npu_gpu_cpu.Engine.Floats.{Floats}
use npu_gpu_cpu.Engine.Heads.Cache.{heads-other_rows}
use npu_gpu_cpu.Engine.Layer.{LayerData, KvCache, project, layer}

-- The cell q of both caches is the same.
abbrev pub SameCell : {F : Type 0} → ℕ → KvCache F → KvCache F → Type 0
SameCell q c c' = (c.k q ≡ c'.k q) × (c.v q ≡ c'.v q)

module _ {F D : Type 0} (f : Floats F D) (blank rc rs : Array F) (d : LayerData F) (sp : ℕ) where
  -- A layer at position sp writes to its caches in row sp only, and leaves n = sp + 1.
  pub layer-other_rows :
      (h : Array F) (kv : KvCache F) (q : ℕ)
      → (q < sp * 1024) ⊎ ((sp + 1) * 1024 ≤ q)
      → SameCell q (layer f blank rc rs d sp h kv).1 kv
        × ((layer f blank rc rs d sp h kv).1.n ≡ sp + 1)
  unfolding layer project
  layer-other_rows h kv q out = (heads-other_rows f rc rs sp d.qn_w d.kn_w _ _ q out, refl)
