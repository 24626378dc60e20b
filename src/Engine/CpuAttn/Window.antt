-- ===== src/Engine/CpuAttn/Window.antt =====
-- Which rows of the caches `layer` reads.
use mathlib.Core.Path.{fun_ext, ap₂}
use npu_gpu_cpu.Prelude.{ℕ, ◌+◌, ◌*◌, ◌/◌, ◌≤◌, ◌<◌, ◌≡◌, Array, for_to_congr, arith}
use npu_gpu_cpu.Engine.Floats.{Floats}
use npu_gpu_cpu.Engine.CpuAttn.{at_offset, cpu_attn, attend_windows}

-- The element read for token p of window w, in the cache: it lies in row sp + p, where p is meant.
pub window_row :
    (sp w p h d : ℕ)
    → h < 4
    → sp * 8 * 128 + w * 2 * 128 + (p * 8 * 128 + h / 2 * 128 + d)
      ≡ (sp + p) * 1024 + (2 * w + h / 2) * 128 + d
window_row sp w p h d hh = omega arith

-- At position sp the windows are passed the caches from row sp on, so that two caches that agree
-- from row sp on have the same attention output, whatever the float operations do: no key and no value
-- of an earlier token has any influence.
pub attend_windows_forgets :
    {F D : Type 0} (f : Floats F D) (qo k k' v v' : Array F) (sp : ℕ) (init out : Array F)
    → ((i : ℕ) → sp * 1024 ≤ i → k i ≡ k' i)
    → ((i : ℕ) → sp * 1024 ≤ i → v i ≡ v' i)
    → attend_windows f qo k v sp init out ≡ attend_windows f qo k' v' sp init out
unfolding attend_windows
attend_windows_forgets f qo k k' v v' sp init out hk hv = for_to_congr 4 out λ w t p.
    ap₂ (λ x y. cpu_attn f (at_offset (w * 4 * 128) qo) x y (sp + 1) (w * 4 * 128) init t)
      (fun_ext λ i. hk (sp * 8 * 128 + w * 2 * 128 + i) (omega arith))
      (fun_ext λ i. hv (sp * 8 * 128 + w * 2 * 128 + i) (omega arith))
