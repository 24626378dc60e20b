-- ===== src/Engine/CpuAttn/Checked/Attention.antt =====
-- `cpu_attn` with its accesses checked, against attention by its definition.
use npu_gpu_cpu.Prelude.{ℕ, ◌+◌, ◌*◌, ◌≤◌, ◌<◌, ◌≡◌, Array, some}
use npu_gpu_cpu.Prelude.Checked.{Pointer}
use npu_gpu_cpu.Engine.Floats.{Floats}
use npu_gpu_cpu.Engine.CpuAttn.{cpu_attn}
use npu_gpu_cpu.Engine.CpuAttn.Reference.{attention, cpu_attn-attention}
use npu_gpu_cpu.Engine.CpuAttn.Checked.{cpu_attn_checked}
use npu_gpu_cpu.Engine.CpuAttn.Checked.Inside.{behind, HasRows, cpu_attn_inside}

-- For at most 32 tokens, as many as `scores` has places, whose rows are inside of the vectors that Q, K, V
-- and the output point into, no access is outside, and element d of head h of the output is attention by
-- its definition: the values of the tokens, summed in their order with the softmax of the scaled scores as
-- weights, whatever the array and the output held.
pub cpu_attn_checked-attention :
    {F D : Type 0} (f : Floats F D) (q k v : Pointer F) (n base : ℕ) (init out : Array F)
    → HasRows n k
    → HasRows n v
    → ((i : ℕ) → i < 512 → q.offset + i < q.size)
    → n ≤ 32
    → base + 512 ≤ 2048
    → (r : Array F) × (cpu_attn_checked f q k v n base init out ≡ some r)
      × ((h d : ℕ)
          → h < 4
          → d < 128
          → r (base + (h * 128 + d)) ≡ attention f (behind q) (behind k) (behind v) n h d)
cpu_attn_checked-attention f q k v n base init out rows_k rows_v in_q le le' = (
  cpu_attn f (behind q) (behind k) (behind v) n base init out,
  cpu_attn_inside f n q k v base init out rows_k rows_v in_q le le',
  cpu_attn-attention f (behind q) (behind k) (behind v) n base init out,
)
