-- ===== src/Hip/Memory/Size.antt =====
-- The size that `npu_malloc` requests, `(size + 4095) & ~4095` on 64 bits.
use npu_gpu_cpu.Prelude.{ℕ, ◌+◌, ◌-◌, ◌%◌, ◌^◌, ◌≤◌, ◌<◌, ◌≡◌, arith}
use npu_gpu_cpu.Hip.Memory.{page_round}

-- Up to 2⁶⁴ - 4096 bytes the request is the least multiple of 4096 that is not below the size.
pub page_round_bounds :
    (size : ℕ)
    → size ≤ 2 ^ 64 - 4096
    → (size ≤ page_round size) × (page_round size < size + 4096) × (page_round size % 4096 ≡ 0)
unfolding page_round
page_round_bounds size h = omega arith

-- For any `size_t` above 2⁶⁴ - 4096 the sum wraps, and the request is for no bytes at all.
pub page_round_wraps : (size : ℕ) → 2 ^ 64 - 4096 < size → size < 2 ^ 64 → page_round size ≡ 0
unfolding page_round
page_round_wraps size h k = omega arith
