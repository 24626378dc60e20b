-- ===== src/Driver/Ring/Wrap.antt =====
-- The wait after more commands than the ring has room for.
use npu_gpu_cpu.Prelude.{ℕ, ◌%◌, ◌<◌, ◌≡◌, ◌∙◌, sym, some, List, length, arith}
use npu_gpu_cpu.Driver.Ring.{NpuRing, completed, ring_wait}
use npu_gpu_cpu.Driver.Ring.Slots.{IsValid, Packet, submit_all, tail-submit_all}
use npu_gpu_cpu.Driver.Ring.Wait.{ring_wait_completes}

-- The submission of a multiple of 512 packets leads the tail of a valid ring back to where it was. If
-- the head is there and does not move, which is to say that none of them has been read, then the wait
-- returns 0 at once.
pub ring_wait-submit_all :
    (ring : NpuRing) (packets : List Packet) (heads clock : ℕ → ℕ) (start delay fuel : ℕ)
    → IsValid ring
    → length packets % 512 ≡ 0
    → 0 < fuel
    → heads 0 ≡ ring.tail
    → ((submit_all ring packets).tail ≡ ring.tail)
      × (ring_wait fuel (submit_all ring packets) heads clock start delay ≡ some completed)
ring_wait-submit_all ring packets heads clock start delay fuel v full lt unread = (
  same,
  ring_wait_completes (submit_all ring packets) heads clock start delay 0 fuel lt
      (λ j p. absurd (omega arith)) (unread ∙ sym same),
)
  where
    same : (submit_all ring packets).tail ≡ ring.tail
    same = omega (arith, tail-submit_all ring packets v, v.in_ring)
