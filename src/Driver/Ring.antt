-- ===== src/Driver/Ring.antt =====
-- patches/amdgpu_npu_sched.c: the command ring in the NPU's mailbox memory. Writes to device memory
-- are logged, latest first. `amdgpu_ring_init` is amdgpu's: its result is an argument.
pub mod Slots
pub mod Wait
pub mod Wrap
mod Examples
use npu_gpu_cpu.Prelude.{
  ℕ, zero, suc, ◌+◌, ◌-◌, ◌*◌, ◌/◌, ◌%◌, ◌^◌, ◌==◌, leb, ℤ, pos, negsuc, nonzero, Bool, true, false,
  Option, none, some, List, [], ◌∷◌, if◌then◌else◌,
}

-- `writeq` and `writel`: the address and the value.
pub data Write : Type 0 where
  writeq writel : ℕ → ℕ → Write

pub record NpuRing : Type 0 where
  pub mbox_base : ℕ
  pub doorbell : ℕ
  pub tail : ℕ
  -- `base` is initialised as an amdgpu ring
  pub base : Bool
  pub writes : List Write

-- The `NPU_OP_*` macros.
pub data RingOpcode : Type 0 where
  op_create_context op_destroy_context op_execute_buffer op_sync_bo op_query_status : RingOpcode

pub ring_opcode : RingOpcode → ℕ
ring_opcode op_create_context = 0x2
ring_opcode op_destroy_context = 0x3
ring_opcode op_execute_buffer = 0xC
ring_opcode op_sync_bo = 0x7
ring_opcode op_query_status = 0xD

abbrev pub mbox_x2i_tail : ℕ
mbox_x2i_tail = 0x0

abbrev pub mbox_x2i_head : ℕ
mbox_x2i_head = 0x4

abbrev pub doorbell_offset : ℕ
doorbell_offset = 0x2000

-- `r` is what `amdgpu_ring_init` returns.
pub ring_init : ℤ → ℕ → List Write → ℤ × NpuRing
ring_init r mbox_base writes =
    let ring : NpuRing = record {
      mbox_base = mbox_base;
      doorbell = mbox_base + doorbell_offset;
      tail = 0;
      base = false;
      writes = writes;
    } in
    if nonzero r then (r, ring) else (pos 0, record ring { base = true })

-- `amdgpu_npu_ring_fini`
pub ring_fini : NpuRing → NpuRing
ring_fini ring = record ring { base = false }

-- `tail` is a `uint32_t`.
pub emit_qword : NpuRing → ℕ → NpuRing
emit_qword ring qword = record ring {
  tail = (ring.tail + 8) % 2 ^ 32 % 0x1000;
  writes = writeq (ring.mbox_base + ring.tail) qword ∷ ring.writes;
}

-- `(uint64_t)opcode | (1ULL << 32)`; the opcode is a `uint32_t`, so the bits are apart.
abbrev pub packet_header : ℕ → ℕ
packet_header opcode = opcode % 2 ^ 32 + 1 * 2 ^ 32

pub submit_packet : NpuRing → ℕ → ℕ → ℕ → NpuRing
unfolding emit_qword
submit_packet ring opcode arg0 arg1 =
    let ring₁ = emit_qword ring (packet_header opcode) in
    let ring₂ = emit_qword ring₁ arg0 in
    let ring₃ = emit_qword ring₂ arg1 in
    record ring₃ { writes = writel ring₃.doorbell ring₃.tail ∷ ring₃.writes }

-- `time_before(a, b)`: the difference of two `unsigned long` is negative as a `long`.
pub time_before : ℕ → ℕ → Bool
time_before a b = leb (2 ^ 63) ((a + 2 ^ 64 - b) % 2 ^ 64)

pub data WaitResult : Type 0 where
  completed timed_out : WaitResult

-- The loop of `amdgpu_npu_ring_wait`. `heads i` and `clock i` are what round i reads from the head
-- register and from `jiffies`; `none` means that the fuel ran out.
pub wait_loop : ℕ → (ℕ → ℕ) → (ℕ → ℕ) → ℕ → ℕ → ℕ → Option WaitResult
wait_loop zero heads clock tail timeout i = none
wait_loop (suc fuel) heads clock tail timeout i =
    let again = wait_loop fuel heads clock tail timeout (suc i) in
    if heads i == tail
    then some completed
    else if time_before (clock i) timeout
    then again
    else some timed_out

-- `start` is `jiffies` at the call, `delay` is `msecs_to_jiffies(timeout_ms)`.
pub ring_wait : ℕ → NpuRing → (ℕ → ℕ) → (ℕ → ℕ) → ℕ → ℕ → Option WaitResult
unfolding wait_loop
ring_wait fuel ring heads clock start delay =
    wait_loop fuel heads clock ring.tail ((start + delay) % 2 ^ 64) 0
