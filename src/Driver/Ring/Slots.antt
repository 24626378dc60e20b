-- ===== src/Driver/Ring/Slots.antt =====
-- Where the ring's writes go, and what the ring holds after a run of them.
use npu_gpu_cpu.Prelude.{
  ℤ, not, nonzero, false, length, get_elem?, ℕ, zero, suc, ◌+◌, ◌*◌, ◌/◌, ◌%◌, ◌^◌, ◌≤◌, ◌<◌, ◌≡◌,
  refl, ap, ◌∙◌, ◌==◌, if◌then◌else◌, Option, none, some, List, [], ◌∷◌, ◌++◌, arith,
}
use npu_gpu_cpu.Aql.{
  NpuOpcode, create_context, destroy_context, execute_buffer, sync_bo, query_status, opcode_value,
  read_header, qword_words,
}
use npu_gpu_cpu.Driver.Ring.{
  ring_init, ring_fini, RingOpcode, op_create_context, op_destroy_context, op_execute_buffer,
  op_sync_bo, op_query_status, ring_opcode, Write, writeq, writel, NpuRing, mbox_x2i_tail,
  mbox_x2i_head, doorbell_offset, emit_qword, packet_header, submit_packet,
}

pub record IsValid (ring : NpuRing) : Type 0 where
  pub in_ring : ring.tail < 0x1000
  pub aligned : ring.tail % 8 ≡ 0
  pub bell : ring.doorbell ≡ ring.mbox_base + doorbell_offset

-- A submission: opcode and two arguments.
abbrev pub Packet : Type 0
Packet = ℕ × ℕ × ℕ

unfoldable pub submit_all : NpuRing → List Packet → NpuRing
submit_all ring [] = ring
submit_all ring ((op, a, b) ∷ ps) = submit_all (submit_packet ring op a b) ps

-- A qword inside the 4 KiB ring, or a word at the doorbell.
abbrev pub StaysInside : ℕ → Write → Type 0
StaysInside base (writeq a v) = (base ≤ a) × (a + 8 ≤ base + 0x1000)
StaysInside base (writel a v) = a ≡ base + doorbell_offset

abbrev pub AllInside : ℕ → List Write → Type 0
AllInside base [] = Unit {0}
AllInside base (w ∷ ws) = StaysInside base w × AllInside base ws

submit_packet-IsValid :
    (ring : NpuRing) (op a b : ℕ) → IsValid ring → IsValid (submit_packet ring op a b)
unfolding submit_packet
submit_packet-IsValid ring op a b v = ground arith

mbox_base-submit_packet :
    (ring : NpuRing) (op a b : ℕ) → (submit_packet ring op a b).mbox_base ≡ ring.mbox_base
unfolding submit_packet
mbox_base-submit_packet ring op a b = refl

submit_packet-AllInside :
    (ring : NpuRing) (op a b : ℕ)
    → IsValid ring
    → AllInside ring.mbox_base ring.writes
    → AllInside ring.mbox_base (submit_packet ring op a b).writes
unfolding submit_packet
submit_packet-AllInside ring op a b v h = ground arith

-- From a valid ring whose writes so far stayed inside, any sequence of submissions keeps the tail an aligned offset into the ring, and
-- every write goes to the 4 KiB of the ring or to the doorbell.
pub submit_all_inside :
    (ring : NpuRing) (ps : List Packet)
    → IsValid ring
    → AllInside ring.mbox_base ring.writes
    → IsValid (submit_all ring ps) × AllInside ring.mbox_base (submit_all ring ps).writes
unfolding submit_all submit_packet
submit_all_inside ring [] v h = (v, h)
submit_all_inside ring ((op, a, b) ∷ ps) v h =
    submit_all_inside (submit_packet ring op a b) ps (submit_packet-IsValid ring op a b v)
      (submit_packet-AllInside ring op a b v h)

-- One submission writes the header and the two arguments into three consecutive slots, which wrap
-- at 4 KiB, and only then tells the firmware the new tail.
pub submit_packet_lem :
    (ring : NpuRing) (op a b : ℕ)
    → IsValid ring
    → let base = ring.mbox_base in
      let t = ring.tail in
      ((submit_packet ring op a b).tail ≡ (t + 24) % 0x1000)
      × ((submit_packet ring op a b).writes
          ≡ writel (base + doorbell_offset) ((t + 24) % 0x1000)
            ∷ writeq (base + (t + 16) % 0x1000) b
            ∷ writeq (base + (t + 8) % 0x1000) a
            ∷ writeq (base + t) (packet_header op)
            ∷ ring.writes)
unfolding submit_packet
submit_packet_lem ring op a b v = ground arith

-- After any number of submissions to a valid ring the tail is 24 bytes per packet further, modulo
-- 4 KiB.
pub tail-submit_all :
    (ring : NpuRing) (ps : List Packet)
    → IsValid ring
    → (submit_all ring ps).tail ≡ (ring.tail + 24 * length ps) % 0x1000
unfolding submit_all
tail-submit_all ring [] v = omega arith
tail-submit_all ring ((op, a, b) ∷ ps) v =
    tail-submit_all (submit_packet ring op a b) ps (submit_packet-IsValid ring op a b v)
    ∙ ap (λ x. (x + 24 * length ps) % 0x1000) (submit_packet_lem ring op a b v).0
    ∙ omega arith

abbrev pub emit_all : NpuRing → List ℕ → NpuRing
emit_all ring [] = ring
emit_all ring (q ∷ qs) = emit_all (emit_qword ring q) qs

-- The value at an address: that of the latest `writeq` to it.
abbrev pub value_at : ℕ → List Write → Option ℕ
value_at a [] = none
value_at a (writeq b v ∷ ws) = if b == a then some v else value_at a ws
value_at a (writel b v ∷ ws) = value_at a ws

module _ (q : ℕ) where
  emit_qword-IsValid : (ring : NpuRing) → IsValid ring → IsValid (emit_qword ring q)
  unfolding emit_qword
  emit_qword-IsValid ring v = ground arith

-- Qwords that stop short of a full round leave the slot `back` bytes behind the tail alone.
emit_all-keeps :
    (ring : NpuRing) (qs : List ℕ) (slot back : ℕ)
    → IsValid ring
    → slot < 0x1000
    → (slot + back) % 0x1000 ≡ ring.tail
    → 0 < back
    → back + 8 * length qs ≤ 0x1000
    → back % 8 ≡ 0
    → value_at (ring.mbox_base + slot) (emit_all ring qs).writes
      ≡ value_at (ring.mbox_base + slot) ring.writes
unfolding emit_qword
emit_all-keeps ring [] slot back v hs e pos le al = refl
emit_all-keeps ring (q ∷ qs) slot back v hs e pos le al =
    emit_all-keeps (emit_qword ring q) qs slot (back + 8) (emit_qword-IsValid q ring v) hs
      (omega arith) (omega arith) (omega arith) (omega arith)
    ∙ ground arith

-- After a run of at most 512 qwords into a valid ring, qword number i stands at slot i behind the old
-- tail, round the ring.
pub emit_all_contents :
    (ring : NpuRing) (qs : List ℕ) (i : ℕ)
    → IsValid ring
    → length qs ≤ 512
    → i < length qs
    → value_at (ring.mbox_base + (ring.tail + 8 * i) % 0x1000) (emit_all ring qs).writes
      ≡ get_elem? qs i
unfolding emit_qword
emit_all_contents ring [] i v le lt = absurd (omega arith)
emit_all_contents ring (q ∷ qs) zero v le lt =
    ap (λ x. value_at (ring.mbox_base + x) (emit_all (emit_qword ring q) qs).writes) {y = ring.tail}
      (omega arith)
    ∙ emit_all-keeps (emit_qword ring q) qs ring.tail 8 (emit_qword-IsValid q ring v) (omega arith)
        (omega arith) (omega arith) (omega arith) (omega arith)
    ∙ ground arith
emit_all_contents ring (q ∷ qs) (suc i) v le lt =
    ap (λ x. value_at (ring.mbox_base + x) (emit_all (emit_qword ring q) qs).writes)
      {y = ((emit_qword ring q).tail + 8 * i) % 0x1000} (omega arith)
    ∙ emit_all_contents (emit_qword ring q) qs i (emit_qword-IsValid q ring v) (omega arith)
        (omega arith)

-- When the tail of a valid ring is 0, the header of a packet goes to the address of the X2I tail
-- register, with the opcode in its lower half, and its upper half, which is 1, to that of the X2I head
-- register.
pub header_on_registers :
    (ring : NpuRing) (op a b : ℕ)
    → IsValid ring
    → ring.tail ≡ 0
    → op < 2 ^ 32
    → (value_at (ring.mbox_base + mbox_x2i_tail) (submit_packet ring op a b).writes
        ≡ some (packet_header op))
      × (packet_header op % 2 ^ 32 ≡ op)
      × (packet_header op / 2 ^ 32 ≡ 1)
      × (mbox_x2i_head ≡ mbox_x2i_tail + 4)
unfolding submit_packet
header_on_registers ring op a b v z h = ground arith

-- Read by the layout of `npu_aql_header`, a submitted packet with an opcode below 2¹¹ has the opcode where its size is due,
-- the number 1 as its message id, and the low half of the first argument as its opcode.
pub submitted_header :
    (op a b : ℕ)
    → op < 2 ^ 11
    → read_header (qword_words (packet_header op) ++ qword_words a)
      ≡ some (record {
        total_size = op;
        reserved = 0;
        protocol = 0;
        pad = 0;
        id = 1;
        opcode = a % 2 ^ 32;
      })
unfolding read_header
submitted_header op a b h = ground arith

-- The opcode of the same name in `npu_aql.h`.
abbrev pub named : RingOpcode → NpuOpcode
named op_create_context = create_context
named op_destroy_context = destroy_context
named op_execute_buffer = execute_buffer
named op_sync_bo = sync_bo
named op_query_status = query_status

-- The driver and the user-space library number the opcodes alike.
pub ring_opcode-opcode_value : (o : RingOpcode) → ring_opcode o ≡ opcode_value (named o)
unfolding ring_opcode opcode_value
ring_opcode-opcode_value op_create_context = refl
ring_opcode-opcode_value op_destroy_context = refl
ring_opcode-opcode_value op_execute_buffer = refl
ring_opcode-opcode_value op_sync_bo = refl
ring_opcode-opcode_value op_query_status = refl

-- Initialisation that fails leaves no amdgpu ring behind; one that succeeds leaves an empty valid ring,
-- whose amdgpu ring is gone after `ring_fini`.
pub ring_init_lem :
    (r : ℤ) (mbox_base : ℕ)
    → let (code, ring) = ring_init r mbox_base [] in
      (code ≡ r)
      × IsValid ring
      × (ring.tail ≡ 0)
      × (ring.base ≡ not (nonzero r))
      × ((ring_fini ring).base ≡ false)
unfolding ring_init ring_fini
ring_init_lem r mbox_base = ground arith
