-- ===== src/Driver/Ring/Examples.antt =====
-- A ring at 0x10000 just after its initialisation, and a wait that completes in its third round.
use npu_gpu_cpu.Prelude.{
  zero, suc, length, get_elem?, ℕ, ◌+◌, ◌-◌, ◌*◌, ◌/◌, ◌%◌, ◌^◌, ◌<◌, ◌≡◌, ◌≢◌, ◌↔◌, refl, inl, pos,
  none, some, List, [], ◌∷◌, ◌++◌, ltb, if◌then◌else◌, true, arith,
}
use npu_gpu_cpu.Aql.{read_header, qword_words}
use npu_gpu_cpu.Driver.Ring.{
  NpuRing, ring_init, submit_packet, packet_header, mbox_x2i_tail, mbox_x2i_head, completed,
  time_before, ring_wait,
}
use npu_gpu_cpu.Driver.Ring.Slots.{
  IsValid, Packet, submit_all, AllInside, submit_all_inside, tail-submit_all, emit_all, value_at,
  emit_all_contents, header_on_registers, submitted_header,
}
use npu_gpu_cpu.Driver.Ring.Wrap.{ring_wait-submit_all}
use npu_gpu_cpu.Driver.Ring.Wait.{
  Stopped, ring_wait_total, ring_wait-Stopped, ring_wait_completes, time_before_elapsed,
}

abbrev ring : NpuRing
ring = (ring_init (pos 0) 0x10000 []).1

ring-IsValid : IsValid ring
unfolding ring_init
ring-IsValid = record { in_ring = omega arith; aligned = refl; bell = refl }

abbrev packets : List Packet
packets = (0x2, 1, 8) ∷ (0xC, 0x4000, 64) ∷ []

submit_all_inside_example :
    IsValid (submit_all ring packets) × AllInside ring.mbox_base (submit_all ring packets).writes
unfolding ring_init
submit_all_inside_example = submit_all_inside ring packets ring-IsValid tt

tail-submit_all_test : (submit_all ring packets).tail ≡ (ring.tail + 24 * length packets) % 0x1000
tail-submit_all_test = tail-submit_all ring packets ring-IsValid

emit_all_contents_example :
    value_at
      (ring.mbox_base + (ring.tail + 8 * 1) % 0x1000)
      (emit_all ring (11 ∷ 22 ∷ 33 ∷ [])).writes
    ≡ get_elem? (11 ∷ 22 ∷ 33 ∷ []) 1
emit_all_contents_example =
    emit_all_contents ring (11 ∷ 22 ∷ 33 ∷ []) 1 ring-IsValid (omega arith) (omega arith)

header_on_registers_example :
    (value_at (ring.mbox_base + mbox_x2i_tail) (submit_packet ring 0xC 0x4000 64).writes
      ≡ some (packet_header 0xC))
    × (packet_header 0xC % 2 ^ 32 ≡ 0xC)
    × (packet_header 0xC / 2 ^ 32 ≡ 1)
    × (mbox_x2i_head ≡ mbox_x2i_tail + 4)
unfolding ring_init
header_on_registers_example = header_on_registers ring 0xC 0x4000 64 ring-IsValid refl (omega arith)

submitted_header_test :
    read_header (qword_words (packet_header 0xC) ++ qword_words 0x4000)
    ≡ some (record {
      total_size = 0xC;
      reserved = 0;
      protocol = 0;
      pad = 0;
      id = 1;
      opcode = 0x4000 % 2 ^ 32;
    })
submitted_header_test = submitted_header 0xC 0x4000 64 (omega arith)

-- The head arrives in round 2; a tick passes in each round.
abbrev heads : ℕ → ℕ
heads i = if ltb i 2 then 24 else 0

abbrev clock : ℕ → ℕ
clock i = 1000 + i

ring_wait_total_example : ring_wait 3 ring heads clock 1000 50 ≢ none
unfolding ring_init
ring_wait_total_example = ring_wait_total ring heads clock 1000 50 2 3 (omega arith) (inl refl)

ring_wait-Stopped_example : Stopped heads clock ring.tail ((1000 + 50) % 2 ^ 64) 0 completed
unfolding ring_init ring_wait time_before
ring_wait-Stopped_example = ring_wait-Stopped ring heads clock 1000 50 3 completed refl

time_before_elapsed_test :
    (time_before ((2 ^ 64 - 1 + 3) % 2 ^ 64) ((2 ^ 64 - 1 + 5) % 2 ^ 64) ≡ true) ↔ (3 < 5)
time_before_elapsed_test = time_before_elapsed (2 ^ 64 - 1) 5 3 (omega arith) (omega arith)

-- The head reaches the tail in round 2, of three rounds of fuel.
ring_wait_completes_test :
    ring_wait 3 ring (λ r. if ltb r 2 then 1 else 0) (λ r. 100 + r) 100 10 ≡ some completed
unfolding ring_init time_before
ring_wait_completes_test =
    ring_wait_completes ring (λ r. if ltb r 2 then 1 else 0) (λ r. 100 + r) 100 10 2 3 (omega arith)
      (λ j lt. ground arith) refl

-- 512 packets, none of which is read.
abbrev copies : ℕ → List Packet
copies zero = []
copies (suc n) = (0x2, 1, 8) ∷ copies n

ring_wait-submit_all_example :
    ((submit_all ring (copies 512)).tail ≡ ring.tail)
    × (ring_wait 1 (submit_all ring (copies 512)) (λ r. 0) (λ r. 100) 100 10 ≡ some completed)
unfolding ring_init
ring_wait-submit_all_example =
    ring_wait-submit_all ring (copies 512) (λ r. 0) (λ r. 100) 100 10 1 ring-IsValid refl
      (omega arith) refl
