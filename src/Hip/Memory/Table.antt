-- ===== src/Hip/Memory/Table.antt =====
-- The laws of `g_buffers`, a `std::map` from the CPU address to the buffer.
use npu_gpu_cpu.Prelude.{ℕ, ◌≡◌, ◌≢◌, refl, none, some, [], ◌∷◌, arith, ◌==◌, if◌then◌else◌}
use npu_gpu_cpu.Hip.Memory.{NpuBuffer, Buffers, find, insert, erase}

pub find-insert :
    (p q : ℕ) (b : NpuBuffer) (bs : Buffers)
    → find q (insert p b bs) ≡ (if p == q then some b else find q bs)
unfolding find insert
find-insert p q b [] = refl
find-insert p q b ((k, c) ∷ bs) = ground (arith, find-insert p q b bs)

pub erase-insert :
    (p : ℕ) (b : NpuBuffer) (bs : Buffers) → find p bs ≡ none → erase p (insert p b bs) ≡ bs
unfolding find insert erase
erase-insert p b [] h = ground arith
erase-insert p b ((k, c) ∷ bs) h = ground (arith, erase-insert p b bs)

pub find-erase_ne : (p q : ℕ) (bs : Buffers) → p ≢ q → find q (erase p bs) ≡ find q bs
unfolding find erase
find-erase_ne p q [] h = refl
find-erase_ne p q ((k, c) ∷ bs) h = ground (arith, find-erase_ne p q bs h)

-- No key stands twice, as in a map.
abbrev pub Absent : ℕ → Buffers → Type 0
Absent p bs = find p bs ≡ none

abbrev pub Distinct : Buffers → Type 0
Distinct [] = Unit {0}
Distinct ((p, b) ∷ bs) = Absent p bs × Distinct bs

pub insert-Distinct :
    (p : ℕ) (b : NpuBuffer) (bs : Buffers) → Distinct bs → Distinct (insert p b bs)
unfolding find insert
insert-Distinct p b [] d = (refl, tt)
insert-Distinct p b ((k, c) ∷ bs) d =
    ground (arith, insert-Distinct p b bs d.1, find-insert p k b bs)

pub erase-Distinct : (p : ℕ) (bs : Buffers) → Distinct bs → Distinct (erase p bs)
unfolding find erase
erase-Distinct p [] d = tt
erase-Distinct p ((k, c) ∷ bs) d = ground (arith, erase-Distinct p bs d.1, find-erase_ne p k bs)

pub find-erase : (p : ℕ) (bs : Buffers) → Distinct bs → find p (erase p bs) ≡ none
unfolding find erase
find-erase p [] d = refl
find-erase p ((k, c) ∷ bs) d = ground (arith, find-erase p bs d.1, d.0)
