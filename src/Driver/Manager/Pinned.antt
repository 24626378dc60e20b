-- ===== src/Driver/Manager/Pinned.antt =====
-- A client of the manager, and the buffers that it holds.
use npu_gpu_cpu.Prelude.{
  ℕ, ◌+◌, ◌-◌, ◌^◌, ◌%◌, ◌≤◌, ◌<◌, ◌≡◌, ◌≢◌, refl, ℤ, pos, none, some, List, [], ◌∷◌, ◌==◌,
  if◌then◌else◌, arith,
}
use npu_gpu_cpu.Driver.Manager.{
  Event, bo_alloc, bo_pin, bo_unpin, bo_free, page_align, alloc_gtt, free_gtt,
}

abbrev one_if_same : ℕ → ℕ → ℕ
one_if_same a b = if a == b then 1 else 0

abbrev pub allocates : ℕ → Event → ℕ
allocates b (bo_alloc _ (pos ret) c) = if ret == 0 then one_if_same c b else 0
allocates b _ = 0

abbrev pub frees : ℕ → Event → ℕ
frees b (bo_free c) = one_if_same c b
frees b _ = 0

abbrev pub pins : ℕ → Event → ℕ
pins b (bo_pin c) = one_if_same c b
pins b _ = 0

abbrev pub unpins : ℕ → Event → ℕ
unpins b (bo_unpin c) = one_if_same c b
unpins b _ = 0

abbrev pub total : (Event → ℕ) → List Event → ℕ
total f [] = 0
total f (e ∷ log) = f e + total f log

-- How often a handle stands in a list, and the list less its first occurrence.
abbrev pub count : ℕ → List ℕ → ℕ
count b [] = 0
count b (c ∷ cs) = one_if_same c b + count b cs

pub remove : ℕ → List ℕ → List ℕ
remove b [] = []
remove b (c ∷ cs) = if c == b then cs else c ∷ remove b cs

count-remove :
    (a b : ℕ) (cs : List ℕ) → count b cs ≢ 0 → count a cs ≡ one_if_same b a + count a (remove b cs)
unfolding remove
count-remove a b [] h = absurd (h refl)
count-remove a b (c ∷ cs) h = ground (arith, count-remove a b cs)

-- The buffers that a client holds, and the log: it frees only buffers that it holds.
pub data Reach : List ℕ → List Event → Type 0 where
  start : Reach [] []
  alloc_ok :
      {held : List ℕ} {log : List Event} (bo size : ℕ)
      → Reach held log
      → Reach (bo ∷ held) (alloc_gtt (pos 0) bo (pos 0) size log).2
  alloc_failed :
      {held : List ℕ} {log : List Event} (alloc_ret : ℤ) (bo : ℕ) (pin_ret : ℤ) (size : ℕ)
      → Reach held log
      → (alloc_gtt alloc_ret bo pin_ret size log).0 ≢ pos 0
      → Reach held (alloc_gtt alloc_ret bo pin_ret size log).2
  free :
      {held : List ℕ} {log : List Event} (bo : ℕ)
      → Reach held log
      → count bo held ≢ 0
      → Reach (remove bo held) (free_gtt (some bo) log)
  free_null : {held : List ℕ} {log : List Event} → Reach held log → Reach held (free_gtt none log)

-- Over any history of a client that frees only what it holds, a buffer object was freed as often as it was allocated, and unpinned as often as
-- it was pinned, but for the buffers that the client holds: an allocation that fails, also one that
-- fails to pin, leaves nothing behind.
pub Reach-held :
    {held : List ℕ} {log : List Event}
    → Reach held log
    → (b : ℕ)
    → (total (allocates b) log ≡ total (frees b) log + count b held)
      × (total (pins b) log ≡ total (unpins b) log + count b held)
unfolding alloc_gtt free_gtt
Reach-held start b = (refl, refl)
Reach-held (alloc_ok bo size r) b = let h = Reach-held r b in ground arith
Reach-held (alloc_failed {log = log} alloc_ret bo pin_ret size r e) b =
    let h = Reach-held r b in ground arith
Reach-held (free {held = held} bo r m) b =
    let h = Reach-held r b in let c = count-remove b bo held m in ground arith
Reach-held (free_null r) b = Reach-held r b

-- The size requested is the least whole number of 4 KiB pages, unless it wraps to none.
pub page_align_bounds :
    (size : ℕ)
    → size ≤ 2 ^ 64 - 4096
    → (size ≤ page_align size) × (page_align size < size + 4096) × (page_align size % 4096 ≡ 0)
unfolding page_align
page_align_bounds size h = omega arith
