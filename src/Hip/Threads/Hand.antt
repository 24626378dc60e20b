-- ===== src/Hip/Threads/Hand.antt =====
-- What a thread has in hand between two steps: resources that are in no buffer of the table yet, those
-- of a tracked buffer that it has given back already, and the address that it has got mapped.
use npu_gpu_cpu.Prelude.{ℕ, ◌+◌, ◌≤◌, ◌≡◌, none, some, arith}
use npu_gpu_cpu.Hip.Memory.{Buffers, Replies, find}
use npu_gpu_cpu.Hip.Memory.Ledger.{
  Resource, object, mapping, descriptor, one_if_same, taken_by, settled_by, total, owned_by, held,
  held-insert, held-erase,
}
use npu_gpu_cpu.Hip.Memory.Table.{Distinct, find-insert, find-erase, find-erase_ne}
use npu_gpu_cpu.Hip.Threads.{
  Pc, idle, initializes, closes_render, maps, exports, unmaps, frees_object, imports, passes,
  closes_npu, waits_track, tracks, unmapping, freeing, erases, Globals, step,
}
use npu_gpu_cpu.Hip.Threads.Mutex.{Holds}

abbrev object_of : Resource → ℕ → ℕ
object_of (object b) bo = one_if_same bo b
object_of _ bo = 0

abbrev mapping_of : Resource → ℕ → ℕ
mapping_of (mapping b) bo = one_if_same bo b
mapping_of _ bo = 0

abbrev descriptor_of : Resource → ℕ → ℕ
descriptor_of (descriptor n) fd = one_if_same fd n
descriptor_of _ fd = 0

abbrev pub in_hand : Resource → Pc → ℕ
in_hand x (initializes size fd) = descriptor_of x fd
in_hand x (closes_render fd) = descriptor_of x fd
in_hand x (maps size bo) = object_of x bo
in_hand x (exports size bo p) = object_of x bo + mapping_of x bo
in_hand x (unmaps bo p) = object_of x bo + mapping_of x bo
in_hand x (frees_object bo) = object_of x bo
in_hand x (imports b) = owned_by x b
in_hand x (passes b fd) = owned_by x b + descriptor_of x fd
in_hand x (closes_npu b fd) = owned_by x b + descriptor_of x fd
in_hand x (waits_track b) = owned_by x b
in_hand x (tracks b) = owned_by x b
in_hand x _ = 0

-- Of a buffer that still stands in the table.
abbrev pub given_back : Resource → Pc → ℕ
given_back x (unmapping p b) = descriptor_of x b.dmabuf_fd
given_back x (freeing p b) = descriptor_of x b.dmabuf_fd + mapping_of x b.bo
given_back x (erases p b) = owned_by x b
given_back x _ = 0

-- The thread has a mapping at the address a that is in no tracked buffer yet.
abbrev pub has_mapped : ℕ → Pc → ℕ
has_mapped a (exports size bo p) = one_if_same p a
has_mapped a (unmaps bo p) = one_if_same p a
has_mapped a (imports b) = one_if_same b.cpu_ptr a
has_mapped a (passes b fd) = one_if_same b.cpu_ptr a
has_mapped a (closes_npu b fd) = one_if_same b.cpu_ptr a
has_mapped a (waits_track b) = one_if_same b.cpu_ptr a
has_mapped a (tracks b) = one_if_same b.cpu_ptr a
has_mapped a _ = 0

-- The thread has unmapped the tracked buffer at the address a.
abbrev pub has_unmapped : ℕ → Pc → ℕ
has_unmapped a (freeing p b) = one_if_same p a
has_unmapped a (erases p b) = one_if_same p a
has_unmapped a _ = 0

abbrev pub one_if_tracked : ℕ → Buffers → ℕ
one_if_tracked a bs = elim (find a bs) [ none ↦ 0 | some b ↦ 1 ]

-- The address that a step of this thread gets mapped.
abbrev pub newly_mapped : ℕ → Replies → Pc → ℕ
newly_mapped a r (maps size bo) = elim r.cpu_ptr [ none ↦ 0 | some p ↦ one_if_same p a ]
newly_mapped a r _ = 0

-- The place in the table is free when a buffer is put there.
abbrev pub Room : Pc → Buffers → Type 0
Room (tracks b) bs = find b.cpu_ptr bs ≡ none
Room _ bs = Unit

-- One step keeps the balance: both sides grow by the same.
abbrev pub Balance : Resource → Pc → Pc → Globals → Globals → Type 0
Balance x pc pc' g g' =
    total (taken_by x) g'.shim.log
      + given_back x pc'
      + total (settled_by x) g.shim.log
      + held x g.shim.buffers
      + in_hand x pc
    ≡ total (settled_by x) g'.shim.log
      + held x g'.shim.buffers
      + in_hand x pc'
      + total (taken_by x) g.shim.log
      + given_back x pc

module _ (r : Replies) where
  object-Balance :
      (k : ℕ) (pc pc' : Pc) (g g' : Globals)
      → step r pc g ≡ some (pc', g')
      → Holds pc g.shim.buffers
      → Room pc g.shim.buffers
      → Balance (object k) pc pc' g g'
  unfolding step
  object-Balance k idle pc' g g' e h m = ground arith
  object-Balance k (tracks b) pc' g g' e h m =
      ground (arith, held-insert (object k) b.cpu_ptr b g.shim.buffers)
  object-Balance k (erases p b) pc' g g' e h m =
      ground (arith, held-erase (object k) p b g.shim.buffers)
  object-Balance k _ pc' g g' e h m = ground arith

  mapping-Balance :
      (k : ℕ) (pc pc' : Pc) (g g' : Globals)
      → step r pc g ≡ some (pc', g')
      → Holds pc g.shim.buffers
      → Room pc g.shim.buffers
      → Balance (mapping k) pc pc' g g'
  unfolding step
  mapping-Balance k idle pc' g g' e h m = ground arith
  mapping-Balance k (tracks b) pc' g g' e h m =
      ground (arith, held-insert (mapping k) b.cpu_ptr b g.shim.buffers)
  mapping-Balance k (erases p b) pc' g g' e h m =
      ground (arith, held-erase (mapping k) p b g.shim.buffers)
  mapping-Balance k _ pc' g g' e h m = ground arith

  descriptor-Balance :
      (k : ℕ) (pc pc' : Pc) (g g' : Globals)
      → step r pc g ≡ some (pc', g')
      → Holds pc g.shim.buffers
      → Room pc g.shim.buffers
      → Balance (descriptor k) pc pc' g g'
  unfolding step
  descriptor-Balance k idle pc' g g' e h m = ground arith
  descriptor-Balance k (tracks b) pc' g g' e h m =
      ground (arith, held-insert (descriptor k) b.cpu_ptr b g.shim.buffers)
  descriptor-Balance k (erases p b) pc' g g' e h m =
      ground (arith, held-erase (descriptor k) p b g.shim.buffers)
  descriptor-Balance k _ pc' g g' e h m = ground arith

  pub step-Balance :
      (x : Resource) (pc pc' : Pc) (g g' : Globals)
      → step r pc g ≡ some (pc', g')
      → Holds pc g.shim.buffers
      → Room pc g.shim.buffers
      → Balance x pc pc' g g'
  step-Balance (object k) = object-Balance k
  step-Balance (mapping k) = mapping-Balance k
  step-Balance (descriptor k) = descriptor-Balance k

  -- At most the address that this step gets mapped becomes mapped.
  pub step-mapped :
      (a : ℕ) (pc pc' : Pc) (g g' : Globals)
      → step r pc g ≡ some (pc', g')
      → Holds pc g.shim.buffers
      → Distinct g.shim.buffers
      → has_mapped a pc' + one_if_tracked a g'.shim.buffers + has_unmapped a pc
        ≤ has_mapped a pc
          + one_if_tracked a g.shim.buffers
          + has_unmapped a pc'
          + newly_mapped a r pc
  unfolding step
  step-mapped a idle pc' g g' e h d = ground arith
  step-mapped a (tracks b) pc' g g' e h d = ground (arith, find-insert b.cpu_ptr a b g.shim.buffers)
  step-mapped a (erases p b) pc' g g' e h d =
      ground (arith, find-erase p g.shim.buffers d, find-erase_ne p a g.shim.buffers)
  step-mapped a _ pc' g g' e h d = ground arith
