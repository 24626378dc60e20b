-- ===== src/Hip/Memory/Malloc.antt =====
-- `npu_malloc`: what is taken on the way, on each of its branches.
use npu_gpu_cpu.Prelude.{ℕ, ◌≡◌, ap, ◌∙◌, inl, inr, none, some, arith, Option-cases, Bool-cases}
use npu_gpu_cpu.Hip.Memory.{
  NpuBuffer, Replies, call, bo_alloc, bo_free, bo_cpu_map, bo_cpu_unmap, bo_export, Shim, find,
  ensure_amdgpu, import_npu, track, export_buffer, map_buffer, npu_malloc, page_round,
}
use npu_gpu_cpu.Hip.Memory.Ledger.{
  Resource, object, mapping, descriptor, one_if_same, owned_by, Owes, held-insert,
}

-- libdrm maps a buffer object at an address where nothing is mapped yet.
abbrev pub Fresh : Replies → Shim → Type 0
Fresh r s = (p : ℕ) → r.cpu_ptr ≡ some p → find p s.buffers ≡ none

abbrev object_only : Resource → ℕ → ℕ
object_only (object b) bo = one_if_same bo b
object_only _ bo = 0

abbrev object_and_mapping : Resource → ℕ → ℕ
object_and_mapping (object b) bo = one_if_same bo b
object_and_mapping (mapping b) bo = one_if_same bo b
object_and_mapping (descriptor n) bo = 0

ensure_amdgpu-Owes :
    (x : Resource) (r : Replies) (s : Shim) → Owes x 0 s → Owes x 0 (ensure_amdgpu r s).1
unfolding ensure_amdgpu
ensure_amdgpu-Owes (object b) r s h = ground arith
ensure_amdgpu-Owes (mapping b) r s h = ground arith
ensure_amdgpu-Owes (descriptor n) r s h = ground arith

pub buffers-ensure_amdgpu : (r : Replies) (s : Shim) → (ensure_amdgpu r s).1.buffers ≡ s.buffers
unfolding ensure_amdgpu
buffers-ensure_amdgpu r s = ground arith

import_npu-Owes :
    (x : Resource) (k : ℕ) (r : Replies) (fd : ℕ) (s : Shim)
    → Owes x k s
    → Owes x k (import_npu r fd s)
unfolding import_npu
import_npu-Owes (object b) k r fd s h = ground arith
import_npu-Owes (mapping b) k r fd s h = ground arith
import_npu-Owes (descriptor n) k r fd s h = ground arith

pub buffers-import_npu : (r : Replies) (fd : ℕ) (s : Shim) → (import_npu r fd s).buffers ≡ s.buffers
unfolding import_npu
buffers-import_npu r fd s = ground arith

track-Owes :
    (x : Resource) (p : ℕ) (b : NpuBuffer) (s : Shim)
    → find p s.buffers ≡ none
    → Owes x (owned_by x b) s
    → Owes x 0 (track p b s)
unfolding track
track-Owes (object k) p b s fresh h = ground (arith, held-insert (object k) p b s.buffers)
track-Owes (mapping k) p b s fresh h = ground (arith, held-insert (mapping k) p b s.buffers)
track-Owes (descriptor n) p b s fresh h = ground (arith, held-insert (descriptor n) p b s.buffers)

-- The export has failed: the mapping and the object go back.
give_back-Owes :
    (x : Resource) (bo : ℕ) (s : Shim)
    → Owes x (object_and_mapping x bo) s
    → Owes x 0 (call (bo_free bo) (call (bo_cpu_unmap bo) (call (bo_export bo none) s)))
give_back-Owes (object k) bo s h = ground arith
give_back-Owes (mapping k) bo s h = ground arith
give_back-Owes (descriptor n) bo s h = ground arith

exported-Owes :
    (x : Resource) (size bo p fd : ℕ) (s : Shim)
    → Owes x (object_and_mapping x bo) s
    → Owes x
        (owned_by x (record { cpu_ptr = p; dmabuf_fd = fd; size = size; bo = bo }))
        (call (bo_export bo (some fd)) s)
exported-Owes (object k) size bo p fd s h = ground arith
exported-Owes (mapping k) size bo p fd s h = ground arith
exported-Owes (descriptor n) size bo p fd s h = ground arith

export_buffer-Owes :
    (x : Resource) (r : Replies) (size bo p : ℕ) (s : Shim)
    → find p s.buffers ≡ none
    → Owes x (object_and_mapping x bo) s
    → Owes x 0 (export_buffer r size bo p s).shim
unfolding export_buffer
export_buffer-Owes x r size bo p s fresh h = elim (Option-cases r.export_handle) [
  | inl e ↦ simp (e, export_buffer) (give_back-Owes x bo s h)
  | inr (fd, e) ↦
      simp (e, export_buffer)
        (track-Owes x p (buffer fd) (import_npu r fd (call (bo_export bo (some fd)) s))
          (buffers_eq fd)
          (import_npu-Owes x (owned_by x (buffer fd)) r fd (call (bo_export bo (some fd)) s)
            (exported-Owes x size bo p fd s h)))
]
  where
    buffer : ℕ → NpuBuffer
    buffer fd = record { cpu_ptr = p; dmabuf_fd = fd; size = size; bo = bo }

    buffers_eq :
        (fd : ℕ) → find p (import_npu r fd (call (bo_export bo (some fd)) s)).buffers ≡ none
    buffers_eq fd = ap (find p) (buffers-import_npu r fd _) ∙ fresh

unmapped-Owes :
    (x : Resource) (bo : ℕ) (s : Shim)
    → Owes x (object_only x bo) s
    → Owes x 0 (call (bo_free bo) (call (bo_cpu_map bo none) s))
unmapped-Owes (object k) bo s h = ground arith
unmapped-Owes (mapping k) bo s h = ground arith
unmapped-Owes (descriptor n) bo s h = ground arith

mapped-Owes :
    (x : Resource) (bo p : ℕ) (s : Shim)
    → Owes x (object_only x bo) s
    → Owes x (object_and_mapping x bo) (call (bo_cpu_map bo (some p)) s)
mapped-Owes (object k) bo p s h = ground arith
mapped-Owes (mapping k) bo p s h = ground arith
mapped-Owes (descriptor n) bo p s h = ground arith

map_buffer-Owes :
    (x : Resource) (r : Replies) (size bo : ℕ) (s : Shim)
    → Fresh r s
    → Owes x (object_only x bo) s
    → Owes x 0 (map_buffer r size bo s).shim
unfolding map_buffer
map_buffer-Owes x r size bo s fresh h = elim (Option-cases r.cpu_ptr) [
  | inl e ↦ simp (e, map_buffer) (unmapped-Owes x bo s h)
  | inr (p, e) ↦
      simp (e, map_buffer) (export_buffer-Owes x r size bo p _ (fresh p e) (mapped-Owes x bo p s h))
]

allocated-Owes :
    (x : Resource) (size bo : ℕ) (s : Shim)
    → Owes x 0 s
    → Owes x (object_only x bo) (call (bo_alloc size (some bo)) s)
allocated-Owes (object k) size bo s h = ground arith
allocated-Owes (mapping k) size bo s h = ground arith
allocated-Owes (descriptor n) size bo s h = ground arith

quiet-Owes :
    (x : Resource) (size : ℕ) (s : Shim) → Owes x 0 s → Owes x 0 (call (bo_alloc size none) s)
quiet-Owes (object k) size s h = ground arith
quiet-Owes (mapping k) size s h = ground arith
quiet-Owes (descriptor n) size s h = ground arith

pub npu_malloc-Owes :
    (x : Resource) (r : Replies) (size : ℕ) (s : Shim)
    → Fresh r s
    → Owes x 0 s
    → Owes x 0 (npu_malloc r size s).shim
unfolding npu_malloc
npu_malloc-Owes x r size s fresh h = elim (Bool-cases (ensure_amdgpu r s).0) [
  | inr e ↦ simp (e, npu_malloc) ready
  | inl e ↦ elim (Option-cases r.bo) [
    | inl f ↦ simp (e, f, npu_malloc) (quiet-Owes x (page_round size) (ensure_amdgpu r s).1 ready)
    | inr (bo, f) ↦
        simp (e, f, npu_malloc)
          (map_buffer-Owes x r (page_round size) bo _
            (λ p g. ap (find p) (buffers-ensure_amdgpu r s) ∙ fresh p g)
            (allocated-Owes x (page_round size) bo (ensure_amdgpu r s).1 ready))
  ]
]
  where
    ready : Owes x 0 (ensure_amdgpu r s).1
    ready = ensure_amdgpu-Owes x r s h
