-- ===== src/Hip/Memory/Balance.antt =====
-- What the calls of the memory shim take and give back, over any sequence of them.
use npu_gpu_cpu.Prelude.{
  ℕ, ◌+◌, ◌≤◌, [], ◌≡◌, refl, inl, inr, none, Bool, false, arith, Option-cases,
}
use npu_gpu_cpu.Hip.Memory.{
  Replies, Shim, MemcpyKind, host_to_device, device_to_host, call, lock, unlock, find, npu_free,
  hip_malloc, hip_free, hip_memcpy, hip_memcpy_dtod, hip_memcpy_htod, hip_memcpy_dtoh,
}
use npu_gpu_cpu.Hip.Memory.Ledger.{
  Resource, object, mapping, descriptor, Owes, Balanced, total, taken_by, returned_by, lost_by,
  held, total-settled_by, held-erase,
}
use npu_gpu_cpu.Hip.Memory.Render.{
  initialises, one_if_set, Initialised, lost-le, hip_malloc-Initialised, hip_free-Initialised,
  hip_memcpy-Initialised, hip_memcpy_dtod-Initialised,
}
use npu_gpu_cpu.Hip.Memory.Malloc.{Fresh, npu_malloc-Owes}

npu_free-Owes : (x : Resource) (p : ℕ) (s : Shim) → Owes x 0 s → Owes x 0 (npu_free p s).shim
unfolding npu_free
npu_free-Owes (object k) p s h = elim (Option-cases (find p s.buffers)) [
  | inl e ↦ ground arith
  | inr (b, e) ↦ ground (arith, held-erase (object k) p b s.buffers e)
]
npu_free-Owes (mapping k) p s h = elim (Option-cases (find p s.buffers)) [
  | inl e ↦ ground arith
  | inr (b, e) ↦ ground (arith, held-erase (mapping k) p b s.buffers e)
]
npu_free-Owes (descriptor k) p s h = elim (Option-cases (find p s.buffers)) [
  | inl e ↦ ground arith
  | inr (b, e) ↦ ground (arith, held-erase (descriptor k) p b s.buffers e)
]

hip_malloc-Owes :
    (x : Resource) (r : Replies) (ptr size : ℕ) (s : Shim)
    → Fresh r s
    → Owes x 0 s
    → Owes x 0 (hip_malloc r ptr size s).shim
unfolding hip_malloc
hip_malloc-Owes (object k) r ptr size s fresh h =
    ground (arith, npu_malloc-Owes (object k) r size s fresh h)
hip_malloc-Owes (mapping k) r ptr size s fresh h =
    ground (arith, npu_malloc-Owes (mapping k) r size s fresh h)
hip_malloc-Owes (descriptor k) r ptr size s fresh h =
    ground (arith, npu_malloc-Owes (descriptor k) r size s fresh h)

hip_free-Owes :
    (x : Resource) (r : Replies) (p : ℕ) (s : Shim) → Owes x 0 s → Owes x 0 (hip_free r p s).shim
unfolding hip_free
hip_free-Owes (object k) r p s h =
    ground (arith, npu_free-Owes (object k) p (call unlock (call lock s)))
hip_free-Owes (mapping k) r p s h =
    ground (arith, npu_free-Owes (mapping k) p (call unlock (call lock s)))
hip_free-Owes (descriptor k) r p s h =
    ground (arith, npu_free-Owes (descriptor k) p (call unlock (call lock s)))

hip_memcpy-Owes :
    (x : Resource) (r : Replies) (dst src size : ℕ) (kind : MemcpyKind) (s : Shim)
    → Owes x 0 s
    → Owes x 0 (hip_memcpy r dst src size kind s).shim
unfolding hip_memcpy
hip_memcpy-Owes (object k) r dst src size kind s h = ground arith
hip_memcpy-Owes (mapping k) r dst src size kind s h = ground arith
hip_memcpy-Owes (descriptor k) r dst src size kind s h = ground arith

hip_memcpy_dtod-Owes :
    (x : Resource) (r : Replies) (dst src size : ℕ) (s : Shim)
    → Owes x 0 s
    → Owes x 0 (hip_memcpy_dtod r dst src size s).shim
unfolding hip_memcpy_dtod
hip_memcpy_dtod-Owes (object k) r dst src size s h = ground arith
hip_memcpy_dtod-Owes (mapping k) r dst src size s h = ground arith
hip_memcpy_dtod-Owes (descriptor k) r dst src size s h = ground arith

-- One call of the interface, with the answers that it gets from outside. Setting the flag
-- `g_npu_available`, which the source leaves to its users, is a step too.
pub data Step (s : Shim) : Shim → Type 0 where
  malloc : (r : Replies) (ptr size : ℕ) → Fresh r s → Step s (hip_malloc r ptr size s).shim
  free : (r : Replies) (p : ℕ) → Step s (hip_free r p s).shim
  memcpy :
      (r : Replies) (dst src size : ℕ) (kind : MemcpyKind)
      → Step s (hip_memcpy r dst src size kind s).shim
  memcpy_htod : (r : Replies) (dst src size : ℕ) → Step s (hip_memcpy_htod r dst src size s).shim
  memcpy_dtoh : (r : Replies) (dst src size : ℕ) → Step s (hip_memcpy_dtoh r dst src size s).shim
  memcpy_dtod : (r : Replies) (dst src size : ℕ) → Step s (hip_memcpy_dtod r dst src size s).shim
  set_available : (b : Bool) → Step s (record s { npu_available = b })

-- Any sequence of calls, from the globals as the library is loaded.
pub data Reach : Shim → Type 0 where
  start : Reach (record { amdgpu_dev = none; buffers = []; npu_available = false; log = [] })
  next : {s t : Shim} → Reach s → Step s t → Reach t

Step-Balanced : {s t : Shim} → Step s t → Balanced s → Balanced t
unfolding hip_memcpy_htod hip_memcpy_dtoh
Step-Balanced {s} (malloc r ptr size fresh) b x = hip_malloc-Owes x r ptr size s fresh (b x)
Step-Balanced {s} (free r p) b x = hip_free-Owes x r p s (b x)
Step-Balanced {s} (memcpy r dst src size kind) b x = hip_memcpy-Owes x r dst src size kind s (b x)
Step-Balanced {s} (memcpy_htod r dst src size) b x =
    hip_memcpy-Owes x r dst src size host_to_device s (b x)
Step-Balanced {s} (memcpy_dtoh r dst src size) b x =
    hip_memcpy-Owes x r dst src size device_to_host s (b x)
Step-Balanced {s} (memcpy_dtod r dst src size) b x = hip_memcpy_dtod-Owes x r dst src size s (b x)
Step-Balanced {s} (set_available f) b x = b x

Reach-Balanced : {s : Shim} → Reach s → Balanced s
Reach-Balanced start (object k) = refl
Reach-Balanced start (mapping k) = refl
Reach-Balanced start (descriptor k) = refl
Reach-Balanced (next r st) x = Step-Balanced st (Reach-Balanced r) x

Step-Initialised : {s t : Shim} → Step s t → Initialised s → Initialised t
unfolding hip_memcpy_htod hip_memcpy_dtoh
Step-Initialised {s} (malloc r ptr size fresh) h = hip_malloc-Initialised r ptr size s h
Step-Initialised {s} (free r p) h = hip_free-Initialised r p s h
Step-Initialised {s} (memcpy r dst src size kind) h = hip_memcpy-Initialised r dst src size kind s h
Step-Initialised {s} (memcpy_htod r dst src size) h =
    hip_memcpy-Initialised r dst src size host_to_device s h
Step-Initialised {s} (memcpy_dtoh r dst src size) h =
    hip_memcpy-Initialised r dst src size device_to_host s h
Step-Initialised {s} (memcpy_dtod r dst src size) h = hip_memcpy_dtod-Initialised r dst src size s h
Step-Initialised {s} (set_available f) h = h

Reach-Initialised : {s : Shim} → Reach s → Initialised s
Reach-Initialised start = refl
Reach-Initialised (next r st) = Step-Initialised st (Reach-Initialised r)

-- After any sequence of calls, error paths included, every buffer object, CPU mapping and file
-- descriptor was given back as often as it was taken, but for the tracked buffers that own it, and for
-- the descriptor of the render node, which is lost when its device is initialised. That happens at most
-- once, namely once if a device is set, and no descriptor is lost more often. Nothing else is leaked and
-- nothing is given back twice, if libdrm never maps a buffer at an address that is still mapped.
pub taken-returned :
    {s : Shim}
    → Reach s
    → (x : Resource)
    → (total (taken_by x) s.log
        ≡ total (returned_by x) s.log + total (lost_by x) s.log + held x s.buffers)
      × (total (lost_by x) s.log ≤ total initialises s.log)
      × (total initialises s.log ≡ one_if_set s.amdgpu_dev)
taken-returned {s} r x = (
  omega (arith, Reach-Balanced r x, total-settled_by x s.log),
  lost-le x s.log,
  Reach-Initialised r,
)
