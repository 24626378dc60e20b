-- ===== src/Hip/Memory/Dispatch.antt =====
-- What a caller of the interface sees: which calls the shim serves itself, and how an allocation
-- and its release fit together.
use npu_gpu_cpu.Prelude.{
  ℕ, ◌≡◌, ◌≢◌, ◌↔◌, ◌⊎◌, inl, inr, none, some, true, false, ◌||◌, arith, ltb_ℤ, Option-cases, ◌∷◌,
}
use npu_gpu_cpu.Hip.{success, memory_allocation, invalid_value}
use npu_gpu_cpu.Hip.Memory.{
  Replies, Shim, MemcpyKind, host_to_host, host_to_device, device_to_host, default_kind,
  hip_memcpy_htod, hip_memcpy_dtoh, hip_memcpy_dtod, cpu_memcpy, real_free, find, insert,
  is_tracked, page_round, ensure_amdgpu, hip_malloc, hip_free, hip_memcpy, lock, unlock,
}
use npu_gpu_cpu.Hip.Memory.Table.{
  Distinct, find-insert, erase-insert, find-erase, insert-Distinct, erase-Distinct,
}
use npu_gpu_cpu.Hip.Memory.Balance.{
  Reach, start, next, malloc, free, memcpy, memcpy_htod, memcpy_dtoh, memcpy_dtod, set_available,
}

module _ (r : Replies) (ptr size : ℕ) (s : Shim) where
  -- On the NPU an allocation of some bytes that fails stores nothing through `ptr` and tracks nothing, and its
  -- code is `hipErrorMemoryAllocation`.
  pub hip_malloc_failure :
      ptr ≢ 0
      → size ≢ 0
      → ltb_ℤ r.device_id r.gpu_count ≡ false
      → (hip_malloc r ptr size s).code ≢ success
      → ((hip_malloc r ptr size s).code ≡ memory_allocation)
        × ((hip_malloc r ptr size s).stored ≡ none)
        × ((hip_malloc r ptr size s).shim.buffers ≡ s.buffers)
  unfolding hip_malloc
  hip_malloc_failure hp hs hd hc = ground arith

  module _ (p bo fd : ℕ) (hp : ptr ≢ 0) (hs : size ≢ 0) (hd : ltb_ℤ r.device_id r.gpu_count ≡ false)
      (ready : (ensure_amdgpu r s).0 ≡ true) (hb : r.bo ≡ some bo) (hm : r.cpu_ptr ≡ some p)
      (he : r.export_handle ≡ some fd) where
    -- An allocation of some bytes on the NPU for which every call of libdrm succeeds stores the address of the
    -- mapping and tracks the buffer under it, with the rounded size.
    pub hip_malloc_success :
        ((hip_malloc r ptr size s).code ≡ success)
        × ((hip_malloc r ptr size s).stored ≡ some p)
        × ((hip_malloc r ptr size s).shim.buffers
            ≡ insert p
                (record { cpu_ptr = p; dmabuf_fd = fd; size = page_round size; bo = bo })
                s.buffers)
    unfolding hip_malloc
    hip_malloc_success = ground arith

    -- Freeing what was just allocated on the NPU by an allocation in which every call of libdrm
    -- succeeds, at an address that was not tracked, succeeds and leaves the table as it was before.
    pub hip_free-hip_malloc :
        (q : Replies)
        → p ≢ 0
        → find p s.buffers ≡ none
        → ((hip_free q p (hip_malloc r ptr size s).shim).code ≡ success)
          × ((hip_free q p (hip_malloc r ptr size s).shim).shim.buffers ≡ s.buffers)
    unfolding hip_free
    hip_free-hip_malloc q hq fresh = ground (
      arith,
      hip_malloc_success,
      find-insert p p (record { cpu_ptr = p; dmabuf_fd = fd; size = page_round size; bo = bo })
          s.buffers,
      erase-insert p (record { cpu_ptr = p; dmabuf_fd = fd; size = page_round size; bo = bo })
          s.buffers,
    )

-- `hipMemcpy` copies on the CPU exactly when one of the two pointers is the start of a tracked
-- buffer and the kind is neither host-to-host nor default.
pub hip_memcpy-cpu_iff :
    (r : Replies) (dst src size : ℕ) (kind : MemcpyKind) (s : Shim)
    → ((hip_memcpy r dst src size kind s).shim.log
        ≡ unlock ∷ cpu_memcpy dst src size ∷ lock ∷ s.log)
      ↔ ((is_tracked src s.buffers || is_tracked dst s.buffers ≡ true)
          × (kind ≢ host_to_host)
          × (kind ≢ default_kind))
unfolding hip_memcpy
hip_memcpy-cpu_iff r dst src size kind s = ground arith

-- A `hipMemcpy` between pointers of which one is tracked fails with `hipErrorInvalidValue` for the
-- two other kinds, and the real HIP is not asked.
pub hip_memcpy_refused :
    (r : Replies) (dst src size : ℕ) (kind : MemcpyKind) (s : Shim)
    → is_tracked src s.buffers || is_tracked dst s.buffers ≡ true
    → (kind ≡ host_to_host) ⊎ (kind ≡ default_kind)
    → ((hip_memcpy r dst src size kind s).code ≡ invalid_value)
      × ((hip_memcpy r dst src size kind s).shim.log ≡ unlock ∷ lock ∷ s.log)
unfolding hip_memcpy
hip_memcpy_refused r dst src size kind s t h = ground arith

pub hip_malloc-Distinct :
    (r : Replies) (ptr size : ℕ) (s : Shim)
    → Distinct s.buffers
    → Distinct (hip_malloc r ptr size s).shim.buffers
unfolding hip_malloc
hip_malloc-Distinct r ptr size s d = elim (Option-cases r.cpu_ptr) [
  | inl e ↦ ground arith
  | inr (p, e) ↦ elim (Option-cases r.bo) [
    | inl f ↦ ground arith
    | inr (bo, f) ↦ elim (Option-cases r.export_handle) [
      | inl g ↦ ground arith
      | inr (fd, g) ↦ ground (
        arith,
        insert-Distinct p (record { cpu_ptr = p; dmabuf_fd = fd; size = page_round size; bo = bo })
            s.buffers d,
      )
    ]
  ]
]

pub hip_free-Distinct :
    (r : Replies) (p : ℕ) (s : Shim) → Distinct s.buffers → Distinct (hip_free r p s).shim.buffers
unfolding hip_free
hip_free-Distinct r p s d = ground (arith, erase-Distinct p s.buffers d)

pub hip_memcpy-Distinct :
    (r : Replies) (dst src size : ℕ) (kind : MemcpyKind) (s : Shim)
    → Distinct s.buffers
    → Distinct (hip_memcpy r dst src size kind s).shim.buffers
unfolding hip_memcpy
hip_memcpy-Distinct r dst src size kind s d = ground arith

Reach-Distinct : {s : Shim} → Reach s → Distinct s.buffers
unfolding hip_memcpy_htod hip_memcpy_dtoh hip_memcpy_dtod
Reach-Distinct start = tt
Reach-Distinct (next {s = s} p (malloc r ptr size f)) =
    hip_malloc-Distinct r ptr size s (Reach-Distinct p)
Reach-Distinct (next {s = s} p (free r q)) = hip_free-Distinct r q s (Reach-Distinct p)
Reach-Distinct (next {s = s} p (memcpy r d c n k)) =
    hip_memcpy-Distinct r d c n k s (Reach-Distinct p)
Reach-Distinct (next {s = s} p (memcpy_htod r d c n)) =
    hip_memcpy-Distinct r d c n host_to_device s (Reach-Distinct p)
Reach-Distinct (next {s = s} p (memcpy_dtoh r d c n)) =
    hip_memcpy-Distinct r d c n device_to_host s (Reach-Distinct p)
Reach-Distinct (next p (memcpy_dtod r d c n)) = Reach-Distinct p
Reach-Distinct (next p (set_available b)) = Reach-Distinct p

-- In any state that calls lead to, freeing a tracked buffer succeeds and forgets it, so that a second
-- free of the same pointer releases nothing here: it is forwarded to the real HIP, whose code it
-- returns.
pub hip_free_twice :
    (q r : Replies) (p : ℕ) {s : Shim}
    → Reach s
    → p ≢ 0
    → is_tracked p s.buffers ≡ true
    → ((hip_free q p s).code ≡ success)
      × (find p (hip_free q p s).shim.buffers ≡ none)
      × ((hip_free r p (hip_free q p s).shim).code ≡ r.real_code)
      × ((hip_free r p (hip_free q p s).shim).shim.log
          ≡ unlock ∷ real_free p ∷ lock ∷ (hip_free q p s).shim.log)
unfolding hip_free
hip_free_twice q r p {s} reach hp t = ground (arith, find-erase p s.buffers (Reach-Distinct reach))
