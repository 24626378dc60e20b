-- ===== src/Hip/Threads/Alone.antt =====
-- A thread that is not disturbed: its steps, one after the other, are the call as one function.
use npu_gpu_cpu.Prelude.{ℕ, zero, suc, ◌≡◌, false, none, some, arith}
use npu_gpu_cpu.Hip.Memory.{Replies, Shim, MemcpyKind, hip_malloc, hip_free, hip_memcpy}
use npu_gpu_cpu.Hip.Memory.Contract.{Call, malloc, free, memcpy}
use npu_gpu_cpu.Hip.Memory.Refine.{perform}
use npu_gpu_cpu.Hip.Threads.{Pc, finished, Globals, step, entry}

-- Steps with the same answers until there is none, or the fuel is spent.
pub undisturbed : ℕ → Replies → Pc → Globals → Pc × Globals
unfolding step
undisturbed zero r pc g = (pc, g)
undisturbed (suc fuel) r pc g = elim (step r pc g) [
  | none ↦ (pc, g)
  | some (pc', g') ↦ undisturbed fuel r pc' g'
]

abbrev pub replies_of : Call → Replies
replies_of (malloc r ptr size) = r
replies_of (free r p) = r
replies_of (memcpy r dst src size kind) = r

free_alone :
    (r : Replies) (p : ℕ) (s : Shim)
    → undisturbed 16 r (entry (free r p)) (record { shim = s; held = false }) ≡ (
      finished (hip_free r p s).code (hip_free r p s).stored,
      record { shim = (hip_free r p s).shim; held = false },
    )
unfolding undisturbed entry hip_free
free_alone r p s = ground arith

memcpy_alone :
    (r : Replies) (dst src size : ℕ) (kind : MemcpyKind) (s : Shim)
    → undisturbed 16 r (entry (memcpy r dst src size kind)) (record { shim = s; held = false }) ≡ (
      finished (hip_memcpy r dst src size kind s).code (hip_memcpy r dst src size kind s).stored,
      record { shim = (hip_memcpy r dst src size kind s).shim; held = false },
    )
unfolding undisturbed entry hip_memcpy
memcpy_alone r dst src size kind s = ground arith

malloc_alone :
    (r : Replies) (ptr size : ℕ) (s : Shim)
    → undisturbed 16 r (entry (malloc r ptr size)) (record { shim = s; held = false }) ≡ (
      finished (hip_malloc r ptr size s).code (hip_malloc r ptr size s).stored,
      record { shim = (hip_malloc r ptr size s).shim; held = false },
    )
unfolding undisturbed entry hip_malloc
malloc_alone r ptr size s = ground arith

-- One thread alone, from a free mutex, comes to the end of its call in 16 steps at most, and has then
-- returned and stored what the function for the call does, left the globals as it does, made the same
-- calls in the same order, and left the mutex free.
pub undisturbed-perform :
    (c : Call) (s : Shim)
    → undisturbed 16 (replies_of c) (entry c) (record { shim = s; held = false }) ≡ (
      finished (perform c s).code (perform c s).stored,
      record { shim = (perform c s).shim; held = false },
    )
undisturbed-perform (malloc r ptr size) s = malloc_alone r ptr size s
undisturbed-perform (free r p) s = free_alone r p s
undisturbed-perform (memcpy r dst src size kind) s = memcpy_alone r dst src size kind s
