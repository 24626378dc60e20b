-- ===== src/Hip/Memory/Lock.antt =====
-- `g_buf_mutex`, a mutex that is not recursive.
use npu_gpu_cpu.Prelude.{ℕ, ◌≡◌, refl, List, [], ◌∷◌, arith}
use npu_gpu_cpu.Hip.Memory.{
  Event, lock, unlock, Replies, Shim, MemcpyKind, host_to_device, device_to_host, hip_malloc,
  hip_free, hip_memcpy, hip_memcpy_htod, hip_memcpy_dtoh, hip_memcpy_dtod,
}
use npu_gpu_cpu.Hip.Memory.Balance.{
  Step, malloc, free, memcpy, memcpy_htod, memcpy_dtoh, memcpy_dtod, set_available, Reach, start,
  next,
}

-- `broken`: it was locked by the thread that held it already, or unlocked while free.
pub data Mutex : Type 0 where
  unlocked locked broken : Mutex

abbrev pub lock_after : Event → Mutex → Mutex
lock_after lock unlocked = locked
lock_after lock _ = broken
lock_after unlock locked = unlocked
lock_after unlock _ = broken
lock_after _ m = m

abbrev pub mutex : List Event → Mutex
mutex [] = unlocked
mutex (e ∷ log) = lock_after e (mutex log)

abbrev IsFree : Shim → Type 0
IsFree s = mutex s.log ≡ unlocked

hip_malloc-IsFree :
    (r : Replies) (ptr size : ℕ) (s : Shim) → IsFree s → IsFree (hip_malloc r ptr size s).shim
unfolding hip_malloc
hip_malloc-IsFree r ptr size s h = ground arith

hip_free-IsFree : (r : Replies) (p : ℕ) (s : Shim) → IsFree s → IsFree (hip_free r p s).shim
unfolding hip_free
hip_free-IsFree r p s h = ground arith

hip_memcpy-IsFree :
    (r : Replies) (dst src size : ℕ) (kind : MemcpyKind) (s : Shim)
    → IsFree s
    → IsFree (hip_memcpy r dst src size kind s).shim
unfolding hip_memcpy
hip_memcpy-IsFree r dst src size kind s h = ground arith

Step-IsFree : {s t : Shim} → Step s t → IsFree s → IsFree t
unfolding hip_memcpy_htod hip_memcpy_dtoh hip_memcpy_dtod
Step-IsFree {s} (malloc r ptr size fresh) h = hip_malloc-IsFree r ptr size s h
Step-IsFree {s} (free r p) h = hip_free-IsFree r p s h
Step-IsFree {s} (memcpy r dst src size kind) h = hip_memcpy-IsFree r dst src size kind s h
Step-IsFree {s} (memcpy_htod r dst src size) h = hip_memcpy-IsFree r dst src size host_to_device s h
Step-IsFree {s} (memcpy_dtoh r dst src size) h = hip_memcpy-IsFree r dst src size device_to_host s h
Step-IsFree {s} (memcpy_dtod r dst src size) h = h
Step-IsFree {s} (set_available b) h = h

-- No sequence of calls locks the mutex while it holds it or unlocks it while it is free, and every
-- call leaves it free, also `hipFree`, which hands over to `npu_free`, and the error returns.
pub Reach-mutex_free : {s : Shim} → Reach s → mutex s.log ≡ unlocked
Reach-mutex_free start = refl
Reach-mutex_free (next r st) = Step-IsFree st (Reach-mutex_free r)
