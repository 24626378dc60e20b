-- ===== src/Hip/Threads/Safety.antt =====
-- What no order of the threads' steps can break.
use npu_gpu_cpu.Prelude.{
  ℕ, ◌+◌, ◌<◌, ◌≡◌, ◌≢◌, refl, true, false, ◌||◌, none, ◌⊎◌, inl, inr, Bool-cases, arith,
}
use npu_gpu_cpu.Hip.Memory.{Replies, MemcpyKind, is_tracked}
use npu_gpu_cpu.Hip.Memory.Ledger.{
  Resource, taken_by, returned_by, lost_by, total, held, total-settled_by,
}
use npu_gpu_cpu.Hip.Threads.{Pc, idle, finished, begins_free, copying, Globals, step, System}
use npu_gpu_cpu.Hip.Threads.Count.{sum_over_none, le-sum_over, two-le-sum_over, of_sum_over_pos}
use npu_gpu_cpu.Hip.Threads.Hand.{in_hand, given_back}
use npu_gpu_cpu.Hip.Threads.Orders.{Reach, IsReady}
use npu_gpu_cpu.Hip.Threads.Empty.{ready-IsEmpty}
use npu_gpu_cpu.Hip.Threads.Invariant.{Reach-Inv}
use npu_gpu_cpu.Hip.Threads.Mutex.{inside}

-- Whatever the order in which the threads have made their steps: when none of them is in a call, every
-- buffer object, CPU mapping and file descriptor has been given back as often as it was taken, but
-- for the tracked buffers that own it, and for the descriptors of the render node whose device was
-- initialised, which are never closed, if libdrm never maps a buffer at an address where a mapping
-- stands.
pub taken-returned_threads :
    (n : ℕ) {s : System}
    → Reach n s
    → ((i : ℕ) → i < n → IsReady (s.pcs i))
    → (x : Resource)
    → total (taken_by x) s.globals.shim.log
      ≡ total (returned_by x) s.globals.shim.log
        + total (lost_by x) s.globals.shim.log
        + held x s.globals.shim.buffers
taken-returned_threads n {s} r ready x = omega (
  arith,
  (Reach-Inv n r).balanced x,
  total-settled_by x s.globals.shim.log,
  sum_over_none (in_hand x) n s.pcs (λ i lt. (ready-IsEmpty (s.pcs i) (ready i lt)).no_resource x),
  sum_over_none (given_back x) n s.pcs
      (λ i lt. (ready-IsEmpty (s.pcs i) (ready i lt)).none_given x),
)

alone_inside :
    (n : ℕ) {s : System} (i j : ℕ)
    → Reach n s
    → i < n
    → j < n
    → j ≢ i
    → inside (s.pcs i) ≡ 1
    → inside (s.pcs j) ≡ 0
alone_inside n {s} i j r lt lt' ne one =
    ground (arith, two-le-sum_over inside n s.pcs j i lt' lt ne, (Reach-Inv n r).mutex)

-- While a thread copies on the CPU, the source or the destination is a tracked buffer, and no other
-- thread holds the mutex.
pub copying-tracked :
    (n : ℕ) {s : System} (i dst src size : ℕ) (kind : MemcpyKind)
    → Reach n s
    → i < n
    → s.pcs i ≡ copying dst src size kind
    → (is_tracked src s.globals.shim.buffers || is_tracked dst s.globals.shim.buffers ≡ true)
      × ((j : ℕ) → j < n → j ≢ i → inside (s.pcs j) ≡ 0)
copying-tracked n {s} i dst src size kind r lt e =
    let h = (Reach-Inv n r).knows i lt in
    (rw e at h, λ j lt' ne. alone_inside n i j r lt lt' ne (rw e refl))

-- A thread that is in a call can step if the mutex is free, and one that holds it can step anyway.
step-some :
    (r : Replies) (pc : Pc) (g : Globals)
    → (IsReady pc → ⊥)
    → (g.held ≡ false) ⊎ (inside pc ≡ 1)
    → step r pc g ≢ none
unfolding step
step-some r idle g busy free e = busy tt
step-some r (finished c stored) g busy free e = busy tt
step-some r (begins_free p) g busy free e = ground arith
step-some r _ g busy free e = ground arith

inside-busy : (pc : Pc) → inside pc ≡ 1 → IsReady pc → ⊥
inside-busy idle h k = ground arith
inside-busy _ h k = ground arith

-- No deadlock: as long as some thread is in a call, a thread can make a step, whatever it is answered;
-- if that is not the thread itself, it is one that holds the mutex.
pub Reach-progress :
    (n : ℕ) {s : System} (i : ℕ) (r : Replies)
    → Reach n s
    → i < n
    → ¬ (IsReady (s.pcs i))
    → (step r (s.pcs i) s.globals ≢ none)
      ⊎ ((j : ℕ) × (j < n) × (inside (s.pcs j) ≡ 1) × (step r (s.pcs j) s.globals ≢ none))
Reach-progress n {s} i r reach lt busy = elim (Bool-cases s.globals.held) [
  | inr free ↦ inl (step-some r (s.pcs i) s.globals busy (inl free))
  | inl taken ↦
      let (j, lt', p) =
        of_sum_over_pos inside n s.pcs (ground (arith, (Reach-Inv n reach).mutex)) in
      let one : inside (s.pcs j) ≡ 1 =
        ground (arith, le-sum_over inside n s.pcs j lt', (Reach-Inv n reach).mutex) in
      inr (j, lt', one, step-some r (s.pcs j) s.globals (inside-busy (s.pcs j) one) (inr one))
]
