-- ===== src/Hip/Threads/Mutex.antt =====
-- `g_buf_mutex` among the threads, and what the thread that holds it knows.
use npu_gpu_cpu.Prelude.{ℕ, ◌+◌, ◌≤◌, ◌≡◌, Bool, true, false, ◌||◌, some, ◌⊎◌, arith}
use npu_gpu_cpu.Hip.Memory.{Buffers, Replies, find, is_tracked}
use npu_gpu_cpu.Hip.Memory.Table.{Distinct, insert-Distinct, erase-Distinct}
use npu_gpu_cpu.Hip.Threads.{
  Pc, idle, tracks, looks, frees_real, hands_over, finds, closes, unmapping, freeing, erases,
  checks_copy, copying, leaves_copy, leaves, Globals, step,
}

-- 1 for a thread that holds the mutex.
abbrev pub inside : Pc → ℕ
inside (tracks b) = 1
inside (looks p) = 1
inside (frees_real p) = 1
inside (hands_over p) = 1
inside (finds p) = 1
inside (closes p b) = 1
inside (unmapping p b) = 1
inside (freeing p b) = 1
inside (erases p b) = 1
inside (checks_copy dst src size kind) = 1
inside (copying dst src size kind) = 1
inside (leaves_copy dst src size kind) = 1
inside (leaves c stored) = 1
inside _ = 0

abbrev pub one_if : Bool → ℕ
one_if true = 1
one_if false = 0

-- What the thread has found in the table still holds.
abbrev pub Holds : Pc → Buffers → Type 0
Holds (closes p b) bs = find p bs ≡ some b
Holds (unmapping p b) bs = find p bs ≡ some b
Holds (freeing p b) bs = find p bs ≡ some b
Holds (erases p b) bs = find p bs ≡ some b
Holds (copying dst src size kind) bs = is_tracked src bs || is_tracked dst bs ≡ true
Holds _ bs = Unit

pub outside-Holds : (pc : Pc) (bs : Buffers) → inside pc ≡ 0 → Holds pc bs
outside-Holds idle bs h = tt
outside-Holds _ bs h = ground arith

module _ (r : Replies) where
  pub step-inside :
      (pc pc' : Pc) (g g' : Globals)
      → step r pc g ≡ some (pc', g')
      → inside pc ≤ one_if g.held
      → inside pc' + one_if g.held ≡ inside pc + one_if g'.held
  unfolding step
  step-inside idle pc' g g' e h = ground arith
  step-inside _ pc' g g' e h = ground arith

  pub step-Holds :
      (pc pc' : Pc) (g g' : Globals)
      → step r pc g ≡ some (pc', g')
      → Holds pc g.shim.buffers
      → Holds pc' g'.shim.buffers
  unfolding step
  step-Holds idle pc' g g' e h = ground arith
  step-Holds _ pc' g g' e h = ground arith

  -- Only a thread that holds the mutex changes the table.
  pub step-buffers :
      (pc pc' : Pc) (g g' : Globals)
      → step r pc g ≡ some (pc', g')
      → (inside pc ≡ 1) ⊎ (g'.shim.buffers ≡ g.shim.buffers)
  unfolding step
  step-buffers idle pc' g g' e = ground arith
  step-buffers _ pc' g g' e = ground arith

  pub step-Distinct :
      (pc pc' : Pc) (g g' : Globals)
      → step r pc g ≡ some (pc', g')
      → Distinct g.shim.buffers
      → Distinct g'.shim.buffers
  unfolding step
  step-Distinct idle pc' g g' e d = ground arith
  step-Distinct (tracks b) pc' g g' e d = ground (arith, insert-Distinct b.cpu_ptr b g.shim.buffers)
  step-Distinct (erases p b) pc' g g' e d = ground (arith, erase-Distinct p g.shim.buffers)
  step-Distinct _ pc' g g' e d = ground arith
