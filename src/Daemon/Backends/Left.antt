-- ===== src/Daemon/Backends/Left.antt =====
-- Which processes the daemon leaves behind.
use npu_gpu_cpu.Prelude.{
  ℕ, zero, suc, ◌+◌, ◌≤◌, ◌<◌, ◌≡◌, ◌≢◌, refl, ◌∙◌, ap, Bool, true, false, List, [], ◌∷◌, ◌==◌,
  if◌then◌else◌, arith,
}
use npu_gpu_cpu.Daemon.Backends.{
  Spawn, spawned, refused, Event, spawn, poll, sleep, terminate, Answers, exits, traceback,
  wait_ready, start_gpu, start_all, stop, shutdown, run,
}

abbrev one_if_same : ℕ → ℕ → ℕ
one_if_same a b = if a == b then 1 else 0

abbrev pub starts : ℕ → Event → ℕ
starts n (spawn (spawned pid)) = one_if_same pid n
starts n _ = 0

abbrev pub ends : ℕ → Event → ℕ
ends n (terminate pid) = one_if_same pid n
ends n _ = 0

abbrev pub polls : Event → ℕ
polls poll = 1
polls _ = 0

abbrev pub total : (Event → ℕ) → List Event → ℕ
total f [] = 0
total f (e ∷ log) = f e + total f log

module _ (n : ℕ) (healthy : ℕ → Bool) where
  wait_ready-starts :
      (i left : ℕ) (log : List Event)
      → (total (starts n) (wait_ready healthy i left log) ≡ total (starts n) log)
        × (total (ends n) (wait_ready healthy i left log) ≡ total (ends n) log)
  unfolding wait_ready
  wait_ready-starts i zero log = (refl, refl)
  wait_ready-starts i (suc left) log =
      let (s, e) = wait_ready-starts (suc i) left (sleep ∷ poll ∷ log) in
      (ground (arith, s), ground (arith, e))

-- The start asks for the health at most as often as there are tries, and no more once it is answered.
pub wait_ready-polls :
    (healthy : ℕ → Bool) (i left k : ℕ) (log : List Event)
    → k < left
    → healthy (i + k) ≡ true
    → total polls (wait_ready healthy i left log) ≤ total polls log + k + 1
unfolding wait_ready
wait_ready-polls healthy i zero k log lt h = absurd (omega arith)
wait_ready-polls healthy i (suc left) zero log lt h = ground arith
wait_ready-polls healthy i (suc left) (suc k) log lt h = ground (
  arith,
  wait_ready-polls healthy (suc i) left k (sleep ∷ poll ∷ log) (omega arith)
      (ap healthy {y = i + suc k} (omega arith) ∙ h),
)

stops_all :
    (no_auto : Bool) (a : Answers) (n : ℕ) (x y : Spawn)
    → a.npu_spawn ≡ x
    → a.gpu_spawn ≡ y
    → (run no_auto a).0 ≡ exits
    → total (starts n) (run no_auto a).1 ≡ total (ends n) (run no_auto a).1
unfolding run start_all start_gpu shutdown stop
stops_all no_auto a n (spawned npu) (spawned gpu) e e' h =
    let (s, t) =
      wait_ready-starts n a.healthy 0 30 (spawn (spawned gpu) ∷ spawn (spawned npu) ∷ []) in
    ground (arith, s, t)
stops_all no_auto a n _ _ e e' h = ground arith

-- When the daemon exits by `sys.exit`, every process has been terminated as often as it was started.
pub run_stops_all :
    (no_auto : Bool) (a : Answers) (n : ℕ)
    → (run no_auto a).0 ≡ exits
    → total (starts n) (run no_auto a).1 ≡ total (ends n) (run no_auto a).1
run_stops_all no_auto a n h = stops_all no_auto a n a.npu_spawn a.gpu_spawn refl refl h

-- If the process of the NPU does not end within five seconds, the daemon ends by an exception, and the
-- process of the GPU is never terminated.
pub run_leaves_gpu :
    (a : Answers) (npu gpu : ℕ)
    → a.npu_spawn ≡ spawned npu
    → a.gpu_spawn ≡ spawned gpu
    → npu ≢ gpu
    → a.npu_ends ≡ false
    → ((run false a).0 ≡ traceback)
      × (total (starts gpu) (run false a).1 ≡ 1)
      × (total (ends gpu) (run false a).1 ≡ 0)
unfolding run start_all start_gpu shutdown stop
run_leaves_gpu a npu gpu e e' ne h =
    let (s, t) =
      wait_ready-starts gpu a.healthy 0 30 (spawn (spawned gpu) ∷ spawn (spawned npu) ∷ []) in
    (ground arith, ground (arith, s), ground (arith, t))

-- If the start of the GPU's backend is refused otherwise than by a missing file, the daemon ends by an
-- exception, and the process of the NPU is never terminated.
pub run_leaves_npu :
    (a : Answers) (npu : ℕ)
    → a.npu_spawn ≡ spawned npu
    → a.gpu_spawn ≡ refused
    → run false a ≡ (traceback, spawn refused ∷ spawn (spawned npu) ∷ [])
unfolding run start_all start_gpu shutdown stop
run_leaves_npu a npu e e' = ground arith

-- If the server does not get its port, the daemon ends by an exception, and none of the processes that
-- it has started is terminated.
pub run_unbound :
    (a : Answers) (npu gpu n : ℕ)
    → a.npu_spawn ≡ spawned npu
    → a.gpu_spawn ≡ spawned gpu
    → a.binds ≡ false
    → ((run false a).0 ≡ traceback)
      × (total (starts n) (run false a).1 ≡ one_if_same npu n + one_if_same gpu n)
      × (total (ends n) (run false a).1 ≡ 0)
unfolding run start_all start_gpu
run_unbound a npu gpu n e e' h =
    let (s, t) =
      wait_ready-starts n a.healthy 0 30 (spawn (spawned gpu) ∷ spawn (spawned npu) ∷ []) in
    (ground arith, ground (arith, s), ground (arith, t))
