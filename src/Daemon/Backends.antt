-- ===== src/Daemon/Backends.antt =====
-- The processes of the backends in daemon/npu-gpu-cpud.py: `start` and `stop` of the two classes, `main`
-- with `shutdown`, and the answers of `do_GET`. What the operating system answers is an argument, and
-- what is asked of it is logged, latest first.
pub mod Left
use npu_gpu_cpu.Prelude.{
  ℕ, zero, suc, ◌+◌, Bool, true, false, Option, none, some, List, [], ◌∷◌, if◌then◌else◌,
}
use npu_gpu_cpu.Daemon.{Endpoint, health, models}

-- `subprocess.Popen`: a process, or a FileNotFoundError, or another exception.
pub data Spawn : Type 0 where
  spawned : ℕ → Spawn
  not_found refused : Spawn

pub data Event : Type 0 where
  spawn : Spawn → Event
  -- a request to `/api/v1/health`, and `time.sleep(1)`
  poll sleep : Event
  terminate : ℕ → Event
  -- whether the process ends within five seconds
  wait : ℕ → Bool → Event

-- `healthy i` is whether poll i is answered with 200, and `binds` whether the server gets its port.
pub record Answers : Type 0 where
  pub npu_spawn : Spawn
  pub gpu_spawn : Spawn
  pub healthy : ℕ → Bool
  pub binds : Bool
  pub npu_ends : Bool
  pub gpu_ends : Bool

-- `backends`: the attribute `process` of each.
pub record Processes : Type 0 where
  pub npu_process : Option ℕ
  pub gpu_process : Option ℕ

-- How the daemon ends: by `sys.exit(0)`, or by an exception that nothing catches.
pub data Ended : Type 0 where
  exits traceback : Ended

-- The loop over `range(30)`, from try i on.
unfoldable pub wait_ready : (ℕ → Bool) → ℕ → ℕ → List Event → List Event
wait_ready healthy i zero log = log
wait_ready healthy i (suc left) log =
    let rest = wait_ready healthy (suc i) left (sleep ∷ poll ∷ log) in
    if healthy i then poll ∷ log else rest

-- With the NPU's process already there; none is an exception.
unfoldable pub start_gpu : Answers → ℕ → List Event → Option Processes × List Event
start_gpu a npu log = elim a.gpu_spawn [
  | spawned pid ↦ (
    some (record { npu_process = some npu; gpu_process = some pid }),
    wait_ready a.healthy 0 30 (spawn (spawned pid) ∷ log),
  )
  | not_found ↦
      (some (record { npu_process = some npu; gpu_process = none }), spawn not_found ∷ log)
  | refused ↦ (none, spawn refused ∷ log)
]

-- `no_auto` is the option of that name.
unfoldable pub start_all : Bool → Answers → Option Processes × List Event
unfolding start_gpu
start_all no_auto a =
    if no_auto
    then (some (record { npu_process = none; gpu_process = none }), [])
    else elim a.npu_spawn [
      | spawned pid ↦ start_gpu a pid (spawn (spawned pid) ∷ [])
      | not_found ↦ (none, spawn not_found ∷ [])
      | refused ↦ (none, spawn refused ∷ [])
    ]

-- Whether it returns: `wait` raises a TimeoutExpired if the process does not end in time.
unfoldable pub stop : Option ℕ → Bool → List Event → Bool × List Event
stop none ends log = (true, log)
stop (some pid) ends log = (ends, wait pid ends ∷ terminate pid ∷ log)

unfoldable pub shutdown : Answers → Processes → List Event → Ended × List Event
unfolding stop
shutdown a p log =
    let (npu_done, log') = stop p.npu_process a.npu_ends log in
    let (gpu_done, log'') = stop p.gpu_process a.gpu_ends log' in
    if npu_done then (if gpu_done then exits else traceback, log'') else (traceback, log')

-- The daemon from its start to a signal.
unfoldable pub run : Bool → Answers → Ended × List Event
unfolding start_all shutdown
run no_auto a = elim (start_all no_auto a).0 [
  | none ↦ (traceback, (start_all no_auto a).1)
  | some p ↦
      if a.binds then shutdown a p (start_all no_auto a).1 else (traceback, (start_all no_auto a).1)
]

-- `process is not None`
abbrev pub is_some : Option ℕ → Bool
is_some none = false
is_some (some n) = true

-- The status, and for the health the availability of the NPU and of the GPU; the last argument is
-- whether the NPU's backend answers with its list of models.
unfoldable pub do_get : Endpoint → Processes → Bool → ℕ × Option (Bool × Bool)
do_get health p listed = (200, some (is_some p.npu_process, is_some p.gpu_process))
do_get models p listed = (if listed then 200 else 503, none)
do_get _ p listed = (404, none)
