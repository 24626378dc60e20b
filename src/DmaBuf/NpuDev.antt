-- ===== src/DmaBuf/NpuDev.antt =====
-- tests/test_npu_dev.cpp: the test that the NPU's device opens and gives a buffer. What the kernel
-- answers is an argument, and what is asked of it is logged, latest first.
use npu_gpu_cpu.Prelude.{
  ℕ, ◌+◌, ◌≡◌, ◌≢◌, ◌↔◌, Bool, Option, none, some, List, [], ◌∷◌, ◌==◌, if◌then◌else◌, arith,
}

pub data Event : Type 0 where
  open_npu : Option ℕ → Event
  create_bo handle_to_fd : ℕ → Option ℕ → Event
  get_info : ℕ → Bool → Event
  close_fd : ℕ → Event

pub record Answers : Type 0 where
  pub npu_fd : Option ℕ
  pub bo : Option ℕ
  pub prime_fd : Option ℕ
  pub info : Bool

-- The export: a failure is only printed.
unfoldable pub export_bo : Answers → ℕ → List Event → List Event
export_bo a handle log = elim a.prime_fd [
  | none ↦ handle_to_fd handle none ∷ log
  | some fd ↦ close_fd fd ∷ handle_to_fd handle (some fd) ∷ log
]

-- The exit code and the log.
unfoldable pub main : Answers → ℕ × List Event
unfolding export_bo
main a = elim a.npu_fd [
  | none ↦ (1, open_npu none ∷ [])
  | some fd ↦ elim a.bo [
    | none ↦ (1, close_fd fd ∷ create_bo fd none ∷ open_npu (some fd) ∷ [])
    | some handle ↦ (
      0,
      close_fd fd
          ∷ get_info fd a.info
          ∷ export_bo a handle (create_bo fd (some handle) ∷ open_npu (some fd) ∷ []),
    )
  ]
]

abbrev one_if_same : ℕ → ℕ → ℕ
one_if_same a b = if a == b then 1 else 0

abbrev pub opened : ℕ → List Event → ℕ
opened n [] = 0
opened n (open_npu (some fd) ∷ log) = one_if_same fd n + opened n log
opened n (handle_to_fd handle (some fd) ∷ log) = one_if_same fd n + opened n log
opened n (_ ∷ log) = opened n log

abbrev pub closed : ℕ → List Event → ℕ
closed n [] = 0
closed n (close_fd fd ∷ log) = one_if_same fd n + closed n log
closed n (_ ∷ log) = closed n log

-- Every descriptor is closed as often as it was opened, on every path, and the exit code is 0 exactly if
-- the device opens and gives a buffer, whatever comes of the export and of the query.
pub npu_dev_main_lem :
    (a : Answers) (n : ℕ)
    → (opened n (main a).1 ≡ closed n (main a).1)
      × (((main a).0 ≡ 0) ↔ ((a.npu_fd ≢ none) × (a.bo ≢ none)))
unfolding main
npu_dev_main_lem a n = ground arith
