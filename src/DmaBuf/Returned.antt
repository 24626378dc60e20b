-- ===== src/DmaBuf/Returned.antt =====
-- What `main` of tests/test_gtt_dmabuf.cpp takes from libdrm and the kernel, and gives back.
use npu_gpu_cpu.Prelude.{ℕ, ◌+◌, ◌≡◌, none, some, List, [], ◌∷◌, Array, arith, ◌==◌, if◌then◌else◌}
use npu_gpu_cpu.DmaBuf.ZeroCopy.{Verdict}
use npu_gpu_cpu.DmaBuf.{
  Event, open_render, open_npu, device_initialize, bo_alloc, bo_export, bo_cpu_map, map_dmabuf,
  close_fd, unmap_dmabuf, bo_cpu_unmap, bo_free, device_deinitialize, Replies, alloc_gtt, main,
}

-- A mapping of the GPU is known by its buffer object, that of the NPU's side by its address.
pub data Resource : Type 0 where
  device object gpu_mapping npu_mapping descriptor : ℕ → Resource

abbrev pub one_if_same : ℕ → ℕ → ℕ
one_if_same a b = if a == b then 1 else 0

abbrev pub taken_by : Resource → Event → ℕ
taken_by (device n) (device_initialize fd (some k)) = one_if_same k n
taken_by (object n) (bo_alloc dev (some k)) = one_if_same k n
taken_by (gpu_mapping n) (bo_cpu_map bo (some va)) = one_if_same bo n
taken_by (npu_mapping n) (map_dmabuf fd (some k)) = one_if_same k n
taken_by (descriptor n) (open_render (some k)) = one_if_same k n
taken_by (descriptor n) (open_npu (some k)) = one_if_same k n
taken_by (descriptor n) (bo_export bo (some k)) = one_if_same k n
taken_by _ _ = 0

abbrev pub returned_by : Resource → Event → ℕ
returned_by (device n) (device_deinitialize k) = one_if_same k n
returned_by (object n) (bo_free k) = one_if_same k n
returned_by (gpu_mapping n) (bo_cpu_unmap k) = one_if_same k n
returned_by (npu_mapping n) (unmap_dmabuf k) = one_if_same k n
returned_by (descriptor n) (close_fd k) = one_if_same k n
returned_by _ _ = 0

abbrev pub total : (Event → ℕ) → List Event → ℕ
total f [] = 0
total f (e ∷ log) = f e + total f log

-- Between the two logs as much is given back as is taken.
abbrev pub Balanced : Resource → List Event → List Event → Type 0
Balanced x log log' =
    total (taken_by x) log' + total (returned_by x) log
    ≡ total (returned_by x) log' + total (taken_by x) log

-- An allocation that fails gives back what it has taken.
pub alloc_gtt_failure :
    (r : Replies) (dev : ℕ) (log : List Event) (x : Resource)
    → (alloc_gtt r dev log).0 ≡ none
    → Balanced x log (alloc_gtt r dev log).1
unfolding alloc_gtt
alloc_gtt_failure r dev log (device n) h = ground arith
alloc_gtt_failure r dev log (object n) h = ground arith
alloc_gtt_failure r dev log (gpu_mapping n) h = ground arith
alloc_gtt_failure r dev log (npu_mapping n) h = ground arith
alloc_gtt_failure r dev log (descriptor n) h = ground arith

-- When `main` comes to its end, whatever the test finds, every device, buffer object, mapping and
-- descriptor has been given back as often as it was taken.
pub main_returns_all :
    (r : Replies) (m : Array ℕ) (log : List Event) (v : Verdict × Array ℕ) (x : Resource)
    → (main r m log).0 ≡ some v
    → Balanced x log (main r m log).1
unfolding main
main_returns_all r m log v (device n) h = ground arith
main_returns_all r m log v (object n) h = ground arith
main_returns_all r m log v (gpu_mapping n) h = ground arith
main_returns_all r m log v (npu_mapping n) h = ground arith
main_returns_all r m log v (descriptor n) h = ground arith
