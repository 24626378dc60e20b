-- ===== src/Driver/Manager.antt =====
-- patches/amdgpu_npu_mgr.c: GTT buffers that are pinned for the NPU. The results of the amdgpu
-- functions are arguments; the calls are logged, latest first.
pub mod Pinned
mod Examples
use npu_gpu_cpu.Prelude.{
  ℕ, ◌+◌, ◌*◌, ◌/◌, ◌%◌, ◌^◌, ℤ, pos, nonzero, Option, none, some, List, [], ◌∷◌, if◌then◌else◌,
}

pub data Event : Type 0 where
  bo_alloc : ℕ → ℤ → ℕ → Event
  bo_pin bo_unpin bo_free : ℕ → Event
  pin_failed : ℕ → Event
  bo_export : ℕ → ℤ → Event

-- `PAGE_ALIGN` of a 64-bit size.
pub page_align : ℕ → ℕ
page_align size = (size + 4095) % 2 ^ 64 / 4096 * 4096

-- `alloc_ret`, `bo` and `pin_ret` are what amdgpu_bo_alloc and amdgpu_bo_pin answer. The result: the
-- code, what is stored through `bo` (nothing if the allocation failed), and the log.
pub alloc_gtt : ℤ → ℕ → ℤ → ℕ → List Event → ℤ × Option ℕ × List Event
alloc_gtt alloc_ret bo pin_ret size log =
    let log₁ = bo_alloc (page_align size) alloc_ret bo ∷ log in
    if nonzero alloc_ret
    then (alloc_ret, none, log₁)
    else if nonzero pin_ret
    then (pin_ret, some bo, bo_free bo ∷ pin_failed bo ∷ log₁)
    else (pos 0, some bo, bo_pin bo ∷ log₁)

-- A null pointer is `none`.
pub free_gtt : Option ℕ → List Event → List Event
free_gtt none log = log
free_gtt (some bo) log = bo_free bo ∷ bo_unpin bo ∷ log

-- The code, and what is stored through `fd`.
pub export_dmabuf : ℤ → ℕ → ℕ → List Event → ℤ × Option ℕ × List Event
export_dmabuf ret handle bo log =
    if nonzero ret
    then (ret, none, bo_export bo ret ∷ log)
    else (pos 0, some handle, bo_export bo ret ∷ log)
