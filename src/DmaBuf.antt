-- ===== src/DmaBuf.antt =====
-- tests/test_gtt_dmabuf.cpp: the test of a buffer that the GPU and the NPU share; Gtt has the helpers of
-- tests/test_prepacked_gemm.cpp for such buffers. What libdrm and the kernel answer is an argument
-- (`Replies`), and what is asked of them is logged (`Event`), latest first.
pub mod ZeroCopy
pub mod Returned
pub mod Gtt
pub mod NpuDev
mod Examples
use npu_gpu_cpu.Prelude.{ℕ, Option, none, some, List, [], ◌∷◌, ◌++◌, Array}
use npu_gpu_cpu.DmaBuf.ZeroCopy.{Mapping, Verdict, test_zero_copy}

pub data Event : Type 0 where
  open_render open_npu : Option ℕ → Event
  device_initialize bo_alloc bo_export bo_cpu_map prime_import map_dmabuf : ℕ → Option ℕ → Event
  close_fd unmap_dmabuf bo_cpu_unmap bo_free device_deinitialize : ℕ → Event

-- `words` is the mapping that stands at an address.
pub record Replies : Type 0 where
  pub render_fd : Option ℕ
  pub dev : Option ℕ
  pub bo : Option ℕ
  pub export_handle : Option ℕ
  pub va : Option ℕ
  pub npu_fd : Option ℕ
  pub gem_handle : Option ℕ
  pub map : Option ℕ
  pub words : ℕ → Mapping

-- A function that logs its calls; `none` is a return of -1, or of 1 from `main`.
abbrev pub M : Type 0 → Type 0
M A = List Event → Option A × List Event

infixl 5 ◌>>=◌ ◌>>◌
abbrev pub ◌>>=◌ : {A B : Type 0} → M A → (A → M B) → M B
◌>>=◌ m f log = elim (m log).0 [ none ↦ (none, (m log).1) | some a ↦ f a (m log).1 ]

abbrev pub ◌>>◌ : {A B : Type 0} → M A → M B → M B
m >> k = m >>= λ _. k

abbrev pub returning : {A : Type 0} → A → M A
returning a log = (some a, log)

abbrev ask : (Option ℕ → Event) → Option ℕ → M ℕ
ask e o log = (o, e o ∷ log)

abbrev does : Event → M (Unit {0})
does e log = (some tt, e ∷ log)

-- The calls that a failing branch makes before it returns, latest first.
abbrev or_undo : {A : Type 0} → M A → List Event → M A
or_undo m undo log = elim (m log).0 [
  | none ↦ (none, undo ++ (m log).1)
  | some a ↦ (some a, (m log).1)
]

-- `struct amdgpu_bo` as `amdgpu_alloc_gtt` fills it.
pub record GttBuffer : Type 0 where
  pub bo : ℕ
  pub handle : ℕ
  pub va : ℕ

unfoldable pub alloc_gtt : Replies → ℕ → M GttBuffer
alloc_gtt r dev = do
  bo ← ask (bo_alloc dev) r.bo
  handle ← or_undo (ask (bo_export bo) r.export_handle) (bo_free bo ∷ [])
  va ← or_undo (ask (bo_cpu_map bo) r.va) (bo_free bo ∷ close_fd handle ∷ [])
  returning (record { bo = bo; handle = handle; va = va })

-- The address of the mapping.
unfoldable pub import_dmabuf : Replies → ℕ → ℕ → M ℕ
import_dmabuf r npu handle = do
  gem ← ask (prime_import npu) r.gem_handle
  ask (map_dmabuf handle) r.map

-- SIZE / 4
abbrev pub num_words : ℕ
num_words = 16384

unfoldable pub main : Replies → Array ℕ → M (Verdict × Array ℕ)
unfolding alloc_gtt import_dmabuf
main r m = do
  render ← ask open_render r.render_fd
  dev ← ask (device_initialize render) r.dev
  gpu ← alloc_gtt r dev
  npu ← ask open_npu r.npu_fd
  map ← import_dmabuf r npu gpu.handle
  does (unmap_dmabuf map)
  does (close_fd npu)
  does (bo_cpu_unmap gpu.bo)
  does (close_fd gpu.handle)
  does (bo_free gpu.bo)
  does (device_deinitialize dev)
  does (close_fd render)
  returning (test_zero_copy (r.words gpu.va) (r.words map) num_words m)
