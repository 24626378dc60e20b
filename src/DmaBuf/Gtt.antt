-- ===== src/DmaBuf/Gtt.antt =====
-- `gtt_alloc` and `gtt_free` in tests/test_prepacked_gemm.cpp: a buffer of the GPU that the NPU imports.
-- Nothing in the program calls them. Direct has those of tests/test_direct_npu_gemm.cpp.
pub mod Released
pub mod Direct
use npu_gpu_cpu.Prelude.{ℕ, Bool, true, false, Option, none, some, List, [], ◌∷◌}
use npu_gpu_cpu.DmaBuf.{
  Event, device_initialize, bo_alloc, bo_export, bo_cpu_map, prime_import, close_fd, bo_cpu_unmap,
  bo_free, device_deinitialize, Replies,
}

-- `GTTBuffer`: none is a null pointer, and -1 for the descriptor. A handle of libdrm that a failing
-- call was to set stays null.
pub record GttBuffer : Type 0 where
  pub dev : Option ℕ
  pub bo : Option ℕ
  pub cpu_ptr : Option ℕ
  pub dmabuf_fd : Option ℕ
  pub npu_handle : ℕ
  pub size : ℕ

-- Whether it returned 0, the buffer as it is left, and the log.
pub record Allocated : Type 0 where
  pub ok : Bool
  pub buf : GttBuffer
  pub log : List Event

abbrev pub fails : GttBuffer → List Event → Allocated
fails b log = record { ok = false; buf = b; log = log }

pub import_npu : Replies → ℕ → ℕ → ℕ → GttBuffer → List Event → Allocated
import_npu r fd_npu bo fd b log = elim r.gem_handle [
  | none ↦ fails b (bo_free bo ∷ bo_cpu_unmap bo ∷ close_fd fd ∷ prime_import fd_npu none ∷ log)
  | some handle ↦ record {
    ok = true;
    buf = record b { npu_handle = handle };
    log = prime_import fd_npu (some handle) ∷ log;
  }
]

pub export_buffer : Replies → ℕ → ℕ → GttBuffer → List Event → Allocated
unfolding import_npu
export_buffer r fd_npu bo b log = elim r.export_handle [
  | none ↦ fails b (bo_free bo ∷ bo_cpu_unmap bo ∷ bo_export bo none ∷ log)
  | some fd ↦
      import_npu r fd_npu bo fd (record b { dmabuf_fd = some fd }) (bo_export bo (some fd) ∷ log)
]

pub map_buffer : Replies → ℕ → ℕ → GttBuffer → List Event → Allocated
unfolding export_buffer
map_buffer r fd_npu bo b log = elim r.va [
  | none ↦ fails b (bo_free bo ∷ bo_cpu_map bo none ∷ log)
  | some p ↦
      export_buffer r fd_npu bo (record b { cpu_ptr = some p }) (bo_cpu_map bo (some p) ∷ log)
]

pub alloc_buffer : Replies → ℕ → ℕ → GttBuffer → List Event → Allocated
unfolding map_buffer
alloc_buffer r fd_npu dev b log = elim r.bo [
  | none ↦ fails b (bo_alloc dev none ∷ log)
  | some bo ↦ map_buffer r fd_npu bo (record b { bo = some bo }) (bo_alloc dev (some bo) ∷ log)
]

-- The buffer after the `memset`.
abbrev pub cleared : ℕ → GttBuffer
cleared size = record {
  dev = none;
  bo = none;
  cpu_ptr = none;
  dmabuf_fd = none;
  npu_handle = 0;
  size = size;
}

unfoldable pub gtt_alloc : Replies → ℕ → ℕ → ℕ → List Event → Allocated
unfolding alloc_buffer
gtt_alloc r size fd_amdgpu fd_npu log = elim r.dev [
  | none ↦ fails (cleared size) (device_initialize fd_amdgpu none ∷ log)
  | some dev ↦
      alloc_buffer r fd_npu dev (record (cleared size) { dev = some dev })
        (device_initialize fd_amdgpu (some dev) ∷ log)
]

abbrev pub when_set : Option ℕ → (ℕ → Event) → List Event → List Event
when_set none e log = log
when_set (some n) e log = e n ∷ log

-- `if (buf->cpu_ptr) amdgpu_bo_cpu_unmap(buf->bo);`: the object of a mapped buffer is set.
abbrev unmap : Option ℕ → Option ℕ → List Event → List Event
unmap none bo log = log
unmap (some p) bo log = when_set bo bo_cpu_unmap log

unfoldable pub gtt_free : GttBuffer → List Event → List Event
gtt_free b log =
    when_set b.dev device_deinitialize
      (when_set b.bo bo_free (unmap b.cpu_ptr b.bo (when_set b.dmabuf_fd close_fd log)))
