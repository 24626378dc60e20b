-- ===== src/DmaBuf/Gtt/Direct.antt =====
-- `gtt_alloc` in tests/test_direct_npu_gemm.cpp, which does not look at the result of the export;
-- `gtt_free` is the same there.
use npu_gpu_cpu.Prelude.{
  ℕ, ◌+◌, ◌^◌, ◌<◌, ◌≡◌, true, Option, none, some, List, ◌∷◌, ltb, if◌then◌else◌, arith,
}
use npu_gpu_cpu.DmaBuf.{
  Event, device_initialize, bo_alloc, bo_export, bo_cpu_map, prime_import, bo_free, Replies,
}
use npu_gpu_cpu.DmaBuf.Returned.{
  Resource, device, object, gpu_mapping, npu_mapping, descriptor, taken_by, returned_by, total,
  Balanced,
}
use npu_gpu_cpu.DmaBuf.Gtt.{GttBuffer, Allocated, fails, cleared, gtt_free}

-- `(int)h`; none is a negative descriptor.
abbrev as_int : ℕ → Option ℕ
as_int h = if ltb h (2 ^ 31) then some h else none

-- `h` after the export, which a failing one leaves as it was.
abbrev exported : Option ℕ → ℕ → ℕ
exported none garbage = garbage
exported (some fd) garbage = fd

pub import_exported : Replies → ℕ → ℕ → GttBuffer → List Event → Allocated
import_exported r garbage fd_npu b log =
    let buf = record b { dmabuf_fd = as_int (exported r.export_handle garbage) } in
    elim r.gem_handle [
      | none ↦ fails buf (prime_import fd_npu none ∷ log)
      | some handle ↦ record {
        ok = true;
        buf = record buf { npu_handle = handle };
        log = prime_import fd_npu (some handle) ∷ log;
      }
    ]

pub map_and_export : Replies → ℕ → ℕ → ℕ → GttBuffer → List Event → Allocated
unfolding import_exported
map_and_export r garbage fd_npu bo b log = elim r.va [
  | none ↦ fails b (bo_free bo ∷ bo_cpu_map bo none ∷ log)
  | some p ↦
      import_exported r garbage fd_npu (record b { cpu_ptr = some p })
        (bo_export bo r.export_handle ∷ bo_cpu_map bo (some p) ∷ log)
]

-- `garbage` is what stands in `h`, which is not initialised.
unfoldable pub direct_alloc : Replies → ℕ → ℕ → ℕ → ℕ → List Event → Allocated
unfolding map_and_export
direct_alloc r garbage size fd_amdgpu fd_npu log = elim r.dev [
  | none ↦ fails (cleared size) (device_initialize fd_amdgpu none ∷ log)
  | some dev ↦
      let b = record (cleared size) { dev = some dev } in
      let log' = device_initialize fd_amdgpu (some dev) ∷ log in
      elim r.bo [
        | none ↦ fails b (bo_alloc dev none ∷ log')
        | some bo ↦
            map_and_export r garbage fd_npu bo (record b { bo = some bo })
              (bo_alloc dev (some bo) ∷ log')
      ]
]

module _ (r : Replies) (garbage size fd_amdgpu fd_npu : ℕ) (log : List Event) where
  -- If the mapping and the export succeed, with a descriptor below 2^31, a `gtt_free` on what the
  -- allocation leaves gives everything back as often as it was taken, whether the allocation has returned
  -- 0 or -1.
  pub gtt_free-direct_alloc :
      (x : Resource) (va fd : ℕ)
      → r.va ≡ some va
      → r.export_handle ≡ some fd
      → fd < 2 ^ 31
      → let a = direct_alloc r garbage size fd_amdgpu fd_npu log in
        Balanced x log (gtt_free a.buf a.log)
  unfolding direct_alloc gtt_free
  gtt_free-direct_alloc (device n) va fd h e lt = ground arith
  gtt_free-direct_alloc (object n) va fd h e lt = ground arith
  gtt_free-direct_alloc (gpu_mapping n) va fd h e lt = ground arith
  gtt_free-direct_alloc (npu_mapping n) va fd h e lt = ground arith
  gtt_free-direct_alloc (descriptor n) va fd h e lt = ground arith

  -- If the export fails and what stands in `h` is below 2^31, a `gtt_free` closes the descriptor of that
  -- number, which the allocation has not opened.
  pub direct_alloc_closes :
      (dev bo va : ℕ)
      → r.dev ≡ some dev
      → r.bo ≡ some bo
      → r.va ≡ some va
      → r.export_handle ≡ none
      → garbage < 2 ^ 31
      → let a = direct_alloc r garbage size fd_amdgpu fd_npu log in
        let log' = gtt_free a.buf a.log in
        (total (taken_by (descriptor garbage)) log' ≡ total (taken_by (descriptor garbage)) log)
        × (total (returned_by (descriptor garbage)) log'
            ≡ total (returned_by (descriptor garbage)) log + 1)
  unfolding direct_alloc gtt_free
  direct_alloc_closes dev bo va h e f g lt = (ground arith, ground arith)
