-- ===== src/DmaBuf/Gtt/Released.antt =====
-- What `gtt_alloc` takes, and what it and `gtt_free` give back.
use npu_gpu_cpu.Prelude.{ℕ, ◌+◌, ◌≡◌, true, false, some, List, arith}
use npu_gpu_cpu.DmaBuf.{Event, Replies}
use npu_gpu_cpu.DmaBuf.Returned.{
  Resource, device, object, gpu_mapping, npu_mapping, descriptor, taken_by, returned_by, total,
  Balanced,
}
use npu_gpu_cpu.DmaBuf.Gtt.{gtt_alloc, gtt_free}

module _ (r : Replies) (size fd_amdgpu fd_npu : ℕ) (log : List Event) where
  -- A buffer that is allocated and then released leaves nothing behind: every device, buffer object,
  -- mapping and descriptor has been given back as often as it was taken.
  pub gtt_free-gtt_alloc :
      (x : Resource)
      → (gtt_alloc r size fd_amdgpu fd_npu log).ok ≡ true
      → let a = gtt_alloc r size fd_amdgpu fd_npu log in Balanced x log (gtt_free a.buf a.log)
  unfolding gtt_alloc gtt_free
  gtt_free-gtt_alloc (device n) h = ground arith
  gtt_free-gtt_alloc (object n) h = ground arith
  gtt_free-gtt_alloc (gpu_mapping n) h = ground arith
  gtt_free-gtt_alloc (npu_mapping n) h = ground arith
  gtt_free-gtt_alloc (descriptor n) h = ground arith

  -- When an allocation fails after its buffer object has been made, it has given the object back, and has
  -- kept the device; a `gtt_free` on what it leaves gives the device back, and the object once more.
  pub gtt_alloc_failure :
      (dev bo : ℕ)
      → r.dev ≡ some dev
      → r.bo ≡ some bo
      → (gtt_alloc r size fd_amdgpu fd_npu log).ok ≡ false
      → let a = gtt_alloc r size fd_amdgpu fd_npu log in
        let log' = gtt_free a.buf a.log in
        (total (taken_by (object bo)) a.log + total (returned_by (object bo)) log
          ≡ total (returned_by (object bo)) a.log + total (taken_by (object bo)) log)
        × (total (taken_by (device dev)) a.log + total (returned_by (device dev)) log
            ≡ total (returned_by (device dev)) a.log + total (taken_by (device dev)) log + 1)
        × (total (taken_by (device dev)) log' + total (returned_by (device dev)) log
            ≡ total (returned_by (device dev)) log' + total (taken_by (device dev)) log)
        × (total (taken_by (object bo)) log' + total (returned_by (object bo)) log + 1
            ≡ total (returned_by (object bo)) log' + total (taken_by (object bo)) log)
  unfolding gtt_alloc gtt_free
  gtt_alloc_failure dev bo e f h = (ground arith, ground arith, ground arith, ground arith)
