-- ===== src/Hip/Memory/Examples.antt =====
-- Tests of the memory shim, and its theorems at concrete calls.
use mathlib.Core.Quot
use npu_gpu_cpu.Prelude.{
  ℕ, ◌+◌, ◌-◌, ◌^◌, ◌%◌, ◌≤◌, ◌<◌, ◌≡◌, ◌≢◌, ◌↔◌, refl, inr, pos, true, false, ◌||◌, none, some,
  List, [], ◌∷◌, arith,
}
use npu_gpu_cpu.Hip.{success, memory_allocation, invalid_value}
use npu_gpu_cpu.Hip.Memory.{
  npu_free, npu_malloc, ensure_amdgpu, map_buffer, export_buffer, import_npu, track, find, erase,
  insert, NpuBuffer, Replies, Shim, host_to_host, host_to_device, device_to_host, default_kind,
  lock, unlock, cpu_memcpy, real_free, is_tracked, page_round, hip_malloc, hip_free, hip_memcpy,
}
use npu_gpu_cpu.Hip.Memory.Size.{page_round_bounds, page_round_wraps}
use npu_gpu_cpu.Hip.Memory.Ledger.{descriptor, total, taken_by, returned_by, lost_by, held}
use npu_gpu_cpu.Hip.Memory.Render.{initialises, one_if_set}
use npu_gpu_cpu.Hip.Memory.Balance.{Reach, start, next, malloc, free, taken-returned}
use npu_gpu_cpu.Hip.Memory.Lock.{mutex, unlocked, Reach-mutex_free}
use npu_gpu_cpu.Hip.Memory.Contract
use npu_gpu_cpu.Hip.Memory.Contract.{promise, promise_all}
use npu_gpu_cpu.Hip.Memory.Refine.{perform_all, view, perform_all-promise_all}
use npu_gpu_cpu.Hip.Memory.Abstract.{perform_all-Abstract}
use npu_gpu_cpu.Hip.Memory.Dispatch.{
  hip_malloc_failure, hip_malloc_success, hip_free-hip_malloc, hip_memcpy-cpu_iff,
  hip_memcpy_refused, hip_free_twice,
}

abbrev replies : Replies
replies = record {
  render_fd = some 3;
  dev = some 1;
  bo = some 7;
  cpu_ptr = some 0x1000;
  export_handle = some 5;
  npu_fd = some 4;
  device_id = pos 1;
  gpu_count = pos 1;
  real_code = success;
  real_ptr = none;
}

abbrev loaded : Shim
loaded = record { amdgpu_dev = none; buffers = []; npu_available = false; log = [] }

abbrev allocated : Shim
allocated = (hip_malloc replies 1 100 loaded).shim

abbrev allocated-Reach : Reach allocated
unfolding find
allocated-Reach = next start (malloc replies 1 100 (λ p h. refl))

abbrev freed-Reach : Reach (hip_free replies 0x1000 allocated).shim
freed-Reach = next allocated-Reach (free replies 0x1000)

-- The rounded size of the buffer is what `npu_malloc` tracks.
allocated_buffers :
    allocated.buffers
    ≡ (0x1000, record { cpu_ptr = 0x1000; dmabuf_fd = 5; size = 4096; bo = 7 }) ∷ []
unfolding hip_malloc page_round insert
allocated_buffers = refl

-- A failed export unmaps and frees.
failed_export :
    (hip_malloc (record replies { export_handle = none }) 1 100 loaded).shim.buffers ≡ []
unfolding hip_malloc
failed_export = refl

taken-returned_example :
    let s = (hip_free replies 0x1000 allocated).shim in
    (total (taken_by (descriptor 3)) s.log
      ≡ total (returned_by (descriptor 3)) s.log
        + total (lost_by (descriptor 3)) s.log
        + held (descriptor 3) s.buffers)
    × (total (lost_by (descriptor 3)) s.log ≤ total initialises s.log)
    × (total initialises s.log ≡ one_if_set s.amdgpu_dev)
taken-returned_example = taken-returned freed-Reach (descriptor 3)

Reach-mutex_free_test : mutex (hip_free replies 0x1000 allocated).shim.log ≡ unlocked
Reach-mutex_free_test = Reach-mutex_free freed-Reach

hip_malloc_failure_test :
    let r = record replies { bo = none } in
    ((hip_malloc r 1 100 loaded).code ≡ memory_allocation)
    × ((hip_malloc r 1 100 loaded).stored ≡ none)
    × ((hip_malloc r 1 100 loaded).shim.buffers ≡ [])
unfolding hip_malloc
hip_malloc_failure_test =
    hip_malloc_failure (record replies { bo = none }) 1 100 loaded (omega arith) (omega arith)
      (ground arith) (ground arith)

hip_malloc_success_test :
    ((hip_malloc replies 1 100 loaded).code ≡ success)
    × ((hip_malloc replies 1 100 loaded).stored ≡ some 0x1000)
    × ((hip_malloc replies 1 100 loaded).shim.buffers
        ≡ insert 0x1000
            (record { cpu_ptr = 0x1000; dmabuf_fd = 5; size = page_round 100; bo = 7 })
            loaded.buffers)
unfolding ensure_amdgpu
hip_malloc_success_test =
    hip_malloc_success replies 1 100 loaded 0x1000 7 5 (omega arith) (omega arith) (ground arith)
      refl refl refl refl

hip_free-hip_malloc_example :
    ((hip_free replies 0x1000 allocated).code ≡ success)
    × ((hip_free replies 0x1000 allocated).shim.buffers ≡ [])
unfolding ensure_amdgpu find
hip_free-hip_malloc_example =
    hip_free-hip_malloc replies 1 100 loaded 0x1000 7 5 (omega arith) (omega arith) (ground arith)
      refl refl refl refl replies (omega arith) refl

hip_free_twice_test :
    ((hip_free replies 0x1000 allocated).code ≡ success)
    × (find 0x1000 (hip_free replies 0x1000 allocated).shim.buffers ≡ none)
    × ((hip_free replies 0x1000 (hip_free replies 0x1000 allocated).shim).code ≡ success)
    × ((hip_free replies 0x1000 (hip_free replies 0x1000 allocated).shim).shim.log
        ≡ unlock ∷ real_free 0x1000 ∷ lock ∷ (hip_free replies 0x1000 allocated).shim.log)
unfolding hip_malloc find insert
hip_free_twice_test = hip_free_twice replies replies 0x1000 allocated-Reach (omega arith) refl

hip_memcpy-cpu_iff_test :
    ((hip_memcpy replies 0x1000 0x8000 64 host_to_device allocated).shim.log
      ≡ unlock ∷ cpu_memcpy 0x1000 0x8000 64 ∷ lock ∷ allocated.log)
    ↔ ((is_tracked 0x8000 allocated.buffers || is_tracked 0x1000 allocated.buffers ≡ true)
        × (host_to_device ≢ host_to_host)
        × (host_to_device ≢ default_kind))
hip_memcpy-cpu_iff_test = hip_memcpy-cpu_iff replies 0x1000 0x8000 64 host_to_device allocated

hip_memcpy_refused_test :
    ((hip_memcpy replies 0x1000 0x8000 64 default_kind allocated).code ≡ invalid_value)
    × ((hip_memcpy replies 0x1000 0x8000 64 default_kind allocated).shim.log
        ≡ unlock ∷ lock ∷ allocated.log)
unfolding hip_malloc find insert
hip_memcpy_refused_test =
    hip_memcpy_refused replies 0x1000 0x8000 64 default_kind allocated refl (inr refl)

page_round_bounds_test :
    (5000 ≤ page_round 5000) × (page_round 5000 < 5000 + 4096) × (page_round 5000 % 4096 ≡ 0)
page_round_bounds_test = page_round_bounds 5000 (omega arith)

page_round_wraps_test : page_round (2 ^ 64 - 1) ≡ 0
page_round_wraps_test = page_round_wraps (2 ^ 64 - 1) (omega arith) (omega arith)

-- An allocation, a copy from it, its release, and a second release of the same address.
abbrev calls : List Contract.Call
calls =
    Contract.malloc replies 1 100
    ∷ Contract.memcpy replies 0x8000 0x1000 64 device_to_host
    ∷ Contract.free replies 0x1000
    ∷ Contract.free replies 0x1000
    ∷ []

perform_all-promise_all_example : perform_all calls loaded ≡ promise_all calls (view loaded)
perform_all-promise_all_example = perform_all-promise_all calls loaded tt

promised_results :
    promise_all calls (view loaded)
    ≡ (success, some 0x1000) ∷ (success, none) ∷ (success, none) ∷ (success, none) ∷ []
unfolding promise_all promise
promised_results = refl

abbrev first_buffer : NpuBuffer
first_buffer = record { cpu_ptr = 0x1000; dmabuf_fd = 5; size = 4096; bo = 7 }

abbrev second_buffer : NpuBuffer
second_buffer = record { cpu_ptr = 0x2000; dmabuf_fd = 6; size = 4096; bo = 8 }

-- Two buffers, in the order in which they came and in the other one.
abbrev two_buffers : Shim
two_buffers = record loaded { buffers = (0x1000, first_buffer) ∷ (0x2000, second_buffer) ∷ [] }

abbrev two_buffers_reversed : Shim
two_buffers_reversed = record loaded {
  buffers = (0x2000, second_buffer) ∷ (0x1000, first_buffer) ∷ [];
}

two_buffers_finds : (p : ℕ) → find p two_buffers.buffers ≡ find p two_buffers_reversed.buffers
unfolding find
two_buffers_finds p = ground arith

perform_all-Abstract_test : perform_all calls two_buffers ≡ perform_all calls two_buffers_reversed
unfolding find
perform_all-Abstract_test =
    perform_all-Abstract calls two_buffers two_buffers_reversed (refl, (refl, tt))
      (refl, (refl, tt)) (Quot.sound (refl, refl, refl, two_buffers_finds))

-- The descriptor of the render node is taken once, never given back, and lost once.
render_lost :
    let s = (hip_free replies 0x1000 allocated).shim in
    (total (taken_by (descriptor 3)) s.log ≡ 1)
    × (total (returned_by (descriptor 3)) s.log ≡ 0)
    × (total (lost_by (descriptor 3)) s.log ≡ 1)
unfolding hip_free npu_free hip_malloc npu_malloc ensure_amdgpu map_buffer export_buffer import_npu
    track find erase insert
render_lost = (refl, refl, refl)
