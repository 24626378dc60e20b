-- ===== src/Hip/Threads/Examples.antt =====
-- Two threads: one allocates, then both free the same pointer; and the race for the device.
use npu_gpu_cpu.Prelude.{
  ℕ, zero, suc, ◌<◌, ◌+◌, ◌≡◌, ◌≢◌, ◌⊎◌, refl, pos, true, false, ◌||◌, none, some, List, [], ◌∷◌,
  ◌++◌, write, arith,
}
use npu_gpu_cpu.Hip.{success, invalid_value}
use npu_gpu_cpu.Hip.Memory.{
  Replies, host_to_device, device_initialize, open_render, find, insert, erase, is_tracked,
}
use npu_gpu_cpu.Hip.Memory.Contract.{malloc, memcpy}
use npu_gpu_cpu.Hip.Memory.Ledger.{mapping, total, taken_by, returned_by, lost_by, held}
use npu_gpu_cpu.Hip.Memory.Refine.{perform}
use npu_gpu_cpu.Hip.Threads.{
  finished, checks_dev, allocates, begins_free, System, moves, step, entry,
}
use npu_gpu_cpu.Hip.Threads.Alone.{undisturbed, undisturbed-perform}
use npu_gpu_cpu.Hip.Threads.Orders.{Reach, start, next, runs, calls, loaded, IsReady}
use npu_gpu_cpu.Hip.Threads.Mutex.{inside}
use npu_gpu_cpu.Hip.Threads.Count.{sum_over}
use npu_gpu_cpu.Hip.Threads.Hand.{newly_mapped}
use npu_gpu_cpu.Hip.Threads.Race.{follow, ensure_amdgpu_race}
use npu_gpu_cpu.Hip.Threads.Safety.{taken-returned_threads, copying-tracked, Reach-progress}

abbrev replies : Replies
replies = record {
  render_fd = some 3;
  dev = some 1;
  bo = some 7;
  cpu_ptr = some 0x1000;
  export_handle = some 5;
  npu_fd = some 4;
  device_id = pos 1;
  gpu_count = pos 1;
  real_code = success;
  real_ptr = none;
}

abbrev times : ℕ → ℕ → List (ℕ × Replies)
times zero i = []
times (suc n) i = (i, replies) ∷ times n i

abbrev allocated : System
allocated =
    follow (times 12 0) (record loaded { pcs = write 0 (entry (malloc replies 1 100)) loaded.pcs })

-- Both threads are told that the pointer is theirs before either has freed it.
abbrev freed_twice : System
freed_twice = follow (times 3 0 ++ times 3 1 ++ times 7 0 ++ times 4 1) (record allocated {
  pcs = write 0 (begins_free 0x1000) (write 1 (begins_free 0x1000) allocated.pcs);
})

allocated_result : allocated.pcs 0 ≡ finished success (some 0x1000)
unfolding follow entry
allocated_result = refl

freed_twice_results :
    (freed_twice.pcs 0 ≡ finished success none) × (freed_twice.pcs 1 ≡ finished invalid_value none)
unfolding follow entry find insert erase
freed_twice_results = (refl, refl)

undisturbed-perform_example :
    undisturbed 16 replies
      (entry (malloc replies 1 100))
      (record { shim = loaded.globals.shim; held = false })
    ≡ (
      finished
          (perform (malloc replies 1 100) loaded.globals.shim).code
          (perform (malloc replies 1 100) loaded.globals.shim).stored,
      record { shim = (perform (malloc replies 1 100) loaded.globals.shim).shim; held = false },
    )
undisturbed-perform_example = undisturbed-perform (malloc replies 1 100) loaded.globals.shim

-- Thread 1 has begun to allocate, and thread 0 has begun to copy.
abbrev begun : System
begun = record loaded { pcs = write 1 (entry (malloc replies 1 100)) loaded.pcs }

begun-Reach : Reach 2 begun
begun-Reach = next start (calls 1 (malloc replies 1 100) (omega arith) tt)

Reach-progress_example :
    (step replies (begun.pcs 1) begun.globals ≢ none)
    ⊎ ((j : ℕ) × (j < 2)
        × (inside (begun.pcs j) ≡ 1)
        × (step replies (begun.pcs j) begun.globals ≢ none))
unfolding entry
Reach-progress_example = Reach-progress 2 1 replies begun-Reach (omega arith) (λ h. h)

-- Thread 0 makes k steps; nothing but its sixth maps anything.
abbrev after : ℕ → System → System
after zero s = s
after (suc k) s = moves replies 0 (after k s)

abbrev begun_malloc : System
begun_malloc = record loaded { pcs = write 0 (entry (malloc replies 1 100)) loaded.pcs }

not_mapping :
    {s : System}
    → Reach 2 s
    → ((a : ℕ) → newly_mapped a replies (s.pcs 0) ≡ 0)
    → Reach 2 (moves replies 0 s)
not_mapping r h = next r (runs 0 replies (omega arith) (λ a e. absurd (omega (arith, h a))))

about_to_map-Reach : Reach 2 (after 5 begun_malloc)
unfolding moves entry
about_to_map-Reach =
    not_mapping
      (not_mapping
        (not_mapping
          (not_mapping
            (not_mapping (next start (calls 0 (malloc replies 1 100) (omega arith) tt)) (λ a. refl))
            (λ a. refl))
          (λ a. refl))
        (λ a. refl))
      (λ a. refl)

mapped-Reach : Reach 2 (after 6 begun_malloc)
unfolding moves entry sum_over find
mapped-Reach = next about_to_map-Reach (runs 0 replies (omega arith) (λ a e. omega arith))

allocated-Reach : Reach 2 (after 11 begun_malloc)
unfolding moves entry
allocated-Reach =
    not_mapping
      (not_mapping
        (not_mapping (not_mapping (not_mapping mapped-Reach (λ a. refl)) (λ a. refl)) (λ a. refl))
        (λ a. refl))
      (λ a. refl)

taken-returned_threads_example :
    let s = (after 11 begun_malloc).globals.shim in
    total (taken_by (mapping 7)) s.log
    ≡ total (returned_by (mapping 7)) s.log
      + total (lost_by (mapping 7)) s.log
      + held (mapping 7) s.buffers
unfolding moves entry
taken-returned_threads_example = taken-returned_threads 2 allocated-Reach all_ready (mapping 7)
  where
    all_ready : (i : ℕ) → i < 2 → IsReady ((after 11 begun_malloc).pcs i)
    all_ready zero h = tt
    all_ready (suc zero) h = tt
    all_ready (suc (suc i)) h = absurd (omega arith)

abbrev begun_copy : System
begun_copy = record (after 11 begun_malloc) {
  pcs =
      write 0 (entry (memcpy replies 0x1000 0x8000 64 host_to_device)) (after 11 begun_malloc).pcs;
}

copying-Reach : Reach 2 (after 2 begun_copy)
unfolding moves entry find insert
copying-Reach =
    not_mapping
      (not_mapping
        (next allocated-Reach
          (calls 0 (memcpy replies 0x1000 0x8000 64 host_to_device) (omega arith) tt))
        (λ a. refl))
      (λ a. refl)

copying-tracked_example :
    let s = after 2 begun_copy in
    (is_tracked 0x8000 s.globals.shim.buffers || is_tracked 0x1000 s.globals.shim.buffers ≡ true)
    × ((j : ℕ) → j < 2 → j ≢ 0 → inside (s.pcs j) ≡ 0)
unfolding moves entry find insert
copying-tracked_example =
    copying-tracked 2 0 0x1000 0x8000 64 host_to_device copying-Reach (omega arith) refl

abbrev arrived : System
arrived = record loaded { pcs = write 0 (checks_dev 100) (write 1 (checks_dev 200) loaded.pcs) }

ensure_amdgpu_race_example :
    let s =
      follow
        ((0, replies)
          ∷ (1, replies)
          ∷ (0, replies)
          ∷ (1, replies)
          ∷ (0, replies)
          ∷ (1, replies)
          ∷ [])
        arrived in
    (s.globals.shim.amdgpu_dev ≡ some 1)
    × (s.globals.shim.log
        ≡ device_initialize 3 (some 1)
          ∷ device_initialize 3 (some 1)
          ∷ open_render (some 3)
          ∷ open_render (some 3)
          ∷ [])
    × (s.pcs 0 ≡ allocates 100)
    × (s.pcs 1 ≡ allocates 200)
ensure_amdgpu_race_example =
    ensure_amdgpu_race arrived 0 1 100 200 3 3 1 1 replies replies (omega arith) refl refl refl refl
      refl refl refl
