-- ===== src/Driver/Manager/Examples.antt =====
-- One buffer that is allocated, exported and freed.
use npu_gpu_cpu.Prelude.{
  ◌+◌, ◌≤◌, ◌<◌, ◌%◌, ◌≡◌, refl, pos, negsuc, none, some, List, [], ◌∷◌, arith,
}
use npu_gpu_cpu.Driver.Manager.{Event, alloc_gtt, free_gtt, export_dmabuf, page_align}
use npu_gpu_cpu.Driver.Manager.Pinned.{
  start, alloc_ok, free, total, allocates, frees, pins, unpins, count, remove, Reach-held,
  page_align_bounds,
}

abbrev allocated_log : List Event
allocated_log = (alloc_gtt (pos 0) 7 (pos 0) 100 []).2

-- A failed export stores nothing.
failed_export : (export_dmabuf (negsuc 21) 5 7 []).1 ≡ none
unfolding export_dmabuf
failed_export = refl

Reach-held_example :
    let log = free_gtt (some 7) allocated_log in
    (total (allocates 7) log ≡ total (frees 7) log + count 7 (remove 7 (7 ∷ [])))
    × (total (pins 7) log ≡ total (unpins 7) log + count 7 (remove 7 (7 ∷ [])))
Reach-held_example = Reach-held (free 7 (alloc_ok 7 100 start) (ground arith)) 7

page_align_bounds_test :
    (5000 ≤ page_align 5000) × (page_align 5000 < 5000 + 4096) × (page_align 5000 % 4096 ≡ 0)
page_align_bounds_test = page_align_bounds 5000 (omega arith)
