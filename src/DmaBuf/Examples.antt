-- ===== src/DmaBuf/Examples.antt =====
-- The zero-copy test on small mappings, and its theorems there.
use npu_gpu_cpu.Prelude.{
  ℕ, ◌+◌, ◌-◌, ◌<◌, ◌≡◌, ◌≢◌, ◌↔◌, false, refl, none, some, [], ◌⊎◌, Array, for_to, arith,
}
use npu_gpu_cpu.DmaBuf.{Replies, num_words, alloc_gtt, main}
use npu_gpu_cpu.DmaBuf.Gtt.{gtt_alloc, gtt_free}
use npu_gpu_cpu.DmaBuf.Gtt.Direct.{direct_alloc, gtt_free-direct_alloc, direct_alloc_closes}
use npu_gpu_cpu.DmaBuf.NpuDev.{opened, closed, npu_dev_main_lem}
use npu_gpu_cpu.DmaBuf.NpuDev
use npu_gpu_cpu.DmaBuf.Gtt.Released.{gtt_free-gtt_alloc, gtt_alloc_failure}
use npu_gpu_cpu.DmaBuf.Returned.{
  device, taken_by, returned_by, total, descriptor, object, Balanced, alloc_gtt_failure,
  main_returns_all,
}
use npu_gpu_cpu.DmaBuf.ZeroCopy.{
  Mapping, passed, npu_differs, gpu_differs, test_zero_copy, test_zero_copy-passed,
  test_zero_copy-same,
}

abbrev zeros : Array ℕ
zeros i = 0

abbrev straight : Mapping
straight i = i

-- The same four words in the other order.
abbrev reversed : Mapping
reversed i = 3 - i

-- Four words behind.
abbrev behind : Mapping
behind i = i + 4

-- The test does not notice the order.
reversed-passed : (test_zero_copy straight reversed 4 zeros).0 ≡ passed
unfolding test_zero_copy for_to
reversed-passed = refl

behind_differs : (test_zero_copy straight behind 4 zeros).0 ≡ npu_differs 0
unfolding test_zero_copy for_to
behind_differs = refl

-- Other words that hold 0xDEADBEEF by chance: only the way back shows it.
by_chance_differs : (test_zero_copy straight behind 4 (λ i. 0xDEADBEEF)).0 ≡ gpu_differs 0
unfolding test_zero_copy for_to
by_chance_differs = refl

test_zero_copy-passed_example :
    ((j : ℕ) × (j < 4) × (reversed j ≡ straight 1))
    × (((j : ℕ) × (j < 4) × (straight j ≡ reversed 1)) ⊎ (zeros (reversed 1) ≡ 0xDEADBEEF))
    × ((test_zero_copy straight reversed 4 zeros).1 (straight 1) ≡ 0xCAFEBABE)
    × ((test_zero_copy straight reversed 4 zeros).1 (reversed 1) ≡ 0xCAFEBABE)
test_zero_copy-passed_example =
    test_zero_copy-passed straight reversed 4 zeros reversed-passed 1 (omega arith)

test_zero_copy-same_test : (test_zero_copy straight straight 4 zeros).0 ≡ passed
test_zero_copy-same_test = test_zero_copy-same straight straight 4 zeros (λ i lt. refl)

abbrev replies : Replies
replies = record {
  render_fd = some 3;
  dev = some 1;
  bo = some 7;
  export_handle = some 5;
  va = some 0x1000;
  npu_fd = some 4;
  gem_handle = some 2;
  map = some 0x2000;
  words = λ a. straight;
}

main_returns_all_test : Balanced (descriptor 5) [] (main replies zeros []).1
unfolding main
main_returns_all_test =
    main_returns_all replies zeros [] (test_zero_copy straight straight num_words zeros)
      (descriptor 5) refl

alloc_gtt_failure_test :
    Balanced (object 7) [] (alloc_gtt (record replies { export_handle = none }) 1 []).1
unfolding alloc_gtt
alloc_gtt_failure_test =
    alloc_gtt_failure (record replies { export_handle = none }) 1 [] (object 7) refl

-- The import into the NPU fails.
abbrev not_imported : Replies
not_imported = record replies { gem_handle = none }

gtt_alloc_failure_example :
    let a = gtt_alloc not_imported 64 3 4 [] in
    let log' = gtt_free a.buf a.log in
    (total (taken_by (object 7)) a.log + total (returned_by (object 7)) []
      ≡ total (returned_by (object 7)) a.log + total (taken_by (object 7)) [])
    × (total (taken_by (device 1)) a.log + total (returned_by (device 1)) []
        ≡ total (returned_by (device 1)) a.log + total (taken_by (device 1)) [] + 1)
    × (total (taken_by (device 1)) log' + total (returned_by (device 1)) []
        ≡ total (returned_by (device 1)) log' + total (taken_by (device 1)) [])
    × (total (taken_by (object 7)) log' + total (returned_by (object 7)) [] + 1
        ≡ total (returned_by (object 7)) log' + total (taken_by (object 7)) [])
unfolding gtt_alloc
gtt_alloc_failure_example = gtt_alloc_failure not_imported 64 3 4 [] 1 7 refl refl refl

gtt_free-gtt_alloc_test :
    let a = gtt_alloc replies 64 3 4 [] in Balanced (descriptor 5) [] (gtt_free a.buf a.log)
unfolding gtt_alloc
gtt_free-gtt_alloc_test = gtt_free-gtt_alloc replies 64 3 4 [] (descriptor 5) refl

-- The import fails: the release gives everything back.
gtt_free-direct_alloc_test :
    let a = direct_alloc not_imported 9 64 3 4 [] in Balanced (object 7) [] (gtt_free a.buf a.log)
gtt_free-direct_alloc_test =
    gtt_free-direct_alloc not_imported 9 64 3 4 [] (object 7) 0x1000 5 refl refl (omega arith)

-- The export fails with 1 in `h`: the release closes the standard output.
direct_alloc_closes_test :
    let a = direct_alloc (record replies { export_handle = none }) 1 64 3 4 [] in
    let log' = gtt_free a.buf a.log in
    (total (taken_by (descriptor 1)) log' ≡ total (taken_by (descriptor 1)) [])
    × (total (returned_by (descriptor 1)) log' ≡ total (returned_by (descriptor 1)) [] + 1)
direct_alloc_closes_test =
    direct_alloc_closes (record replies { export_handle = none }) 1 64 3 4 [] 1 7 0x1000 refl refl
      refl refl (omega arith)

-- A device that gives a buffer but does not export it.
abbrev not_exported : NpuDev.Answers
not_exported = record { npu_fd = some 3; bo = some 7; prime_fd = none; info = false }

npu_dev_main_lem_test :
    (opened 3 (NpuDev.main not_exported).1 ≡ closed 3 (NpuDev.main not_exported).1)
    × (((NpuDev.main not_exported).0 ≡ 0)
        ↔ ((not_exported.npu_fd ≢ none) × (not_exported.bo ≢ none)))
npu_dev_main_lem_test = npu_dev_main_lem not_exported 3
