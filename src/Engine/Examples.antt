-- ===== src/Engine/Examples.antt =====
-- The engine's routines on small data.
use npu_gpu_cpu.Prelude.{
  List, [], ◌∷◌, some, ◌^◌, inl, zero, suc, leb, for_to, ℕ, ◌+◌, ◌-◌, ◌*◌, ◌/◌, ◌%◌, ◌≤◌, ◌<◌, ◌≡◌,
  refl, pos, negsuc, ◌≤ℤ◌, Array, true, false, ltb, ◌&&◌, if◌then◌else◌, arith,
}
use npu_gpu_cpu.Engine.TestData.{counting, zeros, numbers, empty}
use npu_gpu_cpu.Engine.Bf16.{
  f2bf, bf16f, bf16g, isfinite, f2bf-bf16f, bf16f-f2bf_bounds, bf16g-isfinite,
}
use npu_gpu_cpu.Engine.AttnK.{pack_input, unpack_output, pack_q, drop_nonfinite}
use npu_gpu_cpu.Engine.AttnK.Regions.{finite_or_zero}
use npu_gpu_cpu.Engine.AttnK.Layout.{pair_at, pack_input_q, pack_input_kv, unpack_output-pack_q}
use npu_gpu_cpu.Engine.AttnK.{run}
use npu_gpu_cpu.Engine.AttnK.Run.{run_cells}
use npu_gpu_cpu.Engine.Setup.{Context, i8_init}
use npu_gpu_cpu.Engine.Setup.Inside.{i8_init-inside}
use npu_gpu_cpu.Engine.CpuAttn.{attend_windows}
use npu_gpu_cpu.Engine.CpuAttn.Window.{attend_windows_forgets}
use npu_gpu_cpu.Engine.I8Ctx.{quantise, abs_max, usable, pack_b, stage_a, read_c}
use npu_gpu_cpu.Engine.I8Ctx.Quantise.{pack_b_cells, abs_max_bound}
use npu_gpu_cpu.Engine.I8Ctx.Stage.{stage_a_cells, read_c_cells}
use npu_gpu_cpu.Engine.Fuse.{fuse_qkv}
use npu_gpu_cpu.Engine.Fuse.Cells.{fuse_qkv_cells}
use npu_gpu_cpu.Engine.Sample.{largest, pick}
use npu_gpu_cpu.Engine.Sample.Choice.{pick_first}
use npu_gpu_cpu.Engine.Softmax.{sm}
use npu_gpu_cpu.Engine.Softmax.Cells.{exponential, exponential_sum, sm_cells}
use npu_gpu_cpu.Engine.Vector.{cn, rn_c, ra}
use npu_gpu_cpu.Engine.Vector.Elements.{rn_c_cells, ra_pairs}
use npu_gpu_cpu.Engine.Heads.{heads}
use npu_gpu_cpu.Engine.Heads.Cache.{heads-cache_row, heads-other_rows}
use npu_gpu_cpu.Engine.Heads

-- 1.0f as bf16.
one_as_bf16 : f2bf 0x3F800000 ≡ 0x3F80
unfolding f2bf
one_as_bf16 = refl

f2bf-bf16f_test : f2bf (bf16f 0x3F80) ≡ 0x3F80
f2bf-bf16f_test = f2bf-bf16f 0x3F80 (omega arith)

bf16f-f2bf_bounds_test :
    (bf16f (f2bf 0x3F801234) ≤ 0x3F801234 + 0x8000)
    × (0x3F801234 < bf16f (f2bf 0x3F801234) + 0x8000)
bf16f-f2bf_bounds_test = bf16f-f2bf_bounds 0x3F801234 (omega arith)

bf16g-isfinite_test : isfinite (bf16g 0x7F80) ≡ true
bf16g-isfinite_test = bf16g-isfinite 0x7F80 (omega arith)

pack_input_q_test :
    pack_input counting counting counting 5 zeros (2 * 64 + 7) ≡ pair_at counting (2 * 128 + 2 * 7)
pack_input_q_test = pack_input_q counting counting counting zeros 5 2 7 (omega arith) (omega arith)

pack_input_kv_example :
    let place = 17 / 16 * 2048 + 17 % 16 * 128 + 1 * 64 + 7 in
    let src = 17 * 256 + 1 * 128 + 2 * 7 in
    (pack_input counting counting counting 18 zeros (256 + place)
      ≡ (if ltb 17 18 then pair_at counting src else 0))
    × (pack_input counting counting counting 18 zeros (256 + 2 * 2048 + place)
        ≡ (if ltb 17 18 then pair_at counting src else 0))
pack_input_kv_example =
    pack_input_kv counting counting counting zeros 18 17 1 7 (omega arith) (omega arith)
      (omega arith)

unpack_output-pack_q_test :
    drop_nonfinite (unpack_output (pack_q counting zeros) zeros) 300
    ≡ finite_or_zero (bf16f (f2bf (counting 300)))
unpack_output-pack_q_test = unpack_output-pack_q counting zeros zeros 300 (omega arith)

-- Two caches that differ in row 0 only, at position 1.
abbrev other_first_row : Array ℕ
other_first_row i = if ltb i 1024 then 0 else i + 1

attend_windows_forgets_test :
    attend_windows numbers counting counting counting 1 zeros zeros
    ≡ attend_windows numbers counting other_first_row counting 1 zeros zeros
attend_windows_forgets_test =
    attend_windows_forgets numbers counting counting other_first_row counting counting 1 zeros zeros
      (λ i le. ground arith) (λ i le. refl)

pack_b_cells_test :
    let stored = (pack_b numbers counting 3 4 empty).1 5 in
    (stored
      ≡ quantise numbers
          (numbers.div numbers.f127 (usable numbers (abs_max numbers counting (3 * 4))))
          (counting 5))
    × (negsuc 126 ≤ℤ stored)
    × (stored ≤ℤ pos 127)
pack_b_cells_test = pack_b_cells numbers counting 3 4 empty 5 (omega arith)

abs_max_bound_test :
    numbers.greater (numbers.fabsf (counting 5)) (abs_max numbers counting 12) ≡ false
abs_max_bound_test =
    abs_max_bound numbers counting 12 5 (λ a. ground arith) (λ a m m' h k. ground arith)
      (omega arith) refl

stage_a_cells_example : stage_a numbers 128 1024 counting 1 3 1 empty (0 * 1024 + 2) ≡ (
    if ltb 0 1 && ltb 2 3
    then quantise numbers (numbers.div numbers.one 1) (counting (0 * 3 + 2))
    else pos 0)
stage_a_cells_example =
    stage_a_cells numbers 128 1024 counting 1 3 1 empty 0 2 (omega arith) (omega arith)
      (omega arith)

read_c_cells_test :
    let val = numbers.mul (numbers.of_int (empty (0 * 4096 + 2))) (numbers.mul 2 3) in
    read_c numbers 4096 empty 1 4 2 3 zeros (0 * 4 + 2)
    ≡ (if numbers.isfinite val then val else numbers.zero)
read_c_cells_test = read_c_cells numbers 4096 empty 1 4 2 3 zeros 0 2 (omega arith) (omega arith)

-- Two rows of Q, K and V with 2, 1 and 1 columns.
fuse_qkv_cells_test : fuse_qkv 2 2 1 1 counting counting zeros zeros (1 * (2 + 1 + 1) + 2) ≡ (
    if ltb 2 2
    then counting (1 * 2 + 2)
    else if ltb 2 (2 + 1)
    then counting (1 * 1 + (2 - 2))
    else zeros (1 * 1 + (2 - (2 + 1))))
fuse_qkv_cells_test =
    fuse_qkv_cells 2 2 1 1 counting counting zeros zeros 1 2 (omega arith) (omega arith)

-- The sums are 1, 3, 6, 10: the threshold 4 is reached at token 2.
pick_first_test : pick numbers counting 4 10 ≡ 2
unfolding for_to
pick_first_test = pick_first numbers counting 4 10 2 (omega arith) before refl
  where
    before : (j : ℕ) → j < 2 → leb 4 (for_to (suc j) (λ i acc. acc + (i + 1)) 0) ≡ false
    before zero h = refl
    before (suc zero) h = refl
    before (suc (suc j)) h = absurd (omega arith)

rn_c_cells_test :
    let y = cn numbers counting 8 in
    let ss = for_to 8 (λ j acc. numbers.add_d acc (numbers.mul_d (y j) (y j))) numbers.zero_d in
    rn_c numbers counting counting 8 3
    ≡ numbers.mul (numbers.mul (y 3) (numbers.inverse_root ss 8)) (counting 3)
rn_c_cells_test = rn_c_cells numbers counting counting 8 3 refl (omega arith)

ra_pairs_test :
    let a = counting (2 * 1) in
    let b = counting (2 * 1 + 1) in
    let c = counting (5 * 8 + 2 * 1) in
    let s = zeros (5 * 8 + 2 * 1) in
    (ra numbers counting zeros counting 8 5 (2 * 1)
      ≡ numbers.sub (numbers.mul a c) (numbers.mul b s))
    × (ra numbers counting zeros counting 8 5 (2 * 1 + 1)
        ≡ numbers.add (numbers.mul b c) (numbers.mul a s))
ra_pairs_test = ra_pairs numbers counting zeros counting 8 5 1 (omega arith) (omega arith)

abbrev old_heads : Heads.Heads ℕ
old_heads = record { qo = counting; ko = counting; k = zeros; v = zeros }

heads-cache_row_test :
    let c = heads numbers counting zeros 3 counting counting counting old_heads in
    (c.k (3 * 1024 + 700) ≡ c.ko 700) × (c.v (3 * 1024 + 700) ≡ counting 700)
heads-cache_row_test =
    heads-cache_row numbers counting zeros 3 counting counting counting old_heads 700 (omega arith)

heads-other_rows_test :
    let c = heads numbers counting zeros 3 counting counting counting old_heads in
    (c.k 2000 ≡ zeros 2000) × (c.v 2000 ≡ zeros 2000)
heads-other_rows_test =
    heads-other_rows numbers counting zeros 3 counting counting counting old_heads 2000
      (inl (omega arith))

-- A kernel whose output is full of NaNs.
run_cells_example :
    let p : ℕ = 0x7FC07FC0 in
    let out = run (λ x i. 0x7FC07FC0) counting counting counting 5 zeros zeros in
    (out (3 * 128 + 2 * 7) ≡ finite_or_zero (bf16f (p / 2 ^ 16)))
    × (out (3 * 128 + (2 * 7 + 1)) ≡ finite_or_zero (bf16f (p % 2 ^ 16)))
    × (isfinite (out (3 * 128 + 2 * 7)) ≡ true)
    × (isfinite (out (3 * 128 + (2 * 7 + 1))) ≡ true)
run_cells_example =
    run_cells (λ x i. 0x7FC07FC0) counting counting counting 5 zeros zeros 3 7 (omega arith)
      (omega arith)

-- The context `cq`, with two instructions.
abbrev instructions : List ℕ
instructions = 1 ∷ 0 ∷ 0 ∷ 0 ∷ 2 ∷ 0 ∷ 0 ∷ 0 ∷ []

abbrev cq : Context
cq = record {
  ins = 1 ∷ 2 ∷ [];
  sizes = record {
    instructions = 8;
    input = 128 * 1024;
    output = 128 * 4096 * 2;
    layer = 1024 * 4096;
  };
}

i8_init-inside_test :
    (stage_a numbers 128 1024 counting 1 1024 1 empty 131072 ≡ empty 131072)
    × ((pack_b numbers counting 1024 4096 empty).1 4194304 ≡ empty 4194304)
unfolding i8_init
i8_init-inside_test =
    i8_init-inside numbers 128 1024 4096 (some instructions) cq counting 1 1024 1 empty counting
      1024 4096 empty 131072 4194304 refl (omega arith) (omega arith) (omega arith) (omega arith)
      (omega arith)

sm_cells_test : sm numbers counting 4 2 ≡ (
    if numbers.not_positive (exponential_sum numbers counting 4)
    then numbers.div numbers.one (numbers.of_int (pos 4))
    else numbers.mul
        (exponential numbers counting 4 2)
        (numbers.reciprocal (exponential_sum numbers counting 4)))
sm_cells_test = sm_cells numbers counting 4 2 (omega arith)

-- The exponentials of 1, 2, 3, 4 less 4 are 1 each.
sm_test : sm numbers counting 4 2 ≡ 4
unfolding sm cn largest for_to
sm_test = refl
