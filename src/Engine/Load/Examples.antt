-- ===== src/Engine/Load/Examples.antt =====
-- A file of zeros: every look-up gives 0, and every matrix has two columns.
use npu_gpu_cpu.Prelude.{
  inr, true, none, some, codes, ℕ, ◌+◌, ◌*◌, ◌-◌, ◌≡◌, refl, List, [], ◌∷◌, ◌++◌, Array, ltb,
  if◌then◌else◌, arith,
}
use npu_gpu_cpu.Engine.TestData.{counting, zeros, numbers, empty}
use npu_gpu_cpu.Engine.Fuse.{fuse_qkv}
use npu_gpu_cpu.Engine.I8Ctx.{quantise}
use npu_gpu_cpu.Engine.Vector.{ra}
use npu_gpu_cpu.Engine.Rotary.{Trig, ri, angle, ra-ri}
use npu_gpu_cpu.Engine.Load.{Kernels, Offsets, tensor_name, pack_qkv}
use npu_gpu_cpu.Engine.Load.Cells.{factor, pack_qkv_cells}
use npu_gpu_cpu.Engine.Load.Main.{Files, prompt, main, tokens_after, tokens_after-any_prompt}
use npu_gpu_cpu.Engine.Layer.{LayerData}
use npu_gpu_cpu.Engine.Load.Checked.{load_layer_checked, fits}
use npu_gpu_cpu.Engine.Load.Checked.Inside.{load_layer_checked_lem}
use npu_gpu_cpu.Engine.Load.Inside.{main_checked, main-inside, main-outside}

abbrev trig : Trig ℕ
trig = record { powf = λ x y. x + y; cosf = λ x. x + 1; sinf = λ x. x + 2 }

ra-ri_test :
    let t = angle numbers trig 8 10 5 (2 * 1) in
    let turned = ra numbers (ri numbers trig 8 10 16).0 (ri numbers trig 8 10 16).1 counting 8 5 in
    (turned (2 * 1) ≡ numbers.sub (numbers.mul 3 (trig.cosf t)) (numbers.mul 4 (trig.sinf t)))
    × (turned (2 * 1 + 1) ≡ numbers.add (numbers.mul 4 (trig.cosf t)) (numbers.mul 3 (trig.sinf t)))
ra-ri_test = ra-ri numbers trig counting 8 10 16 5 1 refl (omega arith) (omega arith)

abbrev two_columns : ℕ → ℕ → Array ℕ × ℕ
two_columns o n = (counting, 2)

abbrev no_offsets : Offsets
no_offsets = record {
  qp = 0;
  kp = 0;
  vp = 0;
  op = 0;
  gp = 0;
  up = 0;
  dp = 0;
  in_off = 0;
  pa_off = 0;
  qn_off = 0;
  kn_off = 0;
}

pack_qkv_cells_test :
    let joined = fuse_qkv 1024 2 2 2 counting counting counting (λ _. 0) in
    (pack_qkv numbers two_columns empty zeros no_offsets).1 (1 * (2 + 2 + 2) + 3)
    ≡ quantise numbers
        (factor numbers two_columns empty zeros no_offsets joined (1024 * (2 + 2 + 2)))
        (if ltb 3 2
          then counting (1 * 2 + 3)
          else if ltb 3 (2 + 2)
          then counting (1 * 2 + (3 - 2))
          else counting (1 * 2 + (3 - (2 + 2))))
pack_qkv_cells_test =
    pack_qkv_cells numbers two_columns empty zeros no_offsets 1 3 (omega arith) (omega arith)

abbrev kernels : Kernels
kernels = record { cq = λ a b. b; co = λ a b. b; cg = λ a b. b; cd = λ a b. b }

abbrev others : List ℕ
others = 1 ∷ 2 ∷ 3 ∷ 4 ∷ 5 ∷ 6 ∷ 7 ∷ 8 ∷ []

tokens_after-any_prompt_test :
    tokens_after numbers trig kernels two_columns zeros empty prompt zeros 64 (1 ∷ 2 ∷ [])
    ≡ tokens_after numbers trig kernels two_columns zeros empty
        (others ++ 198 ∷ [])
        zeros
        64
        (1 ∷ 2 ∷ [])
tokens_after-any_prompt_test =
    tokens_after-any_prompt numbers trig kernels two_columns zeros empty zeros 64 (1 ∷ 2 ∷ [])
      others refl

layer_ten : tensor_name 10 (codes "mlp.up_proj") ≡ codes "model.layers.10.mlp.up_proj.weight"
unfolding tensor_name
layer_ten = refl

abbrev unset : LayerData ℕ
unset = record {
  in_n = zeros;
  pa_n = zeros;
  qn_w = zeros;
  kn_w = zeros;
  qk = 0;
  o_ = 0;
  g_ = 0;
  d_ = 0;
  run_q = λ a. a;
  run_o = λ a. a;
  run_g = λ a. a;
  run_d = λ a. a;
}

-- Every matrix has two rows.
every_layer_fits : (l : ℕ) → fits numbers zeros empty two_columns zeros 64 l ≡ true
every_layer_fits l = refl

-- Each file has one instruction.
abbrev files : Files
files = record {
  cq = some (1 ∷ 0 ∷ 0 ∷ 0 ∷ []);
  co = some (2 ∷ 0 ∷ 0 ∷ 0 ∷ []);
  cg = some (3 ∷ 0 ∷ 0 ∷ 0 ∷ []);
  cd = some (4 ∷ 0 ∷ 0 ∷ 0 ∷ []);
  ak = λ w. none;
}

main-inside_example :
    (main numbers trig kernels two_columns zeros empty files zeros 64 others
      ≡ some (tokens_after numbers trig kernels two_columns zeros empty prompt zeros 64 others))
    × (main_checked numbers trig kernels two_columns zeros empty (λ l. unset) zeros 64 files others
        ≡ main numbers trig kernels two_columns zeros empty files zeros 64 others)
main-inside_example =
    main-inside numbers trig kernels two_columns zeros empty (λ l. unset) zeros 64 files
      (1 ∷ 0 ∷ 0 ∷ 0 ∷ []) (2 ∷ 0 ∷ 0 ∷ 0 ∷ []) (3 ∷ 0 ∷ 0 ∷ 0 ∷ []) (4 ∷ 0 ∷ 0 ∷ 0 ∷ []) others
      refl refl refl refl (λ l lt. every_layer_fits l) refl

-- Every matrix has 3000 rows, so that Q, K and V have 9000.
abbrev many_rows : ℕ → ℕ → Array ℕ × ℕ
many_rows o n = (counting, 3000)

load_layer_checked_lem_test :
    load_layer_checked numbers zeros empty many_rows kernels zeros 64 3 ≡ none
load_layer_checked_lem_test =
    load_layer_checked_lem numbers zeros empty many_rows kernels zeros 64 3

main-outside_test :
    main_checked numbers trig kernels many_rows zeros empty (λ l. unset) zeros 64 files others
    ≡ none
main-outside_test =
    main-outside numbers trig kernels many_rows zeros empty (λ l. unset) zeros 64 files others 3
      (omega arith) (inr refl)
