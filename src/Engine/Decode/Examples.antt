-- ===== src/Engine/Decode/Examples.antt =====
-- One layer for all, whose kernels give zeros, and a session at its beginning.
use npu_gpu_cpu.Prelude.{
  none, some, zero, suc, ◌<◌, leb, false, for_to, ℕ, ◌+◌, ◌*◌, ◌≡◌, refl, inl, inr, ltb, [], ◌∷◌,
  ◌++◌, length, if◌then◌else◌, arith,
}
use npu_gpu_cpu.Engine.TestData.{counting, zeros, numbers, empty}
use npu_gpu_cpu.Engine.CpuAttn.{cpu_attn, attend_windows}
use npu_gpu_cpu.Engine.CpuAttn.Checked.{attend_windows_checked}
use npu_gpu_cpu.Engine.CpuAttn.Checked.Inside.{attend_windows_checked_lem}
use npu_gpu_cpu.Engine.Decode.Checked.{decode_checked}
use npu_gpu_cpu.Engine.Decode.Checked.Inside.{decode_checked_lem}
use npu_gpu_cpu.Engine.Decode.Checked.Prompt.{decode_checked-last_token}
use npu_gpu_cpu.Prelude.Checked.{Pointer}
use npu_gpu_cpu.Engine.CpuAttn.Checked.{cpu_attn_checked}
use npu_gpu_cpu.Engine.CpuAttn.Checked.Attention.{cpu_attn_checked-attention}
use npu_gpu_cpu.Prelude.{Array}
use npu_gpu_cpu.Engine.Layer.Checked.{layer_checked}
use npu_gpu_cpu.Engine.Layer.Checked.Inside.{layer_checked_lem}
use npu_gpu_cpu.Engine.CpuAttn.Reference.{attention, cpu_attn-attention}
use npu_gpu_cpu.Engine.Layer.{LayerData, KvCache, layer}
use npu_gpu_cpu.Engine.Layer.Rows.{SameCell, layer-other_rows}
use npu_gpu_cpu.Engine.Layer.Window.{CachesAgreeFrom, layer_forgets}
use npu_gpu_cpu.Engine.Floats.{Floats}
use npu_gpu_cpu.Engine.Decode.{Session, decode, prefill, next_token}
use npu_gpu_cpu.Engine.Decode.Choice.{weight_before, logits_of, next_token_first}
use npu_gpu_cpu.Engine.Decode.Rows.{prefill-other_rows}
use npu_gpu_cpu.Engine.Decode.Tokens.{AllInTable, decode-AllInTable}
use npu_gpu_cpu.Engine.Decode.Prompt.{decode-last_token}

abbrev one_layer : LayerData ℕ
one_layer = record {
  in_n = counting;
  pa_n = counting;
  qn_w = counting;
  kn_w = counting;
  qk = 1;
  o_ = 1;
  g_ = 1;
  d_ = 1;
  run_q = λ a. empty;
  run_o = λ a. empty;
  run_g = λ a. empty;
  run_d = λ a. empty;
}

abbrev no_rows : KvCache ℕ
no_rows = record { k = zeros; v = zeros; n = 0 }

-- A first row that differs.
abbrev one_row : KvCache ℕ
one_row = record { k = λ i. if ltb i 1024 then 7 else 0; v = zeros; n = 1 }

abbrev begin : Session ℕ
begin = record { h = zeros; kv = λ l. no_rows; sp = 0 }

decode-last_token_test :
    decode numbers zeros counting zeros
      (λ l. one_layer)
      counting
      counting
      ((5 ∷ 6 ∷ []) ++ 198 ∷ [])
      (1 ∷ 2 ∷ [])
      begin
    ≡ decode numbers zeros counting zeros
        (λ l. one_layer)
        counting
        counting
        ((7 ∷ 8 ∷ []) ++ 198 ∷ [])
        (1 ∷ 2 ∷ [])
        begin
decode-last_token_test =
    decode-last_token numbers zeros counting zeros (λ l. one_layer) counting counting (5 ∷ 6 ∷ [])
      (7 ∷ 8 ∷ []) 198 (1 ∷ 2 ∷ []) begin refl

prefill-other_rows_test :
    let s = prefill numbers zeros counting zeros (λ l. one_layer) counting (5 ∷ 6 ∷ []) begin in
    (s.sp ≡ 0 + length {A = ℕ} (5 ∷ 6 ∷ [])) × SameCell 2048 (s.kv 3) no_rows
prefill-other_rows_test =
    prefill-other_rows numbers zeros counting zeros (λ l. one_layer) counting (5 ∷ 6 ∷ []) begin 3
      2048 (inr (omega arith))

layer-other_rows_test :
    let r = layer numbers zeros counting zeros one_layer 1 counting one_row in
    SameCell 5 r.1 one_row × (r.1.n ≡ 1 + 1)
layer-other_rows_test =
    layer-other_rows numbers zeros counting zeros one_layer 1 counting one_row 5 (inl (omega arith))

layer_forgets_test :
    let r = layer numbers zeros counting zeros one_layer 1 counting one_row in
    let r' = layer numbers zeros counting zeros one_layer 1 counting no_rows in
    (r.0 ≡ r'.0) × CachesAgreeFrom 1 r.1 r'.1
layer_forgets_test =
    layer_forgets numbers zeros counting zeros one_layer 1 counting one_row no_rows
      ((λ i le. ground arith), (λ i le. refl))

cpu_attn-attention_test :
    cpu_attn numbers counting counting counting 2 512 zeros zeros (512 + (3 * 128 + 5))
    ≡ attention numbers counting counting counting 2 3 5
cpu_attn-attention_test =
    cpu_attn-attention numbers counting counting counting 2 512 zeros zeros 3 5 (omega arith)
      (omega arith)

decode-AllInTable_test :
    let tokens =
      decode numbers zeros counting zeros
        (λ l. one_layer)
        counting
        counting
        (5 ∷ [])
        (1 ∷ 2 ∷ [])
        begin in
    (length tokens ≡ length {A = ℕ} (1 ∷ 2 ∷ [])) × AllInTable tokens
decode-AllInTable_test =
    decode-AllInTable numbers zeros counting zeros (λ l. one_layer) counting counting (5 ∷ [])
      (1 ∷ 2 ∷ []) begin

-- Every weight is 1, and so is the sum after it is narrowed.
abbrev even : Floats ℕ ℕ
even = record numbers { expf = λ x. 1; narrow = λ x. 1 }

even_before :
    (j : ℕ)
    → j < 2
    → leb 3 (weight_before even (logits_of even zeros counting counting counting) (suc j)) ≡ false
unfolding for_to
even_before zero lt = refl
even_before (suc zero) lt = refl
even_before (suc (suc j)) lt = absurd (omega arith)

-- The threshold is 3: token 2 reaches it.
next_token_first_example : next_token even zeros counting counting 3 counting ≡ 2
unfolding for_to
next_token_first_example =
    next_token_first even zeros counting counting 3 counting 2 (omega arith) even_before refl

-- From position 30 on, three tokens go too far.
decode_checked_lem_example :
    let later = record begin { sp = 30 } in
    decode_checked numbers zeros counting zeros
      (λ l. one_layer)
      counting
      counting
      (5 ∷ [])
      (1 ∷ 2 ∷ [])
      later
    ≡ (if leb (30 + (length {A = ℕ} (5 ∷ []) + length {A = ℕ} (1 ∷ 2 ∷ []))) 32
        then some (
            decode numbers zeros counting zeros
              (λ l. one_layer)
              counting
              counting
              (5 ∷ [])
              (1 ∷ 2 ∷ [])
              later)
        else none)
decode_checked_lem_example =
    decode_checked_lem numbers zeros counting zeros (λ l. one_layer) counting counting (5 ∷ [])
      (1 ∷ 2 ∷ []) (record begin { sp = 30 }) (omega arith, tt) (omega arith)

layer_checked_lem_example :
    layer_checked numbers zeros counting zeros one_layer 31 counting one_row ≡ (
      if ltb 31 32
      then some (layer numbers zeros counting zeros one_layer 31 counting one_row)
      else none)
layer_checked_lem_example =
    layer_checked_lem numbers zeros counting zeros one_layer 31 counting one_row

-- The 41st token.
attend_windows_checked_lem_test :
    attend_windows_checked numbers counting zeros zeros 40 zeros zeros ≡ (
      if ltb 40 32 then some (attend_windows numbers counting zeros zeros 40 zeros zeros) else none)
attend_windows_checked_lem_test =
    attend_windows_checked_lem numbers counting zeros zeros 40 zeros zeros

decode_checked-last_token_example :
    decode_checked numbers zeros counting zeros
      (λ l. one_layer)
      counting
      counting
      ((5 ∷ 6 ∷ []) ++ 198 ∷ [])
      (1 ∷ 2 ∷ [])
      begin
    ≡ decode_checked numbers zeros counting zeros
        (λ l. one_layer)
        counting
        counting
        ((7 ∷ 8 ∷ []) ++ 198 ∷ [])
        (1 ∷ 2 ∷ [])
        begin
decode_checked-last_token_example =
    decode_checked-last_token numbers zeros counting zeros (λ l. one_layer) counting counting
      (5 ∷ 6 ∷ []) (7 ∷ 8 ∷ []) 198 (1 ∷ 2 ∷ []) begin refl
      (omega arith, (omega arith, (omega arith, tt)))
      (omega arith, (omega arith, (omega arith, tt))) (omega arith)

-- The second window of Q, and two tokens.
abbrev second_window : Pointer ℕ
second_window = record { cells = counting; offset = 512; size = 4096 }

abbrev second_rows : Pointer ℕ
second_rows = record { cells = counting; offset = 256; size = 4096 * 1024 }

cpu_attn_checked-attention_example :
    (r : Array ℕ) × (cpu_attn_checked numbers second_window second_rows second_rows 2 512 zeros
        zeros
      ≡ some r)
    × ((h d : ℕ)
        → h < 4
        → d < 128
        → r (512 + (h * 128 + d))
          ≡ attention numbers
              (λ i. counting (512 + i))
              (λ i. counting (256 + i))
              (λ i. counting (256 + i))
              2
              h
              d)
cpu_attn_checked-attention_example =
    cpu_attn_checked-attention numbers second_window second_rows second_rows 2 512 zeros zeros
      (λ p c lp lc. omega arith) (λ p c lp lc. omega arith) (λ i lt. omega arith) (omega arith)
      (omega arith)
