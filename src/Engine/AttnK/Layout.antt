-- ===== src/Engine/AttnK/Layout.antt =====
-- The layouts of the kernel's input and output.
use npu_gpu_cpu.Prelude.{
  ℕ, zero, suc, ◌+◌, ◌*◌, ◌/◌, ◌%◌, ◌^◌, ◌≤◌, ◌<◌, ◌≡◌, ap, ◌∙◌, inl, inr, Array, ltb,
  if◌then◌else◌, arith,
}
use npu_gpu_cpu.Engine.Bf16.{f2bf, bf16f}
use npu_gpu_cpu.Engine.AttnK.{
  pack_pair, pack_q, pack_kv, kv_word, pack_input, unpack_output, drop_nonfinite, clear,
}
use npu_gpu_cpu.Engine.AttnK.Regions.{
  pack_q_at, pack_q_beyond, pack_kv_k, pack_kv_v, pack_kv_q, unpack_output_even, unpack_output_odd,
  finite_or_zero, drop_nonfinite_at,
}

-- Two neighbouring elements of a row of 128, as the pair of bf16 that is sent.
abbrev pub pair_at : Array ℕ → ℕ → ℕ
pair_at x i = pack_pair (x i) (x (i + 1))

module _ (q4 k2 v2 in_m : Array ℕ) (n_tokens : ℕ) where
  -- Word dm of head h of Q is its pair number dm.
  pub pack_input_q :
      (h dm : ℕ)
      → h < 4
      → dm < 64
      → pack_input q4 k2 v2 n_tokens in_m (h * 64 + dm) ≡ pair_at q4 (h * 128 + 2 * dm)
  unfolding pack_input
  pack_input_q h dm hh hd =
      pack_kv_q k2 v2 (pack_q q4 (clear in_m)) n_tokens (h * 64 + dm) (inl (omega arith))
      ∙ pack_q_at q4 (clear in_m) h dm hh hd
      ∙ ap (λ x. pack_pair (q4 (h * 128 + 2 * dm)) (q4 x)) (omega arith)

  -- For every token place below 32, the pairs of K and V stand in their blocks of 16 tokens, each token's two
  -- heads in a row; the places from n_tokens on are filled with zeros.
  pub pack_input_kv :
      (tt h dm : ℕ)
      → tt < 32
      → h < 2
      → dm < 64
      → let place = tt / 16 * 2048 + tt % 16 * 128 + h * 64 + dm in
        let src = tt * 256 + h * 128 + 2 * dm in
        (pack_input q4 k2 v2 n_tokens in_m (256 + place)
          ≡ (if ltb tt n_tokens then pair_at k2 src else 0))
        × (pack_input q4 k2 v2 n_tokens in_m (256 + 2 * 2048 + place)
            ≡ (if ltb tt n_tokens then pair_at v2 src else 0))
  unfolding pack_input
  pack_input_kv tt h dm ht hh hd = (
    ap (pack_kv k2 v2 n_tokens base) {y = 256 + tt / 16 * 2048 + tt % 16 * 128 + h * 64 + dm}
          (omega arith)
        ∙ pack_kv_k k2 v2 base n_tokens (tt / 16) (tt % 16) h dm (omega arith) (omega arith) hh hd
        ∙ word k2,
    ap (pack_kv k2 v2 n_tokens base) {y = 4352 + tt / 16 * 2048 + tt % 16 * 128 + h * 64 + dm}
          (omega arith)
        ∙ pack_kv_v k2 v2 base n_tokens (tt / 16) (tt % 16) h dm (omega arith) (omega arith) hh hd
        ∙ word v2,
  )
    where
      base : Array ℕ
      base = pack_q q4 (clear in_m)

      word :
          (x : Array ℕ)
          → kv_word x n_tokens (tt / 16 * 16 + tt % 16) h dm
            ≡ (if ltb tt n_tokens then pair_at x (tt * 256 + h * 128 + 2 * dm) else 0)
      word x =
          ap (λ y. kv_word x n_tokens y h dm) {y = tt} (omega arith)
          ∙ ground (
            arith,
            ap x {x = tt * 2 * 128 + h * 128 + 2 * dm} {y = tt * 256 + h * 128 + 2 * dm}
                (omega arith),
            ap x {x = tt * 2 * 128 + h * 128 + (2 * dm + 1)} {y = tt * 256 + h * 128 + 2 * dm + 1}
                (omega arith),
          )

  -- Nothing is written behind the 8448 words of the buffer.
  pub pack_input_outside : (q : ℕ) → 8448 ≤ q → pack_input q4 k2 v2 n_tokens in_m q ≡ in_m q
  unfolding pack_input clear
  pack_input_outside q h =
      pack_kv_q k2 v2 (pack_q q4 (clear in_m)) n_tokens q (inr h)
      ∙ pack_q_beyond q4 (clear in_m) q (omega arith)
      ∙ ground arith

pack_pair_halves : (a b : ℕ) → (pack_pair a b / 2 ^ 16 ≡ f2bf a) × (pack_pair a b % 2 ^ 16 ≡ f2bf b)
unfolding pack_pair f2bf
pack_pair_halves a b = omega arith

word_halves :
    (q4 s : Array ℕ) (h dm : ℕ)
    → h < 4
    → dm < 64
    → (pack_q q4 s (h * 64 + dm) / 2 ^ 16 ≡ f2bf (q4 (h * 128 + 2 * dm)))
      × (pack_q q4 s (h * 64 + dm) % 2 ^ 16 ≡ f2bf (q4 (h * 128 + (2 * dm + 1))))
word_halves q4 s h dm hh hd =
    let (a, b) = pack_pair_halves (q4 (h * 128 + 2 * dm)) (q4 (h * 128 + (2 * dm + 1))) in
    (
      ap (λ x. x / 2 ^ 16) (pack_q_at q4 s h dm hh hd) ∙ a,
      ap (λ x. x % 2 ^ 16) (pack_q_at q4 s h dm hh hd) ∙ b,
    )

unpacked :
    (q4 s out : Array ℕ) (h dm odd : ℕ)
    → h < 4
    → dm < 64
    → odd < 2
    → unpack_output (pack_q q4 s) out (h * 128 + (2 * dm + odd))
      ≡ bf16f (f2bf (q4 (h * 128 + (2 * dm + odd))))
unpacked q4 s out h dm zero hh hd ho =
    ap (λ x. unpack_output (pack_q q4 s) out (h * 128 + x)) {y = 2 * dm} (omega arith)
    ∙ unpack_output_even (pack_q q4 s) out h dm hh hd
    ∙ ap bf16f (word_halves q4 s h dm hh hd).0
    ∙ ap (λ x. bf16f (f2bf (q4 (h * 128 + x)))) {x = 2 * dm} {y = 2 * dm + 0} (omega arith)
unpacked q4 s out h dm (suc zero) hh hd ho =
    unpack_output_odd (pack_q q4 s) out h dm hh hd ∙ ap bf16f (word_halves q4 s h dm hh hd).1
unpacked q4 s out h dm (suc (suc k)) hh hd ho = absurd (omega arith)

-- The output format is that of Q: for a kernel that hands its Q words back, the unpacked result is
-- each element of Q rounded to bf16, with 0 for what is not finite.
pub unpack_output-pack_q :
    (q4 s out : Array ℕ) (i : ℕ)
    → i < 512
    → drop_nonfinite (unpack_output (pack_q q4 s) out) i ≡ finite_or_zero (bf16f (f2bf (q4 i)))
unpack_output-pack_q q4 s out i hi =
    ap (drop_nonfinite (unpack_output (pack_q q4 s) out)) {y = place} (omega arith)
    ∙ drop_nonfinite_at (unpack_output (pack_q q4 s) out) (i / 128) (2 * (i % 128 / 2) + i % 2)
        (omega arith) (omega arith)
    ∙ ap finite_or_zero (
        unpacked q4 s out (i / 128) (i % 128 / 2) (i % 2) (omega arith) (omega arith) (omega arith))
    ∙ ap (λ x. finite_or_zero (bf16f (f2bf (q4 x)))) {x = place} (omega arith)
  where
    place : ℕ
    place = i / 128 * 128 + (2 * (i % 128 / 2) + i % 2)
