-- ===== src/Engine/AttnK/Run.antt =====
-- What `run` gives back.
use npu_gpu_cpu.Prelude.{ℕ, ◌+◌, ◌*◌, ◌/◌, ◌%◌, ◌^◌, ◌<◌, ◌≡◌, ap, ◌∙◌, true, Array, arith}
use npu_gpu_cpu.Engine.Bf16.{bf16f, isfinite}
use npu_gpu_cpu.Engine.AttnK.{pack_input, unpack_output, run}
use npu_gpu_cpu.Engine.AttnK.Regions.{
  unpack_output_even, unpack_output_odd, finite_or_zero, drop_nonfinite_at,
}

finite_or_zero-isfinite : (b : ℕ) → isfinite (finite_or_zero b) ≡ true
finite_or_zero-isfinite b = ground arith

-- Whatever the kernel makes of the input, each of its words becomes two neighbouring elements of the
-- result, the upper half first, both finite: an infinity or a NaN in the output is 0 in the result.
pub run_cells :
    (kernel : Array ℕ → Array ℕ) (q4 k2 v2 : Array ℕ) (n_tokens : ℕ) (in_m out4 : Array ℕ)
    (h dm : ℕ)
    → h < 4
    → dm < 64
    → let p = kernel (pack_input q4 k2 v2 n_tokens in_m) (h * 64 + dm) in
      let out = run kernel q4 k2 v2 n_tokens in_m out4 in
      (out (h * 128 + 2 * dm) ≡ finite_or_zero (bf16f (p / 2 ^ 16)))
      × (out (h * 128 + (2 * dm + 1)) ≡ finite_or_zero (bf16f (p % 2 ^ 16)))
      × (isfinite (out (h * 128 + 2 * dm)) ≡ true)
      × (isfinite (out (h * 128 + (2 * dm + 1))) ≡ true)
unfolding run
run_cells kernel q4 k2 v2 n_tokens in_m out4 h dm hh hd =
    let p = kernel (pack_input q4 k2 v2 n_tokens in_m) (h * 64 + dm) in
    let od = kernel (pack_input q4 k2 v2 n_tokens in_m) in
    let even =
      drop_nonfinite_at (unpack_output od out4) h (2 * dm) hh (omega arith)
      ∙ ap finite_or_zero (unpack_output_even od out4 h dm hh hd) in
    let odd =
      drop_nonfinite_at (unpack_output od out4) h (2 * dm + 1) hh (omega arith)
      ∙ ap finite_or_zero (unpack_output_odd od out4 h dm hh hd) in
    (
      even,
      odd,
      ap isfinite even ∙ finite_or_zero-isfinite (bf16f (p / 2 ^ 16)),
      ap isfinite odd ∙ finite_or_zero-isfinite (bf16f (p % 2 ^ 16)),
    )
