-- ===== src/Gemm/Examples.antt =====
-- 16×16 matrices of numbers.
use npu_gpu_cpu.Prelude.{
  ℕ, ◌+◌, ◌*◌, ◌/◌, ◌-◌, ◌<◌, ◌≡◌, ◌↔◌, ltb, ◌==◌, true, false, if◌then◌else◌, refl, Array, for_to,
  arith,
}
use npu_gpu_cpu.Gemm.Verify.{verify, verify_iff}
use npu_gpu_cpu.Gemm.{Float, pack_A_bf16, pack_B_bf16_colmaj, unpack_C_f32, dot, cpu_gemm}
use npu_gpu_cpu.Gemm.Pack.{
  blocked_offset, colmaj_offset, pack_A_bf16-blocked, pack_B_bf16_colmaj-blocked,
}
use npu_gpu_cpu.Gemm.Unpack.{unpack_C_f32-beyond_first_row, unpack_C_f32-first_row}
use npu_gpu_cpu.Gemm.Product.{cpu_gemm-dot, tiled_dot, tiled_dot-cpu_gemm}

abbrev numbers : Float ℕ
numbers = record { zero = 0; add = λ x y. x + y; mul = λ x y. x * y }

abbrev counting : Array ℕ
counting i = i + 1

abbrev ones : Array ℕ
ones i = 1

-- Row 1 · column 1 of a 2 × 2 product.
small_product : cpu_gemm numbers counting counting ones 2 2 2 3 ≡ 3 * 2 + 4 * 4
unfolding cpu_gemm dot for_to
small_product = refl

pack_A_bf16-blocked_test :
    pack_A_bf16 counting ones 16 16 (blocked_offset (16 / 8) 9 3) ≡ counting (9 * 16 + 3)
pack_A_bf16-blocked_test =
    pack_A_bf16-blocked counting ones 16 16 9 3 (omega arith) (omega arith) (omega arith)
      (omega arith)

pack_B_bf16_colmaj-blocked_test :
    pack_B_bf16_colmaj counting ones 16 16 (colmaj_offset (16 / 8) 9 3) ≡ counting (9 * 16 + 3)
pack_B_bf16_colmaj-blocked_test =
    pack_B_bf16_colmaj-blocked counting ones 16 16 9 3 (omega arith) (omega arith) (omega arith)
      (omega arith)

unpack_C_f32-beyond_first_row_example : unpack_C_f32 counting ones 16 16 17 ≡ ones 17
unpack_C_f32-beyond_first_row_example =
    unpack_C_f32-beyond_first_row counting ones 16 16 17 (omega arith)

unpack_C_f32-first_row_test :
    unpack_C_f32 counting ones 16 16 5 ≡ counting (blocked_offset (16 / 8) (16 - 1) 5)
unpack_C_f32-first_row_test =
    unpack_C_f32-first_row counting ones 16 16 5 (omega arith) (omega arith) (omega arith)
      (omega arith)

cpu_gemm-dot_test :
    cpu_gemm numbers counting counting ones 16 16 16 (9 * 16 + 3)
    ≡ dot numbers counting counting 16 16 9 3
cpu_gemm-dot_test =
    cpu_gemm-dot numbers counting counting ones 16 16 16 9 3 (omega arith) (omega arith)

tiled_dot-cpu_gemm_example :
    tiled_dot numbers counting counting ones ones 16 16 16 9 3
      (pack_A_bf16 counting ones 16 16)
      (pack_B_bf16_colmaj counting ones 16 16)
    ≡ cpu_gemm numbers counting counting ones 16 16 16 (9 * 16 + 3)
tiled_dot-cpu_gemm_example =
    tiled_dot-cpu_gemm numbers counting counting ones ones 16 16 16 9 3 ones (omega arith)
      (omega arith) (omega arith) (omega arith) (omega arith)

verify_iff_example :
    ((verify (λ a b. a - b) (λ a b. ltb b a) 1 0 2 3 (λ k. k + 1) (λ k. k)).0 ≡ true)
    ↔ ((i : ℕ) → i < 2 → (j : ℕ) → j < 3 → ltb 1 (i * 3 + j + 1 - (i * 3 + j)) ≡ false)
verify_iff_example = verify_iff (λ a b. a - b) (λ a b. ltb b a) 1 0 2 3 (λ k. k + 1) (λ k. k)

-- The error 3 at the place 4 ends the comparison, and is the largest.
verify_mismatch :
    verify (λ a b. a - b) (λ a b. ltb b a) 1 0 2 3 (λ k. k + 1) (λ k. if k == 4 then 2 else k)
    ≡ (false, 3)
unfolding verify for_to
verify_mismatch = refl
