-- ===== src/Gemm/Unpack.antt =====
-- `unpack_C_f32`: what its comma expression does to the result.
use native.Mathlib.Omega.{arith}
use npu_gpu_cpu.Prelude.{
  ℕ, suc, ◌+◌, ◌-◌, ◌*◌, ◌/◌, ◌%◌, ◌≤◌, ◌<◌, ◌≡◌, ap, ◌∙◌, Array, write, for_to, for_to_hit,
  for_to_miss, for_to_last, if◌then◌else◌, ◌==◌,
}
use npu_gpu_cpu.Gemm.{unpack_C_f32}
use npu_gpu_cpu.Gemm.Pack.{blocked_offset}

module _ {F : Type 0} (packed c : Array F) where
  -- Every element of the destination from number n on, that is from the second row on, keeps what the
  -- buffer held before, whatever was packed.
  pub unpack_C_f32-beyond_first_row : (m n q : ℕ) → n ≤ q → unpack_C_f32 packed c m n q ≡ c q
  unfolding unpack_C_f32
  unpack_C_f32-beyond_first_row m n q h = for_to_miss (m / 8) _ c q λ z t p.
      for_to_miss (n / 8) _ t q
        λ nj u p'. for_to_miss 8 _ u q λ r v p''. for_to_miss 8 _ v q λ k w p'''. ground arith

  -- With dimensions that are multiples of 8 and at least one row, the first row of the destination
  -- ends up with the last row of the packed result.
  pub unpack_C_f32-first_row :
      (m n j : ℕ)
      → m % 8 ≡ 0
      → n % 8 ≡ 0
      → 0 < m
      → j < n
      → unpack_C_f32 packed c m n j ≡ packed (blocked_offset (n / 8) (m - 1) j)
  unfolding unpack_C_f32
  unpack_C_f32-first_row m n j hm hn pos hj =
      ap (λ x. for_to x body c j) {x = m / 8} {y = suc (m / 8 - 1)} (omega arith)
      ∙ for_to_last (m / 8 - 1) body c j _ (λ t.
        for_to_hit (n / 8) (j / 8) _ t j _ (omega arith) (λ u. row u)
          (λ nj u p ne. for_to_miss 8 _ u j λ r v p'. for_to_miss 8 _ v j λ k w p''. ground arith))
    where
      body : ℕ → Array F → Array F
      body z = for_to (n / 8) λ nj.
          for_to 8
            λ r. for_to 8 λ k. write (nj * 8 + k) (packed ((z * (n / 8) + nj) * 64 + r * 8 + k))

      last : ℕ
      last = (m / 8 - 1) * (n / 8) + j / 8

      same : last * 64 + 7 * 8 + j % 8 ≡ blocked_offset (n / 8) (m - 1) j
      same =
          ap (λ x. (x * (n / 8) + j / 8) * 64 + 7 * 8 + j % 8) {x = m / 8 - 1} {y = (m - 1) / 8}
            (omega arith)
          ∙ ap (λ x. ((m - 1) / 8 * (n / 8) + j / 8) * 64 + x * 8 + j % 8) {x = 7} {y = (m - 1) % 8}
              (omega arith)

      cell :
          (w : Array F)
          → (if j == j / 8 * 8 + j % 8 then packed (last * 64 + 7 * 8 + j % 8) else w j)
            ≡ packed (last * 64 + 7 * 8 + j % 8)
      cell w = ground arith

      row :
          (u : Array F)
          → for_to 8 (λ r. for_to 8 λ k. write (j / 8 * 8 + k) (packed (last * 64 + r * 8 + k))) u j
            ≡ packed (blocked_offset (n / 8) (m - 1) j)
      row u =
          for_to_last 7 _ u j _
            (λ v. for_to_hit 8 (j % 8) _ v j _ (omega arith) cell (λ k w p ne. ground arith))
          ∙ ap packed same
