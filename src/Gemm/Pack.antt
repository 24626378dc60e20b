-- ===== src/Gemm/Pack.antt =====
-- `pack_A_bf16` and `pack_B_bf16_colmaj`: where each element of the matrix is found afterwards.
use native.Mathlib.Nat.{mul-le-mul}
use npu_gpu_cpu.Prelude.{ℕ, ◌+◌, ◌*◌, ◌/◌, ◌%◌, ◌≤◌, ◌<◌, ◌≡◌, ap, ◌∙◌, arith, Array}
use npu_gpu_cpu.Gemm.{pack_A_bf16, pack_B_bf16_colmaj}
use npu_gpu_cpu.Gemm.Tile.{tiles_hit, tiles_miss}

-- The documented layout: 8×8 tiles one after the other, `tiles` of them to a tile row, and the
-- elements of a tile row-major.
abbrev pub blocked_offset : ℕ → ℕ → ℕ → ℕ
blocked_offset tiles i j = (i / 8 * tiles + j / 8) * 64 + i % 8 * 8 + j % 8

-- The layout of B: the tiles of one tile column stand one after the other.
abbrev pub colmaj_offset : ℕ → ℕ → ℕ → ℕ
colmaj_offset tiles i j = (j / 8 * tiles + i / 8) * 64 + i % 8 * 8 + j % 8

whole : (x : ℕ) → x / 8 * 8 + x % 8 ≡ x
whole x = omega arith

whole_tiles-le : (m n : ℕ) → m / 8 * (n / 8) * 64 ≤ m * n
whole_tiles-le m n = omega (
  arith,
  mul-le-mul {n₁ = m / 8 * 8} {m₁ = n / 8 * 8} {n₂ = m} {m₂ = n} (omega arith) (omega arith),
)

module _ {F : Type 0} (a packed : Array F) (m n : ℕ) where
  -- With dimensions that are multiples of 8, every element of A stands at its place of the blocked
  -- layout, whatever the buffer held before.
  pub pack_A_bf16-blocked :
      (i j : ℕ)
      → m % 8 ≡ 0
      → n % 8 ≡ 0
      → i < m
      → j < n
      → pack_A_bf16 a packed m n (blocked_offset (n / 8) i j) ≡ a (i * n + j)
  unfolding pack_A_bf16
  pack_A_bf16-blocked i j hm hn hi hj =
      tiles_hit (m / 8) (n / 8) (i / 8) (j / 8) (i % 8) (j % 8) _ packed (omega arith) (omega arith)
        (omega arith) (omega arith)
      ∙ ap a {y = i * n + j} (rw (whole i) (rw (whole j)))

  -- Beyond the m × n elements the destination is not touched, whatever the dimensions.
  pub pack_A_bf16-outside : (q : ℕ) → m * n ≤ q → pack_A_bf16 a packed m n q ≡ packed q
  unfolding pack_A_bf16
  pack_A_bf16-outside q h =
      tiles_miss (m / 8) (n / 8) q _ packed (omega (arith, whole_tiles-le m n))

  -- With dimensions that are multiples of 8 every element of B stands at its
  -- place of the layout with column-major tiles.
  pub pack_B_bf16_colmaj-blocked :
      (i j : ℕ)
      → m % 8 ≡ 0
      → n % 8 ≡ 0
      → i < m
      → j < n
      → pack_B_bf16_colmaj a packed m n (colmaj_offset (m / 8) i j) ≡ a (i * n + j)
  unfolding pack_B_bf16_colmaj
  pack_B_bf16_colmaj-blocked i j hm hn hi hj =
      tiles_hit (n / 8) (m / 8) (j / 8) (i / 8) (i % 8) (j % 8) _ packed (omega arith) (omega arith)
        (omega arith) (omega arith)
      ∙ ap a {y = i * n + j} (rw (whole i) (rw (whole j)))

  -- And nothing beyond the m × n elements is touched.
  pub pack_B_bf16_colmaj-outside :
      (q : ℕ) → m * n ≤ q → pack_B_bf16_colmaj a packed m n q ≡ packed q
  unfolding pack_B_bf16_colmaj
  pack_B_bf16_colmaj-outside q h =
      tiles_miss (n / 8) (m / 8) q _ packed (omega (arith, whole_tiles-le m n))
