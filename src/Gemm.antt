-- ===== src/Gemm.antt =====
-- tests/test_prepacked_gemm.cpp and tests/test_direct_npu_gemm.cpp: the packing of matrices into
-- 8×8 micro-tiles, the unpacking of the result and the CPU reference product.
-- Elements are of any type; `Float` supplies the three operations that the product uses.
mod Tile
pub mod Pack
pub mod Unpack
pub mod Verify
pub mod Product
mod Examples
use npu_gpu_cpu.Prelude.{ℕ, ◌+◌, ◌*◌, ◌/◌, Array, write, for_to, Bool, true, false, ◌&&◌}

-- C++ `float`: +, * and the literal 0, with no law assumed.
pub record Float (F : Type 0) : Type 0 where
  pub zero : F
  pub add : F → F → F
  pub mul : F → F → F

-- R = S = T
abbrev pub tile_side : ℕ
tile_side = 8

abbrev pub tile_elems : ℕ
tile_elems = 64

module _ {F : Type 0} where
  pub pack_A_bf16 : Array F → Array F → ℕ → ℕ → Array F
  pack_A_bf16 a a_packed m k =
      let m_tiles = m / tile_side in
      let k_tiles = k / tile_side in
      for_to m_tiles
        (λ z. for_to k_tiles λ ki.
          let tile_offset = (z * k_tiles + ki) * tile_elems in
          for_to tile_side λ r. for_to tile_side λ c.
            let src = (z * tile_side + r) * k + (ki * tile_side + c) in
            let dst = tile_offset + r * tile_side + c in write dst (a src))
        a_packed

  pub pack_B_bf16_colmaj : Array F → Array F → ℕ → ℕ → Array F
  pack_B_bf16_colmaj b b_packed k n =
      let k_tiles = k / tile_side in
      let n_tiles = n / tile_side in
      for_to n_tiles
        (λ nj. for_to k_tiles λ ki.
          let tile_offset = (nj * k_tiles + ki) * tile_elems in
          for_to tile_side λ r. for_to tile_side λ c.
            let src = (ki * tile_side + r) * n + (nj * tile_side + c) in
            let dst = tile_offset + r * tile_side + c in write dst (b src))
        b_packed

  -- `dst` is a comma expression in the source, so the row part is evaluated and dropped.
  pub unpack_C_f32 : Array F → Array F → ℕ → ℕ → Array F
  unpack_C_f32 c_packed c_out m n =
      let m_tiles = m / tile_side in
      let n_tiles = n / tile_side in
      for_to m_tiles
        (λ z. for_to n_tiles λ nj.
          let tile_offset = (z * n_tiles + nj) * tile_elems in
          for_to tile_side λ r. for_to tile_side λ c.
            let src = tile_offset + r * tile_side + c in
            let dst = nj * tile_side + c in write dst (c_packed src))
        c_out

module _ {F : Type 0} (f : Float F) where
  -- The inner loop of `cpu_gemm`.
  pub dot : Array F → Array F → ℕ → ℕ → ℕ → ℕ → F
  dot a b n k i j = for_to k (λ kk sum. f.add sum (f.mul (a (i * k + kk)) (b (kk * n + j)))) f.zero

  pub cpu_gemm : Array F → Array F → Array F → ℕ → ℕ → ℕ → Array F
  unfolding dot
  cpu_gemm a b c m n k = for_to m (λ i. for_to n λ j. write (i * n + j) (dot a b n k i j)) c
