-- ===== src/Gemm/Product.antt =====
-- `cpu_gemm`, and the product read from the packed operands.
use mathlib.Core.Path.{ap₂}
use npu_gpu_cpu.Prelude.{
  ℕ, ◌+◌, ◌*◌, ◌/◌, ◌%◌, ◌≤◌, ◌<◌, ◌≡◌, ◌≢◌, sym, ap, ◌∙◌, arith, Array, for_to, for_to_hit,
  for_to_miss, for_to_congr, for_to-blocks, if◌then◌else◌, ◌==◌,
}
use npu_gpu_cpu.Prelude.Index.{div_index, index-lt}
use npu_gpu_cpu.Gemm.{Float, pack_A_bf16, pack_B_bf16_colmaj, dot, cpu_gemm}
use npu_gpu_cpu.Gemm.Pack.{pack_A_bf16-blocked, pack_B_bf16_colmaj-blocked}

module _ {F : Type 0} (f : Float F) (a b c : Array F) (m n k : ℕ) where
  -- Each element of the product is the row-by-column sum, accumulated from 0 in the order of k.
  pub cpu_gemm-dot :
      (i j : ℕ) → i < m → j < n → cpu_gemm f a b c m n k (i * n + j) ≡ dot f a b n k i j
  unfolding cpu_gemm
  cpu_gemm-dot i j hi hj =
      for_to_hit m i _ c _ _ hi
        (λ t. for_to_hit n j _ t _ _ hj (λ u. ground arith) (λ j' u p ne. ground arith))
        (λ i' t p ne. for_to_miss n _ t _ (λ j' u p'. other i' j' p' ne u))
    where
      apart : (i' j' : ℕ) → j' < n → i' ≢ i → i * n + j ≢ i' * n + j'
      apart i' j' q ne e =
          ne (sym (div_index i' j' n q) ∙ ap (λ x. x / n) (sym e) ∙ div_index i j n hj)

      other :
          (i' j' : ℕ)
          → j' < n
          → i' ≢ i
          → (u : Array F)
          → (if i * n + j == i' * n + j' then dot f a b n k i' j' else u (i * n + j))
            ≡ u (i * n + j)
      other i' j' q ne u = ground (arith, apart i' j' q ne)

  pub cpu_gemm-outside : (q : ℕ) → m * n ≤ q → cpu_gemm f a b c m n k q ≡ c q
  unfolding cpu_gemm
  cpu_gemm-outside q h =
      for_to_miss m _ c q
        (λ i t p. for_to_miss n _ t q (λ j u p'. ground (arith, index-lt i j m n p p')))

module _ {F : Type 0} (f : Float F) (a b a_packed b_packed : Array F) (m n k i j : ℕ) where
  -- The product of row i and column j as a kernel computes it that walks the packed buffers tile by
  -- tile, in storage order.
  abbrev pub tiled_dot : Array F → Array F → F
  tiled_dot pa pb =
      for_to (k / 8)
        (λ ki. for_to 8 λ s sum. f.add sum (
          f.mul (pa ((i / 8 * (k / 8) + ki) * 64 + i % 8 * 8 + s))
            (pb ((j / 8 * (k / 8) + ki) * 64 + s * 8 + j % 8))))
        f.zero

  -- With dimensions that are multiples of 8, the product formed tile by tile from the two packed
  -- operands is the element of `cpu_gemm`, with no law of the float operations.
  pub tiled_dot-cpu_gemm :
      (c : Array F)
      → m % 8 ≡ 0
      → n % 8 ≡ 0
      → k % 8 ≡ 0
      → i < m
      → j < n
      → tiled_dot (pack_A_bf16 a a_packed m k) (pack_B_bf16_colmaj b b_packed k n)
        ≡ cpu_gemm f a b c m n k (i * n + j)
  unfolding dot
  tiled_dot-cpu_gemm c hm hn hk hi hj =
      for_to_congr (k / 8) f.zero (λ ki t p.
        for_to_congr 8 t
          (λ s u q. ap₂ (λ x y. f.add u (f.mul x y)) (from_a ki s p q) (from_b ki s p q)))
      ∙ for_to-blocks (k / 8) 8 step f.zero
      ∙ ap (λ x. for_to x step f.zero) {x = k / 8 * 8} {y = k} (omega arith)
      ∙ sym (cpu_gemm-dot f a b c m n k i j hi hj)
    where
      step : ℕ → F → F
      step kk sum = f.add sum (f.mul (a (i * k + kk)) (b (kk * n + j)))

      pa : Array F
      pa = pack_A_bf16 a a_packed m k

      pb : Array F
      pb = pack_B_bf16_colmaj b b_packed k n

      from_a :
          (ki s : ℕ)
          → ki < k / 8
          → s < 8
          → pa ((i / 8 * (k / 8) + ki) * 64 + i % 8 * 8 + s) ≡ a (i * k + (ki * 8 + s))
      from_a ki s p q =
          ap₂ (λ x y. pa ((i / 8 * (k / 8) + x) * 64 + i % 8 * 8 + y)) {x = ki}
            {y = (ki * 8 + s) / 8} {u = s} {v = (ki * 8 + s) % 8} (omega arith) (omega arith)
          ∙ pack_A_bf16-blocked a a_packed m k i (ki * 8 + s) hm hk hi (omega arith)

      from_b :
          (ki s : ℕ)
          → ki < k / 8
          → s < 8
          → pb ((j / 8 * (k / 8) + ki) * 64 + s * 8 + j % 8) ≡ b ((ki * 8 + s) * n + j)
      from_b ki s p q =
          ap₂ (λ x y. pb ((j / 8 * (k / 8) + x) * 64 + y * 8 + j % 8)) {x = ki}
            {y = (ki * 8 + s) / 8} {u = s} {v = (ki * 8 + s) % 8} (omega arith) (omega arith)
          ∙ pack_B_bf16_colmaj-blocked b b_packed k n (ki * 8 + s) j hk hn (omega arith) hj
