-- ===== src/Gemm/Tile.antt =====
-- A grid of `m × n` micro-tiles written one after the other: which element each write decides.
use native.Mathlib.Decide.{dec_lt}
use npu_gpu_cpu.Prelude.{
  ℕ, ◌+◌, ◌*◌, ◌/◌, ◌≤◌, ◌<◌, ◌≡◌, ◌≢◌, ap, sym, ◌∙◌, ◌⊎◌, inl, inr, arith, Array, write, for_to,
  for_to_hit, for_to_miss,
}
use npu_gpu_cpu.Prelude.Index.{div_index, index-lt}

tile_apart :
    (x y r c : ℕ)
    → r < 8
    → c < 8
    → x ≢ y
    → (x * 64 + r * 8 + c < y * 64) ⊎ (y * 64 + 64 ≤ x * 64 + r * 8 + c)
tile_apart x y r c hr hc ne = elim (dec_lt x y) [
  | yes lt ↦ inl (omega arith)
  | no ge ↦ inr (omega arith)
]

module _ {F : Type 0} where
  abbrev pub tile : ℕ → (ℕ → ℕ → F) → Array F → Array F
  tile off g = for_to 8 λ r. for_to 8 λ c. write (off + r * 8 + c) (g r c)

  abbrev pub tiles : ℕ → ℕ → (ℕ → ℕ → ℕ → ℕ → F) → Array F → Array F
  tiles m n g = for_to m λ a. for_to n λ b. tile ((a * n + b) * 64) (g a b)

  pub tile_hit :
      (off r c : ℕ) (g : ℕ → ℕ → F) (s : Array F)
      → r < 8
      → c < 8
      → tile off g s (off + r * 8 + c) ≡ g r c
  tile_hit off r c g s hr hc =
      for_to_hit 8 r _ s _ _ hr
        (λ t. for_to_hit 8 c _ t _ _ hc (λ u. ground arith) (λ j u p ne. ground arith))
        (λ j t p ne. for_to_miss 8 _ t _ (λ k u q. ground arith))

  pub tile_miss :
      (off q : ℕ) (g : ℕ → ℕ → F) (s : Array F) → (q < off) ⊎ (off + 64 ≤ q) → tile off g s q ≡ s q
  tile_miss off q g s h =
      for_to_miss 8 _ s q (λ r t p. for_to_miss 8 _ t q (λ c u p'. ground arith))

  pub tiles_hit :
      (m n a b r c : ℕ) (g : ℕ → ℕ → ℕ → ℕ → F) (s : Array F)
      → a < m
      → b < n
      → r < 8
      → c < 8
      → tiles m n g s ((a * n + b) * 64 + r * 8 + c) ≡ g a b r c
  tiles_hit m n a b r c g s ha hb hr hc =
      for_to_hit m a _ s _ _ ha
        (λ t.
          for_to_hit n b _ t _ _ hb (λ u. tile_hit _ r c _ u hr hc)
            (λ j u p ne. tile_miss _ _ _ u (tile_apart _ _ r c hr hc (other_column j ne))))
        (λ k t p ne.
          for_to_miss n _ t _
            (λ j u q. tile_miss _ _ _ u (tile_apart _ _ r c hr hc (other_row k j q ne))))
    where
      other_column : (j : ℕ) → j ≢ b → a * n + b ≢ a * n + j
      other_column j ne e = ne (omega arith)

      other_row : (k j : ℕ) → j < n → k ≢ a → a * n + b ≢ k * n + j
      other_row k j q ne e =
          ne (sym (div_index k j n q) ∙ ap (λ x. x / n) (sym e) ∙ div_index a b n hb)

  pub tiles_miss :
      (m n q : ℕ) (g : ℕ → ℕ → ℕ → ℕ → F) (s : Array F) → m * n * 64 ≤ q → tiles m n g s q ≡ s q
  tiles_miss m n q g s h = for_to_miss m _ s q (λ a t p.
      for_to_miss n _ t q
        (λ b u p'. tile_miss _ q _ u (inr (omega (arith, index-lt a b m n p p')))))
