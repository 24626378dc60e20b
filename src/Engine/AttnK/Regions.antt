-- ===== src/Engine/AttnK/Regions.antt =====
-- Which word of the buffers each loop writes.
use npu_gpu_cpu.Prelude.{
  ℕ, ◌+◌, ◌*◌, ◌/◌, ◌%◌, ◌^◌, ◌≤◌, ◌<◌, ◌≡◌, ◌∙◌, ◌⊎◌, inr, Array, for_to_hit, for_to_miss,
  for_to_apply, if◌then◌else◌, arith,
}
use npu_gpu_cpu.Engine.Bf16.{bf16f, isfinite}
use npu_gpu_cpu.Engine.AttnK.{
  pack_pair, pack_q, pack_kv, pack_input, clear, kv_word, unpack_output, drop_nonfinite,
}

pub pack_q_at :
    (q4 s : Array ℕ) (h dm : ℕ)
    → h < 4
    → dm < 64
    → pack_q q4 s (h * 64 + dm) ≡ pack_pair (q4 (h * 128 + 2 * dm)) (q4 (h * 128 + (2 * dm + 1)))
unfolding pack_q
pack_q_at q4 s h dm hh hd =
    for_to_hit 4 h _ s _ _ hh
      (λ t. for_to_hit 64 dm _ t _ _ hd (λ u. ground arith) (λ j u p ne. ground arith))
      (λ j t p ne. for_to_miss 64 _ t _ (λ k u p'. ground arith))

pub pack_q_beyond : (q4 s : Array ℕ) (q : ℕ) → 256 ≤ q → pack_q q4 s q ≡ s q
unfolding pack_q
pack_q_beyond q4 s q h = for_to_miss 4 _ s q λ j t p. for_to_miss 64 _ t q λ k u p'. ground arith

module _ (k2 v2 s : Array ℕ) (n : ℕ) where
  pub pack_kv_k :
      (b t h dm : ℕ)
      → b < 2
      → t < 16
      → h < 2
      → dm < 64
      → pack_kv k2 v2 n s (256 + b * 2048 + t * 128 + h * 64 + dm) ≡ kv_word k2 n (b * 16 + t) h dm
  unfolding pack_kv
  pack_kv_k b t h dm hb ht hh hd =
      for_to_hit 2 b _ s _ _ hb
        (λ s₁.
          for_to_hit 16 t _ s₁ _ _ ht
            (λ s₂.
              for_to_hit 2 h _ s₂ _ _ hh
                (λ s₃.
                  for_to_hit 64 dm _ s₃ _ _ hd (λ s₄. ground arith) (λ j s₄ p ne. ground arith))
                (λ j s₃ p ne. for_to_miss 64 _ s₃ _ (λ x s₄ p'. ground arith)))
            (λ j s₂ p ne.
              for_to_miss 2 _ s₂ _ (λ y s₃ p'. for_to_miss 64 _ s₃ _ (λ x s₄ p''. ground arith))))
        (λ j s₁ p ne. for_to_miss 16 _ s₁ _ (λ z s₂ p'.
          for_to_miss 2 _ s₂ _ (λ y s₃ p''. for_to_miss 64 _ s₃ _ (λ x s₄ p'''. ground arith))))

  pub pack_kv_v :
      (b t h dm : ℕ)
      → b < 2
      → t < 16
      → h < 2
      → dm < 64
      → pack_kv k2 v2 n s (4352 + b * 2048 + t * 128 + h * 64 + dm) ≡ kv_word v2 n (b * 16 + t) h dm
  unfolding pack_kv
  pack_kv_v b t h dm hb ht hh hd =
      for_to_hit 2 b _ s _ _ hb
        (λ s₁.
          for_to_hit 16 t _ s₁ _ _ ht
            (λ s₂.
              for_to_hit 2 h _ s₂ _ _ hh
                (λ s₃.
                  for_to_hit 64 dm _ s₃ _ _ hd (λ s₄. ground arith) (λ j s₄ p ne. ground arith))
                (λ j s₃ p ne. for_to_miss 64 _ s₃ _ (λ x s₄ p'. ground arith)))
            (λ j s₂ p ne.
              for_to_miss 2 _ s₂ _ (λ y s₃ p'. for_to_miss 64 _ s₃ _ (λ x s₄ p''. ground arith))))
        (λ j s₁ p ne. for_to_miss 16 _ s₁ _ (λ z s₂ p'.
          for_to_miss 2 _ s₂ _ (λ y s₃ p''. for_to_miss 64 _ s₃ _ (λ x s₄ p'''. ground arith))))

  pub pack_kv_q : (q : ℕ) → (q < 256) ⊎ (8448 ≤ q) → pack_kv k2 v2 n s q ≡ s q
  unfolding pack_kv
  pack_kv_q q h = for_to_miss 2 _ s q λ b s₁ p.
      for_to_miss 16 _ s₁ q
        λ t s₂ p'. for_to_miss 2 _ s₂ q λ y s₃ p''. for_to_miss 64 _ s₃ q λ x s₄ p'''. ground arith

pub unpack_output_even :
    (od s : Array ℕ) (h dm : ℕ)
    → h < 4
    → dm < 64
    → unpack_output od s (h * 128 + 2 * dm) ≡ bf16f (od (h * 64 + dm) / 2 ^ 16)
unfolding unpack_output
unpack_output_even od s h dm hh hd =
    for_to_hit 4 h _ s _ _ hh
      (λ t. for_to_hit 64 dm _ t _ _ hd (λ u. ground arith) (λ j u p ne. ground arith))
      (λ j t p ne. for_to_miss 64 _ t _ (λ k u p'. ground arith))

pub unpack_output_odd :
    (od s : Array ℕ) (h dm : ℕ)
    → h < 4
    → dm < 64
    → unpack_output od s (h * 128 + (2 * dm + 1)) ≡ bf16f (od (h * 64 + dm) % 2 ^ 16)
unfolding unpack_output
unpack_output_odd od s h dm hh hd =
    for_to_hit 4 h _ s _ _ hh
      (λ t. for_to_hit 64 dm _ t _ _ hd (λ u. ground arith) (λ j u p ne. ground arith))
      (λ j t p ne. for_to_miss 64 _ t _ (λ k u p'. ground arith))

-- What the last loop makes of one value.
abbrev pub finite_or_zero : ℕ → ℕ
finite_or_zero b = if isfinite b then b else 0

pub drop_nonfinite_at :
    (s : Array ℕ) (h d : ℕ)
    → h < 4
    → d < 128
    → drop_nonfinite s (h * 128 + d) ≡ finite_or_zero (s (h * 128 + d))
unfolding drop_nonfinite
drop_nonfinite_at s h d hh hd =
    for_to_apply 4 h _ s _ finite_or_zero hh
      (λ t.
        for_to_apply 128 d _ t _ finite_or_zero hd (λ u. ground arith) (λ j u p ne. ground arith))
      (λ j t p ne. for_to_miss 128 _ t _ (λ k u p'. ground arith))

-- Nothing behind the input buffer is written.
pub pack_input-beyond :
    (q4 k2 v2 : Array ℕ) (n : ℕ) (in_m : Array ℕ) (q : ℕ)
    → 8448 ≤ q
    → pack_input q4 k2 v2 n in_m q ≡ in_m q
unfolding pack_input clear
pack_input-beyond q4 k2 v2 n in_m q h =
    pack_kv_q k2 v2 (pack_q q4 (clear in_m)) n q (inr h)
    ∙ pack_q_beyond q4 (clear in_m) q (omega arith)
    ∙ ground arith
