-- ===== src/Gemm/Verify.antt =====
-- The comparison of the product with the reference in `main` of tests/test_prepacked_gemm.cpp. The error
-- of an element, `>` and the limit 0.1f are parameters.
use npu_gpu_cpu.Prelude.{
  ℕ, zero, suc, ◌+◌, ◌*◌, ◌<◌, ◌≡◌, refl, Bool, true, false, Array, for_to, Bool-cases, inl, inr,
  ◌↔◌, if◌then◌else◌, arith,
}
use native.Mathlib.Decide.{ℕ_discrete}

module _ {F D : Type 0} (error : F → F → D) (greater : D → D → Bool) (limit : D) where
  -- One round of the inner loop, at place k: `pass` and `max_err`.
  pub compare_at : Array F → Array F → ℕ → Bool × D → Bool × D
  compare_at c c_ref k st =
      let err = error (c k) (c_ref k) in
      (if greater err limit then false else st.0, if greater err st.1 then err else st.1)

  -- `for(…; i < n && pass; i++)`
  pub while_pass : ℕ → (ℕ → Bool × D → Bool × D) → Bool × D → Bool × D
  while_pass n body = for_to n λ i st. if st.0 then body i st else st

  unfoldable pub verify : D → ℕ → ℕ → Array F → Array F → Bool × D
  unfolding compare_at while_pass
  verify zero_d m n c c_ref =
      while_pass m (λ i. while_pass n (λ j. compare_at c c_ref (i * n + j))) (true, zero_d)

  -- A loop that goes on while `pass` holds keeps it to its end if each of its rounds does.
  while_pass_iff :
      (n : ℕ) (body : ℕ → Bool × D → Bool × D) (Fine : ℕ → Type 0)
      → ((i : ℕ) (st : Bool × D) → st.0 ≡ true → ((body i st).0 ≡ true) ↔ Fine i)
      → (st : Bool × D) → st.0 ≡ true
      → ((while_pass n body st).0 ≡ true) ↔ ((i : ℕ) → i < n → Fine i)
  unfolding while_pass for_to
  while_pass_iff zero body Fine each st h = ((λ p i lt. absurd (omega arith)), λ p. h)
  while_pass_iff (suc n) body Fine each st h = elim (Bool-cases (while_pass n body st).0) [
    | inl on ↦ (
      λ p i lt. elim (ℕ_discrete i n) [
        | yes e ↦ rw e ((each n (while_pass n body st) on).0 (ground arith))
        | no ne ↦ (while_pass_iff n body Fine each st h).0 on i (omega arith)
      ],
      λ p. ground (arith, (each n (while_pass n body st) on).1 (p n (omega arith))),
    )
    | inr off ↦ (
      λ p. absurd (ground arith),
      λ p.
          absurd
            (ground (arith, (while_pass_iff n body Fine each st h).1 (λ i lt. p i (omega arith)))),
    )
  ]

  compare_at_iff :
      (c c_ref : Array F) (k : ℕ) (st : Bool × D)
      → st.0 ≡ true
      → ((compare_at c c_ref k st).0 ≡ true) ↔ (greater (error (c k) (c_ref k)) limit ≡ false)
  unfolding compare_at
  compare_at_iff c c_ref k st h = (λ p. ground arith, λ p. ground arith)

  -- The product passes exactly if the error of no element compares greater than the limit.
  pub verify_iff :
      (zero_d : D) (m n : ℕ) (c c_ref : Array F)
      → ((verify zero_d m n c c_ref).0 ≡ true) ↔ (
          (i : ℕ)
          → i < m
          → (j : ℕ) → j < n
          → greater (error (c (i * n + j)) (c_ref (i * n + j))) limit ≡ false)
  unfolding verify
  verify_iff zero_d m n c c_ref =
      while_pass_iff m _ _
        (λ i st h.
          while_pass_iff n _ _ (λ j st' h'. compare_at_iff c c_ref (i * n + j) st' h') st h)
        (true, zero_d) refl
