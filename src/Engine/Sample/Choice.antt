-- ===== src/Engine/Sample/Choice.antt =====
-- Which token is chosen.
use npu_gpu_cpu.Prelude.{
  ℕ, zero, suc, ◌+◌, ◌≤◌, ◌<◌, ◌≡◌, refl, ap, ◌∙◌, Array, for_to, true, false, if◌then◌else◌, arith,
}
use native.Mathlib.Decide.{ℕ_discrete}
use npu_gpu_cpu.Engine.Floats.{Floats}
use npu_gpu_cpu.Engine.Sample.{largest, pick_from, pick}

module _ {F D : Type 0} (f : Floats F D) (lg : Array F) (rr : F) where
  -- The running sum before token i.
  abbrev pub sum_before : ℕ → F
  sum_before n = for_to n (λ i acc. f.add acc (lg i)) f.zero

  pick_from_first :
      (left i n : ℕ)
      → i ≤ n
      → n < i + left
      → ((j : ℕ) → i ≤ j → j < n → f.at_least (sum_before (suc j)) rr ≡ false)
      → f.at_least (sum_before (suc n)) rr ≡ true
      → pick_from f lg rr left i (sum_before i) ≡ n
  unfolding pick_from for_to
  pick_from_first zero i n le lt before h = absurd (omega arith)
  pick_from_first (suc left) i n le lt before h = elim (ℕ_discrete i n) [
    | yes e ↦ rw e (rw h refl)
    | no ne ↦
        ap (λ b. if b then i else pick_from f lg rr left (suc i) (sum_before (suc i)))
          (before i (omega arith) (omega arith))
        ∙ pick_from_first left (suc i) n (omega arith) (omega arith)
            (λ j p q. before j (omega arith) q) h
  ]

  -- If the running sum reaches the threshold at token n of the nv, and at no token before it, then token
  -- n is chosen.
  pub pick_first :
      (nv n : ℕ)
      → n < nv
      → ((j : ℕ) → j < n → f.at_least (sum_before (suc j)) rr ≡ false)
      → f.at_least (sum_before (suc n)) rr ≡ true
      → pick f lg rr nv ≡ n
  unfolding pick for_to
  pick_first nv n lt before h =
      pick_from_first nv 0 n (omega arith) (omega arith) (λ j p q. before j q) h

  pick_from_none :
      (left i : ℕ)
      → ((j : ℕ) → j < i + left → f.at_least (sum_before (suc j)) rr ≡ false)
      → pick_from f lg rr left i (sum_before i) ≡ 0
  unfolding pick_from for_to
  pick_from_none zero i never = refl
  pick_from_none (suc left) i never =
      ap (λ b. if b then i else pick_from f lg rr left (suc i) (sum_before (suc i)))
        (never i (omega arith))
      ∙ pick_from_none left (suc i) (λ j p. never j (omega arith))

  -- If the running sum never reaches the threshold, as when a weight is not a number, token 0 is
  -- chosen.
  pub pick_none :
      (nv : ℕ)
      → ((j : ℕ) → j < nv → f.at_least (sum_before (suc j)) rr ≡ false)
      → pick f lg rr nv ≡ 0
  unfolding pick for_to
  pick_none nv never = pick_from_none nv 0 (λ j p. never j (omega arith))

module _ {F D : Type 0} (f : Floats F D) where
  pick_from-lt :
      (lg : Array F) (rr : F) (left i n : ℕ) (acc : F)
      → 0 < n
      → i + left ≤ n
      → pick_from f lg rr left i acc < n
  unfolding pick_from
  pick_from-lt lg rr zero i n acc h le = h
  pick_from-lt lg rr (suc left) i n acc h le =
      ground (arith, pick_from-lt lg rr left (suc i) n (f.add acc (lg i)) h (omega arith))

  pub pick-lt : (lg : Array F) (rr : F) (nv : ℕ) → 0 < nv → pick f lg rr nv < nv
  unfolding pick
  pick-lt lg rr nv h = pick_from-lt lg rr nv 0 nv f.zero h (omega arith)

  -- No logit is greater than the one found, if the comparison is irreflexive and what is not above m is
  -- not above a value above m.
  pub largest_bound :
      (lg : Array F) (n i : ℕ)
      → ((a : F) → f.greater a a ≡ false)
      → ((a m m' : F) → f.greater m' m ≡ true → f.greater a m ≡ false → f.greater a m' ≡ false)
      → i ≤ n
      → f.greater (lg i) (largest f lg n) ≡ false
  unfolding largest for_to
  largest_bound lg zero i irr up le =
      ap (λ x. f.greater (lg x) (lg 0)) {y = 0} (omega arith) ∙ irr (lg 0)
  largest_bound lg (suc n) i irr up le = elim (ℕ_discrete i (suc n)) [
    | yes e ↦ ap (λ x. f.greater (lg x) (largest f lg (suc n))) {y = n + 1} (omega arith) ∙ last
    | no ne ↦ earlier (largest_bound lg n i irr up (omega arith))
  ]
    where
      last : f.greater (lg (n + 1)) (largest f lg (suc n)) ≡ false
      last = ground (arith, irr (lg (n + 1)))

      earlier :
          f.greater (lg i) (largest f lg n) ≡ false
          → f.greater (lg i) (largest f lg (suc n)) ≡ false
      earlier g = ground (arith, up (lg i) (largest f lg n) (lg (n + 1)))
