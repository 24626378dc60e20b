-- ===== src/Engine/I8Ctx/Quantise.antt =====
-- The quantised weights and their scale.
use npu_gpu_cpu.Prelude.{
  ℕ, zero, suc, ◌*◌, ◌≤◌, ◌<◌, for_to_miss, ◌≡◌, refl, ℤ, pos, negsuc, ◌≤ℤ◌, Array, for_to,
  for_to_hit, true, false, ◌==◌, if◌then◌else◌, arith,
}
use native.Mathlib.Decide.{ℕ_discrete}
use npu_gpu_cpu.Engine.Floats.{Floats}
use npu_gpu_cpu.Engine.I8Ctx.{clamp, quantise, abs_max, usable, pack_b}

clamp_range : (x : ℤ) → (negsuc 126 ≤ℤ clamp x) × (clamp x ≤ℤ pos 127)
unfolding clamp
clamp_range x = ground arith

module _ {F D : Type 0} (f : Floats F D) where
  quantise_range :
      (scale v : F) → (negsuc 126 ≤ℤ quantise f scale v) × (quantise f scale v ≤ℤ pos 127)
  unfolding quantise
  quantise_range scale v =
      clamp_range (f.round_to_int (f.mul (if f.isfinite v then v else f.zero) scale))

  -- Every one of the K × N elements of B is quantised by the one scale of the matrix, and the result
  -- lies in -127 .. 127, so that the cast to int8_t keeps it.
  pub pack_b_cells :
      (w : Array F) (k n : ℕ) (b_m : Array ℤ) (i : ℕ)
      → i < k * n
      → let stored = (pack_b f w k n b_m).1 i in
        (stored ≡ quantise f (f.div f.f127 (usable f (abs_max f w (k * n)))) (w i))
        × (negsuc 126 ≤ℤ stored)
        × (stored ≤ℤ pos 127)
  unfolding pack_b
  pack_b_cells w k n b_m i h =
      let r = quantise_range (f.div f.f127 (usable f (abs_max f w (k * n)))) (w i) in
      rw cell (refl, r.0, r.1)
    where
      cell :
          for_to
            (k * n)
            (λ j. λ (m : Array ℤ) (x : ℕ).
              if x == j
              then quantise f (f.div f.f127 (usable f (abs_max f w (k * n)))) (w j)
              else m x)
            b_m
            i
          ≡ quantise f (f.div f.f127 (usable f (abs_max f w (k * n)))) (w i)
      cell = for_to_hit (k * n) i _ b_m i _ h (λ t. ground arith) (λ j t p ne. ground arith)

  -- No finite magnitude among the elements is greater than the one found, if the comparison is
  -- irreflexive and what is not above m is not above a value above m.
  pub abs_max_bound :
      (w : Array F) (n i : ℕ)
      → ((a : F) → f.greater a a ≡ false)
      → ((a m m' : F) → f.greater m' m ≡ true → f.greater a m ≡ false → f.greater a m' ≡ false)
      → i < n
      → f.isfinite (f.fabsf (w i)) ≡ true
      → f.greater (f.fabsf (w i)) (abs_max f w n) ≡ false
  unfolding abs_max for_to
  abs_max_bound w zero i irr up lt fin = absurd (omega arith)
  abs_max_bound w (suc n) i irr up lt fin = elim (ℕ_discrete i n) [
    | yes e ↦ rw e (last (rw e at fin))
    | no ne ↦ earlier (abs_max_bound w n i irr up (omega arith) fin)
  ]
    where
      last :
          f.isfinite (f.fabsf (w n)) ≡ true
          → f.greater (f.fabsf (w n)) (abs_max f w (suc n)) ≡ false
      last g = ground (arith, irr (f.fabsf (w n)))

      earlier :
          f.greater (f.fabsf (w i)) (abs_max f w n) ≡ false
          → f.greater (f.fabsf (w i)) (abs_max f w (suc n)) ≡ false
      earlier g = ground (arith, up (f.fabsf (w i)) (abs_max f w n) (f.fabsf (w n)))

-- Nothing behind the k × n elements of B is written.
pub pack_b-beyond :
    {F D : Type 0} (f : Floats F D) (w : Array F) (k n : ℕ) (b_m : Array ℤ) (q : ℕ)
    → k * n ≤ q
    → (pack_b f w k n b_m).1 q ≡ b_m q
unfolding pack_b
pack_b-beyond f w k n b_m q h = for_to_miss (k * n) _ b_m q (λ i t p. ground arith)
