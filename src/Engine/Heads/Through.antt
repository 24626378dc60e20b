-- ===== src/Engine/Heads/Through.antt =====
-- `through`: a function that writes through a pointer.
use npu_gpu_cpu.Prelude.{
  ℕ, zero, suc, ◌+◌, ◌-◌, ◌≡◌, refl, ap, sym, ◌∙◌, Array, write, for_to, leb, arith, Bool-cases,
  inl, inr,
}
use npu_gpu_cpu.Engine.CpuAttn.{at_offset}
use npu_gpu_cpu.Engine.Heads.{through}

through_behind :
    {F : Type 0} (base : ℕ) (h : Array F → Array F) (x : Array F) (j : ℕ)
    → through base h x (base + j) ≡ h (at_offset base x) j
unfolding through
through_behind base h x j = ground arith

-- Calls through a pointer, one after the other, are one call of both.
pub through-through :
    {F : Type 0} (base : ℕ) (g h : Array F → Array F) (x : Array F)
    → through base g (through base h x) ≡ through base (λ y. g (h y)) x
unfolding through
through-through base g h x = λ i q. at q i
  where
    at : (q : ℕ) → through base g (through base h x) q ≡ through base (λ y. g (h y)) x q
    at q = elim (Bool-cases (leb base q)) [
      | inl le ↦ rw le (ap (λ y. g y (q - base)) (λ i j. through_behind base h x j i))
      | inr gt ↦ rw gt refl
    ]

through_nothing : {F : Type 0} (base : ℕ) (x : Array F) → through base (λ y. y) x ≡ x
unfolding through
through_nothing base x = λ i q. at q i
  where
    at : (q : ℕ) → through base (λ y. y) x q ≡ x q
    at q = elim (Bool-cases (leb base q)) [
      | inl le ↦ rw le (ap x (ground arith))
      | inr gt ↦ rw gt refl
    ]

pub through-for_to :
    {F : Type 0} (base n : ℕ) (body : ℕ → Array F → Array F) (x : Array F)
    → through base (for_to n body) x ≡ for_to n (λ i. through base (body i)) x
unfolding for_to
through-for_to base zero body x = through_nothing base x
through-for_to base (suc n) body x =
    sym (through-through base (body n) (for_to n body) x)
    ∙ ap (through base (body n)) (through-for_to base n body x)

-- A store through the pointer.
pub through-write :
    {F : Type 0} (base i : ℕ) (v : F) (x : Array F)
    → through base (write i v) x ≡ write (base + i) v x
unfolding through
through-write base i v x = λ k q. at q k
  where
    at : (q : ℕ) → through base (write i v) x q ≡ write (base + i) v x q
    at q = elim (Bool-cases (leb base q)) [
      | inl le ↦ rw le (ground (arith, ap x {x = base + (q - base)} {y = q} (ground arith)))
      | inr gt ↦ rw gt (ground arith)
    ]
