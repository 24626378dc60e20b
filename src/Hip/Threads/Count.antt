-- ===== src/Hip/Threads/Count.antt =====
-- Sums over the first n threads.
use npu_gpu_cpu.Prelude.{ℕ, zero, suc, ◌+◌, ◌≤◌, ◌<◌, ◌≡◌, ◌≢◌, refl, Array, write, arith}
use native.Mathlib.Decide.{dec_lt, ℕ_discrete}

module _ {ℓ} {A : Type ℓ} where
  unfoldable pub sum_over : (A → ℕ) → ℕ → Array A → ℕ
  sum_over w zero f = 0
  sum_over w (suc n) f = sum_over w n f + w (f n)

  module _ (w : A → ℕ) where
    sum_over-write_beyond :
        (n : ℕ) (f : Array A) (i : ℕ) (a : A) → n ≤ i → sum_over w n (write i a f) ≡ sum_over w n f
    unfolding sum_over
    sum_over-write_beyond zero f i a h = refl
    sum_over-write_beyond (suc n) f i a h = ground (arith, sum_over-write_beyond n f i a)

    -- What one thread's move does to a sum.
    pub sum_over-write :
        (n : ℕ) (f : Array A) (i : ℕ) (a : A)
        → i < n
        → sum_over w n (write i a f) + w (f i) ≡ sum_over w n f + w a
    unfolding sum_over
    sum_over-write zero f i a h = absurd (omega arith)
    sum_over-write (suc n) f i a h = elim (ℕ_discrete i n) [
      | yes e ↦ rw e (ground (arith, sum_over-write_beyond n f n a))
      | no ne ↦ ground (arith, sum_over-write n f i a)
    ]

    pub sum_over_none : (n : ℕ) (f : Array A) → ((i : ℕ) → i < n → w (f i) ≡ 0) → sum_over w n f ≡ 0
    unfolding sum_over
    sum_over_none zero f h = refl
    sum_over_none (suc n) f h =
        omega (arith, h n (omega arith), sum_over_none n f (λ i lt. h i (omega arith)))

    pub le-sum_over : (n : ℕ) (f : Array A) (i : ℕ) → i < n → w (f i) ≤ sum_over w n f
    unfolding sum_over
    le-sum_over zero f i h = absurd (omega arith)
    le-sum_over (suc n) f i h = elim (ℕ_discrete i n) [
      | yes e ↦ rw e (omega arith)
      | no ne ↦ omega (arith, le-sum_over n f i)
    ]

    pub of_sum_over_pos :
        (n : ℕ) (f : Array A) → 0 < sum_over w n f → (i : ℕ) × (i < n) × (0 < w (f i))
    unfolding sum_over
    of_sum_over_pos zero f h = absurd (omega arith)
    of_sum_over_pos (suc n) f h = elim (dec_lt 0 (w (f n))) [
      | yes p ↦ (n, omega arith, p)
      | no p ↦ let (i, lt, q) = of_sum_over_pos n f (omega arith) in (i, omega arith, q)
    ]

    -- Two threads count for two.
    pub two-le-sum_over :
        (n : ℕ) (f : Array A) (i j : ℕ) → i < n → j < n → i ≢ j → w (f i) + w (f j) ≤ sum_over w n f
    unfolding sum_over
    two-le-sum_over zero f i j h k ne = absurd (omega arith)
    two-le-sum_over (suc n) f i j h k ne = elim (ℕ_discrete i n) [
      | yes e ↦ rw e (omega (arith, le-sum_over n f j))
      | no n₁ ↦ elim (ℕ_discrete j n) [
        | yes e ↦ rw e (omega (arith, le-sum_over n f i))
        | no n₂ ↦ omega (arith, two-le-sum_over n f i j)
      ]
    ]

  -- A weight that is nowhere more than another one, by what it is at one thread.
  pub sum_over-le :
      (v w : A → ℕ) (n : ℕ) (f : Array A) (i : ℕ)
      → ((a : A) → v a ≤ w a)
      → i < n
      → sum_over v n f + w (f i) ≤ sum_over w n f + v (f i)
  unfolding sum_over
  sum_over-le v w zero f i h lt = absurd (omega arith)
  sum_over-le v w (suc n) f i h lt = elim (ℕ_discrete i n) [
    | yes e ↦ rw e (omega (arith, all n))
    | no ne ↦ omega (arith, h (f n), sum_over-le v w n f i h)
  ]
    where
      all : (k : ℕ) → sum_over v k f ≤ sum_over w k f
      all zero = omega arith
      all (suc k) = omega (arith, h (f k), all k)
