-- ===== src/Driver/Ring/Wait.antt =====
-- `amdgpu_npu_ring_wait`: its two results, and its termination.
use mathlib.Core.Path.{subst}
use native.Mathlib.Decide.{ℕ_discrete, dec_lt}
use npu_gpu_cpu.Prelude.{
  refl, ap, ◌∙◌, ◌↔◌, ℕ, zero, suc, ◌+◌, ◌-◌, ◌%◌, ◌^◌, ◌≤◌, ◌<◌, ◌≡◌, ◌≢◌, ◌⊎◌, inl, inr, true,
  false, none, some, arith, ◌==◌, Bool-cases, ==_iff,
}
use npu_gpu_cpu.Driver.Ring.{
  NpuRing, WaitResult, completed, timed_out, time_before, wait_loop, ring_wait,
}

module _ (heads clock : ℕ → ℕ) (tail timeout : ℕ) where
  -- Rounds i to n - 1 neither found the head at the tail nor the time up.
  abbrev pub Waited : ℕ → ℕ → Type 0
  Waited i n = (j : ℕ) → i ≤ j → j < n → (heads j ≢ tail) × (time_before (clock j) timeout ≡ true)

  Waited-suc :
      (i n : ℕ)
      → (heads i == tail) ≡ false
      → time_before (clock i) timeout ≡ true
      → Waited (suc i) n
      → Waited i n
  Waited-suc i n miss early w j le lt = elim (ℕ_discrete j i) [
    | yes e ↦ rw e (ground arith)
    | no ne ↦ w j (omega arith) lt
  ]

  wait_loop_total :
      (n i fuel : ℕ)
      → n < fuel
      → (heads (i + n) ≡ tail) ⊎ (time_before (clock (i + n)) timeout ≡ false)
      → wait_loop fuel heads clock tail timeout i ≢ none
  unfolding wait_loop
  wait_loop_total n i zero lt stop = elim lt [ ]
  wait_loop_total zero i (suc fuel) lt stop = ground arith
  wait_loop_total (suc n) i (suc fuel) lt stop =
      ground (arith, wait_loop_total n (suc i) fuel (omega arith))

  -- What a result of the loop says: the round at which it stopped, and why.
  abbrev pub Stopped : ℕ → WaitResult → Type 0
  Stopped i completed = (n : ℕ) × (i ≤ n) × (heads n ≡ tail) × Waited i n
  Stopped i timed_out =
      (n : ℕ) × (i ≤ n) × (heads n ≢ tail) × (time_before (clock n) timeout ≡ false) × Waited i n

  Stopped-suc :
      (i : ℕ) (w : WaitResult)
      → (heads i == tail) ≡ false
      → time_before (clock i) timeout ≡ true
      → Stopped (suc i) w
      → Stopped i w
  Stopped-suc i completed miss early (n, le, h, w) =
      (n, omega arith, h, Waited-suc i n miss early w)
  Stopped-suc i timed_out miss early (n, le, h, t, w) =
      (n, omega arith, h, t, Waited-suc i n miss early w)

  none_before : (i : ℕ) → Waited i i
  none_before i j le lt = absurd (omega arith)

  wait_loop-Stopped :
      (fuel i : ℕ) (w : WaitResult)
      → wait_loop fuel heads clock tail timeout i ≡ some w
      → Stopped i w
  unfolding wait_loop
  wait_loop-Stopped zero i w e = cc e
  wait_loop-Stopped (suc fuel) i w e = elim (Bool-cases (heads i == tail)) [
    | inl hit ↦
        subst (Stopped i) {x = completed} (ground arith)
          (i, omega arith, (==_iff _ _).0 hit, none_before i)
    | inr miss ↦ elim (Bool-cases (time_before (clock i) timeout)) [
      | inl early ↦ Stopped-suc i w miss early (wait_loop-Stopped fuel (suc i) w (ground arith))
      | inr late ↦
          subst (Stopped i) {x = timed_out} (ground arith)
            (i, omega arith, ground arith, late, none_before i)
    ]
  ]

  wait_loop_completes :
      (n i fuel : ℕ)
      → n < fuel
      → ((j : ℕ) → j < n → time_before (clock (i + j)) timeout ≡ true)
      → heads (i + n) ≡ tail
      → wait_loop fuel heads clock tail timeout i ≡ some completed
  unfolding wait_loop
  wait_loop_completes n i zero lt early hit = elim lt [ ]
  wait_loop_completes zero i (suc fuel) lt early hit = ground arith
  wait_loop_completes (suc n) i (suc fuel) lt early hit = elim (Bool-cases (heads i == tail)) [
    | inl now ↦ rw now refl
    | inr later ↦
        let at = λ (x : ℕ). time_before (clock x) timeout in
        let first : at i ≡ true = ap at {x = i} {y = i + 0} (omega arith) ∙ early 0 (omega arith) in
        let rest =
          wait_loop_completes n (suc i) fuel (omega arith)
            (λ j p.
              ap at {x = suc i + j} {y = i + suc j} (omega arith) ∙ early (suc j) (omega arith))
            (ap heads {x = suc i + n} {y = i + suc n} (omega arith) ∙ hit) in
        ground arith
  ]

module _ (ring : NpuRing) (heads clock : ℕ → ℕ) (start delay : ℕ) where
  -- The wait comes back if some round finds the head at the tail or the time up: with fuel for one
  -- round more than that it does not run out.
  pub ring_wait_total :
      (n fuel : ℕ)
      → n < fuel
      → (heads n ≡ ring.tail) ⊎ (time_before (clock n) ((start + delay) % 2 ^ 64) ≡ false)
      → ring_wait fuel ring heads clock start delay ≢ none
  unfolding ring_wait
  ring_wait_total n fuel lt stop =
      wait_loop_total heads clock ring.tail ((start + delay) % 2 ^ 64) n 0 fuel lt (ground arith)

  -- 0 is returned at the first round whose head is the tail, no earlier round having found the time
  -- up; the time-out only at a round whose head is not the tail, after the time was up, with no
  -- earlier round completed.
  pub ring_wait-Stopped :
      (fuel : ℕ) (w : WaitResult)
      → ring_wait fuel ring heads clock start delay ≡ some w
      → Stopped heads clock ring.tail ((start + delay) % 2 ^ 64) 0 w
  unfolding ring_wait
  ring_wait-Stopped fuel w e = wait_loop-Stopped heads clock ring.tail _ fuel 0 w e

  -- A command that completes is waited for: if in round n the head is the tail, and no earlier round
  -- finds the time up, then fuel for n + 1 rounds gives the result 0.
  pub ring_wait_completes :
      (n fuel : ℕ)
      → n < fuel
      → ((j : ℕ) → j < n → time_before (clock j) ((start + delay) % 2 ^ 64) ≡ true)
      → heads n ≡ ring.tail
      → ring_wait fuel ring heads clock start delay ≡ some completed
  unfolding ring_wait
  ring_wait_completes n fuel lt early hit =
      wait_loop_completes heads clock ring.tail ((start + delay) % 2 ^ 64) n 0 fuel lt
        (λ j p.
          ap (λ x. time_before (clock x) ((start + delay) % 2 ^ 64)) {x = 0 + j} {y = j}
            (omega arith)
          ∙ early j p)
        (ap heads {x = 0 + n} {y = n} (omega arith) ∙ hit)

-- As long as the waiting stays below 2⁶³ ticks, the comparison is that of the elapsed time with the
-- delay, also where `jiffies` wraps.
pub time_before_elapsed :
    (start delay elapsed : ℕ)
    → delay < 2 ^ 63
    → elapsed < 2 ^ 63
    → (time_before ((start + elapsed) % 2 ^ 64) ((start + delay) % 2 ^ 64) ≡ true)
      ↔ (elapsed < delay)
unfolding time_before
time_before_elapsed start delay elapsed hd he = elim (dec_lt elapsed delay) [
  | yes lt ↦ let d = later lt in ground (arith, d)
  | no ge ↦ let d = due (omega arith) in ground (arith, d)
]
  where
    later :
        elapsed < delay
        → ((start + elapsed) % 2 ^ 64 + 2 ^ 64 - (start + delay) % 2 ^ 64) % 2 ^ 64
          ≡ 2 ^ 64 - (delay - elapsed)
    later lt = omega arith

    due :
        delay ≤ elapsed
        → ((start + elapsed) % 2 ^ 64 + 2 ^ 64 - (start + delay) % 2 ^ 64) % 2 ^ 64
          ≡ elapsed - delay
    due ge = omega arith
