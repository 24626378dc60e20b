-- ===== src/Prelude/Checked.antt =====
-- Loops that may fail, and reads and writes that fail outside of a vector.
use Prim.Native.Nat.{ℕ, zero, suc, ◌+◌, ◌<◌}
use mathlib.Core.Path.{◌≡◌, refl, sym, ap, ◌∙◌}
use mathlib.Core.Option.{Option, none, some}
use native.Mathlib.Decide.{ℕ_discrete}
use native.Mathlib.Omega.{arith}
use npu_gpu_cpu.Prelude.Tests.{ltb, if◌then◌else◌}
use npu_gpu_cpu.Prelude.Loop.{for_to, Array, write}

infixl 5 ◌>>=◌
abbrev pub ◌>>=◌ {ℓ κ} : {A : Type ℓ} {B : Type κ} → Option A → (A → Option B) → Option B
none >>= f = none
some a >>= f = f a

-- A pointer into a vector: its elements, the offset, and the number of elements of the vector.
pub record Pointer (A : Type 0) : Type 0 where
  pub cells : Array A
  pub offset : ℕ
  pub size : ℕ

module _ {A : Type 0} where
  -- `x[i]`
  abbrev pub read : Pointer A → ℕ → Option A
  read x i = if ltb (x.offset + i) x.size then some (x.cells (x.offset + i)) else none

  -- The same in a vector of `size` elements.
  abbrev pub read_in : ℕ → Array A → ℕ → Option A
  read_in size x i = if ltb i size then some (x i) else none

  -- `x[i] = v`, as the elements after it.
  abbrev pub write_in : ℕ → ℕ → A → Array A → Option (Array A)
  write_in size i v m = if ltb i size then some (write i v m) else none

module _ {ℓ} {S : Type ℓ} where
  unfoldable pub for_option : ℕ → (ℕ → S → Option S) → S → Option S
  for_option zero body s = some s
  for_option (suc n) body s = for_option n body s >>= body n

  -- No round fails: the loop is the one that does not look.
  pub for_option-some :
      (n : ℕ) (body : ℕ → S → Option S) (pure_body : ℕ → S → S) (s : S)
      → ((i : ℕ) (t : S) → i < n → body i t ≡ some (pure_body i t))
      → for_option n body s ≡ some (for_to n pure_body s)
  unfolding for_option for_to
  for_option-some zero body pure_body s h = refl
  for_option-some (suc n) body pure_body s h =
      ap (λ o. o >>= body n) (for_option-some n body pure_body s (λ i t lt. h i t (omega arith)))
      ∙ h n (for_to n pure_body s) (omega arith)

  -- The same with an invariant of the state.
  pub for_option-keep {κ} :
      (P : S → Type κ) (n : ℕ) (body : ℕ → S → Option S) (pure_body : ℕ → S → S) (s : S)
      → P s
      → ((i : ℕ) (t : S) → i < n → P t → (body i t ≡ some (pure_body i t)) × P (pure_body i t))
      → (for_option n body s ≡ some (for_to n pure_body s)) × P (for_to n pure_body s)
  unfolding for_option for_to
  for_option-keep P zero body pure_body s p h = (refl, p)
  for_option-keep P (suc n) body pure_body s p h =
      let (e, q) = for_option-keep P n body pure_body s p (λ i t lt. h i t (omega arith)) in
      let (e', q') = h n (for_to n pure_body s) (omega arith) q in
      (ap (λ o. o >>= body n) e ∙ e', q')

  -- If the first round fails, the loop does.
  pub for_option-first :
      (n : ℕ) (body : ℕ → S → Option S) (s : S) → body 0 s ≡ none → for_option (n + 1) body s ≡ none
  unfolding for_option
  for_option-first n body s h =
      ap (λ k. for_option k body s) {x = n + 1} {y = suc n} (omega arith) ∙ go n
    where
      go : (m : ℕ) → for_option (suc m) body s ≡ none
      go zero = h
      go (suc m) = ap (λ o. o >>= body (suc m)) (go m)

  -- A round that always fails makes the loop fail.
  pub for_option-none :
      (n i : ℕ) (body : ℕ → S → Option S) (s : S)
      → i < n
      → ((t : S) → body i t ≡ none)
      → for_option n body s ≡ none
  unfolding for_option
  for_option-none zero i body s lt h = absurd (omega arith)
  for_option-none (suc n) i body s lt h = elim (ℕ_discrete i n) [
    | yes e ↦ at_last (for_option n body s) (λ t. ap (λ k. body k t) (sym e) ∙ h t)
    | no ne ↦ ap (λ o. o >>= body n) (for_option-none n i body s (omega arith) h)
  ]
    where
      at_last : (o : Option S) → ((t : S) → body n t ≡ none) → (o >>= body n) ≡ none
      at_last none k = refl
      at_last (some t) k = k t

-- Two steps that do not fail.
pub bind_some {ℓ κ} :
    {A : Type ℓ} {B : Type κ} {o : Option A} {a : A} (g : A → Option B) {r : Option B}
    → o ≡ some a
    → g a ≡ r
    → (o >>= g) ≡ r
bind_some g h k = ap (λ o. o >>= g) h ∙ k

-- After a step that always fails.
pub bind_none {ℓ κ} :
    {A : Type ℓ} {B : Type κ} (o : Option A) (g : A → Option B)
    → ((a : A) → g a ≡ none)
    → (o >>= g) ≡ none
bind_none none g h = refl
bind_none (some a) g h = h a

-- After a step that fails.
pub bind_failed {ℓ κ} :
    {A : Type ℓ} {B : Type κ} {o : Option A} (g : A → Option B) → o ≡ none → (o >>= g) ≡ none
bind_failed g h = ap (λ o. o >>= g) h
