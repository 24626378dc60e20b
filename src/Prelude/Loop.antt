-- ===== src/Prelude/Loop.antt =====
-- Counted loops over a state, and arrays as functions of the index.
use Prim.Native.Nat.{ℕ, zero, suc, ◌+◌, ◌*◌, ◌<◌}
use mathlib.Core.Path.{◌≡◌, refl, sym, ap, ◌∙◌}
use mathlib.Core.Logic.{◌≢◌}
use native.Mathlib.Decide.{ℕ_discrete}
use native.Mathlib.Nat.{add-zero}
use native.Mathlib.Omega.{arith}
use npu_gpu_cpu.Prelude.Tests.{◌==◌, if◌then◌else◌}

-- for (int i = 0; i < n; i++) s = body(i, s);
unfoldable pub for_to {ℓ} : {S : Type ℓ} → ℕ → (ℕ → S → S) → S → S
for_to zero body s = s
for_to (suc n) body s = body n (for_to n body s)

-- A C array: the elements by index. A bound on the index is a hypothesis of the lemmas.
abbrev pub Array {ℓ} : Type ℓ → Type ℓ
Array A = ℕ → A

-- m[i] = v
abbrev pub write {ℓ} : {A : Type ℓ} → ℕ → A → Array A → Array A
write i v m j = if j == i then v else m j

module _ {ℓ} {S : Type ℓ} where
  pub for_to_inv {κ} :
      (P : ℕ → S → Type κ) (body : ℕ → S → S)
      → ((i : ℕ) (s : S) → P i s → P (suc i) (body i s))
      → (n : ℕ) (s : S) → P zero s
      → P n (for_to n body s)
  unfolding for_to
  for_to_inv P body keep zero s h = h
  for_to_inv P body keep (suc n) s h = keep n _ (for_to_inv P body keep n s h)

  pub for_to_congr :
      (n : ℕ) {f g : ℕ → S → S} (s : S)
      → ((i : ℕ) (t : S) → i < n → f i t ≡ g i t)
      → for_to n f s ≡ for_to n g s
  unfolding for_to
  for_to_congr zero s h = refl
  for_to_congr (suc n) {f} {g} s h =
      h n _ (omega arith) ∙ ap (g n) (for_to_congr n s (λ i t p. h i t (omega arith)))

  -- A loop over `m + n` rounds is the loop over `m`, then one over the `n` that follow.
  pub for_to-add :
      (m n : ℕ) (f : ℕ → S → S) (s : S)
      → for_to (m + n) f s ≡ for_to n (λ i. f (m + i)) (for_to m f s)
  unfolding for_to
  for_to-add m zero f s = rw add-zero
  for_to-add m (suc n) f s =
      ap (λ k. for_to k f s) {x = m + suc n} {y = suc (m + n)} (omega arith)
      ∙ ap (f (m + n)) (for_to-add m n f s)

  -- Nested loops over `n` blocks of `w` rounds are one loop over `n * w` rounds.
  pub for_to-blocks :
      (n w : ℕ) (f : ℕ → S → S) (s : S)
      → for_to n (λ b. for_to w (λ i. f (b * w + i))) s ≡ for_to (n * w) f s
  unfolding for_to
  for_to-blocks zero w f s = ap (λ k. for_to k f s) {x = 0} {y = 0 * w} (omega arith)
  for_to-blocks (suc n) w f s =
      ap (for_to w (λ i. f (n * w + i))) (for_to-blocks n w f s)
      ∙ sym (for_to-add (n * w) w f s)
      ∙ ap (λ k. for_to k f s) {x = n * w + w} {y = suc n * w} (omega arith)

module _ {ℓ} {A : Type ℓ} where
  -- No round of the loop writes the element at `q`.
  pub for_to_miss :
      (n : ℕ) (body : ℕ → Array A → Array A) (s : Array A) (q : ℕ)
      → ((j : ℕ) (t : Array A) → j < n → body j t q ≡ t q)
      → for_to n body s q ≡ s q
  unfolding for_to
  for_to_miss zero body s q h = refl
  for_to_miss (suc n) body s q h =
      h n _ (omega arith) ∙ for_to_miss n body s q (λ j t p. h j t (omega arith))

  -- Round `i` leaves `v` at `q`, and no other round writes it.
  pub for_to_hit :
      (n i : ℕ) (body : ℕ → Array A → Array A) (s : Array A) (q : ℕ) (v : A)
      → i < n
      → ((t : Array A) → body i t q ≡ v)
      → ((j : ℕ) (t : Array A) → j < n → j ≢ i → body j t q ≡ t q)
      → for_to n body s q ≡ v
  unfolding for_to
  for_to_hit zero i body s q v lt hit miss = absurd (omega arith)
  for_to_hit (suc n) i body s q v lt hit miss = elim (ℕ_discrete i n) [
    | yes e ↦ hit' e
    | no ne ↦
        miss n _ (omega arith) (λ e. ne (sym e))
        ∙ for_to_hit n i body s q v (omega arith) hit (λ j t p. miss j t (omega arith))
  ]
    where
      hit' : i ≡ n → body n (for_to n body s) q ≡ v
      hit' e = rw (← e) (hit _)

  -- The last round decides.
  pub for_to_last :
      (n : ℕ) (body : ℕ → Array A → Array A) (s : Array A) (q : ℕ) (v : A)
      → ((t : Array A) → body n t q ≡ v)
      → for_to (suc n) body s q ≡ v
  unfolding for_to
  for_to_last n body s q v hit = hit _

  -- Round `i` changes the element at `q` by `g`, and no other round writes it.
  pub for_to_apply :
      (n i : ℕ) (body : ℕ → Array A → Array A) (s : Array A) (q : ℕ) (g : A → A)
      → i < n
      → ((t : Array A) → body i t q ≡ g (t q))
      → ((j : ℕ) (t : Array A) → j < n → j ≢ i → body j t q ≡ t q)
      → for_to n body s q ≡ g (s q)
  unfolding for_to
  for_to_apply zero i body s q g lt hit miss = absurd (omega arith)
  for_to_apply (suc n) i body s q g lt hit miss = elim (ℕ_discrete i n) [
    | yes e ↦
        ap (λ k. body k (for_to n body s) q) (sym e)
        ∙ hit _
        ∙ ap g
            (for_to_miss n body s q (λ j t p. miss j t (omega arith) (λ f. absurd (omega arith))))
    | no ne ↦
        miss n _ (omega arith) (λ e. ne (sym e))
        ∙ for_to_apply n i body s q g (omega arith) hit (λ j t p. miss j t (omega arith))
  ]
