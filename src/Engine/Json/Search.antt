-- ===== src/Engine/Json/Search.antt =====
-- The searches of <cstring>, by where the pattern first stands.
use npu_gpu_cpu.Prelude.{
  ℕ, ◌≡◌, refl, Bool, true, ◌&&◌, not, Option, some, List, [], ◌∷◌, ◌++◌, length, ◌==◌, arith,
}
use npu_gpu_cpu.Prelude.{starts_with}
use npu_gpu_cpu.Engine.Json.{memmem, strstr, strchr, drop}

pub starts_with-append : (pat s : List ℕ) → starts_with pat (pat ++ s) ≡ true
unfolding starts_with
starts_with-append [] s = refl
starts_with-append (c ∷ pat) s = ground (arith, starts_with-append pat s)

-- The pattern stands at no place of `pre` in the text `pre ++ s`.
abbrev pub none_before : List ℕ → List ℕ → List ℕ → Bool
unfolding starts_with
none_before pat [] s = true
none_before pat (c ∷ pre) s = not (starts_with pat (c ∷ pre ++ s)) && none_before pat pre s

abbrev pub last : Option ℕ → List ℕ → Option ℕ
last prev [] = prev
last prev (c ∷ s) = last (some c) s

abbrev pub no_zero : List ℕ → Bool
no_zero [] = true
no_zero (c ∷ s) = not (c == 0) && no_zero s

module _ (pat : List ℕ) where
  pub memmem-append :
      (prev : Option ℕ) (pre s : List ℕ)
      → none_before pat pre s ≡ true
      → memmem pat prev (pre ++ s) ≡ memmem pat (last prev pre) s
  unfolding memmem none_before
  memmem-append prev [] s h = refl
  memmem-append prev (c ∷ pre) s h = ground (arith, memmem-append (some c) pre s)

  pub memmem_here :
      (prev : Option ℕ) (s : List ℕ) → memmem pat prev (pat ++ s) ≡ some (prev, pat ++ s)
  unfolding memmem
  memmem_here prev s = found (pat ++ s) (starts_with-append pat s)
    where
      found : (t : List ℕ) → starts_with pat t ≡ true → memmem pat prev t ≡ some (prev, t)
      found [] h = rw h
      found (c ∷ t) h = rw h

  pub strstr-append :
      (pre s : List ℕ)
      → none_before pat pre s ≡ true
      → no_zero pre ≡ true
      → strstr pat (pre ++ s) ≡ strstr pat s
  unfolding strstr none_before
  strstr-append [] s h z = refl
  strstr-append (c ∷ pre) s h z = ground (arith, strstr-append pre s)

  pub strstr_here :
      (c : ℕ) (t : List ℕ) → starts_with pat (c ∷ t) ≡ true → strstr pat (c ∷ t) ≡ some (c ∷ t)
  unfolding strstr
  strstr_here c t h = rw h

-- The byte stands nowhere in the text, nor does the byte 0.
abbrev pub lacks : ℕ → List ℕ → Bool
lacks ch [] = true
lacks ch (c ∷ s) = not (c == ch) && not (c == 0) && lacks ch s

pub strchr-append :
    (ch : ℕ) (pre s : List ℕ) → lacks ch pre ≡ true → strchr ch (pre ++ ch ∷ s) ≡ some (ch ∷ s)
unfolding strchr
strchr-append ch [] s h = ground arith
strchr-append ch (c ∷ pre) s h = ground (arith, strchr-append ch pre s)

pub drop-append : (x s : List ℕ) → drop (length x) (x ++ s) ≡ s
drop-append [] s = refl
drop-append (c ∷ x) s = drop-append x s

pub last-append : (prev : Option ℕ) (x : List ℕ) (c : ℕ) → last prev (x ++ c ∷ []) ≡ some c
last-append prev [] c = refl
last-append prev (d ∷ x) c = last-append (some d) x c
