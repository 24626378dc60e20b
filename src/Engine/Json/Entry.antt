-- ===== src/Engine/Json/Entry.antt =====
-- `jo` on a header that has the tensor, on one that has not, and its termination.
use npu_gpu_cpu.Prelude.{
  Option-cases, inl, inr, ℕ, zero, suc, ◌+◌, ◌-◌, ◌*◌, ◌^◌, ◌≤◌, ◌<◌, ◌≡◌, ◌≢◌, refl, ap, sym, ◌∙◌,
  Bool, true, false, ◌&&◌, Option, none, some, List, [], ◌∷◌, ◌++◌, length, if◌then◌else◌, arith,
}
use mathlib.Core.List.{append_assoc, append-nil}
use npu_gpu_cpu.Engine.Json.{
  memmem, strstr, strchr, digits_value, is_digit, strtoull, quote, key, drop, is_quote, head,
  offset_at, entry_at, jo_loop, jo,
}
use npu_gpu_cpu.Engine.Json.Search.{
  none_before, no_zero, lacks, starts_with-append, memmem-append, memmem_here, strstr-append,
  strstr_here, strchr-append, drop-append, last-append,
}

abbrev pub all_digits : List ℕ → Bool
all_digits [] = true
all_digits (c ∷ s) = is_digit c && all_digits s

abbrev pub starts_digit : List ℕ → Bool
starts_digit [] = false
starts_digit (c ∷ s) = is_digit c

digits_value-append :
    (acc : ℕ) (ds tail : List ℕ)
    → all_digits ds ≡ true
    → starts_digit tail ≡ false
    → digits_value acc (ds ++ tail) ≡ digits_value acc ds
unfolding digits_value
digits_value-append acc [] [] a b = refl
digits_value-append acc [] (c ∷ tail) a b = ground arith
digits_value-append acc (d ∷ ds) tail a b =
    ground (arith, digits_value-append (acc * 10 + (d - b'0')) ds tail)

-- A text that begins with a digit is the number of its digits.
strtoull_digits :
    (d : ℕ) (ds tail : List ℕ)
    → all_digits (d ∷ ds) ≡ true
    → starts_digit tail ≡ false
    → digits_value 0 (d ∷ ds) < 2 ^ 64
    → strtoull (d ∷ ds ++ tail) ≡ digits_value 0 (d ∷ ds)
unfolding strtoull
strtoull_digits d ds tail a b lt = ground (arith, digits_value-append 0 (d ∷ ds) tail)

offset_at_lem :
    (q o a : List ℕ)
    → strstr key q ≡ some o
    → strchr b'[' o ≡ some a
    → offset_at q ≡ some (strtoull (drop 1 a))
unfolding offset_at
offset_at_lem q o a e e' = ground arith

offset_at-key :
    (x gap tail ds : List ℕ) (d : ℕ)
    → none_before key x (key ++ (gap ++ (b'[' ∷ (d ∷ ds ++ tail)))) ≡ true
    → no_zero x ≡ true
    → lacks b'[' gap ≡ true
    → all_digits (d ∷ ds) ≡ true
    → starts_digit tail ≡ false
    → digits_value 0 (d ∷ ds) < 2 ^ 64
    → offset_at (x ++ (key ++ (gap ++ (b'[' ∷ (d ∷ ds ++ tail))))) ≡ some (digits_value 0 (d ∷ ds))
offset_at-key x gap tail ds d first nz nb a b lt =
    offset_at_lem (x ++ rest) rest (b'[' ∷ (d ∷ ds ++ tail))
      (strstr-append key x rest first nz ∙ strstr_here key quote _ (starts_with-append key _))
      (strchr-append b'[' (key ++ gap) (d ∷ ds ++ tail) nb)
    ∙ ap some (strtoull_digits d ds tail a b lt)
  where
    rest : List ℕ
    rest = key ++ (gap ++ (b'[' ∷ (d ∷ ds ++ tail)))

jo_loop_found :
    (fuel : ℕ) (nm after : List ℕ) (prev prev' : Option ℕ) (p q : List ℕ) (v : ℕ)
    → p ≢ []
    → memmem nm prev p ≡ some (prev', q)
    → entry_at nm after prev' q ≡ some v
    → jo_loop (suc fuel) nm after prev p ≡ some v
unfolding jo_loop
jo_loop_found fuel nm after prev prev' [] q v ne e e' = absurd (ne refl)
jo_loop_found fuel nm after prev prev' (c ∷ p) q v ne e e' = ground arith

entry_at_quoted :
    (nm after q t : List ℕ)
    → q ++ after ≡ nm ++ quote ∷ t
    → entry_at nm after (some quote) q ≡ offset_at (nm ++ quote ∷ t)
unfolding entry_at
entry_at_quoted nm after q t e =
    ap (λ u. if is_quote (head (drop (length nm) u)) then offset_at u else none) e
    ∙ ap (λ u. if is_quote (head u) then offset_at (nm ++ quote ∷ t) else none)
        (drop-append nm (quote ∷ t))

-- If the first place of the name in the header is between quotes, then the result is the decimal number
-- right behind the first '[' after the first "data_offsets" from the name on, in the header or behind
-- it, if no byte 0 stands between the name and that '[' and the number is below 2⁶⁴.
pub jo_entry :
    (nm pre rest after mid gap tail ds : List ℕ) (d : ℕ)
    → none_before nm (pre ++ quote ∷ []) (nm ++ quote ∷ rest) ≡ true
    → rest ++ after ≡ mid ++ (key ++ (gap ++ (b'[' ∷ (d ∷ ds ++ tail))))
    → none_before key (nm ++ quote ∷ mid) (key ++ (gap ++ (b'[' ∷ (d ∷ ds ++ tail)))) ≡ true
    → no_zero (nm ++ quote ∷ mid) ≡ true
    → lacks b'[' gap ≡ true
    → all_digits (d ∷ ds) ≡ true
    → starts_digit tail ≡ false
    → digits_value 0 (d ∷ ds) < 2 ^ 64
    → jo nm ((pre ++ quote ∷ []) ++ (nm ++ quote ∷ rest)) after ≡ some (digits_value 0 (d ∷ ds))
unfolding jo
jo_entry nm pre rest after mid gap tail ds d first e key_first nz nb a b lt =
    jo_loop_found _ nm after none (some quote) ((pre ++ quote ∷ []) ++ (nm ++ quote ∷ rest))
      (nm ++ quote ∷ rest) _ (nonempty pre)
      (memmem-append nm none (pre ++ quote ∷ []) (nm ++ quote ∷ rest) first
        ∙ ap (λ x. memmem nm x (nm ++ quote ∷ rest)) (last-append none pre quote)
        ∙ memmem_here nm (some quote) (quote ∷ rest))
      (entry_at_quoted nm after (nm ++ quote ∷ rest) (rest ++ after)
          (append_assoc nm (quote ∷ rest) after)
        ∙ ap (λ u. offset_at (nm ++ quote ∷ u)) e
        ∙ ap offset_at (sym (append_assoc nm (quote ∷ mid) _))
        ∙ offset_at-key (nm ++ quote ∷ mid) gap tail ds d key_first nz nb a b lt)
  where
    nonempty : (x : List ℕ) → (x ++ quote ∷ []) ++ (nm ++ quote ∷ rest) ≢ []
    nonempty [] h = cc
    nonempty (c ∷ x) h = cc

memmem-none :
    (nm : List ℕ) (prev : Option ℕ) (p : List ℕ)
    → none_before nm p [] ≡ true
    → nm ≢ []
    → memmem nm prev p ≡ none
unfolding memmem
memmem-none nm prev p h ne =
    ap (memmem nm prev) (sym (append-nil p)) ∙ memmem-append nm prev p [] h ∙ at_end nm _ ne
  where
    at_end : (pat : List ℕ) (x : Option ℕ) → pat ≢ [] → memmem pat x [] ≡ none
    at_end [] x n = absurd (n refl)
    at_end (c ∷ pat) x n = refl

-- For a name that is not empty and stands nowhere in the header the result is 0.
pub jo_missing :
    (nm json after : List ℕ) → none_before nm json [] ≡ true → nm ≢ [] → jo nm json after ≡ some 0
unfolding jo jo_loop
jo_missing nm [] after h ne = refl
jo_missing nm (c ∷ json) after h ne = ground (arith, memmem-none nm none (c ∷ json) h ne)

length-memmem :
    (nm : List ℕ) (prev prev' : Option ℕ) (p q : List ℕ)
    → memmem nm prev p ≡ some (prev', q)
    → length q ≤ length p
unfolding memmem
length-memmem nm prev prev' [] q e = ground arith
length-memmem nm prev prev' (c ∷ p) q e = ground (arith, length-memmem nm (some c) prev' p q)

length-drop_one : (q : List ℕ) (n : ℕ) → length q ≤ suc n → length (drop 1 q) < suc n
length-drop_one [] n le = omega arith
length-drop_one (c ∷ q) n le = omega arith

jo_loop_total :
    (fuel : ℕ) (nm after : List ℕ) (prev : Option ℕ) (p : List ℕ)
    → length p < fuel
    → jo_loop fuel nm after prev p ≢ none
unfolding jo_loop
jo_loop_total zero nm after prev p lt = absurd (omega arith)
jo_loop_total (suc fuel) nm after prev [] lt = ground arith
jo_loop_total (suc fuel) nm after prev (c ∷ p) lt = elim (Option-cases (memmem nm prev (c ∷ p))) [
  | inl e ↦ ground arith
  | inr ((prev', q), e) ↦ elim (Option-cases (entry_at nm after prev' q)) [
    | inl e' ↦
        let shorter = length-drop_one q (length p) (length-memmem nm prev prev' (c ∷ p) q e) in
        ground (arith, jo_loop_total fuel nm after (head q) (drop 1 q) (omega arith))
    | inr (v, e') ↦ ground arith
  ]
]

-- The search ends for every name and every memory.
pub jo_total : (nm json after : List ℕ) → jo nm json after ≢ none
unfolding jo
jo_total nm json after = jo_loop_total (suc (length json)) nm after none json (omega arith)
