-- ===== src/Engine/Json.antt =====
-- `jo`: the first number of "data_offsets" of a tensor in the header of the model file. The memory is
-- the bytes of the header and those mapped behind it (`after`); the functions of <cstring> that `jo`
-- calls read the one or the other. A pointer is the list of the bytes from it on.
pub mod Search
pub mod Entry
mod Examples
use npu_gpu_cpu.Prelude.{
  codes, ℕ, zero, suc, ◌+◌, ◌-◌, ◌*◌, ◌^◌, ◌%◌, Bool, true, false, ◌&&◌, ◌||◌, Option, none, some,
  List, [], ◌∷◌, ◌++◌, length, leb, ltb, ◌==◌, if◌then◌else◌, starts_with,
}

-- `memmem`, with the byte before the place that it finds: `prev` is the one before the text.
unfoldable pub memmem : List ℕ → Option ℕ → List ℕ → Option (Option ℕ × List ℕ)
unfolding starts_with
memmem pat prev [] = if starts_with pat [] then some (prev, []) else none
memmem pat prev (c ∷ s) =
    if starts_with pat (c ∷ s) then some (prev, c ∷ s) else memmem pat (some c) s

-- `strstr` and `strchr` end at the byte 0.
unfoldable pub strstr : List ℕ → List ℕ → Option (List ℕ)
unfolding starts_with
strstr pat [] = none
strstr pat (c ∷ s) =
    if starts_with pat (c ∷ s) then some (c ∷ s) else if c == 0 then none else strstr pat s

unfoldable pub strchr : ℕ → List ℕ → Option (List ℕ)
strchr ch [] = none
strchr ch (c ∷ s) = if c == ch then some (c ∷ s) else if c == 0 then none else strchr ch s

abbrev pub is_digit : ℕ → Bool
is_digit c = leb b'0' c && leb c b'9'

-- The number that the digits at the front of the text continue.
unfoldable pub digits_value : ℕ → List ℕ → ℕ
digits_value acc [] = acc
digits_value acc (c ∷ s) = if is_digit c then digits_value (acc * 10 + (c - b'0')) s else acc

-- `strtoull(…, NULL, 10)`: white space, a sign, digits; what is too large is ULLONG_MAX.
abbrev pub is_space : ℕ → Bool
is_space c = c == b' ' || leb 9 c && leb c 13

unfoldable pub skip_space : List ℕ → List ℕ
skip_space [] = []
skip_space (c ∷ s) = if is_space c then skip_space s else c ∷ s

abbrev pub clipped : ℕ → ℕ
clipped v = if ltb v (2 ^ 64) then v else 2 ^ 64 - 1

abbrev pub negated : ℕ → ℕ
negated v = if ltb v (2 ^ 64) then (2 ^ 64 - v) % 2 ^ 64 else 2 ^ 64 - 1

abbrev signed_value : List ℕ → ℕ
unfolding digits_value
signed_value [] = 0
signed_value (c ∷ s) =
    if c == b'-'
    then negated (digits_value 0 s)
    else if c == b'+'
    then clipped (digits_value 0 s)
    else clipped (digits_value 0 (c ∷ s))

pub strtoull : List ℕ → ℕ
unfolding skip_space digits_value
strtoull s = signed_value (skip_space s)

abbrev pub quote : ℕ
quote = 0x22

-- `"data_offsets"`, in quotes
abbrev pub key : List ℕ
key = quote ∷ codes "data_offsets" ++ quote ∷ []

abbrev pub drop : ℕ → List ℕ → List ℕ
drop zero s = s
drop (suc n) [] = []
drop (suc n) (c ∷ s) = drop n s

abbrev pub is_quote : Option ℕ → Bool
is_quote none = false
is_quote (some c) = c == quote

abbrev pub head : List ℕ → Option ℕ
head [] = none
head (c ∷ s) = some c

-- What follows the quoted name at q; `none` where the loop goes on.
pub offset_at : List ℕ → Option ℕ
unfolding strstr strchr strtoull
offset_at q = elim (strstr key q) [
  | none ↦ none
  | some o ↦ elim (strchr b'[' o) [ none ↦ none | some a ↦ some (strtoull (drop 1 a)) ]
]

-- The test of the bytes round the name, then the offset.
pub entry_at : List ℕ → List ℕ → Option ℕ → List ℕ → Option ℕ
unfolding offset_at
entry_at nm after prev q =
    if is_quote prev && is_quote (head (drop (length nm) (q ++ after)))
    then offset_at (q ++ after)
    else none

-- `while(p<e){…}`; the fuel ends at `none`.
pub jo_loop : ℕ → List ℕ → List ℕ → Option ℕ → List ℕ → Option ℕ
unfolding memmem entry_at
jo_loop zero nm after prev p = none
jo_loop (suc fuel) nm after prev [] = some 0
jo_loop (suc fuel) nm after prev (c ∷ p) = elim (memmem nm prev (c ∷ p)) [
  | none ↦ some 0
  | some (prev', q) ↦ elim (entry_at nm after prev' q) [
    | some offset ↦ some offset
    | none ↦ jo_loop fuel nm after (head q) (drop 1 q)
  ]
]

-- The header's bytes, and those behind it.
pub jo : List ℕ → List ℕ → List ℕ → Option ℕ
unfolding jo_loop
jo nm json after = jo_loop (suc (length json)) nm after none json
