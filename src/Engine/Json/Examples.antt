-- ===== src/Engine/Json/Examples.antt =====
-- `jo` on the header `{"w":{"data_offsets":[40,80]}}`.
use npu_gpu_cpu.Prelude.{
  codes, ℕ, starts_with, arith, ◌≡◌, ◌≢◌, refl, some, none, List, [], ◌∷◌, ◌++◌,
}
use npu_gpu_cpu.Engine.Json.{quote, key, digits_value, jo}
use npu_gpu_cpu.Engine.Json.Entry.{jo_entry, jo_missing, jo_total}

abbrev name : List ℕ
name = codes "w"

abbrev gap : List ℕ
gap = codes ":"

abbrev tail : List ℕ
tail = codes ",80]}}"

abbrev rest : List ℕ
rest = codes ":{" ++ (key ++ (gap ++ (b'[' ∷ (b'4' ∷ (codes "0" ++ tail)))))

abbrev header : List ℕ
header = (codes "{" ++ quote ∷ []) ++ (name ++ quote ∷ rest)

jo_entry_example : jo name header [] ≡ some (digits_value 0 (codes "40"))
unfolding starts_with digits_value
jo_entry_example =
    jo_entry name (codes "{") rest [] (codes ":{") gap tail (codes "0") b'4' refl refl refl refl
      refl refl refl (omega arith)

jo_missing_test : jo (codes "v") header [] ≡ some 0
unfolding starts_with
jo_missing_test = jo_missing (codes "v") header [] refl (λ e. cc)

jo_total_example : jo name header [] ≢ none
jo_total_example = jo_total name header []
