-- ===== src/Engine/Decode/Checked/Prompt.antt =====
-- How much of the prompt the generated tokens rest on, with the accesses of the two loops checked.
use npu_gpu_cpu.Prelude.{
  ℕ, ◌+◌, ◌≤◌, ◌≡◌, refl, sym, ◌∙◌, Array, none, some, List, [], ◌∷◌, ◌++◌, length, leb,
  if◌then◌else◌, arith,
}
use mathlib.Core.Path.{ap₂}
use npu_gpu_cpu.Engine.Floats.{Floats}
use npu_gpu_cpu.Engine.Layer.{LayerData}
use npu_gpu_cpu.Engine.Decode.{Session}
use npu_gpu_cpu.Engine.Decode.Prompt.{decode-last_token}
use npu_gpu_cpu.Engine.Decode.Tokens.{AllInTable}
use npu_gpu_cpu.Engine.Decode.Checked.{decode_checked}
use npu_gpu_cpu.Engine.Decode.Checked.Inside.{decode_checked_lem}

same_length :
    (p p' : List ℕ) (t : ℕ) → length p ≡ length p' → length (p ++ t ∷ []) ≡ length (p' ++ t ∷ [])
same_length [] [] t e = refl
same_length [] (x ∷ p') t e = absurd (omega arith)
same_length (x ∷ p) [] t e = absurd (omega arith)
same_length (x ∷ p) (x' ∷ p') t e = omega (arith, same_length p p' t (omega arith))

-- Two prompts of the same length with the same last token, whose tokens have a row in the table, lead from
-- the same state, at position 32 at the latest, and for the same random numbers to the same: either both
-- runs stay inside of every vector and generate the same tokens, whatever the tokens before the last one
-- are, or both go past position 32 and make an access outside.
pub decode_checked-last_token :
    {F D : Type 0} (f : Floats F D) (blank rc rs : Array F) (lo : ℕ → LayerData F) (emb : Array ℕ)
    (fin : Array F) (p p' : List ℕ) (t : ℕ) (randoms : List F) (s : Session F)
    → length p ≡ length p'
    → AllInTable (p ++ t ∷ [])
    → AllInTable (p' ++ t ∷ [])
    → s.sp ≤ 32
    → decode_checked f blank rc rs lo emb fin (p ++ t ∷ []) randoms s
      ≡ decode_checked f blank rc rs lo emb fin (p' ++ t ∷ []) randoms s
decode_checked-last_token f blank rc rs lo emb fin p p' t randoms s e all all' le =
    decode_checked_lem f blank rc rs lo emb fin (p ++ t ∷ []) randoms s all le
    ∙ ap₂ (λ n tokens. if leb (s.sp + (n + length randoms)) 32 then some tokens else none)
        (same_length p p' t e) (decode-last_token f blank rc rs lo emb fin p p' t randoms s e)
    ∙ sym (decode_checked_lem f blank rc rs lo emb fin (p' ++ t ∷ []) randoms s all' le)
