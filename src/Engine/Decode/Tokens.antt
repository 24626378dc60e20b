-- ===== src/Engine/Decode/Tokens.antt =====
-- The tokens are numbers of the vocabulary, one for each round.
use npu_gpu_cpu.Prelude.{ℕ, suc, ◌+◌, ◌*◌, ◌<◌, ◌≡◌, refl, ap, Array, List, [], ◌∷◌, length, arith}
use npu_gpu_cpu.Engine.Floats.{Floats}
use npu_gpu_cpu.Engine.Layer.{LayerData}
use npu_gpu_cpu.Engine.Sample.Choice.{pick-lt}
use npu_gpu_cpu.Engine.Decode.{
  Session, vocabulary, run_layers, next_token, generate_token, generate, decode,
}

-- Each of the tokens has a row in the table of the embeddings.
abbrev pub AllInTable : List ℕ → Type 0
AllInTable [] = Unit {0}
AllInTable (t ∷ ts) = (t * 1024 + 1023 < vocabulary * 1024) × AllInTable ts

module _ {F D : Type 0} (f : Floats F D) where
  pub next_token-lt :
      (blank : Array F) (emb : Array ℕ) (fin : Array F) (random : F) (h : Array F)
      → next_token f blank emb fin random h < vocabulary
  unfolding next_token
  next_token-lt blank emb fin random h = pick-lt f _ _ vocabulary (omega arith)

  module _ (blank rc rs : Array F) (lo : ℕ → LayerData F) (emb : Array ℕ) (fin : Array F) where
    generate_lem :
        (randoms : List F) (s : Session F)
        → (length (generate f blank rc rs lo emb fin randoms s) ≡ length randoms)
          × AllInTable (generate f blank rc rs lo emb fin randoms s)
    unfolding generate generate_token
    generate_lem [] s = (refl, tt)
    generate_lem (r ∷ randoms) s =
        let (count, all) = generate_lem randoms (generate_token f blank rc rs lo emb fin r s).1 in
        let lt = next_token-lt blank emb fin r (run_layers f blank rc rs lo s).h in
        (ap suc count, (omega (arith, lt), all))

    -- There is one token for each random number, and every token is one of the vocabulary, so that the
    -- reading of its embedding stays inside of the table.
    pub decode-AllInTable :
        (prompt : List ℕ) (randoms : List F) (s : Session F)
        → (length (decode f blank rc rs lo emb fin prompt randoms s) ≡ length randoms)
          × AllInTable (decode f blank rc rs lo emb fin prompt randoms s)
    unfolding decode
    decode-AllInTable prompt randoms s = generate_lem randoms _
