-- ===== src/Engine/Load/Main.antt =====
-- `main` as a whole: from the model file and the answers of the outside to the tokens that it prints.
use npu_gpu_cpu.Prelude.Checked.{◌>>=◌}
use npu_gpu_cpu.Engine.Setup.{Context, i8_init, attn_init}
use npu_gpu_cpu.Prelude.{
  Option, some, ℕ, ◌≡◌, sym, ℤ, pos, Array, codes, List, [], ◌∷◌, ◌++◌, length,
}
use npu_gpu_cpu.Engine.Floats.{Floats}
use npu_gpu_cpu.Engine.Rotary.{Trig, ri}
use npu_gpu_cpu.Engine.Decode.{Session, decode}
use npu_gpu_cpu.Engine.Decode.Prompt.{decode-last_token}
use npu_gpu_cpu.Engine.Load.{Kernels, offset, norm_weights, embeddings, load_layer}

-- `pt`
abbrev pub prompt : List ℕ
prompt = 151643 ∷ 872 ∷ 198 ∷ 11852 ∷ 151644 ∷ 198 ∷ 151643 ∷ 77091 ∷ 198 ∷ []

-- The files of instructions that the `init` calls open: their bytes, or none.
pub record Files : Type 0 where
  pub cq : Option (List ℕ)
  pub co : Option (List ℕ)
  pub cg : Option (List ℕ)
  pub cd : Option (List ℕ)
  pub ak : ℕ → Option (List ℕ)

-- The contexts after these calls: none is one whose buffers have not been made.
pub record Contexts : Type 0 where
  pub cq : Option Context
  pub co : Option Context
  pub cg : Option Context
  pub cd : Option Context
  pub ak : ℕ → Option Context

-- XM is 128, H is 1024, NH * HD is 2048 and IM is 3072. What `init` returns is not looked at.
unfoldable pub init_contexts : Files → Contexts
init_contexts files = record {
  cq = (i8_init 128 1024 4096 files.cq).1;
  co = (i8_init 128 2048 1024 files.co).1;
  cg = (i8_init 128 1024 6144 files.cg).1;
  cd = (i8_init 128 3072 1024 files.cd).1;
  ak = λ w. (attn_init (files.ak w)).1;
}

module _ {F D : Type 0} (f : Floats F D) where
  -- `h`, `kv` and `sp` at first: vectors of zeros, and no token.
  abbrev pub start : Session F
  start = record {
    h = λ _. f.zero;
    kv = λ l. record { k = λ _. f.zero; v = λ _. f.zero; n = 0 };
    sp = 0;
  }

  module _ (trig : Trig F) (run : Kernels) (dequant : ℕ → ℕ → Array F × ℕ) (blank : Array F)
      (b_m : Array ℤ) where
    -- The tokens after a prompt; one random number is drawn for each.
    unfoldable pub tokens_after : List ℕ → (ℕ → ℕ) → ℕ → List F → List ℕ
    tokens_after toks md size randoms =
        let (rc, rs) = ri f trig 128 (f.of_int (pos 1000000)) 4096 in
        let fin = norm_weights f blank md (offset md size (codes "model.norm.weight")) 1024 in
        decode f blank rc rs (load_layer f blank b_m dequant run md size) (embeddings md) fin toks
          randoms start

    -- `main`, with the `ng` = 8 random numbers. Each `packB` and `go` reaches for the buffers of its context:
    -- without them it dereferences a null pointer, which is none here.
    unfoldable pub main : Files → (ℕ → ℕ) → ℕ → List F → Option (List ℕ)
    unfolding tokens_after init_contexts
    main files md size randoms = do
      let c = init_contexts files
      q ← c.cq
      o ← c.co
      g ← c.cg
      d ← c.cd
      some (tokens_after prompt md size randoms)

    -- For every model file, kernel and random number, the prompt of `main` leads to the tokens to which any
    -- other prompt of nine tokens that ends in 198 leads.
    pub tokens_after-any_prompt :
        (md : ℕ → ℕ) (size : ℕ) (randoms : List F) (others : List ℕ)
        → length others ≡ 8
        → tokens_after prompt md size randoms ≡ tokens_after (others ++ 198 ∷ []) md size randoms
    unfolding tokens_after
    tokens_after-any_prompt md size randoms others e =
        decode-last_token f blank _ _ _ _ _
          (151643 ∷ 872 ∷ 198 ∷ 11852 ∷ 151644 ∷ 198 ∷ 151643 ∷ 77091 ∷ []) others 198 randoms start
          (sym e)
