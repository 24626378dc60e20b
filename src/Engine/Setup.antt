-- ===== src/Engine/Setup.antt =====
-- `I8Ctx::init` and `AttnK::init`, as far as they are not calls of XRT: the instructions that they read
-- and the sizes of the buffers that they make, in bytes. The file of the instructions is its bytes, or
-- none if it cannot be opened.
pub mod Inside
use npu_gpu_cpu.Prelude.{
  ℕ, zero, suc, ◌+◌, ◌*◌, ◌/◌, ◌^◌, Bool, true, false, Option, none, some, List, [], ◌∷◌, length,
}
use npu_gpu_cpu.Engine.AttnK.{q_dw, k_dw, v_dw}

-- `bI`, `bA` or `bIn`, `bC` or `bOut`, and each `layerB[l]`, which AttnK has not.
pub record Sizes : Type 0 where
  pub instructions : ℕ
  pub input : ℕ
  pub output : ℕ
  pub layer : ℕ

-- `ins`, and the buffers.
pub record Context : Type 0 where
  pub ins : List ℕ
  pub sizes : Sizes

-- The whole 32-bit words of the bytes.
abbrev words : List ℕ → List ℕ
words (a ∷ b ∷ c ∷ d ∷ rest) = (a + b * 2 ^ 8 + c * 2 ^ 16 + d * 2 ^ 24) ∷ words rest
words rest = []

-- `I8Ctx::init` with the members MD, KD and ND: the result, and what is made.
unfoldable pub i8_init : ℕ → ℕ → ℕ → Option (List ℕ) → Bool × Option Context
i8_init md kd nd none = (false, none)
i8_init md kd nd (some file) = (
  true,
  some (record {
    ins = words file;
    sizes = record {
      instructions = length (words file) * 4;
      input = md * kd;
      output = md * nd * 2;
      layer = kd * nd;
    };
  }),
)

-- `AttnK::init`; the buffer of the instructions has the size of the file.
pub attn_init : Option (List ℕ) → Bool × Option Context
attn_init none = (false, none)
attn_init (some file) = (
  true,
  some (record {
    ins = words file;
    sizes = record {
      instructions = length file;
      input = (q_dw + 2 * k_dw + 2 * v_dw) * 4;
      output = 256 * 4;
      layer = 0;
    };
  }),
)
