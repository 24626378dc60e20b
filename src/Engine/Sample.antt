-- ===== src/Engine/Sample.antt =====
-- The choice of the next token in `main`: the logits' maximum, and the first token whose running sum of
-- weights reaches the random threshold. The weights, their sum and the threshold are floats, which are a
-- parameter.
pub mod Choice
pub mod Checked
use npu_gpu_cpu.Engine.Floats.{Floats}
use npu_gpu_cpu.Prelude.{ℕ, zero, suc, ◌+◌, Array, for_to, Bool, if◌then◌else◌}

module _ {F D : Type 0} (f : Floats F D) where
  -- `float mx=lg[0];for(int i=1;i<NV;i++)if(lg[i]>mx)mx=lg[i];`, for n = NV - 1.
  unfoldable pub largest : Array F → ℕ → F
  largest lg n = for_to n (λ i mx. if f.greater (lg (i + 1)) mx then lg (i + 1) else mx) (lg 0)

  -- The loop from i on, with `left` rounds to go; `break` ends it. `tok` is 0 at first.
  pub pick_from : Array F → F → ℕ → ℕ → F → ℕ
  pick_from lg rr zero i acc = 0
  pick_from lg rr (suc left) i acc =
      let acc' = f.add acc (lg i) in
      let rest = pick_from lg rr left (suc i) acc' in if f.at_least acc' rr then i else rest

  pub pick : Array F → F → ℕ → ℕ
  unfolding pick_from
  pick lg rr nv = pick_from lg rr nv 0 f.zero
