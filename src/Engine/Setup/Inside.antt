-- ===== src/Engine/Setup/Inside.antt =====
-- The staging writes inside of the buffers that the contexts make.
use npu_gpu_cpu.Prelude.{ℕ, ◌*◌, ◌≤◌, ◌≡◌, ℤ, Array, true, Option, none, some, List, arith}
use npu_gpu_cpu.Engine.Floats.{Floats}
use npu_gpu_cpu.Engine.AttnK.{pack_input}
use npu_gpu_cpu.Engine.AttnK.Regions.{pack_input-beyond}
use npu_gpu_cpu.Engine.I8Ctx.{stage_a, pack_b}
use npu_gpu_cpu.Engine.I8Ctx.Stage.{stage_a-beyond}
use npu_gpu_cpu.Engine.I8Ctx.Quantise.{pack_b-beyond}
use npu_gpu_cpu.Engine.Setup.{Context, i8_init, attn_init}

-- What `init` of an I8Ctx makes when it returns true.
i8_init_sizes :
    (md kd nd : ℕ) (file : Option (List ℕ)) (c : Context)
    → i8_init md kd nd file ≡ (true, some c)
    → (c.sizes.input ≡ md * kd) × (c.sizes.layer ≡ kd * nd)
unfolding i8_init
i8_init_sizes md kd nd none c e = ground arith
i8_init_sizes md kd nd (some file) c e = ground arith

attn_init_sizes :
    (file : Option (List ℕ)) (c : Context)
    → attn_init file ≡ (true, some c)
    → c.sizes.input ≡ 8448 * 4
unfolding attn_init
attn_init_sizes none c e = ground arith
attn_init_sizes (some file) c e = ground arith

-- After `init` of an I8Ctx has returned true, `go` with an A of at most MD × KD elements writes no byte
-- behind the buffer of A, and `packB` with a B of at most KD × ND elements none behind the layer's buffer.
pub i8_init-inside :
    {F D : Type 0} (f : Floats F D) (md kd nd : ℕ) (file : Option (List ℕ)) (c : Context)
    (a : Array F) (am ak : ℕ) (ascale : F) (a_m : Array ℤ) (w : Array F) (k n : ℕ) (b_m : Array ℤ)
    (q q' : ℕ)
    → i8_init md kd nd file ≡ (true, some c)
    → am ≤ md
    → ak ≤ kd
    → k * n ≤ kd * nd
    → c.sizes.input ≤ q
    → c.sizes.layer ≤ q'
    → (stage_a f md kd a am ak ascale a_m q ≡ a_m q) × ((pack_b f w k n b_m).1 q' ≡ b_m q')
i8_init-inside f md kd nd file c a am ak ascale a_m w k n b_m q q' e hm hk hb hq hq' =
    let (input, layer) = i8_init_sizes md kd nd file c e in
    (
      stage_a-beyond f md kd a am ak ascale a_m q hm hk (omega (arith, input)),
      pack_b-beyond f w k n b_m q' (omega (arith, layer)),
    )

-- After `init` of an AttnK has returned true, the packing of `run` writes no 32-bit word behind the
-- input buffer, for any number of tokens.
pub attn_init-inside :
    (file : Option (List ℕ)) (c : Context) (q4 k2 v2 : Array ℕ) (n_tokens : ℕ) (in_m : Array ℕ)
    (q : ℕ)
    → attn_init file ≡ (true, some c)
    → c.sizes.input ≤ q * 4
    → pack_input q4 k2 v2 n_tokens in_m q ≡ in_m q
attn_init-inside file c q4 k2 v2 n_tokens in_m q e h =
    pack_input-beyond q4 k2 v2 n_tokens in_m q (omega (arith, attn_init_sizes file c e))
