-- ===== src/Engine/Load.antt =====
-- What `main` makes of the model file before the first token: the offsets of the tensors, the norm
-- weights, and the B buffers of the four contexts. The file is a function from places to bytes;
-- `dequant_i8_to_float`, which is not part of the repository, is a parameter: at the offset of a
-- tensor and with its second argument it gives the matrix and the number that it stores through its
-- third.
pub mod Cells
pub mod Main
pub mod Checked
pub mod Inside
mod Examples
use npu_gpu_cpu.Prelude.{
  codes, ℕ, zero, suc, ◌+◌, ◌*◌, ◌/◌, ◌%◌, ◌-◌, ◌^◌, ltb, ℤ, pos, Array, write, for_to, Option,
  none, some, List, [], ◌∷◌, ◌++◌, if◌then◌else◌,
}
use npu_gpu_cpu.Engine.Floats.{Floats}
use npu_gpu_cpu.Engine.Bf16.{bf16g}
use npu_gpu_cpu.Engine.Fuse.{fuse_qkv, fuse_gate_up}
use npu_gpu_cpu.Engine.I8Ctx.{pack_b}
use npu_gpu_cpu.Engine.Json.{jo}
use npu_gpu_cpu.Engine.Layer.{LayerData}

-- A little-endian number of n bytes.
abbrev pub word : (ℕ → ℕ) → ℕ → ℕ → ℕ
word md o n = for_to n (λ i acc. acc + md (o + i) * 2 ^ (8 * i)) 0

-- The n bytes from o on.
abbrev pub bytes : (ℕ → ℕ) → ℕ → ℕ → List ℕ
bytes md o zero = []
bytes md o (suc n) = md o ∷ bytes md (o + 1) n

-- `hsz`, and `df` in the 64 bits of a `uint64_t`
abbrev pub hsz : (ℕ → ℕ) → ℕ
hsz md = word md 0 8

abbrev pub df : (ℕ → ℕ) → ℕ
df md = (8 + hsz md) % 2 ^ 64

-- `%d` of a number below 100; NC is 28.
abbrev pub decimal : ℕ → List ℕ
decimal l = if ltb l 10 then (b'0' + l) ∷ [] else (b'0' + l / 10) ∷ (b'0' + l % 10) ∷ []

-- The name of a tensor of layer l. None is as long as the 128 bytes of `b`.
pub tensor_name : ℕ → List ℕ → List ℕ
tensor_name l part = codes "model.layers." ++ (decimal l ++ (b'.' ∷ part ++ codes ".weight"))

-- `lo[l]`
pub record Offsets : Type 0 where
  pub qp : ℕ
  pub kp : ℕ
  pub vp : ℕ
  pub op : ℕ
  pub gp : ℕ
  pub up : ℕ
  pub dp : ℕ
  pub in_off : ℕ
  pub pa_off : ℕ
  pub qn_off : ℕ
  pub kn_off : ℕ

-- `jo` always gives a number.
abbrev pub number : Option ℕ → ℕ
number none = 0
number (some o) = o

module _ (md : ℕ → ℕ) (size : ℕ) where
  -- `jo(js,jl,nm)`, of a file of `size` bytes.
  pub offset : List ℕ → ℕ
  offset nm = number (jo nm (bytes md 8 (hsz md)) (bytes md (8 + hsz md) (size - (8 + hsz md))))

  pub offsets : ℕ → Offsets
  unfolding offset tensor_name
  offsets l = record {
    qp = offset (tensor_name l (codes "self_attn.q_proj"));
    kp = offset (tensor_name l (codes "self_attn.k_proj"));
    vp = offset (tensor_name l (codes "self_attn.v_proj"));
    op = offset (tensor_name l (codes "self_attn.o_proj"));
    gp = offset (tensor_name l (codes "mlp.gate_proj"));
    up = offset (tensor_name l (codes "mlp.up_proj"));
    dp = offset (tensor_name l (codes "mlp.down_proj"));
    in_off = offset (tensor_name l (codes "input_layernorm"));
    pa_off = offset (tensor_name l (codes "post_attention_layernorm"));
    qn_off = offset (tensor_name l (codes "self_attn.q_norm"));
    kn_off = offset (tensor_name l (codes "self_attn.k_norm"));
  }

-- `emb`
pub embeddings : (ℕ → ℕ) → Array ℕ
embeddings md i = word md (df md + 2 * i) 2

-- `i8p`
abbrev pub i8p : (ℕ → ℕ) → ℕ → ℕ
i8p md o = (df md + o) % 2 ^ 64

module _ {F D : Type 0} (f : Floats F D) (blank : Array F) (md : ℕ → ℕ) where
  -- `for(int i=0;i<n;i++)x[i]=bf16g(w[i]);` for the words at an offset
  pub norm_weights : ℕ → ℕ → Array F
  norm_weights off n =
      for_to n (λ i. write i (f.of_bits (bf16g (word md (i8p md off + 2 * i) 2)))) blank

-- What `packB` leaves for one layer: the scale in `wsc[l]` and the B buffer, which held `b_m`.
module _ {F D : Type 0} (f : Floats F D) (dequant : ℕ → ℕ → Array F × ℕ) (b_m : Array ℤ)
    (md : ℕ → ℕ) where
  -- A `std::vector<float>` is made of zeros.
  pub pack_qkv : Offsets → F × Array ℤ
  pack_qkv lo =
      let (qw, qr) = dequant (i8p md lo.qp) 256 in
      let (kw, kr) = dequant (i8p md lo.kp) 128 in
      let (vw, vr) = dequant (i8p md lo.vp) 128 in
      pack_b f (fuse_qkv 1024 qr kr vr qw kw vw (λ _. f.zero)) 1024 (qr + kr + vr) b_m

  pub pack_o : Offsets → F × Array ℤ
  pack_o lo = let (ow, or) = dequant (i8p md lo.op) 256 in pack_b f ow or 1024 b_m

  pub pack_gate_up : Offsets → F × Array ℤ
  pack_gate_up lo =
      let (gw, gr) = dequant (i8p md lo.gp) 384 in
      let (uw, ur) = dequant (i8p md lo.up) 384 in
      pack_b f (fuse_gate_up 1024 gr ur gw uw (λ _. f.zero)) 1024 (gr + ur) b_m

  pub pack_down : Offsets → F × Array ℤ
  pack_down lo = let (dw, dr) = dequant (i8p md lo.dp) 384 in pack_b f dw dr 1024 b_m

-- The kernels of the four contexts: from A and B to C.
pub record Kernels : Type 0 where
  pub cq : Array ℤ → Array ℤ → Array ℤ
  pub co : Array ℤ → Array ℤ → Array ℤ
  pub cg : Array ℤ → Array ℤ → Array ℤ
  pub cd : Array ℤ → Array ℤ → Array ℤ

module _ {F D : Type 0} (f : Floats F D) (blank : Array F) (b_m : Array ℤ)
    (dequant : ℕ → ℕ → Array F × ℕ) where
  -- All that `layer` uses under the index l.
  pub load_layer : Kernels → (ℕ → ℕ) → ℕ → ℕ → LayerData F
  unfolding norm_weights pack_qkv pack_o pack_gate_up pack_down
  load_layer run md size l =
      let lo = offsets md size l in
      let q = pack_qkv f dequant b_m md lo in
      let o = pack_o f dequant b_m md lo in
      let g = pack_gate_up f dequant b_m md lo in
      let d = pack_down f dequant b_m md lo in
      record {
        in_n = norm_weights f blank md lo.in_off 1024;
        pa_n = norm_weights f blank md lo.pa_off 1024;
        qn_w = norm_weights f blank md lo.qn_off 128;
        kn_w = norm_weights f blank md lo.kn_off 128;
        qk = q.0;
        o_ = o.0;
        g_ = g.0;
        d_ = d.0;
        run_q = λ a. run.cq a q.1;
        run_o = λ a. run.co a o.1;
        run_g = λ a. run.cg a g.1;
        run_d = λ a. run.cd a d.1;
      }
