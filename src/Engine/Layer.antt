-- ===== src/Engine/Layer.antt =====
-- `layer` in `main`: one transformer layer at position sp. The matrix products are done by the NPU
-- kernels and are part of the layer's data. A vector that a loop fills from end to end is a new array,
-- made of `blank`, which is also what the array `scores` of `cpu_attn` holds before it is written.
pub mod Window
pub mod Rows
pub mod Checked
use npu_gpu_cpu.Prelude.{ℕ, ◌+◌, ℤ, pos, Array, write, for_to, if◌then◌else◌}
use npu_gpu_cpu.Engine.Floats.{Floats}
use npu_gpu_cpu.Engine.CpuAttn.{attend_windows}
use npu_gpu_cpu.Engine.Fuse.{copy}
use npu_gpu_cpu.Engine.Heads.{Heads, heads}
use npu_gpu_cpu.Engine.I8Ctx.{stage_a, read_c}
use npu_gpu_cpu.Engine.Vector.{cn, rn_c}

-- What `layer` finds under the index l: the norm weights, the scales `wsc[l]`, and what the kernels of
-- `cq`, `co`, `cg` and `cd` make of the staged A with the B of the layer.
pub record LayerData (F : Type 0) : Type 0 where
  pub in_n : Array F
  pub pa_n : Array F
  pub qn_w : Array F
  pub kn_w : Array F
  pub qk : F
  pub o_ : F
  pub g_ : F
  pub d_ : F
  pub run_q : Array ℤ → Array ℤ
  pub run_o : Array ℤ → Array ℤ
  pub run_g : Array ℤ → Array ℤ
  pub run_d : Array ℤ → Array ℤ

-- `struct KV`
pub record KvCache (F : Type 0) : Type 0 where
  pub k : Array F
  pub v : Array F
  pub n : ℕ

module _ {F D : Type 0} (f : Floats F D) (blank : Array F) where
  -- `I8Ctx::go` with am = 1 and ascale = 5.0f/127.0f, into a new vector; MD is XM = 128. All of the A
  -- buffer is written.
  pub go : ℕ → ℕ → (Array ℤ → Array ℤ) → Array F → ℕ → F → ℕ → Array F
  go kd nd run a ak bscale an =
      let ascale = f.div f.five f.f127 in
      read_c f nd (run (stage_a f 128 kd a 1 ak ascale (λ _. pos 0))) 1 an ascale bscale blank

  -- `h[i]=sb[i]+oo[i]`
  pub residual : Array F → Array F → Array F
  residual sb oo = for_to 1024 (λ i. write i (f.add (sb i) (oo i))) blank

  -- `su[i]=(gv/(1.0f+expf(-gv)))*gt[IM+i]`
  pub gated : Array F → Array F
  gated gt =
      for_to 3072
        (λ i.
          let gv = if f.isfinite (gt i) then gt i else f.zero in
          write i (f.mul (f.div gv (f.add f.one (f.expf (f.neg gv)))) (gt (3072 + i))))
        blank

  -- From the second `memcpy(sb.data(),h.data(),H*4)` on.
  pub feed_forward : LayerData F → Array F → Array F
  unfolding go residual gated
  feed_forward d h =
      let sb = copy 0 h 0 1024 blank in
      let x = rn_c f h d.pa_n 1024 in
      let gt = cn f (go 1024 6144 d.run_g x 1024 d.g_ 6144) 6144 in
      let dwo = cn f (go 3072 1024 d.run_d (gated gt) 3072 d.d_ 1024) 1024 in residual sb dwo

  -- The output projection and the first residual sum.
  pub add_attention : LayerData F → Array F → Array F → Array F
  unfolding go residual
  add_attention d h at =
      let oo = cn f (go 2048 1024 d.run_o at 2048 d.o_ 1024) 1024 in
      residual (copy 0 h 0 1024 blank) oo

  module _ (rc rs : Array F) (d : LayerData F) (sp : ℕ) where
    -- Up to the loop over the heads: Q, K and V, and the caches with the new row.
    pub project : Array F → KvCache F → Heads F
    unfolding go
    project h kv =
        let x = rn_c f h d.in_n 1024 in
        let qo = cn f (go 1024 4096 d.run_q x 1024 d.qk 4096) 4096 in
        heads f rc rs sp d.qn_w d.kn_w (copy 0 qo 3072 1024 blank)
          (record { qo = qo; ko = copy 0 qo 2048 1024 blank; k = kv.k; v = kv.v })

    pub layer : Array F → KvCache F → Array F × KvCache F
    unfolding project add_attention feed_forward
    layer h kv =
        let c = project h kv in
        let at = attend_windows f c.qo c.k c.v sp blank blank in
        (feed_forward d (add_attention d h at), record { k = c.k; v = c.v; n = sp + 1 })
