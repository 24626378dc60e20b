-- ===== src/Engine/Decode.antt =====
-- The two loops of `main`: the prompt's tokens, then the generated ones. `emb` is the table of bf16
-- embeddings, `lo` the layers' data, `fin` the final norm; `(float)rand()/RAND_MAX` is an argument.
pub mod Rows
pub mod Prompt
pub mod Tokens
pub mod Choice
pub mod Checked
pub mod Layers
mod Examples
use npu_gpu_cpu.Prelude.{ℕ, ◌+◌, ◌-◌, ◌*◌, Array, write, for_to, List, [], ◌∷◌, if◌then◌else◌}
use npu_gpu_cpu.Engine.Floats.{Floats}
use npu_gpu_cpu.Engine.Bf16.{bf16f, bf16g, exponent_full}
use npu_gpu_cpu.Engine.Fuse.{copy}
use npu_gpu_cpu.Engine.Layer.{LayerData, KvCache, layer}
use npu_gpu_cpu.Engine.Sample.{largest, pick}
use npu_gpu_cpu.Engine.Vector.{rn_c}

-- `h`, `kv` and `sp`.
pub record Session (F : Type 0) : Type 0 where
  pub h : Array F
  pub kv : ℕ → KvCache F
  pub sp : ℕ

-- NV
abbrev pub vocabulary : ℕ
vocabulary = 151936

module _ {F D : Type 0} (f : Floats F D) where
  -- `float d=lg[i]-mx;if(d<-80)d=-80;lg[i]=expf(d);sum+=lg[i];`
  pub weights : Array F → Array F × D
  weights lg =
      let mx = largest f lg (vocabulary - 1) in
      for_to vocabulary
        (λ i acc.
          let d = f.sub (acc.0 i) mx in
          let e = f.expf (if f.greater f.minus_80 d then f.minus_80 else d) in
          (write i e acc.0, f.add_d acc.1 (f.widen e)))
        (lg, f.zero_d)

module _ {F D : Type 0} (f : Floats F D) (emb : Array ℕ) where
  -- The logit of token n; an embedding that is not finite is left out.
  pub logit : Array F → ℕ → F
  logit sb n = f.narrow (
      for_to 1024
        (λ k s.
          let r = emb (n * 1024 + k) in
          if exponent_full r then s else f.add_d s (f.widen (f.mul (sb k) (f.of_bits (bf16f r)))))
        f.zero_d)

module _ {F D : Type 0} (f : Floats F D) (blank : Array F) (emb : Array ℕ) where
  -- `for(int i=0;i<H;i++)h[i]=bf16g(emb[tok*H+i]);`
  pub embed : ℕ → Array F
  embed tok = for_to 1024 (λ i. write i (f.of_bits (bf16g (emb (tok * 1024 + i))))) blank

  module _ (fin : Array F) where
    -- The token that is chosen for the hidden state h.
    pub next_token : F → Array F → ℕ
    unfolding logit weights
    next_token random h =
        let sb = rn_c f (copy 0 h 0 1024 blank) fin 1024 in
        let lg = for_to vocabulary (λ n. write n (logit f emb sb n)) blank in
        let w = weights f lg in pick f w.0 (f.mul random (f.narrow w.1)) vocabulary

module _ {F D : Type 0} (f : Floats F D) (blank rc rs : Array F) (lo : ℕ → LayerData F) where
  -- `layer(l)`
  pub run_layer : ℕ → Session F → Session F
  run_layer l s =
      let (h', c) = layer f blank rc rs (lo l) s.sp s.h (s.kv l) in
      record s { h = h'; kv = write l c s.kv }

  -- `for(int l=0;l<NC;l++)layer(l);`
  pub run_layers : Session F → Session F
  unfolding run_layer
  run_layers = for_to 28 run_layer

  module _ (emb : Array ℕ) where
    pub prefill_token : ℕ → Session F → Session F
    unfolding run_layers embed
    prefill_token tok s =
        let s' = run_layers (record s { h = embed f blank emb tok }) in record s' { sp = s'.sp + 1 }

    pub prefill : List ℕ → Session F → Session F
    unfolding prefill_token
    prefill [] s = s
    prefill (tok ∷ toks) s = prefill toks (prefill_token tok s)

    module _ (fin : Array F) where
      -- One round of the second loop: the token, and the state after it.
      pub generate_token : F → Session F → ℕ × Session F
      unfolding run_layers next_token embed
      generate_token random s =
          let s' = run_layers s in
          let tok = next_token f blank emb fin random s'.h in
          (tok, record s' { h = embed f blank emb tok; sp = s'.sp + 1 })

      pub generate : List F → Session F → List ℕ
      unfolding generate_token
      generate [] s = []
      generate (r ∷ rs') s = let (tok, s') = generate_token r s in tok ∷ generate rs' s'

      -- The tokens that `main` prints, for a prompt and a state to begin with.
      pub decode : List ℕ → List F → Session F → List ℕ
      unfolding prefill generate
      decode prompt randoms s = generate randoms (prefill prompt s)
