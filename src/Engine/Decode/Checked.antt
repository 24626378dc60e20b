-- ===== src/Engine/Decode/Checked.antt =====
-- The two loops of `main` with every access checked: the table of the embeddings has NV rows of 1024 words,
-- `lg` NV elements, and `kv` one cache for each of the 28 layers. `none` is an access outside.
pub mod Token
pub mod Inside
pub mod Prompt
use npu_gpu_cpu.Prelude.{ℕ, ◌+◌, ◌-◌, ◌*◌, Array, Option, some, List, [], ◌∷◌, if◌then◌else◌}
use npu_gpu_cpu.Prelude.Checked.{◌>>=◌, read_in, write_in, for_option}
use npu_gpu_cpu.Engine.Floats.{Floats}
use npu_gpu_cpu.Engine.Bf16.{bf16f, bf16g, exponent_full}
use npu_gpu_cpu.Engine.Layer.{LayerData}
use npu_gpu_cpu.Engine.Layer.Checked.{layer_checked}
use npu_gpu_cpu.Engine.Sample.Checked.{largest_checked, pick_checked}
use npu_gpu_cpu.Engine.Vector.Checked.{rn_c_checked, copy_checked}
use npu_gpu_cpu.Engine.Decode.{Session, vocabulary}

module _ {F D : Type 0} (f : Floats F D) where
  unfoldable pub weights_checked : Array F → Option (Array F × D)
  weights_checked lg = do
    mx ← largest_checked f vocabulary lg (vocabulary - 1)
    for_option vocabulary
        (λ i acc. do
          x ← read_in vocabulary acc.0 i
          let d = f.sub x mx
          let e = f.expf (if f.greater f.minus_80 d then f.minus_80 else d)
          lg' ← write_in vocabulary i e acc.0
          some (lg', f.add_d acc.1 (f.widen e)))
        (lg, f.zero_d)

  module _ (emb : Array ℕ) where
    unfoldable pub logit_checked : Array F → ℕ → Option F
    logit_checked sb n = do
      s ←
          for_option 1024
            (λ k s. do
              r ← read_in (vocabulary * 1024) emb (n * 1024 + k)
              x ← if exponent_full r then some f.zero else read_in 1024 sb k
              some (
                  if exponent_full r
                  then s
                  else f.add_d s (f.widen (f.mul x (f.of_bits (bf16f r))))))
            f.zero_d
      some (f.narrow s)

    module _ (blank : Array F) where
      unfoldable pub embed_checked : ℕ → Option (Array F)
      embed_checked tok =
          for_option 1024
            (λ i h. do
              w ← read_in (vocabulary * 1024) emb (tok * 1024 + i)
              write_in 1024 i (f.of_bits (bf16g w)) h)
            blank

      unfoldable pub next_token_checked : Array F → F → Array F → Option ℕ
      unfolding logit_checked weights_checked
      next_token_checked fin random h = do
        c ← copy_checked 1024 1024 0 h 0 1024 blank
        sb ← rn_c_checked f 1024 1024 c fin 1024
        lg ←
            for_option vocabulary (λ n lg. do x ← logit_checked sb n; write_in vocabulary n x lg)
              blank
        w ← weights_checked lg
        pick_checked f vocabulary w.0 (f.mul random (f.narrow w.1)) vocabulary

module _ {F D : Type 0} (f : Floats F D) (blank rc rs : Array F) (lo : ℕ → LayerData F) where
  unfoldable pub run_layer_checked : ℕ → Session F → Option (Session F)
  run_layer_checked l s = do
    kv ← read_in 28 s.kv l
    r ← layer_checked f blank rc rs (lo l) s.sp s.h kv
    kvs ← write_in 28 l r.1 s.kv
    some (record s { h = r.0; kv = kvs })

  unfoldable pub run_layers_checked : Session F → Option (Session F)
  unfolding run_layer_checked
  run_layers_checked = for_option 28 run_layer_checked

  module _ (emb : Array ℕ) where
    unfoldable pub prefill_token_checked : ℕ → Session F → Option (Session F)
    unfolding run_layers_checked embed_checked
    prefill_token_checked tok s = do
      h ← embed_checked f emb blank tok
      s' ← run_layers_checked (record s { h = h })
      some (record s' { sp = s'.sp + 1 })

    unfoldable pub prefill_checked : List ℕ → Session F → Option (Session F)
    unfolding prefill_token_checked
    prefill_checked [] s = some s
    prefill_checked (tok ∷ toks) s = prefill_token_checked tok s >>= prefill_checked toks

    module _ (fin : Array F) where
      unfoldable pub generate_token_checked : F → Session F → Option (ℕ × Session F)
      unfolding run_layers_checked next_token_checked embed_checked
      generate_token_checked random s = do
        s' ← run_layers_checked s
        tok ← next_token_checked f emb blank fin random s'.h
        h ← embed_checked f emb blank tok
        some (tok, record s' { h = h; sp = s'.sp + 1 })

      unfoldable pub generate_checked : List F → Session F → Option (List ℕ)
      unfolding generate_token_checked
      generate_checked [] s = some []
      generate_checked (r ∷ rs') s = do
        t ← generate_token_checked r s
        toks ← generate_checked rs' t.1
        some (t.0 ∷ toks)

      unfoldable pub decode_checked : List ℕ → List F → Session F → Option (List ℕ)
      unfolding prefill_checked generate_checked
      decode_checked prompt randoms s = do
        s' ← prefill_checked prompt s
        generate_checked randoms s'
