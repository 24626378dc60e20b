-- ===== src/Engine/Decode/Checked/Token.antt =====
-- The choice of a token makes no access outside of its vectors, nor does the embedding of one that has a
-- row in the table.
use npu_gpu_cpu.Prelude.{ℕ, ◌+◌, ◌-◌, ◌*◌, ◌<◌, ◌≡◌, refl, Array, write, some, if◌then◌else◌, arith}
use npu_gpu_cpu.Prelude.Checked.{for_option-some, bind_some}
use npu_gpu_cpu.Engine.Floats.{Floats}
use npu_gpu_cpu.Engine.Bf16.{bf16f, exponent_full}
use npu_gpu_cpu.Engine.Sample.Checked.{largest_checked_lem, pick_checked_lem}
use npu_gpu_cpu.Engine.Fuse.{copy}
use npu_gpu_cpu.Engine.Vector.{rn_c}
use npu_gpu_cpu.Engine.Vector.Checked.{rn_c_checked_lem, copy_checked_lem}
use npu_gpu_cpu.Engine.Decode.{vocabulary, weights, logit, embed, next_token}
use npu_gpu_cpu.Engine.Decode.Checked.{
  weights_checked, logit_checked, embed_checked, next_token_checked,
}

module _ {F D : Type 0} (f : Floats F D) where
  weights_checked_lem : (lg : Array F) → weights_checked f lg ≡ some (weights f lg)
  unfolding weights_checked weights
  weights_checked_lem lg =
      bind_some _ (largest_checked_lem f vocabulary lg (vocabulary - 1) (omega arith))
        (for_option-some vocabulary _ _ (lg, f.zero_d) (λ i acc lt. ground arith))

  module _ (emb : Array ℕ) where
    logit_checked_lem :
        (sb : Array F) (n : ℕ) → n < vocabulary → logit_checked f emb sb n ≡ some (logit f emb sb n)
    unfolding logit_checked logit
    logit_checked_lem sb n lt =
        bind_some _
          (for_option-some 1024 _
            (λ k s.
              let r = emb (n * 1024 + k) in
              if exponent_full r
              then s
              else f.add_d s (f.widen (f.mul (sb k) (f.of_bits (bf16f r)))))
            f.zero_d (λ k s lk. ground arith))
          refl

    module _ (blank : Array F) where
      pub embed_checked_lem :
          (tok : ℕ)
          → tok < vocabulary
          → embed_checked f emb blank tok ≡ some (embed f blank emb tok)
      unfolding embed_checked embed
      embed_checked_lem tok lt = for_option-some 1024 _ _ blank (λ i h li. ground arith)

      pub next_token_checked_lem :
          (fin : Array F) (random : F) (h : Array F)
          → next_token_checked f emb blank fin random h ≡ some (next_token f blank emb fin random h)
      unfolding next_token_checked next_token
      next_token_checked_lem fin random h =
          let sb = rn_c f (copy 0 h 0 1024 blank) fin 1024 in
          bind_some _ (copy_checked_lem 1024 1024 0 h 0 1024 blank (omega arith) (omega arith)) (
            bind_some _ (rn_c_checked_lem f 1024 1024 _ fin 1024 (omega arith) (omega arith)) (
              bind_some _
                (for_option-some vocabulary _ (λ n. write n (logit f emb sb n)) blank
                  (λ n t lt. bind_some _ (logit_checked_lem sb n lt) (ground arith)))
                (bind_some _ (weights_checked_lem _)
                  (pick_checked_lem f vocabulary _ _ vocabulary (omega arith)))))
