-- ===== src/Engine/Load/Inside.antt =====
-- `main` with its accesses checked, from the joining of the weights on.
use npu_gpu_cpu.Prelude.{
  refl, sym, ◌⊎◌, inl, inr, zero, suc, ◌<◌, write, for_to, false, ℕ, ◌+◌, ◌≡◌, ◌∙◌, ap, ℤ, pos,
  Array, codes, Option, some, none, List, length, leb, true, if◌then◌else◌, arith,
}
use npu_gpu_cpu.Engine.Floats.{Floats}
use npu_gpu_cpu.Engine.Rotary.{Trig, ri}
use npu_gpu_cpu.Engine.Rotary.Checked.{ri_checked, ri_checked_lem}
use npu_gpu_cpu.Engine.Decode.Tokens.{AllInTable}
use npu_gpu_cpu.Engine.Decode.Checked.{decode_checked}
use npu_gpu_cpu.Engine.Decode.Checked.Inside.{decode_checked_lem}
use native.Mathlib.Decide.{ℕ_discrete}
use npu_gpu_cpu.Prelude.Checked.{
  ◌>>=◌, write_in, for_option, for_option-some, for_option-none, bind_some, bind_none, bind_failed,
}
use npu_gpu_cpu.Engine.Layer.{LayerData}
use npu_gpu_cpu.Engine.Decode.{decode}
use npu_gpu_cpu.Engine.Decode.Layers.{decode-agree}
use npu_gpu_cpu.Engine.Load.Checked.{load_layer_checked, fits}
use npu_gpu_cpu.Engine.Load.Checked.Inside.{load_layer_checked_lem}
use npu_gpu_cpu.Engine.Load.{Kernels, offset, norm_weights, embeddings, load_layer}
use npu_gpu_cpu.Engine.Load.Main.{Files, init_contexts, prompt, start, tokens_after, main}
use npu_gpu_cpu.Engine.Setup.{i8_init}

prompt-AllInTable : AllInTable prompt
prompt-AllInTable = (
  omega arith,
  (
    omega arith,
    (
      omega arith,
      (omega arith, (omega arith, (omega arith, (omega arith, (omega arith, (omega arith, tt)))))),
    ),
  ),
)

-- An element that a loop over the places of an array has stored.
stored :
    {A : Type 0} (n i : ℕ) (x : ℕ → A) (init : Array A)
    → i < n
    → for_to n (λ l. write l (x l)) init i ≡ x i
unfolding for_to
stored zero i x init lt = absurd (omega arith)
stored (suc n) i x init lt = elim (ℕ_discrete i n) [
  | yes e ↦ ground (arith, ap x e)
  | no ne ↦ ground (arith, stored n i x init (omega arith))
]

-- What `init` makes of a file that it can open.
made :
    (md kd nd : ℕ) {file : Option (List ℕ)} {bytes : List ℕ}
    → file ≡ some bytes
    → (i8_init md kd nd file).1 ≡ (i8_init md kd nd (some bytes)).1
made md kd nd e = ap (λ x. (i8_init md kd nd x).1) e

module _ {F D : Type 0} (f : Floats F D) (trig : Trig F) (run : Kernels)
    (dequant : ℕ → ℕ → Array F × ℕ) (blank : Array F) (b_m : Array ℤ) (unset : ℕ → LayerData F)
    (md : ℕ → ℕ) (size : ℕ) where
  -- The loop over the layers that loads their weights, into arrays of 28.
  unfoldable pub load_checked : Option (ℕ → LayerData F)
  load_checked =
      for_option 28
        (λ l lo. do d ← load_layer_checked f blank b_m dequant run md size l; write_in 28 l d lo)
        unset

  -- `main`: the contexts are made, the weights of the layers are loaded into their buffers, the rotary
  -- tables are made, and the two loops run. A buffer that is not there is none too.
  unfoldable pub main_checked : Files → List F → Option (List ℕ)
  unfolding load_checked init_contexts
  main_checked files randoms = do
    let c = init_contexts files
    q ← c.cq
    o ← c.co
    g ← c.cg
    d ← c.cd
    lo ← load_checked
    tables ← ri_checked f trig 128 (f.of_int (pos 1000000)) 4096
    let fin = norm_weights f blank md (offset md size (codes "model.norm.weight")) 1024
    decode_checked f blank tables.0 tables.1 lo (embeddings md) fin prompt randoms (start f)

  load_checked_lem :
      ((l : ℕ) → l < 28 → fits f blank b_m dequant md size l ≡ true)
      → load_checked
        ≡ some (for_to 28 (λ l. write l (load_layer f blank b_m dequant run md size l)) unset)
  unfolding load_checked
  load_checked_lem h = for_option-some 28 _ _ unset (λ l lo lt.
      bind_some _
        (load_layer_checked_lem f blank b_m dequant run md size l
          ∙ ap (λ b. if b then some (load_layer f blank b_m dequant run md size l) else none)
              (h l lt))
        (ground arith))

  -- From the weights on, when the contexts are there.
  loaded_inside :
      (randoms : List F)
      → ((l : ℕ) → l < 28 → fits f blank b_m dequant md size l ≡ true)
      → length randoms ≡ 8
      → (load_checked >>= λ lo. ri_checked f trig 128 (f.of_int (pos 1000000)) 4096 >>= λ tables.
          decode_checked f blank tables.0 tables.1 lo
            (embeddings md)
            (norm_weights f blank md (offset md size (codes "model.norm.weight")) 1024)
            prompt
            randoms
            (start f))
        ≡ some (tokens_after f trig run dequant blank b_m prompt md size randoms)
  unfolding tokens_after
  loaded_inside randoms h e =
      let (rc, rs) = ri f trig 128 (f.of_int (pos 1000000)) 4096 in
      let fin = norm_weights f blank md (offset md size (codes "model.norm.weight")) 1024 in
      let emb = embeddings md in
      let lo = load_layer f blank b_m dequant run md size in
      let loaded = for_to 28 (λ l. write l (lo l)) unset in
      let tokens = decode f blank rc rs loaded emb fin prompt randoms (start f) in
      bind_some _ (load_checked_lem h) (
        bind_some _ (ri_checked_lem f trig 128 (f.of_int (pos 1000000)) 4096 (omega arith)) (
          decode_checked_lem f blank rc rs loaded emb fin prompt randoms (start f) prompt-AllInTable
            (omega arith)
          ∙ ap (λ b. if b then some tokens else none) {x = leb (0 + (9 + length randoms)) 32}
              {y = true} (ground (arith, e))
          ∙ ap some (
              decode-agree f blank rc rs loaded lo (λ l lt. stored 28 l lo unset lt) emb fin prompt
                randoms (start f))))

  pub main-inside :
      (files : Files) (q o g d : List ℕ) (randoms : List F)
      → files.cq ≡ some q
      → files.co ≡ some o
      → files.cg ≡ some g
      → files.cd ≡ some d
      → ((l : ℕ) → l < 28 → fits f blank b_m dequant md size l ≡ true)
      → length randoms ≡ 8
      → (main f trig run dequant blank b_m files md size randoms
          ≡ some (tokens_after f trig run dequant blank b_m prompt md size randoms))
        × (main_checked files randoms ≡ main f trig run dequant blank b_m files md size randoms)
  unfolding main_checked main init_contexts i8_init
  main-inside files q o g d randoms eq eo eg ed h e =
      let run_all = bind_some _ (made 128 1024 4096 eq) (
        bind_some _ (made 128 2048 1024 eo)
          (bind_some _ (made 128 1024 6144 eg) (bind_some _ (made 128 3072 1024 ed) refl))) in
      (
        run_all,
        bind_some _ (made 128 1024 4096 eq) (
              bind_some _ (made 128 2048 1024 eo) (
                bind_some _ (made 128 1024 6144 eg)
                  (bind_some _ (made 128 3072 1024 ed) (loaded_inside randoms h e))))
            ∙ sym run_all,
      )

  -- If the file of one of the contexts cannot be opened, a null pointer is dereferenced; and if the weights
  -- of some layer do not fit, an access is outside.
  pub main-outside :
      (files : Files) (randoms : List F) (l : ℕ)
      → l < 28
      → (files.cq ≡ none) ⊎ (fits f blank b_m dequant md size l ≡ false)
      → main_checked files randoms ≡ none
  unfolding main_checked load_checked init_contexts i8_init
  main-outside files randoms l lt (inl h) =
      bind_failed _ (ap (λ file. (i8_init 128 1024 4096 file).1) h)
  main-outside files randoms l lt (inr h) = bind_none (i8_init 128 1024 4096 files.cq).1 _ (λ q.
      bind_none (i8_init 128 2048 1024 files.co).1 _ (λ o.
        bind_none (i8_init 128 1024 6144 files.cg).1 _ (λ g.
          bind_none (i8_init 128 3072 1024 files.cd).1 _ (λ d. bind_failed _ (
            for_option-none 28 l _ unset lt (λ lo. bind_failed _ (
              load_layer_checked_lem f blank b_m dequant run md size l
              ∙ ap (λ b. if b then some (load_layer f blank b_m dequant run md size l) else none)
                  h)))))))
