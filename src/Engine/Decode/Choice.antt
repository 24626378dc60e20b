-- ===== src/Engine/Decode/Choice.antt =====
-- The choice of a token by the logits: `next_token` against sampling from their softmax.
use npu_gpu_cpu.Prelude.{
  ℕ, suc, ◌+◌, ◌-◌, ◌≤◌, ◌<◌, ◌≡◌, ap, ◌∙◌, Array, write, for_to, for_to_congr, for_to_hit, true,
  false, if◌then◌else◌, arith,
}
use mathlib.Core.Path.{ap₂}
use npu_gpu_cpu.Engine.Floats.{Floats}
use npu_gpu_cpu.Engine.Fuse.{copy}
use npu_gpu_cpu.Engine.MapSum.{map_sum, map_sum_cells, map_sum_total}
use npu_gpu_cpu.Engine.Sample.{largest, pick}
use npu_gpu_cpu.Engine.Sample.Choice.{sum_before, pick_first}
use npu_gpu_cpu.Engine.Vector.{rn_c}
use npu_gpu_cpu.Engine.Decode.{vocabulary, weights, logit, next_token}

module _ {F D : Type 0} (f : Floats F D) (lg : Array F) where
  -- The largest of the logits.
  abbrev pub largest_logit : F
  largest_logit =
      for_to (vocabulary - 1) (λ i mx. if f.greater (lg (i + 1)) mx then lg (i + 1) else mx) (lg 0)

  -- The weight of token i, not yet divided by the sum.
  abbrev pub token_weight : ℕ → F
  token_weight i =
      let d = f.sub (lg i) largest_logit in
      f.expf (if f.greater f.minus_80 d then f.minus_80 else d)

  abbrev pub token_weight_sum : D
  token_weight_sum = for_to vocabulary (λ i s. f.add_d s (f.widen (token_weight i))) f.zero_d

  -- The weights of the tokens before token n, added up in float.
  abbrev pub weight_before : ℕ → F
  weight_before n = for_to n (λ i acc. f.add acc (token_weight i)) f.zero

  exponent : F → F
  exponent v =
      let d = f.sub v (largest f lg (vocabulary - 1)) in
      f.expf (if f.greater f.minus_80 d then f.minus_80 else d)

  weights_cells : (i : ℕ) → i < vocabulary → (weights f lg).0 i ≡ token_weight i
  unfolding weights map_sum exponent largest
  weights_cells i lt =
      map_sum_cells exponent (λ s e. f.add_d s (f.widen e)) lg f.zero_d vocabulary i lt

  weights_total : (weights f lg).1 ≡ token_weight_sum
  unfolding weights map_sum exponent largest
  weights_total = map_sum_total exponent (λ s e. f.add_d s (f.widen e)) lg f.zero_d vocabulary

module _ {F D : Type 0} (f : Floats F D) (lg lg' : Array F) where
  -- The first `vocabulary` logits are all that counts.
  module _ (same : (i : ℕ) → i < vocabulary → lg i ≡ lg' i) where
    largest_logit_congr : largest_logit f lg ≡ largest_logit f lg'
    largest_logit_congr =
        ap (for_to (vocabulary - 1) _) (same 0 (omega arith))
        ∙ for_to_congr (vocabulary - 1) (lg' 0)
            (λ i mx p. ap (λ v. if f.greater v mx then v else mx) (same (i + 1) (omega arith)))

    token_weight_congr : (i : ℕ) → i < vocabulary → token_weight f lg i ≡ token_weight f lg' i
    token_weight_congr i lt =
        ap₂ (λ v mx. f.expf (if f.greater f.minus_80 (f.sub v mx) then f.minus_80 else f.sub v mx))
          (same i lt) largest_logit_congr

    token_weight_sum_congr : token_weight_sum f lg ≡ token_weight_sum f lg'
    token_weight_sum_congr =
        for_to_congr vocabulary f.zero_d
          (λ i s lt. ap (λ e. f.add_d s (f.widen e)) (token_weight_congr i lt))

    sum_before-weights :
        (rr : F) (n : ℕ)
        → n ≤ vocabulary
        → sum_before f (weights f lg).0 rr n ≡ weight_before f lg' n
    sum_before-weights rr n le = for_to_congr n f.zero (λ i acc lt.
        ap (f.add acc) (weights_cells f lg i (omega arith) ∙ token_weight_congr i (omega arith)))

    pick-weights :
        (random : F) (n : ℕ)
        → n < vocabulary
        → let threshold = f.mul random (f.narrow (token_weight_sum f lg')) in
          ((j : ℕ) → j < n → f.at_least (weight_before f lg' (suc j)) threshold ≡ false)
          → f.at_least (weight_before f lg' (suc n)) threshold ≡ true
          → pick f (weights f lg).0 (f.mul random (f.narrow (weights f lg).1)) vocabulary ≡ n
    pick-weights random n lt before reached =
        let rr = f.mul random (f.narrow (weights f lg).1) in
        let e = ap (λ s. f.mul random (f.narrow s)) (weights_total f lg ∙ token_weight_sum_congr) in
        pick_first f (weights f lg).0 rr vocabulary n lt
          (λ j p. ap₂ f.at_least (sum_before-weights rr (suc j) (omega arith)) e ∙ before j p)
          (ap₂ f.at_least (sum_before-weights rr (suc n) (omega arith)) e ∙ reached)

module _ {F D : Type 0} (f : Floats F D) (blank : Array F) (emb : Array ℕ) (fin : Array F) where
  -- The logits of the hidden state h: the products of its normalised copy with the embeddings.
  abbrev pub logits_of : Array F → Array F
  logits_of h = logit f emb (rn_c f (copy 0 h 0 1024 blank) fin 1024)

  -- If the running sum of the weights reaches the random part of the whole sum at token n, and at no token
  -- before it, then token n is chosen; the weight of a token is the exponential of the distance of its logit to
  -- the largest logit, and no distance counts for less than -80.
  pub next_token_first :
      (random : F) (h : Array F) (n : ℕ)
      → n < vocabulary
      → let lg = logits_of h in
        let threshold = f.mul random (f.narrow (token_weight_sum f lg)) in
        ((j : ℕ) → j < n → f.at_least (weight_before f lg (suc j)) threshold ≡ false)
        → f.at_least (weight_before f lg (suc n)) threshold ≡ true
        → next_token f blank emb fin random h ≡ n
  unfolding next_token
  next_token_first random h n lt before reached =
      pick-weights f (for_to vocabulary (λ i. write i (logits_of h i)) blank) (logits_of h)
        (λ i p.
          for_to_hit vocabulary i _ blank i _ p (λ t. ground arith) (λ j t q ne. ground arith))
        random n lt before reached
