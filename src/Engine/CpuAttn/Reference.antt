-- ===== src/Engine/CpuAttn/Reference.antt =====
-- `cpu_attn` against attention as it is defined: softmax of the scaled scores, then the weighted sum.
use npu_gpu_cpu.Prelude.{
  true, false, ℕ, zero, suc, ◌+◌, ◌*◌, ◌<◌, ◌≡◌, ◌≢◌, refl, ap, ◌∙◌, Array, for_to, for_to_hit,
  for_to_miss, for_to_congr, ◌==◌, if◌then◌else◌, arith,
}
use mathlib.Core.Path.{ap₂}
use native.Mathlib.Decide.{ℕ_discrete}
use npu_gpu_cpu.Engine.Floats.{Floats}
use npu_gpu_cpu.Engine.MapSum.{map_sum, map_sum_cells, map_sum_total}
use npu_gpu_cpu.Engine.CpuAttn.{score, scores, exponentials, head_output, kv_index, cpu_attn}

==_refl : (a : ℕ) → (a == a) ≡ true
==_refl a = ground arith

==_ne : (a b : ℕ) → a ≢ b → (a == b) ≡ false
==_ne a b h = ground arith

module _ {F D : Type 0} (f : Floats F D) (q k v : Array F) (n h : ℕ) where
  -- The largest score of the first m tokens, or -1e30.
  abbrev pub largest_score : ℕ → F
  largest_score m =
      for_to m (λ p mx. if f.greater (score f q k h p) mx then score f q k h p else mx) f.least

  abbrev pub weight : ℕ → F
  weight p = f.expf (f.sub (score f q k h p) (largest_score n))

  -- The sum of the first m weights, in double.
  abbrev pub weight_sum : ℕ → D
  weight_sum m = for_to m (λ p s. f.add_d s (f.widen (weight p))) f.zero_d

  -- Element d of the head's output.
  abbrev pub attention : ℕ → F
  attention d =
      let total = if f.not_positive (weight_sum n) then f.one_d else weight_sum n in
      for_to n
        (λ p s. f.add s (f.mul (f.mul (weight p) (f.reciprocal total)) (v (kv_index f p h d))))
        f.zero

  score_round : ℕ → Array F × F → Array F × F
  score_round p acc =
      let s = score f q k h p in
      ((λ j. if j == p then s else acc.0 j), if f.greater s acc.1 then s else acc.1)

  -- After m rounds of the first loop.
  scores_run :
      (init : Array F) (m : ℕ)
      → ((for_to m score_round (init, f.least)).1 ≡ largest_score m)
        × ((p : ℕ) → p < m → (for_to m score_round (init, f.least)).0 p ≡ score f q k h p)
  unfolding for_to score_round
  scores_run init zero = (refl, λ p lt. absurd (omega arith))
  scores_run init (suc m) =
      let (e, cells) = scores_run init m in
      (
        ap (λ mx. if f.greater (score f q k h m) mx then score f q k h m else mx) e,
        λ p lt. elim (ℕ_discrete p m) [
          | yes i ↦ rw i (rw (==_refl m) refl)
          | no i ↦ rw (==_ne p m i) (cells p (omega arith))
        ],
      )

  -- Both loops, on the array that the first leaves.
  softmax_cells :
      (init : Array F)
      → ((exponentials f n (scores f q k n h init)).1 ≡ weight_sum n)
        × ((p : ℕ) → p < n → (exponentials f n (scores f q k n h init)).0 p ≡ weight p)
  unfolding scores exponentials score_round map_sum
  softmax_cells init =
      let (e, cells) = scores_run init n in
      let (arr, mx) = for_to n score_round (init, f.least) in
      let now : (p : ℕ) → p < n → f.expf (f.sub (arr p) mx) ≡ weight p =
        λ p lt. ap₂ (λ s m. f.expf (f.sub s m)) (cells p lt) e in
      (
        map_sum_total (λ s. f.expf (f.sub s mx)) (λ s x. f.add_d s (f.widen x)) arr f.zero_d n
            ∙ for_to_congr n f.zero_d (λ p s lt. ap (λ x. f.add_d s (f.widen x)) (now p lt)),
        λ p lt.
            map_sum_cells (λ s. f.expf (f.sub s mx)) (λ s x. f.add_d s (f.widen x)) arr f.zero_d n p
              lt
            ∙ now p lt,
      )

  head_output_here :
      (ex : Array F × D) (base d : ℕ) (out : Array F)
      → ex.1 ≡ weight_sum n
      → ((p : ℕ) → p < n → ex.0 p ≡ weight p)
      → d < 128
      → head_output f v n h base ex out (base + (h * 128 + d)) ≡ attention d
  unfolding head_output
  head_output_here ex base d out e cells hd =
      for_to_hit 128 d _ out _ (value d) hd (λ t. ground arith) (λ j t p ne. ground arith)
      ∙ for_to_congr n f.zero (λ p s lt.
        ap₂
          (λ w t. f.add s (
            f.mul (f.mul w (f.reciprocal (if f.not_positive t then f.one_d else t)))
              (v (kv_index f p h d))))
          (cells p lt) e)
    where
      value : ℕ → F
      value d =
          let total = if f.not_positive ex.1 then f.one_d else ex.1 in
          let is = f.reciprocal total in
          for_to n (λ p s. f.add s (f.mul (f.mul (ex.0 p) is) (v (kv_index f p h d)))) f.zero

head_output_apart :
    {F D : Type 0} (f : Floats F D) (v : Array F) (n j h d base : ℕ) (ex : Array F × D)
    (out : Array F)
    → d < 128
    → j ≢ h
    → head_output f v n j base ex out (base + (h * 128 + d)) ≡ out (base + (h * 128 + d))
unfolding head_output
head_output_apart f v n j h d base ex out hd ne =
    for_to_miss 128 _ out _ (λ i t p. ground (arith, apart i p))
  where
    apart : (i : ℕ) → i < 128 → base + (h * 128 + d) ≢ base + (j * 128 + i)
    apart i p e = ne (omega arith)

-- Element d of head h is attention by its definition: the values of the tokens, summed in their order
-- with the softmax of the scaled scores as weights, whatever the two buffers held.
pub cpu_attn-attention :
    {F D : Type 0} (f : Floats F D) (q k v : Array F) (n base : ℕ) (init out : Array F) (h d : ℕ)
    → h < 4
    → d < 128
    → cpu_attn f q k v n base init out (base + (h * 128 + d)) ≡ attention f q k v n h d
unfolding cpu_attn
cpu_attn-attention f q k v n base init out h d hh hd =
    let (e, cells) = softmax_cells f q k v n h init in
    for_to_hit 4 h _ out _ _ hh
      (λ t.
        head_output_here f q k v n h (exponentials f n (scores f q k n h init)) base d t e cells hd)
      (λ j t p ne.
        head_output_apart f v n j h d base (exponentials f n (scores f q k n j init)) t hd ne)
