-- ===== src/Engine/CpuAttn/Checked/Inside.antt =====
-- Up to 32 tokens every access of `cpu_attn` is inside of its vector, and from the 33rd on one is not.
use npu_gpu_cpu.Prelude.{
  ℕ, ◌+◌, ◌*◌, ◌/◌, ◌≤◌, ◌<◌, ◌≡◌, refl, ap, ◌∙◌, Bool-cases, inl, inr, Array, write, for_to,
  Option, none, some, ltb, if◌then◌else◌, arith,
}
use npu_gpu_cpu.Prelude.Checked.{◌>>=◌, Pointer, write_in, for_option-some, for_option-none}
use npu_gpu_cpu.Engine.Floats.{Floats}
use npu_gpu_cpu.Engine.CpuAttn.{
  at_offset, kv_index, score, scores, exponentials, head_output, cpu_attn, attend_windows,
}
use npu_gpu_cpu.Engine.CpuAttn.Checked.{
  score_checked, scores_checked, exponentials_checked, head_output_checked, cpu_attn_checked,
  attend_windows_checked,
}

abbrev pub behind : {F : Type 0} → Pointer F → Array F
behind x = at_offset x.offset x.cells

-- A store behind the 32 places.
store_overrun :
    {F B : Type 0} (o : Option F) (arr : Array F) (next : F → Array F → Option B)
    → (o >>= λ s. write_in 32 32 s arr >>= next s) ≡ none
store_overrun none arr next = refl
store_overrun (some s) arr next = refl

-- The rows of n tokens, from the pointer on, are in the vector, and so are the windows' 256 places of each.
abbrev pub HasRows : {F : Type 0} → ℕ → Pointer F → Type 0
HasRows n x = (p : ℕ) (c : ℕ) → p < n → c < 256 → x.offset + (p * 8 * 128 + c) < x.size

module _ {F D : Type 0} (f : Floats F D) (n : ℕ) where
  kv_inside :
      (k : Pointer F) (p h d : ℕ)
      → HasRows n k
      → p < n
      → h < 4
      → d < 128
      → k.offset + kv_index f p h d < k.size
  kv_inside k p h d rows lt lh ld = omega (arith, rows p (h / 2 * 128 + d) lt (omega arith))

  module _ (q k v : Pointer F) (rows_k : HasRows n k) (rows_v : HasRows n v)
      (in_q : (i : ℕ) → i < 512 → q.offset + i < q.size) (h : ℕ) (lh : h < 4) where
    score_inside :
        (p : ℕ) → p < n → score_checked f q k h p ≡ some (score f (behind q) (behind k) h p)
    unfolding score_checked
    score_inside p lt =
        ap (λ o. o >>= λ s. some (f.narrow (f.over_sqrt_hd s)))
          (for_option-some 128 _ _ f.zero_d (λ d s ld.
            ground (arith, in_q (h * 128 + d) (omega arith), kv_inside k p h d rows_k lt lh ld)))

    scores_inside :
        (init : Array F)
        → n ≤ 32
        → scores_checked f q k n h init ≡ some (scores f (behind q) (behind k) n h init)
    unfolding scores_checked scores
    scores_inside init le =
        for_option-some n _ _ (init, f.least)
          (λ p acc lt.
            ap
              (λ o. o >>= λ s.
                write_in 32 p s acc.0 >>= λ arr. some (arr, if f.greater s acc.1 then s else acc.1))
              (score_inside p lt)
            ∙ ground arith)

    head_output_inside :
        (base : ℕ) (ex : Array F × D) (out : Array F)
        → n ≤ 32
        → base + 512 ≤ 2048
        → head_output_checked f v n h base ex out ≡ some (head_output f (behind v) n h base ex out)
    unfolding head_output_checked head_output
    head_output_inside base ex out le le' =
        let is = f.reciprocal (if f.not_positive ex.1 then f.one_d else ex.1) in
        let add_value =
          λ (d p : ℕ) (s : F). f.add s (f.mul (f.mul (ex.0 p) is) (behind v (kv_index f p h d))) in
        for_option-some 128 _ (λ d. write (base + (h * 128 + d)) (for_to n (add_value d) f.zero))
          out
          (λ d t ld.
            ap (λ o. o >>= λ s. write_in 2048 (base + (h * 128 + d)) s t)
              (for_option-some n _ (add_value d) f.zero
                (λ p s lt. ground (arith, kv_inside v p h d rows_v lt lh ld)))
            ∙ ground arith)

  exponentials_inside :
      (sc : Array F × F) → n ≤ 32 → exponentials_checked f n sc ≡ some (exponentials f n sc)
  unfolding exponentials_checked exponentials
  exponentials_inside sc le = for_option-some n _ _ (sc.0, f.zero_d) (λ p acc lt. ground arith)

  pub cpu_attn_inside :
      (q k v : Pointer F) (base : ℕ) (init out : Array F)
      → HasRows n k
      → HasRows n v
      → ((i : ℕ) → i < 512 → q.offset + i < q.size)
      → n ≤ 32
      → base + 512 ≤ 2048
      → cpu_attn_checked f q k v n base init out
        ≡ some (cpu_attn f (behind q) (behind k) (behind v) n base init out)
  unfolding cpu_attn_checked cpu_attn
  cpu_attn_inside q k v base init out rows_k rows_v in_q le le' =
      for_option-some 4 _ _ out (λ h t lh.
        ap
          (λ o.
            o >>= λ sc. exponentials_checked f n sc >>= λ ex. head_output_checked f v n h base ex t)
          (scores_inside q k v rows_k rows_v in_q h lh init le)
        ∙ ap (λ o. o >>= λ ex. head_output_checked f v n h base ex t)
            (exponentials_inside (scores f (behind q) (behind k) n h init) le)
        ∙ head_output_inside q k v rows_k rows_v in_q h lh base
            (exponentials f n (scores f (behind q) (behind k) n h init)) t le le')

  -- The 33rd score does not fit.
  scores_overrun :
      (q k : Pointer F) (h : ℕ) (init : Array F) → 32 < n → scores_checked f q k n h init ≡ none
  unfolding scores_checked
  scores_overrun q k h init lt =
      for_option-none n 32 _ (init, f.least) lt
        (λ t.
          store_overrun (score_checked f q k h 32) t.0
            (λ s arr. some (arr, if f.greater s t.1 then s else t.1)))

  cpu_attn_overrun :
      (q k v : Pointer F) (base : ℕ) (init out : Array F)
      → 32 < n
      → cpu_attn_checked f q k v n base init out ≡ none
  unfolding cpu_attn_checked
  cpu_attn_overrun q k v base init out lt = for_option-none 4 0 _ out (omega arith) (λ t.
      ap
        (λ o.
          o >>= λ sc. exponentials_checked f n sc >>= λ ex. head_output_checked f v n 0 base ex t)
        (scores_overrun q k 0 init lt))

module _ {F D : Type 0} (f : Floats F D) (qo k v : Array F) (sp : ℕ) (init out : Array F) where
  window : Array F → ℕ → Pointer F
  window x w = record { cells = x; offset = sp * 8 * 128 + w * 2 * 128; size = 4096 * 1024 }

  query : ℕ → Pointer F
  query w = record { cells = qo; offset = w * 4 * 128; size = 4096 }

  -- At the positions 0 to 31, and at no other, every access that the attention of a layer makes to
  -- `scores`, `qo`, the caches and `at` is inside of its vector; there it is the attention without the
  -- checks.
  pub attend_windows_checked_lem :
      attend_windows_checked f qo k v sp init out
      ≡ (if ltb sp 32 then some (attend_windows f qo k v sp init out) else none)
  unfolding attend_windows_checked attend_windows window query
  attend_windows_checked_lem = elim (Bool-cases (ltb sp 32)) [
    | inl few ↦ rw few (
        for_option-some 4 _
          (λ w.
            cpu_attn f (behind (query w)) (behind (window k w)) (behind (window v w)) (sp + 1)
              (w * 4 * 128) init)
          out
          (λ w t lw.
            cpu_attn_inside f (sp + 1) (query w) (window k w) (window v w) (w * 4 * 128) init t
              (λ p c lp lc. ground arith) (λ p c lp lc. ground arith) (λ i li. omega arith)
              (ground arith) (omega arith)))
    | inr many ↦ rw many (
        for_option-none 4 0 _ out (omega arith) (λ t.
          cpu_attn_overrun f (sp + 1) (query 0) (window k 0) (window v 0) (0 * 4 * 128) init t
            (ground arith)))
  ]
