-- ===== src/Engine/Fuse/Cells.antt =====
-- Every element of the joined matrices.
use npu_gpu_cpu.Prelude.{
  ℕ, ◌+◌, ◌-◌, ◌*◌, ◌≤◌, ◌<◌, ◌≡◌, ◌≢◌, ◌⊎◌, inl, ap, ◌∙◌, Array, for_to_hit, for_to_miss, ltb,
  if◌then◌else◌, arith,
}
use native.Mathlib.Decide.{dec_lt}
use npu_gpu_cpu.Prelude.Index.{rows_apart}
use npu_gpu_cpu.Engine.Fuse.{copy, fuse_qkv, fuse_gate_up}

module _ {F : Type 0} (x : Array F) (dst src n : ℕ) (w : Array F) where
  pub copy_at : (q : ℕ) → dst ≤ q → q < dst + n → copy dst x src n w q ≡ x (src + (q - dst))
  unfolding copy
  copy_at q le lt =
      for_to_hit n (q - dst) _ w q _ (omega arith) (λ t. ground arith) (λ j t p ne. ground arith)

  pub copy_beside : (q : ℕ) → (q < dst) ⊎ (dst + n ≤ q) → copy dst x src n w q ≡ w q
  unfolding copy
  copy_beside q h = for_to_miss n _ w q (λ j t p. ground arith)

-- A row is not touched by a copy into another one.
other_row :
    {F : Type 0} (x : Array F) (t k c k' o src n : ℕ) (w : Array F)
    → c < t
    → o + n ≤ t
    → k' ≢ k
    → copy (k' * t + o) x src n w (k * t + c) ≡ w (k * t + c)
unfolding copy
other_row x t k c k' o src n w h le ne =
    for_to_miss n _ w _ (λ j u p. ground (arith, rows_apart t k c k' (o + j) h (omega arith) ne))

module _ {F : Type 0} (rows gr ur : ℕ) (gw uw w : Array F) where
  -- Column c of row k of the joined gate and up matrices is that of the gate matrix for c < gr, and
  -- column c - gr of the up matrix otherwise.
  pub fuse_gate_up_cells :
      (k c : ℕ)
      → k < rows
      → c < gr + ur
      → fuse_gate_up rows gr ur gw uw w (k * (gr + ur) + c)
        ≡ (if ltb c gr then gw (k * gr + c) else uw (k * ur + (c - gr)))
  unfolding fuse_gate_up
  fuse_gate_up_cells k c hk hc =
      for_to_hit rows k _ w _ _ hk (λ t. row t)
        (λ j t p ne.
          ap
            (λ o. copy o uw (j * ur) ur (copy (j * (gr + ur)) gw (j * gr) gr t) (k * (gr + ur) + c))
            {y = j * (gr + ur) + gr} (omega arith)
          ∙ other_row uw (gr + ur) k c j gr (j * ur) ur _ hc (omega arith) ne
          ∙ ap (λ o. copy o gw (j * gr) gr t (k * (gr + ur) + c)) {y = j * (gr + ur) + 0}
              (omega arith)
          ∙ other_row gw (gr + ur) k c j 0 (j * gr) gr t hc (omega arith) ne)
    where
      row :
          (t : Array F)
          → copy
              (k * (gr + ur) + gr)
              uw
              (k * ur)
              ur
              (copy (k * (gr + ur)) gw (k * gr) gr t)
              (k * (gr + ur) + c)
            ≡ (if ltb c gr then gw (k * gr + c) else uw (k * ur + (c - gr)))
      row t = elim (dec_lt c gr) [
        | yes lt ↦
            copy_beside uw _ _ _ _ _ (inl (omega arith))
            ∙ copy_at gw (k * (gr + ur)) (k * gr) gr t _ (omega arith) (omega arith)
            ∙ ap gw {y = k * gr + c} (omega arith)
            ∙ ground arith
        | no ge ↦
            copy_at uw (k * (gr + ur) + gr) (k * ur) ur _ _ (omega arith) (omega arith)
            ∙ ap uw {y = k * ur + (c - gr)} (omega arith)
            ∙ ground arith
      ]

module _ {F : Type 0} (rows qr kr vr : ℕ) (qw kw vw w : Array F) where
  abbrev t : ℕ
  t = qr + kr + vr

  one_row :
      (k c : ℕ) (u : Array F)
      → c < qr + kr + vr
      → copy
          (k * t + qr + kr)
          vw
          (k * vr)
          vr
          (copy (k * t + qr) kw (k * kr) kr (copy (k * t) qw (k * qr) qr u))
          (k * t + c)
        ≡ (if ltb c qr
            then qw (k * qr + c)
            else if ltb c (qr + kr)
            then kw (k * kr + (c - qr))
            else vw (k * vr + (c - (qr + kr))))
  one_row k c u hc = elim (dec_lt c qr) [
    | yes lt ↦
        copy_beside vw _ _ _ _ _ (inl (omega arith))
        ∙ copy_beside kw _ _ _ _ _ (inl (omega arith))
        ∙ copy_at qw (k * t) (k * qr) qr u _ (omega arith) (omega arith)
        ∙ ap qw {y = k * qr + c} (omega arith)
        ∙ ground arith
    | no ge ↦ elim (dec_lt c (qr + kr)) [
      | yes lt ↦
          copy_beside vw _ _ _ _ _ (inl (omega arith))
          ∙ copy_at kw (k * t + qr) (k * kr) kr _ _ (omega arith) (omega arith)
          ∙ ap kw {y = k * kr + (c - qr)} (omega arith)
          ∙ ground arith
      | no ge' ↦
          copy_at vw (k * t + qr + kr) (k * vr) vr _ _ (omega arith) (omega arith)
          ∙ ap vw {y = k * vr + (c - (qr + kr))} (omega arith)
          ∙ ground arith
    ]
  ]

  -- Column c of row k of the joined Q, K and V matrices is that of Q for c < qr, column c - qr of K for
  -- qr ≤ c < qr + kr, and column c - (qr + kr) of V otherwise, whatever the buffer held.
  pub fuse_qkv_cells :
      (k c : ℕ)
      → k < rows
      → c < qr + kr + vr
      → fuse_qkv rows qr kr vr qw kw vw w (k * (qr + kr + vr) + c) ≡ (
          if ltb c qr
          then qw (k * qr + c)
          else if ltb c (qr + kr)
          then kw (k * kr + (c - qr))
          else vw (k * vr + (c - (qr + kr))))
  unfolding fuse_qkv
  fuse_qkv_cells k c hk hc =
      for_to_hit rows k _ w _ _ hk (λ u. one_row k c u hc)
        (λ j u p ne.
          ap
            (λ o.
              copy o vw (j * vr) vr
                (copy (j * t + qr) kw (j * kr) kr (copy (j * t) qw (j * qr) qr u)) (k * t + c))
            {y = j * t + (qr + kr)} (omega arith)
          ∙ other_row vw t k c j (qr + kr) (j * vr) vr _ hc (omega arith) ne
          ∙ other_row kw t k c j qr (j * kr) kr _ hc (omega arith) ne
          ∙ ap (λ o. copy o qw (j * qr) qr u (k * t + c)) {y = j * t + 0} (omega arith)
          ∙ other_row qw t k c j 0 (j * qr) qr u hc (omega arith) ne)
