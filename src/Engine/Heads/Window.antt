-- ===== src/Engine/Heads/Window.antt =====
-- The loop over the heads, on caches that agree from some row on.
use npu_gpu_cpu.Prelude.{
  ℕ, zero, suc, ◌+◌, ◌*◌, ◌/◌, ◌%◌, ◌≤◌, ◌<◌, ◌≡◌, ◌⊎◌, inl, inr, ap, sym, ◌∙◌, Array, for_to, ◌==◌,
  arith, Bool-cases,
}
use native.Mathlib.Decide.{dec_lt}
use npu_gpu_cpu.Engine.Floats.{Floats}
use npu_gpu_cpu.Engine.Fuse.{copy}
use npu_gpu_cpu.Engine.Fuse.Cells.{copy_at, copy_beside}
use npu_gpu_cpu.Engine.Heads.{Heads, prepare_head, one_head, heads}

-- Two arrays agree from row sp of a cache on.
abbrev pub AgreeFrom : {F : Type 0} → ℕ → Array F → Array F → Type 0
AgreeFrom sp x y = (i : ℕ) → sp * 1024 ≤ i → x i ≡ y i

copy-AgreeFrom :
    {F : Type 0} (dst : ℕ) (x : Array F) (src n sp : ℕ) (w w' : Array F)
    → AgreeFrom sp w w'
    → AgreeFrom sp (copy dst x src n w) (copy dst x src n w')
copy-AgreeFrom dst x src n sp w w' h i le = elim (dec_lt i dst) [
  | yes lt ↦ beside (inl lt)
  | no ge ↦ elim (dec_lt i (dst + n)) [
    | yes lt ↦
        copy_at x dst src n w i (omega arith) lt ∙ sym (copy_at x dst src n w' i (omega arith) lt)
    | no ge' ↦ beside (inr (omega arith))
  ]
]
  where
    beside : (i < dst) ⊎ (dst + n ≤ i) → copy dst x src n w i ≡ copy dst x src n w' i
    beside out = copy_beside x dst src n w i out ∙ h i le ∙ sym (copy_beside x dst src n w' i out)

-- The same Q and K, and caches that agree from row sp on.
pub record AlikeFrom {F : Type 0} (sp : ℕ) (c c' : Heads F) : Type 0 where
  pub same_q : c.qo ≡ c'.qo
  pub same_k : c.ko ≡ c'.ko
  pub agree_k : AgreeFrom sp c.k c'.k
  pub agree_v : AgreeFrom sp c.v c'.v

module _ {F D : Type 0} (f : Floats F D) (rc rs : Array F) (sp : ℕ) (qn kn vo : Array F) where
  one_head-AlikeFrom :
      (hh : ℕ) {c c' : Heads F}
      → AlikeFrom sp c c'
      → AlikeFrom sp (one_head f rc rs sp qn kn vo hh c) (one_head f rc rs sp qn kn vo hh c')
  unfolding one_head
  one_head-AlikeFrom hh {c} {c'} a = elim (Bool-cases (hh % 2 == 0)) [
    | inl even ↦ rw even (record {
      same_q = same_q';
      same_k = same_k';
      agree_k = λ i le.
          ap (λ x. copy (sp * 8 * 128 + hh / 2 * 128) x (hh / 2 * 128) 128 c.k i) same_k'
          ∙ copy-AgreeFrom (sp * 8 * 128 + hh / 2 * 128)
              (prepare_head f rc rs sp kn (hh / 2 * 128) c'.ko) (hh / 2 * 128) 128 sp c.k c'.k
              a.agree_k i le;
      agree_v =
          copy-AgreeFrom (sp * 8 * 128 + hh / 2 * 128) vo (hh / 2 * 128) 128 sp c.v c'.v a.agree_v;
    })
    | inr odd ↦
        rw odd
          (record { same_q = same_q'; same_k = a.same_k; agree_k = a.agree_k; agree_v = a.agree_v })
  ]
    where
      same_q' :
          prepare_head f rc rs sp qn (hh * 128) c.qo ≡ prepare_head f rc rs sp qn (hh * 128) c'.qo
      same_q' = ap (prepare_head f rc rs sp qn (hh * 128)) a.same_q

      same_k' :
          prepare_head f rc rs sp kn (hh / 2 * 128) c.ko
          ≡ prepare_head f rc rs sp kn (hh / 2 * 128) c'.ko
      same_k' = ap (prepare_head f rc rs sp kn (hh / 2 * 128)) a.same_k

  rounds-AlikeFrom :
      (n : ℕ) {c c' : Heads F}
      → AlikeFrom sp c c'
      → AlikeFrom sp
          (for_to n (one_head f rc rs sp qn kn vo) c)
          (for_to n (one_head f rc rs sp qn kn vo) c')
  unfolding for_to
  rounds-AlikeFrom zero a = a
  rounds-AlikeFrom (suc n) a = one_head-AlikeFrom n (rounds-AlikeFrom n a)

  pub heads-AlikeFrom :
      {c c' : Heads F}
      → AlikeFrom sp c c'
      → AlikeFrom sp (heads f rc rs sp qn kn vo c) (heads f rc rs sp qn kn vo c')
  unfolding heads
  heads-AlikeFrom = rounds-AlikeFrom 16
