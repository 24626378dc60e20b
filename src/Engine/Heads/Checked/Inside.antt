-- ===== src/Engine/Heads/Checked/Inside.antt =====
-- Below position 4096 every access of the loop over the heads is inside of its vector.
use npu_gpu_cpu.Prelude.{
  ℕ, ◌+◌, ◌*◌, ◌/◌, ◌%◌, ◌≤◌, ◌<◌, ◌≡◌, refl, ap, sym, ◌∙◌, Array, write, ◌==◌, some, arith,
  Bool-cases, inl, inr,
}
use npu_gpu_cpu.Prelude.Checked.{for_option-some, bind_some}
use npu_gpu_cpu.Engine.Floats.{Floats}
use npu_gpu_cpu.Engine.Vector.{ra, rotate}
use npu_gpu_cpu.Engine.Vector.Checked.{copy_checked_lem}
use npu_gpu_cpu.Engine.Heads.{Heads, through, norm_head, prepare_head, one_head, heads}
use npu_gpu_cpu.Engine.Heads.Through.{through-through, through-for_to, through-write}
use npu_gpu_cpu.Engine.Heads.Checked.{
  norm_checked, rotate_checked, prepare_checked, store_kv_checked, one_head_checked, heads_checked,
}

module _ {F D : Type 0} (f : Floats F D) where
  norm_checked_lem :
      (size : ℕ) (w : Array F) (base : ℕ) (x : Array F)
      → base + 128 ≤ size
      → norm_checked f size w base x ≡ some (norm_head f w base x)
  unfolding norm_checked norm_head
  norm_checked_lem size w base x le =
      bind_some _
        (for_option-some 128 _ (λ d s. f.add_d s (f.widen (f.mul (x (base + d)) (x (base + d)))))
          f.zero_d (λ d t lt. ground arith))
        (for_option-some 128 _ _ x (λ d t lt. ground arith))

  module _ (rc rs : Array F) (sp : ℕ) where
    -- The elements that one round of `ra` stores through a pointer.
    turned : ℕ → ℕ → Array F → Array F
    turned base i x =
        let a = x (base + 2 * i) in
        let b = x (base + (2 * i + 1)) in
        let c = rc (sp * 128 + 2 * i) in
        let s = rs (sp * 128 + 2 * i) in
        write (base + (2 * i + 1)) (f.add (f.mul b c) (f.mul a s))
          (write (base + 2 * i) (f.sub (f.mul a c) (f.mul b s)) x)

    turned_lem :
        (base i : ℕ) (x : Array F) → turned base i x ≡ through base (rotate f rc rs 128 sp i) x
    unfolding turned through rotate
    turned_lem base i x =
        let a = x (base + 2 * i) in
        let b = x (base + (2 * i + 1)) in
        let c = rc (sp * 128 + 2 * i) in
        let s = rs (sp * 128 + 2 * i) in
        let first = write (2 * i) (f.sub (f.mul a c) (f.mul b s)) in
        let second = write (2 * i + 1) (f.add (f.mul b c) (f.mul a s)) in
        sym (
          through-write base (2 * i + 1) (f.add (f.mul b c) (f.mul a s))
            (write (base + 2 * i) (f.sub (f.mul a c) (f.mul b s)) x))
        ∙ ap (through base second)
            (sym (through-write base (2 * i) (f.sub (f.mul a c) (f.mul b s)) x))
        ∙ through-through base second first x

    rotate_checked_lem :
        (size base i : ℕ) (x : Array F)
        → base + 128 ≤ size
        → sp < 4096
        → i < 64
        → rotate_checked f rc rs sp size base i x ≡ some (turned base i x)
    unfolding rotate_checked turned
    rotate_checked_lem size base i x le lsp lt = ground arith

    prepare_checked_lem :
        (size : ℕ) (w : Array F) (base : ℕ) (x : Array F)
        → base + 128 ≤ size
        → sp < 4096
        → prepare_checked f rc rs sp size w base x ≡ some (prepare_head f rc rs sp w base x)
    unfolding prepare_checked prepare_head ra
    prepare_checked_lem size w base x le lsp = bind_some _ (norm_checked_lem size w base x le) (
        for_option-some 64 _ (λ i. through base (rotate f rc rs 128 sp i)) (norm_head f w base x)
          (λ i t lt. rotate_checked_lem size base i t le lsp lt ∙ ap some (turned_lem base i t))
        ∙ ap some (sym (through-for_to base 64 (rotate f rc rs 128 sp) (norm_head f w base x))))

    one_head_checked_lem :
        (qn kn vo : Array F) (hh : ℕ) (c : Heads F)
        → sp < 4096
        → hh < 16
        → one_head_checked f rc rs sp qn kn vo hh c ≡ some (one_head f rc rs sp qn kn vo hh c)
    unfolding one_head_checked store_kv_checked one_head
    one_head_checked_lem qn kn vo hh c lsp lt =
        bind_some _ (prepare_checked_lem 4096 qn (hh * 128) c.qo (omega arith) lsp)
          (elim (Bool-cases (hh % 2 == 0)) [
            | inl even ↦ rw even (
                bind_some _ (prepare_checked_lem 1024 kn (hh / 2 * 128) c.ko (omega arith) lsp) (
                  bind_some _
                    (copy_checked_lem 1024 (4096 * 1024) (sp * 8 * 128 + hh / 2 * 128) _
                      (hh / 2 * 128) 128 c.k (omega arith) (omega arith))
                    (bind_some _
                      (copy_checked_lem 1024 (4096 * 1024) (sp * 8 * 128 + hh / 2 * 128) vo
                        (hh / 2 * 128) 128 c.v (omega arith) (omega arith))
                      refl)))
            | inr odd ↦ rw odd refl
          ])

    pub heads_checked_lem :
        (qn kn vo : Array F) (c : Heads F)
        → sp < 4096
        → heads_checked f rc rs sp qn kn vo c ≡ some (heads f rc rs sp qn kn vo c)
    unfolding heads_checked heads
    heads_checked_lem qn kn vo c lsp =
        for_option-some 16 _ _ c (λ hh t lt. one_head_checked_lem qn kn vo hh t lsp lt)
