-- ===== src/Engine/Rotary/Checked.antt =====
-- `ri` with every store into the two tables checked: each has mp * hd elements.
use npu_gpu_cpu.Prelude.{ℕ, ◌+◌, ◌*◌, ◌/◌, ◌%◌, ◌≡◌, refl, Array, write, Option, some, arith}
use npu_gpu_cpu.Prelude.Index.{index-lt}
use npu_gpu_cpu.Prelude.Checked.{◌>>=◌, write_in, for_option, for_option-some, bind_some}
use npu_gpu_cpu.Engine.Floats.{Floats}
use npu_gpu_cpu.Engine.Rotary.{Trig, angle, table, ri}

module _ {F D : Type 0} (f : Floats F D) (trig : Trig F) where
  table_checked : (F → F) → ℕ → F → ℕ → Option (Array F)
  table_checked g hd th mp =
      for_option mp
        (λ p. for_option ((hd + 1) / 2) λ i t. do
          let a = angle f trig hd th p (2 * i)
          t' ← write_in (mp * hd) (p * hd + 2 * i) (g a) t
          write_in (mp * hd) (p * hd + 2 * i + 1) (g a) t')
        (λ _. f.zero)

  unfoldable pub ri_checked : ℕ → F → ℕ → Option (Array F × Array F)
  unfolding table_checked
  ri_checked hd th mp = do
    rc ← table_checked trig.cosf hd th mp
    rs ← table_checked trig.sinf hd th mp
    some (rc, rs)

  table_checked_lem :
      (g : F → F) (hd : ℕ) (th : F) (mp : ℕ)
      → hd % 2 ≡ 0
      → table_checked g hd th mp ≡ some (table f trig g hd th mp)
  unfolding table_checked table
  table_checked_lem g hd th mp even =
      for_option-some mp _ _ (λ _. f.zero)
        (λ p t lp.
          for_option-some ((hd + 1) / 2) _
            (λ i t.
              let a = angle f trig hd th p (2 * i) in
              write (p * hd + 2 * i + 1) (g a) (write (p * hd + 2 * i) (g a) t))
            t
            (λ i t' li.
              let first = index-lt p (2 * i) mp hd lp (omega arith) in
              let second = index-lt p (2 * i + 1) mp hd lp (omega arith) in
              ground (arith, first, second)))

  -- For heads of even size no store is outside of the tables.
  pub ri_checked_lem :
      (hd : ℕ) (th : F) (mp : ℕ) → hd % 2 ≡ 0 → ri_checked hd th mp ≡ some (ri f trig hd th mp)
  unfolding ri_checked ri
  ri_checked_lem hd th mp even =
      bind_some _ (table_checked_lem trig.cosf hd th mp even)
        (bind_some _ (table_checked_lem trig.sinf hd th mp even) refl)
