-- ===== src/Engine/Rotary.antt =====
-- `ri`: the tables of the rotary embedding, and what `ra` makes of a vector with them. The functions of
-- <cmath> that `ri` calls are parameters.
pub mod Checked
use npu_gpu_cpu.Prelude.{
  ℕ, ◌+◌, ◌*◌, ◌/◌, ◌%◌, ◌<◌, ◌≡◌, ◌≢◌, pos, Array, write, for_to, for_to_hit, for_to_miss, ◌∙◌,
  arith,
}
use mathlib.Core.Path.{ap₂}
use npu_gpu_cpu.Prelude.Index.{rows_apart}
use npu_gpu_cpu.Engine.Floats.{Floats}
use npu_gpu_cpu.Engine.Vector.{ra}
use npu_gpu_cpu.Engine.Vector.Elements.{ra_pairs}

pub record Trig (F : Type 0) : Type 0 where
  pub powf : F → F → F
  pub cosf : F → F
  pub sinf : F → F

module _ {F D : Type 0} (f : Floats F D) (trig : Trig F) where
  -- `float f=1.0f/powf(th,(float)d/hd),a=p*f;`
  pub angle : ℕ → F → ℕ → ℕ → F
  angle hd th p d =
      f.mul (f.of_int (pos p))
        (f.div f.one (trig.powf th (f.div (f.of_int (pos d)) (f.of_int (pos hd)))))

  -- One of the two tables; `g` is `cosf` or `sinf`. `resize` of the empty vector gives zeros.
  pub table : (F → F) → ℕ → F → ℕ → Array F
  table g hd th mp =
      for_to mp
        (λ p. for_to ((hd + 1) / 2) λ i t.
          let a = angle hd th p (2 * i) in
          write (p * hd + 2 * i + 1) (g a) (write (p * hd + 2 * i) (g a) t))
        (λ _. f.zero)

  -- `rc` and `rs`
  pub ri : ℕ → F → ℕ → Array F × Array F
  unfolding table
  ri hd th mp = (table trig.cosf hd th mp, table trig.sinf hd th mp)

  table_cell :
      (g : F → F) (hd : ℕ) (th : F) (mp p i : ℕ)
      → hd % 2 ≡ 0
      → p < mp
      → 2 * i < hd
      → table g hd th mp (p * hd + 2 * i) ≡ g (angle hd th p (2 * i))
  unfolding table
  table_cell g hd th mp p i even hp hi =
      for_to_hit mp p _ _ _ _ hp
        (λ t.
          for_to_hit ((hd + 1) / 2) i _ t _ _ (omega arith) (λ u. ground arith)
            (λ j u lt ne. ground arith))
        (λ q t lt ne. for_to_miss ((hd + 1) / 2) _ t _ (λ j u k.
          ground (arith, apart q (2 * j) ne (omega arith), apart q (2 * j + 1) ne (omega arith))))
    where
      apart : (q c : ℕ) → q ≢ p → c < hd → p * hd + 2 * i ≢ q * hd + c
      apart q c ne lt = rows_apart hd p (2 * i) q c hi lt ne

  -- With the tables of `ri`, `ra` turns each pair of neighbours of an even number of elements by the
  -- pair's angle at a position p that the tables have: (a, b) becomes (a cos t - b sin t,
  -- b cos t + a sin t) for t = p / th ^ (2 i / hd).
  pub ra-ri :
      (x : Array F) (hd : ℕ) (th : F) (mp p i : ℕ)
      → hd % 2 ≡ 0
      → p < mp
      → 2 * i < hd
      → let a = x (2 * i) in
        let b = x (2 * i + 1) in
        let t = angle hd th p (2 * i) in
        let turned = ra f (ri hd th mp).0 (ri hd th mp).1 x hd p in
        (turned (2 * i) ≡ f.sub (f.mul a (trig.cosf t)) (f.mul b (trig.sinf t)))
        × (turned (2 * i + 1) ≡ f.add (f.mul b (trig.cosf t)) (f.mul a (trig.sinf t)))
  unfolding ri
  ra-ri x hd th mp p i even hp hi =
      let (first, second) = ra_pairs f (ri hd th mp).0 (ri hd th mp).1 x hd p i even hi in
      let c = table_cell trig.cosf hd th mp p i even hp hi in
      let s = table_cell trig.sinf hd th mp p i even hp hi in
      (
        first ∙ ap₂ (λ u v. f.sub (f.mul (x (2 * i)) u) (f.mul (x (2 * i + 1)) v)) c s,
        second ∙ ap₂ (λ u v. f.add (f.mul (x (2 * i + 1)) u) (f.mul (x (2 * i)) v)) c s,
      )
