-- ===== src/Engine/CpuAttn/Checked.antt =====
-- `cpu_attn` and its calls in `layer` with every access to a vector checked: `scores` has 32 places, `qo`
-- 4096, the caches 4096 rows of 1024, and `at` 2048. `none` is an access outside of its vector.
pub mod Inside
pub mod Attention
use npu_gpu_cpu.Prelude.{ℕ, ◌+◌, ◌*◌, Array, Option, some, if◌then◌else◌}
use npu_gpu_cpu.Prelude.Checked.{◌>>=◌, Pointer, read, write_in, for_option}
use npu_gpu_cpu.Engine.Floats.{Floats}
use npu_gpu_cpu.Engine.CpuAttn.{kv_index}

module _ {F D : Type 0} (f : Floats F D) where
  pub score_checked : Pointer F → Pointer F → ℕ → ℕ → Option F
  score_checked q k h p = do
    s ←
        for_option 128
          (λ d s. do
            x ← read q (h * 128 + d)
            y ← read k (kv_index f p h d)
            some (f.add_d s (f.widen (f.mul x y))))
          f.zero_d
    some (f.narrow (f.over_sqrt_hd s))

  pub scores_checked : Pointer F → Pointer F → ℕ → ℕ → Array F → Option (Array F × F)
  unfolding score_checked
  scores_checked q k n h init =
      for_option n
        (λ p acc. do
          s ← score_checked q k h p
          arr ← write_in 32 p s acc.0
          some (arr, if f.greater s acc.1 then s else acc.1))
        (init, f.least)

  pub exponentials_checked : ℕ → Array F × F → Option (Array F × D)
  exponentials_checked n sc =
      for_option n
        (λ p acc. do
          x ← read (record { cells = acc.0; offset = 0; size = 32 }) p
          let e = f.expf (f.sub x sc.1)
          arr ← write_in 32 p e acc.0
          some (arr, f.add_d acc.1 (f.widen e)))
        (sc.0, f.zero_d)

  -- `out` is given by its elements and the offset of the pointer into the 2048 of `at`.
  pub head_output_checked : Pointer F → ℕ → ℕ → ℕ → Array F × D → Array F → Option (Array F)
  head_output_checked v n h base ex =
      let total = if f.not_positive ex.1 then f.one_d else ex.1 in
      let is = f.reciprocal total in
      for_option 128 λ d out. do
        s ←
            for_option n
              (λ p s. do
                w ← read (record { cells = ex.0; offset = 0; size = 32 }) p
                y ← read v (kv_index f p h d)
                some (f.add s (f.mul (f.mul w is) y)))
              f.zero
        write_in 2048 (base + (h * 128 + d)) s out

  pub cpu_attn_checked :
      Pointer F → Pointer F → Pointer F → ℕ → ℕ → Array F → Array F → Option (Array F)
  unfolding scores_checked exponentials_checked head_output_checked
  cpu_attn_checked q k v n base init = for_option 4 λ h out. do
    sc ← scores_checked q k n h init
    ex ← exponentials_checked n sc
    head_output_checked v n h base ex out

  pub attend_windows_checked :
      Array F → Array F → Array F → ℕ → Array F → Array F → Option (Array F)
  unfolding cpu_attn_checked
  attend_windows_checked qo k v sp init = for_option 4 λ w.
      cpu_attn_checked (record { cells = qo; offset = w * 4 * 128; size = 4096 })
        (record { cells = k; offset = sp * 8 * 128 + w * 2 * 128; size = 4096 * 1024 })
        (record { cells = v; offset = sp * 8 * 128 + w * 2 * 128; size = 4096 * 1024 }) (sp + 1)
        (w * 4 * 128) init
