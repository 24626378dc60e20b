-- ===== src/Engine/CpuAttn.antt =====
-- `AttnK::cpu_attn` and the loop over the windows in `layer`. `float`, `double` and their operations
-- are a parameter with no law.
pub mod Window
pub mod Reference
pub mod Checked
use npu_gpu_cpu.Engine.Floats.{Floats}
use npu_gpu_cpu.Prelude.{ℕ, ◌+◌, ◌*◌, ◌/◌, Array, write, for_to, Bool, if◌then◌else◌}

-- A pointer into an array: `&x[off]`.
abbrev pub at_offset {ℓ} : {A : Type ℓ} → ℕ → Array A → Array A
at_offset off x i = x (off + i)

module _ {F D : Type 0} (f : Floats F D) where
  -- HD = 128, NKV = 8, GQA = 2: element d of the key that head h uses at token p.
  abbrev pub kv_index : ℕ → ℕ → ℕ → ℕ
  kv_index p h d = p * 8 * 128 + h / 2 * 128 + d

  abbrev pub score : Array F → Array F → ℕ → ℕ → F
  score q k h p = f.narrow (
      f.over_sqrt_hd (
        for_to 128 (λ d s. f.add_d s (f.widen (f.mul (q (h * 128 + d)) (k (kv_index p h d)))))
          f.zero_d))

  -- The array `scores` and the maximum. `scores` has 32 places, so this is the code for n up to 32;
  -- `scores_checked` has the bound.
  pub scores : Array F → Array F → ℕ → ℕ → Array F → Array F × F
  scores q k n h init =
      for_to n
        (λ p acc.
          let s = score q k h p in (write p s acc.0, if f.greater s acc.1 then s else acc.1))
        (init, f.least)

  pub exponentials : ℕ → Array F × F → Array F × D
  exponentials n sc =
      for_to n
        (λ p acc.
          let e = f.expf (f.sub (acc.0 p) sc.1) in (write p e acc.0, f.add_d acc.1 (f.widen e)))
        (sc.0, f.zero_d)

  pub head_output : Array F → ℕ → ℕ → ℕ → Array F × D → Array F → Array F
  head_output v n h base ex =
      let total = if f.not_positive ex.1 then f.one_d else ex.1 in
      let is = f.reciprocal total in
      for_to 128 λ d.
        write (base + (h * 128 + d))
          (for_to n (λ p s. f.add s (f.mul (f.mul (ex.0 p) is) (v (kv_index p h d)))) f.zero)

  -- `out` is given by its array and the offset of the pointer into it.
  pub cpu_attn : Array F → Array F → Array F → ℕ → ℕ → Array F → Array F → Array F
  unfolding scores exponentials head_output
  cpu_attn q k v n base init =
      for_to 4 λ h. head_output v n h base (exponentials n (scores q k n h init))

  -- The four calls in `layer`, with the pointers that it passes: position sp, caches k and v.
  pub attend_windows : Array F → Array F → Array F → ℕ → Array F → Array F → Array F
  unfolding cpu_attn
  attend_windows qo k v sp init = for_to 4 λ w.
      cpu_attn (at_offset (w * 4 * 128) qo) (at_offset (sp * 8 * 128 + w * 2 * 128) k)
        (at_offset (sp * 8 * 128 + w * 2 * 128) v) (sp + 1) (w * 4 * 128) init
