-- ===== src/Engine/Heads/Checked.antt =====
-- The loop over the heads in `layer` with every access to a vector checked against its size: `qo` has 4096
-- elements, `ko` and `vo` 1024, the caches 4096 rows of 1024, the weights 128, and `rc` and `rs` 4096 rows
-- of 128. `none` is an access outside of its vector.
pub mod Inside
use npu_gpu_cpu.Prelude.{ℕ, ◌+◌, ◌*◌, ◌/◌, ◌%◌, Array, ◌==◌, Option, some, if◌then◌else◌}
use npu_gpu_cpu.Prelude.Checked.{◌>>=◌, read_in, write_in, for_option}
use npu_gpu_cpu.Engine.Floats.{Floats}
use npu_gpu_cpu.Engine.Vector.Checked.{copy_checked}
use npu_gpu_cpu.Engine.Heads.{Heads}

module _ {F D : Type 0} (f : Floats F D) where
  unfoldable pub norm_checked : ℕ → Array F → ℕ → Array F → Option (Array F)
  norm_checked size w base x = do
    sq ←
        for_option 128
          (λ d s. do v ← read_in size x (base + d); some (f.add_d s (f.widen (f.mul v v)))) f.zero_d
    for_option 128
        (λ d y. do
          v ← read_in size y (base + d)
          g ← read_in 128 w d
          write_in size (base + d) (f.mul v (f.mul (f.inverse_root sq 128) g)) y)
        x

  module _ (rc rs : Array F) (sp : ℕ) where
    unfoldable pub rotate_checked : ℕ → ℕ → ℕ → Array F → Option (Array F)
    rotate_checked size base i x = do
      a ← read_in size x (base + 2 * i)
      b ← read_in size x (base + (2 * i + 1))
      c ← read_in (4096 * 128) rc (sp * 128 + 2 * i)
      s ← read_in (4096 * 128) rs (sp * 128 + 2 * i)
      y ← write_in size (base + 2 * i) (f.sub (f.mul a c) (f.mul b s)) x
      write_in size (base + (2 * i + 1)) (f.add (f.mul b c) (f.mul a s)) y

    -- A head of `qo` or `ko`, from `base` on.
    unfoldable pub prepare_checked : ℕ → Array F → ℕ → Array F → Option (Array F)
    unfolding norm_checked rotate_checked
    prepare_checked size w base x = do
      y ← norm_checked size w base x
      for_option 64 (rotate_checked size base) y

    -- The part of a round that only every other head has: K and V of head `kvh`.
    unfoldable pub store_kv_checked : Array F → Array F → ℕ → Heads F → Option (Heads F)
    unfolding prepare_checked
    store_kv_checked kn vo kvh c = do
      ko' ← prepare_checked 1024 kn (kvh * 128) c.ko
      k' ← copy_checked 1024 (4096 * 1024) (sp * 8 * 128 + kvh * 128) ko' (kvh * 128) 128 c.k
      v' ← copy_checked 1024 (4096 * 1024) (sp * 8 * 128 + kvh * 128) vo (kvh * 128) 128 c.v
      some (record { qo = c.qo; ko = ko'; k = k'; v = v' })

    unfoldable pub one_head_checked : Array F → Array F → Array F → ℕ → Heads F → Option (Heads F)
    unfolding prepare_checked store_kv_checked
    one_head_checked qn kn vo hh c = do
      qo' ← prepare_checked 4096 qn (hh * 128) c.qo
      let c' = record c { qo = qo' }
      if hh % 2 == 0 then store_kv_checked kn vo (hh / 2) c' else some c'

    unfoldable pub heads_checked : Array F → Array F → Array F → Heads F → Option (Heads F)
    unfolding one_head_checked
    heads_checked qn kn vo = for_option 16 (one_head_checked qn kn vo)
