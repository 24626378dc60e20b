-- ===== src/Engine/Heads.antt =====
-- The loop over the heads in `layer`: each head of Q and of K is normalised and rotated, and K and V go
-- to the row of the caches for position sp.
pub mod Cache
pub mod Window
pub mod Through
pub mod Checked
use npu_gpu_cpu.Prelude.{ℕ, ◌+◌, ◌-◌, ◌*◌, ◌/◌, ◌%◌, Array, write, for_to, leb, ◌==◌, if◌then◌else◌}
use npu_gpu_cpu.Engine.CpuAttn.{at_offset}
use npu_gpu_cpu.Engine.Fuse.{copy}
use npu_gpu_cpu.Engine.Floats.{Floats}
use npu_gpu_cpu.Engine.Vector.{ra}

-- `qo`, `ko`, and `kv[l].k` and `kv[l].v`.
pub record Heads (F : Type 0) : Type 0 where
  pub qo : Array F
  pub ko : Array F
  pub k : Array F
  pub v : Array F

-- `g(&x[base])`, for a g that writes through the pointer.
unfoldable pub through : {F : Type 0} → ℕ → (Array F → Array F) → Array F → Array F
through base g x q = if leb base q then g (at_offset base x) (q - base) else x q

module _ {F D : Type 0} (f : Floats F D) where
  -- `for(…)x[base+d]*=iq*w[d];`, iq from the sum of the squares of the head.
  pub norm_head : Array F → ℕ → Array F → Array F
  norm_head w base x =
      let sq =
        for_to 128 (λ d s. f.add_d s (f.widen (f.mul (x (base + d)) (x (base + d))))) f.zero_d in
      let iq = f.inverse_root sq 128 in
      for_to 128 (λ d y. write (base + d) (f.mul (y (base + d)) (f.mul iq (w d))) y) x

  module _ (rc rs : Array F) (sp : ℕ) where
    pub prepare_head : Array F → ℕ → Array F → Array F
    unfolding norm_head through
    prepare_head w base x = through base (λ y. ra f rc rs y 128 sp) (norm_head w base x)

    -- One round; NH = 16, NKV = 8, GQA = 2 and HD = 128.
    pub one_head : Array F → Array F → Array F → ℕ → Heads F → Heads F
    unfolding prepare_head copy
    one_head qn kn vo hh c =
        let qo' = prepare_head qn (hh * 128) c.qo in
        let kvh = hh / 2 in
        let ko' = prepare_head kn (kvh * 128) c.ko in
        if hh % 2 == 0
        then record {
          qo = qo';
          ko = ko';
          k = copy (sp * 8 * 128 + kvh * 128) ko' (kvh * 128) 128 c.k;
          v = copy (sp * 8 * 128 + kvh * 128) vo (kvh * 128) 128 c.v;
        }
        else record c { qo = qo' }

    pub heads : Array F → Array F → Array F → Heads F → Heads F
    unfolding one_head
    heads qn kn vo = for_to 16 (one_head qn kn vo)
