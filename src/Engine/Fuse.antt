-- ===== src/Engine/Fuse.antt =====
-- The weights of one layer, joined row by row before `packB`: Q, K and V side by side, and gate and
-- up. A matrix is an array, row by row.
pub mod Cells
pub mod Checked
use npu_gpu_cpu.Prelude.{ℕ, ◌+◌, ◌*◌, Array, write, for_to}

module _ {F : Type 0} where
  -- `memcpy(&w[dst], &x[src], n*4)` between two arrays, one element after the other.
  unfoldable pub copy : ℕ → Array F → ℕ → ℕ → Array F → Array F
  copy dst x src n = for_to n λ c. write (dst + c) (x (src + c))

  pub fuse_qkv : ℕ → ℕ → ℕ → ℕ → Array F → Array F → Array F → Array F → Array F
  unfolding copy
  fuse_qkv rows qr kr vr qw kw vw =
      let t = qr + kr + vr in
      for_to rows λ k w.
        copy (k * t + qr + kr) vw (k * vr) vr
          (copy (k * t + qr) kw (k * kr) kr (copy (k * t) qw (k * qr) qr w))

  pub fuse_gate_up : ℕ → ℕ → ℕ → Array F → Array F → Array F → Array F
  unfolding copy
  fuse_gate_up rows gr ur gw uw =
      let t = gr + ur in
      for_to rows λ k w. copy (k * t + gr) uw (k * ur) ur (copy (k * t) gw (k * gr) gr w)
