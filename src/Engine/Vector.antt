-- ===== src/Engine/Vector.antt =====
-- `cn`, `rn_c` and `ra`: what is not finite set to 0, the norm of a vector, and the rotary embedding.
-- `float` and `double` and their operations are a parameter.
pub mod Elements
pub mod Checked
use npu_gpu_cpu.Engine.Floats.{Floats}
use npu_gpu_cpu.Prelude.{ℕ, ◌+◌, ◌*◌, ◌/◌, Array, write, for_to, Bool, if◌then◌else◌}

module _ {F D : Type 0} (f : Floats F D) where
  unfoldable pub cn : Array F → ℕ → Array F
  cn x n = for_to n (λ i y. if f.isfinite (y i) then y else write i f.zero y) x

  -- `double ss=0;for(…)if(std::isfinite(x[i]))ss+=(double)x[i]*x[i];`
  pub sum_of_squares : Array F → ℕ → D
  sum_of_squares x n =
      for_to n (λ i ss. if f.isfinite (x i) then f.add_d ss (f.mul_d (x i) (x i)) else ss) f.zero_d

  pub rn_c : Array F → Array F → ℕ → Array F
  unfolding cn sum_of_squares
  rn_c x w n =
      let y = cn x n in
      let ir = f.inverse_root (sum_of_squares y n) n in
      for_to n
        (λ i z. write i (if f.isfinite (z i) then f.mul (f.mul (z i) ir) (w i) else f.zero) z) y

  -- One round of `ra`, at d = 2 * i. The tables are `rc` and `rs`.
  unfoldable pub rotate : Array F → Array F → ℕ → ℕ → ℕ → Array F → Array F
  rotate rc rs hd p i x =
      let d = 2 * i in
      let a = x d in
      let b = x (d + 1) in
      let c = rc (p * hd + d) in
      let s = rs (p * hd + d) in
      write (d + 1) (f.add (f.mul b c) (f.mul a s)) (write d (f.sub (f.mul a c) (f.mul b s)) x)

  -- `for(int d=0;d<hd;d+=2)` makes (hd + 1) / 2 rounds.
  unfoldable pub ra : Array F → Array F → Array F → ℕ → ℕ → Array F
  unfolding rotate
  ra rc rs x hd p = for_to ((hd + 1) / 2) (rotate rc rs hd p) x
