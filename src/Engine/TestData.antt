-- ===== src/Engine/TestData.antt =====
-- Data for the tests of the engine's parts, with natural numbers in the place of `float` and `double`.
use npu_gpu_cpu.Prelude.{ℕ, ◌+◌, ◌-◌, ◌*◌, ◌/◌, ℤ, pos, Array, leb, ltb, ◌==◌}
use npu_gpu_cpu.Engine.Floats.{Floats}

abbrev pub counting : Array ℕ
counting i = i + 1

abbrev pub zeros : Array ℕ
zeros i = 0

abbrev pub numbers : Floats ℕ ℕ
numbers = record {
  zero = 0;
  one = 1;
  five = 5;
  f127 = 127;
  tiny = 1;
  least = 0;
  minus_80 = 0;
  f80 = 80;
  add = λ x y. x + y;
  sub = λ x y. x - y;
  mul = λ x y. x * y;
  div = λ x y. x / y;
  neg = λ x. 0;
  fabsf = λ x. x;
  expf = λ x. x + 1;
  isfinite = λ x. ltb x 100;
  greater = λ x y. ltb y x;
  at_least = λ x y. leb y x;
  round_to_int = λ x. pos x;
  of_int = λ x. 5;
  of_bits = λ x. x;
  widen = λ x. x;
  narrow = λ x. x;
  zero_d = 0;
  one_d = 1;
  add_d = λ x y. x + y;
  mul_d = λ x y. x * y;
  over_sqrt_hd = λ x. x / 11;
  not_positive = λ x. x == 0;
  reciprocal = λ x. x;
  inverse_root = λ ss n. ss / n;
}

abbrev pub empty : Array ℤ
empty i = pos 0
