-- ===== src/Engine/Bf16.antt =====
-- The conversions between `float` and bf16, on bit patterns.
use npu_gpu_cpu.Prelude.{
  ℕ, ◌+◌, ◌*◌, ◌/◌, ◌%◌, ◌^◌, ◌≤◌, ◌<◌, ◌≡◌, ◌==◌, if◌then◌else◌, Bool, true, not, arith,
}

-- `(uint16_t)((b + 0x8000) >> 16)`, the sum in 32 bits.
unfoldable pub f2bf : ℕ → ℕ
f2bf b = (b + 0x8000) % 2 ^ 32 / 2 ^ 16 % 2 ^ 16

-- `v << 16` in 32 bits.
unfoldable pub bf16f : ℕ → ℕ
bf16f v = v * 2 ^ 16 % 2 ^ 32

-- `(v & 0x7F80) == 0x7F80`: the eight exponent bits are set.
abbrev pub exponent_full : ℕ → Bool
exponent_full v = v / 2 ^ 7 % 2 ^ 8 == 0xFF

unfoldable pub bf16g : ℕ → ℕ
unfolding bf16f
bf16g v = if exponent_full v then 0 else bf16f v

-- `std::isfinite` of a `float`.
abbrev pub isfinite : ℕ → Bool
isfinite b = not (b / 2 ^ 23 % 2 ^ 8 == 0xFF)

-- A bf16 value survives the way to `float` and back.
pub f2bf-bf16f : (v : ℕ) → v < 2 ^ 16 → f2bf (bf16f v) ≡ v
unfolding f2bf bf16f
f2bf-bf16f v h = omega arith

-- The way to bf16 and back moves a bit pattern by at most half a bf16 step, except that the
-- patterns from 0xFFFF8000 on, which are NaNs, become 0.
pub bf16f-f2bf_bounds :
    (b : ℕ) → b < 0xFFFF8000 → (bf16f (f2bf b) ≤ b + 0x8000) × (b < bf16f (f2bf b) + 0x8000)
unfolding f2bf bf16f
bf16f-f2bf_bounds b h = omega arith

pub f2bf_wraps : (b : ℕ) → 0xFFFF8000 ≤ b → b < 2 ^ 32 → f2bf b ≡ 0
unfolding f2bf
f2bf_wraps b h k = omega arith

-- The guarded conversion never yields an infinity or a NaN.
pub bf16g-isfinite : (v : ℕ) → v < 2 ^ 16 → isfinite (bf16g v) ≡ true
unfolding bf16g
bf16g-isfinite v h = ground arith
