-- ===== src/Prelude/Index.antt =====
-- Row-major indices: `a * n + b` with `b < n` determines `a` and `b`.
use npu_gpu_cpu.Prelude.{ℕ, ◌+◌, ◌*◌, ◌/◌, ◌%◌, ◌<◌, ◌≤◌, ◌≡◌, ◌≢◌, sym, ap, ◌∙◌, arith}

pub div_index : (a b n : ℕ) → b < n → (a * n + b) / n ≡ a
div_index a b n h = grind arith

pub mod_index : (a b n : ℕ) → b < n → (a * n + b) % n ≡ b
mod_index a b n h = grind arith

pub index-lt : (a b m n : ℕ) → a < m → b < n → a * n + b < m * n
index-lt a b m n h k = grind arith

-- The end of a row.
pub row_end : (a m n : ℕ) → a < m → a * n + n ≤ m * n
row_end a m n h = grind arith

-- Cells of two rows of width t are apart.
pub rows_apart : (t k c k' c' : ℕ) → c < t → c' < t → k' ≢ k → k * t + c ≢ k' * t + c'
rows_apart t k c k' c' h h' ne e =
    ne (sym (div_index k' c' t h') ∙ ap (λ x. x / t) (sym e) ∙ div_index k c t h)
