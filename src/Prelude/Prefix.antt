-- ===== src/Prelude/Prefix.antt =====
-- Whether a text begins with another one.
use mathlib.Core.Bool.{Bool, true, false, ◌&&◌}
use mathlib.Core.List.{List, [], ◌∷◌}
use Prim.Native.Nat.{ℕ}
use npu_gpu_cpu.Prelude.Tests.{◌==◌}

unfoldable pub starts_with : List ℕ → List ℕ → Bool
starts_with [] s = true
starts_with (c ∷ pat) [] = false
starts_with (c ∷ pat) (d ∷ s) = c == d && starts_with pat s
