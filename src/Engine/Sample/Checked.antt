-- ===== src/Engine/Sample/Checked.antt =====
-- The choice of the next token with every read of the logits checked; `none` is a read outside of the
-- vector.
use npu_gpu_cpu.Prelude.{
  ℕ, zero, suc, ◌+◌, ◌≤◌, ◌<◌, ◌≡◌, refl, Array, Option, some, if◌then◌else◌, arith,
}
use npu_gpu_cpu.Prelude.Checked.{◌>>=◌, read_in, for_option, for_option-some, bind_some}
use npu_gpu_cpu.Engine.Floats.{Floats}
use npu_gpu_cpu.Engine.Sample.{largest, pick_from, pick}

module _ {F D : Type 0} (f : Floats F D) (size : ℕ) (lg : Array F) where
  unfoldable pub largest_checked : ℕ → Option F
  largest_checked n = do
    first ← read_in size lg 0
    for_option n (λ i mx. do x ← read_in size lg (i + 1); some (if f.greater x mx then x else mx))
        first

  pub largest_checked_lem : (n : ℕ) → n < size → largest_checked n ≡ some (largest f lg n)
  unfolding largest_checked largest
  largest_checked_lem n lt =
      bind_some {o = read_in size lg 0} {a = lg 0} _ (ground arith)
        (for_option-some n _ _ (lg 0) (λ i t li. ground arith))

  unfoldable pub pick_from_checked : F → ℕ → ℕ → F → Option ℕ
  pick_from_checked rr zero i acc = some 0
  pick_from_checked rr (suc left) i acc = read_in size lg i >>= λ x.
      (let rest = pick_from_checked rr left (suc i) (f.add acc x) in
        if f.at_least (f.add acc x) rr then some i else rest)

  pick_from_checked_lem :
      (rr : F) (left i : ℕ) (acc : F)
      → i + left ≤ size
      → pick_from_checked rr left i acc ≡ some (pick_from f lg rr left i acc)
  unfolding pick_from_checked pick_from
  pick_from_checked_lem rr zero i acc le = refl
  pick_from_checked_lem rr (suc left) i acc le =
      ground (arith, pick_from_checked_lem rr left (suc i) (f.add acc (lg i)) (omega arith))

  unfoldable pub pick_checked : F → ℕ → Option ℕ
  unfolding pick_from_checked
  pick_checked rr nv = pick_from_checked rr nv 0 f.zero

  pub pick_checked_lem : (rr : F) (nv : ℕ) → nv ≤ size → pick_checked rr nv ≡ some (pick f lg rr nv)
  unfolding pick_checked pick
  pick_checked_lem rr nv le = pick_from_checked_lem rr nv 0 f.zero (omega arith)
