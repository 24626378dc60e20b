-- ===== src/Hip/Memory/Refine.antt =====
-- The calls of the shim against what it promises.
use mathlib.Core.Path.{fun_ext, ap₂}
use npu_gpu_cpu.Prelude.{
  ==_iff, ℕ, ltb_ℤ, ◌≡◌, refl, ap, ◌∙◌, inl, inr, Option-cases, Bool-cases, List, [], ◌∷◌, ◌==◌,
  arith,
}
use npu_gpu_cpu.Hip.Memory.{
  Replies, Shim, Outcome, MemcpyKind, is_tracked, page_round, npu_malloc, hip_malloc, hip_free,
  hip_memcpy,
}
use npu_gpu_cpu.Hip.Memory.Table.{find-insert, find-erase, find-erase_ne, Distinct}
use npu_gpu_cpu.Hip.Memory.Dispatch.{hip_malloc-Distinct, hip_free-Distinct, hip_memcpy-Distinct}
use npu_gpu_cpu.Hip.Memory.Contract.{
  Promised, Call, malloc, free, memcpy, Result, is_some, allocate, promise, promise_all,
}

-- The shim's own call.
abbrev pub perform : Call → Shim → Outcome
perform (malloc r ptr size) s = hip_malloc r ptr size s
perform (free r p) s = hip_free r p s
perform (memcpy r dst src size kind) s = hip_memcpy r dst src size kind s

unfoldable pub perform_all : List Call → Shim → List Result
perform_all [] s = []
perform_all (c ∷ cs) s = let o = perform c s in (o.code, o.stored) ∷ perform_all cs o.shim

abbrev pub view : Shim → Promised
view s = record { live = λ p. is_tracked p s.buffers; opened = is_some s.amdgpu_dev }

-- One call gives the promised result, and the state that it leaves is seen as the promised one.
abbrev Keeps : Outcome → Result × Promised → Type 0
Keeps o (x, a) =
    ((o.code, o.stored) ≡ x)
    × ((p : ℕ) → is_tracked p o.shim.buffers ≡ a.live p)
    × (is_some o.shim.amdgpu_dev ≡ a.opened)

memcpy-Keeps :
    (r : Replies) (dst src size : ℕ) (kind : MemcpyKind) (s : Shim)
    → Keeps (hip_memcpy r dst src size kind s) (promise (memcpy r dst src size kind) (view s))
unfolding hip_memcpy promise
memcpy-Keeps r dst src size kind s = (ground arith, λ q. ground arith, ground arith)

free-Keeps :
    (r : Replies) (p : ℕ) (s : Shim)
    → Distinct s.buffers
    → Keeps (hip_free r p s) (promise (free r p) (view s))
unfolding hip_free promise
free-Keeps r p s d = (
  ground arith,
  λ q. ground (arith, find-erase_ne p q s.buffers, find-erase p s.buffers d, ==_iff p q),
  ground arith,
)

npu_malloc-Keeps :
    (r : Replies) (size : ℕ) (s : Shim) → Keeps (npu_malloc r size s) (allocate r (view s))
unfolding npu_malloc allocate
npu_malloc-Keeps r size s = elim (Option-cases r.bo) [
  | inl e ↦ (ground arith, λ q. ground arith, ground arith)
  | inr (bo, e) ↦ elim (Option-cases r.cpu_ptr) [
    | inl f ↦ (ground arith, λ q. ground arith, ground arith)
    | inr (p, f) ↦ elim (Option-cases r.export_handle) [
      | inl g ↦ (ground arith, λ q. ground arith, ground arith)
      | inr (fd, g) ↦ (
        ground arith,
        λ q. ground (
          arith,
          find-insert p q (record { cpu_ptr = p; dmabuf_fd = fd; size = page_round size; bo = bo })
              s.buffers,
        ),
        ground arith,
      )
    ]
  ]
]

malloc-Keeps :
    (r : Replies) (ptr size : ℕ) (s : Shim)
    → Keeps (hip_malloc r ptr size s) (promise (malloc r ptr size) (view s))
unfolding hip_malloc promise
malloc-Keeps r ptr size s = elim (Bool-cases (ptr == 0)) [
  | inl e ↦ rw e (refl, λ q. refl, refl)
  | inr e ↦ elim (Bool-cases (size == 0)) [
    | inl e' ↦ rw (e, e') (refl, λ q. refl, refl)
    | inr e' ↦ elim (Bool-cases (ltb_ℤ r.device_id r.gpu_count)) [
      | inl real ↦ rw (e, e', real) (refl, λ q. refl, refl)
      | inr npu ↦ rw (e, e', npu) (npu_malloc-Keeps r size s)
    ]
  ]
]

perform-Keeps :
    (c : Call) (s : Shim) → Distinct s.buffers → Keeps (perform c s) (promise c (view s))
perform-Keeps (malloc r ptr size) s d = malloc-Keeps r ptr size s
perform-Keeps (free r p) s d = free-Keeps r p s d
perform-Keeps (memcpy r dst src size kind) s d = memcpy-Keeps r dst src size kind s

pub perform-Distinct :
    (c : Call) (s : Shim) → Distinct s.buffers → Distinct (perform c s).shim.buffers
perform-Distinct (malloc r ptr size) s d = hip_malloc-Distinct r ptr size s d
perform-Distinct (free r p) s d = hip_free-Distinct r p s d
perform-Distinct (memcpy r dst src size kind) s d = hip_memcpy-Distinct r dst src size kind s d

-- Two states of the promise are equal if they have the same addresses and the same flag.
promised_ext : (a b : Promised) → ((p : ℕ) → a.live p ≡ b.live p) → a.opened ≡ b.opened → a ≡ b
promised_ext a b h e = ap₂ (λ l o. record { live = l; opened = o }) (fun_ext h) e

-- For every sequence of calls and all answers from outside, from any state whose table has distinct
-- addresses, the codes that the shim returns and the pointers that it stores are the promised ones.
pub perform_all-promise_all :
    (cs : List Call) (s : Shim) → Distinct s.buffers → perform_all cs s ≡ promise_all cs (view s)
unfolding perform_all promise_all
perform_all-promise_all [] s d = refl
perform_all-promise_all (c ∷ cs) s d =
    let (x, live, opened) = perform-Keeps c s d in
    ap₂ ◌∷◌ x (
      perform_all-promise_all cs (perform c s).shim (perform-Distinct c s d)
      ∙ ap (promise_all cs)
          (promised_ext (view (perform c s).shim) (promise c (view s)).1 live opened))
