-- ===== src/Hip/Memory/Alike.antt =====
-- `g_buffers` by its look-ups alone: a list stands for the `std::map`, and the order of its entries
-- does not count.
use mathlib.Core.Path.{subst}
use npu_gpu_cpu.Prelude.{
  ==_iff, ℕ, ltb_ℤ, ◌≡◌, ◌≢◌, refl, sym, ap, ◌∙◌, inl, inr, Option-cases, Bool-cases, ◌==◌,
  if◌then◌else◌, some, arith,
}
use npu_gpu_cpu.Hip.Memory.{
  NpuBuffer, Buffers, Replies, Shim, Outcome, MemcpyKind, find, insert, erase, page_round,
  npu_malloc, hip_malloc, hip_free, hip_memcpy,
}
use npu_gpu_cpu.Hip.Memory.Table.{find-insert, find-erase, find-erase_ne, Distinct}
use npu_gpu_cpu.Hip.Memory.Contract.{Call, malloc, free, memcpy}
use npu_gpu_cpu.Hip.Memory.Refine.{perform}

abbrev pub SameFinds : Buffers → Buffers → Type 0
SameFinds bs cs = (p : ℕ) → find p bs ≡ find p cs

insert-SameFinds :
    (p : ℕ) (b : NpuBuffer) (bs cs : Buffers)
    → SameFinds bs cs
    → SameFinds (insert p b bs) (insert p b cs)
insert-SameFinds p b bs cs h q =
    find-insert p q b bs ∙ ap (λ o. if p == q then some b else o) (h q) ∙ sym (find-insert p q b cs)

erase-SameFinds :
    (p : ℕ) (bs cs : Buffers)
    → Distinct bs
    → Distinct cs
    → SameFinds bs cs
    → SameFinds (erase p bs) (erase p cs)
erase-SameFinds p bs cs d e h q = elim (Bool-cases (p == q)) [
  | inl same ↦ rw (sym ((==_iff p q).0 same)) (find-erase p bs d ∙ sym (find-erase p cs e))
  | inr apart ↦
      let ne : p ≢ q = ground arith in find-erase_ne p q bs ne ∙ h q ∙ sym (find-erase_ne p q cs ne)
]

-- The same globals, but for the order of the table.
abbrev pub Alike : Shim → Shim → Type 0
Alike s t =
    (s.amdgpu_dev ≡ t.amdgpu_dev)
    × (s.npu_available ≡ t.npu_available)
    × (s.log ≡ t.log)
    × SameFinds s.buffers t.buffers

abbrev pub AlikeOutcome : Outcome → Outcome → Type 0
AlikeOutcome o u = (o.code ≡ u.code) × (o.stored ≡ u.stored) × Alike o.shim u.shim

module _ (s : Shim) (bs : Buffers) (same : SameFinds s.buffers bs) where
  abbrev other : Shim
  other = record s { buffers = bs }

  memcpy-same :
      (r : Replies) (dst src size : ℕ) (kind : MemcpyKind)
      → AlikeOutcome (hip_memcpy r dst src size kind s) (hip_memcpy r dst src size kind other)
  unfolding hip_memcpy
  memcpy-same r dst src size kind = (
    ground (arith, same src, same dst),
    ground (arith, same src, same dst),
    (
      ground (arith, same src, same dst),
      ground (arith, same src, same dst),
      ground (arith, same src, same dst),
      λ q. ground (arith, same src, same dst, same q),
    ),
  )

  free-same :
      (r : Replies) (p : ℕ)
      → Distinct s.buffers
      → Distinct bs
      → AlikeOutcome (hip_free r p s) (hip_free r p other)
  unfolding hip_free
  free-same r p d e = (
    ground (arith, same p),
    ground (arith, same p),
    (
      ground (arith, same p),
      ground (arith, same p),
      ground (arith, same p),
      λ q. ground (arith, same p, same q, erase-SameFinds p s.buffers bs d e same q),
    ),
  )

  npu_malloc-SameFinds :
      (r : Replies) (size : ℕ)
      → SameFinds (npu_malloc r size s).shim.buffers (npu_malloc r size other).shim.buffers
  unfolding npu_malloc
  npu_malloc-SameFinds r size q = elim (Option-cases r.bo) [
    | inl e ↦ ground (arith, same q)
    | inr (bo, e) ↦ elim (Option-cases r.cpu_ptr) [
      | inl f ↦ ground (arith, same q)
      | inr (p, f) ↦ elim (Option-cases r.export_handle) [
        | inl g ↦ ground (arith, same q)
        | inr (fd, g) ↦ ground (
          arith,
          same q,
          insert-SameFinds p
              (record { cpu_ptr = p; dmabuf_fd = fd; size = page_round size; bo = bo }) s.buffers bs
              same q,
        )
      ]
    ]
  ]

  npu_malloc-same :
      (r : Replies) (size : ℕ) → AlikeOutcome (npu_malloc r size s) (npu_malloc r size other)
  unfolding npu_malloc
  npu_malloc-same r size = (
    ground arith,
    ground arith,
    (ground arith, ground arith, ground arith, npu_malloc-SameFinds r size),
  )

  malloc-same :
      (r : Replies) (ptr size : ℕ)
      → AlikeOutcome (hip_malloc r ptr size s) (hip_malloc r ptr size other)
  unfolding hip_malloc
  malloc-same r ptr size = elim (Bool-cases (ptr == 0)) [
    | inl e ↦ rw e (refl, refl, (refl, refl, refl, same))
    | inr e ↦ elim (Bool-cases (size == 0)) [
      | inl e' ↦ rw (e, e') (refl, refl, (refl, refl, refl, same))
      | inr e' ↦ elim (Bool-cases (ltb_ℤ r.device_id r.gpu_count)) [
        | inl real ↦ rw (e, e', real) (refl, refl, (refl, refl, refl, same))
        | inr npu ↦ rw (e, e', npu) (npu_malloc-same r size)
      ]
    ]
  ]

  perform-same :
      (c : Call) → Distinct s.buffers → Distinct bs → AlikeOutcome (perform c s) (perform c other)
  perform-same (malloc r ptr size) d e = malloc-same r ptr size
  perform-same (free r p) d e = free-same r p d e
  perform-same (memcpy r dst src size kind) d e = memcpy-same r dst src size kind

-- One call in two states that are alike.
pub perform-Alike :
    (c : Call) (s t : Shim)
    → Distinct s.buffers
    → Distinct t.buffers
    → Alike s t
    → AlikeOutcome (perform c s) (perform c t)
perform-Alike c s t d e (dev, npu, log, same) =
    subst (λ u. AlikeOutcome (perform c s) (perform c u)) {x = record s { buffers = t.buffers }}
      (ground arith) (perform-same s t.buffers same c d e)
