-- ===== src/Hip/Memory/Ledger.antt =====
-- What the calls to libdrm and the kernel take and give back: buffer objects, CPU mappings, file
-- descriptors. `amdgpu_device_initialize` makes its own duplicate of the render node's descriptor, so the
-- caller still has to close the one that it opened; `ensure_amdgpu` forgets it when the call succeeds.
use npu_gpu_cpu.Prelude.{ℕ, ◌+◌, ◌≡◌, refl, none, some, List, [], ◌∷◌, arith, ◌==◌, if◌then◌else◌}
use npu_gpu_cpu.Hip.Memory.{
  NpuBuffer, Buffers, Event, open_render, open_npu, close_fd, device_initialize, bo_alloc,
  bo_cpu_map, bo_export, bo_cpu_unmap, bo_free, Shim, find, insert, erase,
}

pub data Resource : Type 0 where
  object mapping descriptor : ℕ → Resource

abbrev pub one_if_same : ℕ → ℕ → ℕ
one_if_same a b = if a == b then 1 else 0

abbrev pub taken_by : Resource → Event → ℕ
taken_by (object b) (bo_alloc _ (some c)) = one_if_same c b
taken_by (mapping b) (bo_cpu_map c (some _)) = one_if_same c b
taken_by (descriptor n) (open_render (some m)) = one_if_same m n
taken_by (descriptor n) (open_npu (some m)) = one_if_same m n
taken_by (descriptor n) (bo_export _ (some m)) = one_if_same m n
taken_by _ _ = 0

abbrev pub returned_by : Resource → Event → ℕ
returned_by (object b) (bo_free c) = one_if_same c b
returned_by (mapping b) (bo_cpu_unmap c) = one_if_same c b
returned_by (descriptor n) (close_fd m) = one_if_same m n
returned_by _ _ = 0

-- A render node whose device is initialised and which nothing closes.
abbrev pub lost_by : Resource → Event → ℕ
lost_by (descriptor n) (device_initialize m (some _)) = one_if_same m n
lost_by _ _ = 0

abbrev pub settled_by : Resource → Event → ℕ
settled_by x e = returned_by x e + lost_by x e

abbrev pub total : (Event → ℕ) → List Event → ℕ
total f [] = 0
total f (e ∷ log) = f e + total f log

abbrev pub owned_by : Resource → NpuBuffer → ℕ
owned_by (object b) buf = one_if_same buf.bo b
owned_by (mapping b) buf = one_if_same buf.bo b
owned_by (descriptor n) buf = one_if_same buf.dmabuf_fd n

abbrev pub held : Resource → Buffers → ℕ
held x [] = 0
held x ((p, b) ∷ bs) = owned_by x b + held x bs

-- Every resource that was taken and neither given back nor lost belongs to a tracked buffer, once, but
-- for `extra` of them that are still in the hands of the running call.
abbrev pub Owes : Resource → ℕ → Shim → Type 0
Owes x extra s = total (taken_by x) s.log ≡ total (settled_by x) s.log + held x s.buffers + extra

-- Nothing else is leaked, and nothing is given back twice.
abbrev pub Balanced : Shim → Type 0
Balanced s = (x : Resource) → Owes x 0 s

pub total-settled_by :
    (x : Resource) (log : List Event)
    → total (settled_by x) log ≡ total (returned_by x) log + total (lost_by x) log
total-settled_by x [] = refl
total-settled_by x (e ∷ log) = omega (arith, total-settled_by x log)

pub held-insert :
    (x : Resource) (p : ℕ) (b : NpuBuffer) (bs : Buffers)
    → find p bs ≡ none
    → held x (insert p b bs) ≡ held x bs + owned_by x b
unfolding find insert
held-insert x p b [] h = omega arith
held-insert x p b ((q, c) ∷ bs) h = ground (arith, held-insert x p b bs)

pub held-erase :
    (x : Resource) (p : ℕ) (b : NpuBuffer) (bs : Buffers)
    → find p bs ≡ some b
    → held x bs ≡ owned_by x b + held x (erase p bs)
unfolding find erase
held-erase x p b [] h = cc
held-erase x p b ((q, c) ∷ bs) h = ground (arith, held-erase x p b bs)
