-- ===== src/Hip/Memory/Render.antt =====
-- How often the shim initialises a device, and so how many descriptors of the render node it loses.
use npu_gpu_cpu.Prelude.{ℕ, ◌≤◌, ◌≡◌, Option, none, some, List, [], ◌∷◌, arith}
use npu_gpu_cpu.Hip.Memory.{
  Replies, Shim, MemcpyKind, Event, device_initialize, ensure_amdgpu, import_npu, track,
  export_buffer, map_buffer, npu_malloc, npu_free, hip_malloc, hip_free, hip_memcpy,
  hip_memcpy_dtod,
}
use npu_gpu_cpu.Hip.Memory.Ledger.{Resource, object, mapping, descriptor, lost_by, total}

-- An `amdgpu_device_initialize` that succeeds.
abbrev pub initialises : Event → ℕ
initialises (device_initialize fd (some dev)) = 1
initialises _ = 0

abbrev pub one_if_set : Option ℕ → ℕ
one_if_set none = 0
one_if_set (some dev) = 1

-- A device is initialised once, if at all, and then it is set.
abbrev pub Initialised : Shim → Type 0
Initialised s = total initialises s.log ≡ one_if_set s.amdgpu_dev

lost_by-le : (x : Resource) (e : Event) → lost_by x e ≤ initialises e
lost_by-le (object b) e = omega arith
lost_by-le (mapping b) e = omega arith
lost_by-le (descriptor n) (device_initialize m (some dev)) = ground arith
lost_by-le (descriptor n) _ = omega arith

pub lost-le : (x : Resource) (log : List Event) → total (lost_by x) log ≤ total initialises log
lost-le x [] = omega arith
lost-le x (e ∷ log) = omega (arith, lost_by-le x e, lost-le x log)

ensure_amdgpu-Initialised :
    (r : Replies) (s : Shim) → Initialised s → Initialised (ensure_amdgpu r s).1
unfolding ensure_amdgpu
ensure_amdgpu-Initialised r s h = ground arith

import_npu-Initialised :
    (r : Replies) (fd : ℕ) (s : Shim) → Initialised s → Initialised (import_npu r fd s)
unfolding import_npu
import_npu-Initialised r fd s h = ground arith

export_buffer-Initialised :
    (r : Replies) (size bo p : ℕ) (s : Shim)
    → Initialised s
    → Initialised (export_buffer r size bo p s).shim
unfolding export_buffer track import_npu
export_buffer-Initialised r size bo p s h = ground arith

map_buffer-Initialised :
    (r : Replies) (size bo : ℕ) (s : Shim)
    → Initialised s
    → Initialised (map_buffer r size bo s).shim
unfolding map_buffer export_buffer track import_npu
map_buffer-Initialised r size bo s h = ground arith

npu_malloc-Initialised :
    (r : Replies) (size : ℕ) (s : Shim) → Initialised s → Initialised (npu_malloc r size s).shim
unfolding npu_malloc map_buffer export_buffer track import_npu ensure_amdgpu
npu_malloc-Initialised r size s h = ground arith

pub hip_malloc-Initialised :
    (r : Replies) (ptr size : ℕ) (s : Shim)
    → Initialised s
    → Initialised (hip_malloc r ptr size s).shim
unfolding hip_malloc
hip_malloc-Initialised r ptr size s h = ground (arith, npu_malloc-Initialised r size s h)

pub hip_free-Initialised :
    (r : Replies) (p : ℕ) (s : Shim) → Initialised s → Initialised (hip_free r p s).shim
unfolding hip_free npu_free
hip_free-Initialised r p s h = ground arith

pub hip_memcpy-Initialised :
    (r : Replies) (dst src size : ℕ) (kind : MemcpyKind) (s : Shim)
    → Initialised s
    → Initialised (hip_memcpy r dst src size kind s).shim
unfolding hip_memcpy
hip_memcpy-Initialised r dst src size kind s h = ground arith

pub hip_memcpy_dtod-Initialised :
    (r : Replies) (dst src size : ℕ) (s : Shim)
    → Initialised s
    → Initialised (hip_memcpy_dtod r dst src size s).shim
unfolding hip_memcpy_dtod
hip_memcpy_dtod-Initialised r dst src size s h = ground arith
