-- ===== src/Hip/Memory/Contract.antt =====
-- What the shim promises to a caller, without buffers, descriptors and locks: the set of the addresses
-- that it has handed out and not taken back, and whether the GPU's render node is open.
use npu_gpu_cpu.Prelude.{
  ℕ, ltb_ℤ, Bool, true, false, ◌&&◌, ◌||◌, Option, none, some, List, [], ◌∷◌, ◌==◌, if◌then◌else◌,
}
use npu_gpu_cpu.Hip.{HipError, success, invalid_value, memory_allocation}
use npu_gpu_cpu.Hip.Memory.{Replies, MemcpyKind, host_to_device, device_to_host, device_to_device}

pub record Promised : Type 0 where
  pub live : ℕ → Bool
  pub opened : Bool

-- One call of the interface, with what the outside answers during it.
pub data Call : Type 0 where
  malloc : Replies → ℕ → ℕ → Call
  free : Replies → ℕ → Call
  memcpy : Replies → ℕ → ℕ → ℕ → MemcpyKind → Call

-- The code, and what is stored through `ptr`.
abbrev pub Result : Type 0
Result = HipError × Option ℕ

abbrev pub is_some {ℓ} : {A : Type ℓ} → Option A → Bool
is_some none = false
is_some (some a) = true

abbrev set_live : ℕ → Bool → (ℕ → Bool) → ℕ → Bool
set_live p b live q = if p == q then b else live q

abbrev pub is_device_copy : MemcpyKind → Bool
is_device_copy host_to_device = true
is_device_copy device_to_host = true
is_device_copy device_to_device = true
is_device_copy _ = false

-- The address at which an allocation on the NPU succeeds: if all that it needs is answered.
unfoldable pub granted : Replies → Bool → Option ℕ
granted r opened = if opened && is_some r.bo && is_some r.export_handle then r.cpu_ptr else none

unfoldable pub allocate : Replies → Promised → Result × Promised
unfolding granted
allocate r a =
    let opened = a.opened || is_some r.render_fd && is_some r.dev in
    elim (granted r opened) [
      | none ↦ ((memory_allocation, none), record a { opened = opened })
      | some p ↦ ((success, some p), record { live = set_live p true a.live; opened = opened })
    ]

unfoldable pub promise : Call → Promised → Result × Promised
unfolding allocate
promise (malloc r ptr size) a =
    if ptr == 0
    then ((invalid_value, none), a)
    else if size == 0
    then ((success, some 0), a)
    else if ltb_ℤ r.device_id r.gpu_count
    then ((r.real_code, r.real_ptr), a)
    else allocate r a
promise (free r p) a =
    if p == 0
    then ((success, none), a)
    else if a.live p
    then ((success, none), record a { live = set_live p false a.live })
    else ((r.real_code, none), a)
promise (memcpy r dst src size kind) a =
    if a.live src || a.live dst
    then ((if is_device_copy kind then success else invalid_value, none), a)
    else ((r.real_code, none), a)

-- The results of a sequence of calls.
unfoldable pub promise_all : List Call → Promised → List Result
promise_all [] a = []
promise_all (c ∷ cs) a = let (x, a') = promise c a in x ∷ promise_all cs a'
