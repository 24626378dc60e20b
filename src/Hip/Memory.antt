-- ===== src/Hip/Memory.antt =====
-- rocm-npu/hip_npu_memory.cpp. libdrm_amdgpu, the kernel and the real HIP library are outside of the
-- source: what they answer in one call is an argument (`Replies`), and what the shim asks of them is
-- logged (`Event`). A pointer or handle is a number, 0 is the null pointer.
pub mod Size
pub mod Table
pub mod Ledger
pub mod Render
pub mod Malloc
pub mod Balance
pub mod Lock
pub mod Dispatch
pub mod Contract
pub mod Refine
pub mod Alike
pub mod Abstract
mod Examples
use npu_gpu_cpu.Prelude.{
  ℕ, ◌+◌, ◌*◌, ◌/◌, ◌%◌, ◌^◌, ℤ, pos, negsuc, ltb_ℤ, negative, Bool, true, false, ◌||◌, Option,
  none, some, List, [], ◌∷◌, ◌==◌, if◌then◌else◌,
}
use npu_gpu_cpu.Hip.{HipError, success, invalid_value, memory_allocation}

pub record NpuBuffer : Type 0 where
  pub cpu_ptr : ℕ
  pub dmabuf_fd : ℕ
  pub size : ℕ
  pub bo : ℕ

-- `hipMemcpyKind`
pub data MemcpyKind : Type 0 where
  host_to_host host_to_device device_to_host device_to_device default_kind : MemcpyKind

-- The calls that leave the source, each with what it returned. `none` is a failure.
pub data Event : Type 0 where
  lock unlock : Event
  open_render open_npu : Option ℕ → Event
  close_fd : ℕ → Event
  device_initialize : ℕ → Option ℕ → Event
  bo_alloc : ℕ → Option ℕ → Event
  bo_cpu_map bo_export : ℕ → Option ℕ → Event
  bo_cpu_unmap bo_free : ℕ → Event
  prime_import : ℕ → ℕ → Event
  cpu_memcpy : ℕ → ℕ → ℕ → Event
  real_malloc : ℕ → Event
  real_free : ℕ → Event
  real_memcpy : ℕ → ℕ → ℕ → MemcpyKind → Event
  real_memcpy_dtod : ℕ → ℕ → ℕ → Event

-- What the outside answers during one call of the shim. `device_id` and `gpu_count` are the values
-- that the two variables of `hipMalloc` hold after the calls of the real HIP.
pub record Replies : Type 0 where
  pub render_fd : Option ℕ
  pub dev : Option ℕ
  pub bo : Option ℕ
  pub cpu_ptr : Option ℕ
  pub export_handle : Option ℕ
  pub npu_fd : Option ℕ
  pub device_id : ℤ
  pub gpu_count : ℤ
  pub real_code : HipError
  pub real_ptr : Option ℕ

abbrev pub Buffers : Type 0
Buffers = List (ℕ × NpuBuffer)

-- The globals, and the log of the calls, latest first.
pub record Shim : Type 0 where
  pub amdgpu_dev : Option ℕ
  pub buffers : Buffers
  pub npu_available : Bool
  pub log : List Event

-- What a call returns: its code, what it stored through `ptr` (if anything), and the state.
pub record Outcome : Type 0 where
  pub code : HipError
  pub stored : Option ℕ
  pub shim : Shim

abbrev pub call : Event → Shim → Shim
call e s = record s { log = e ∷ s.log }

-- `std::map<void*, NPUBuffer>`: find, operator[] and erase.
unfoldable pub find : ℕ → Buffers → Option NpuBuffer
find p [] = none
find p ((q, b) ∷ bs) = if q == p then some b else find p bs

unfoldable pub insert : ℕ → NpuBuffer → Buffers → Buffers
insert p b [] = (p, b) ∷ []
insert p b ((q, c) ∷ bs) = if q == p then (p, b) ∷ bs else (q, c) ∷ insert p b bs

unfoldable pub erase : ℕ → Buffers → Buffers
erase p [] = []
erase p ((q, c) ∷ bs) = if q == p then bs else (q, c) ∷ erase p bs

abbrev pub is_tracked : ℕ → Buffers → Bool
is_tracked p bs = elim (find p bs) [ none ↦ false | some _ ↦ true ]

-- `(size + 4095) & ~4095` on a 64-bit `size_t`.
pub page_round : ℕ → ℕ
page_round size = (size + 4095) % 2 ^ 64 / 4096 * 4096

-- The Boolean is whether it returned 0.
pub ensure_amdgpu : Replies → Shim → Bool × Shim
ensure_amdgpu r s = elim s.amdgpu_dev [
  | some dev ↦ (true, s)
  | none ↦ elim r.render_fd [
    | none ↦ (false, call (open_render none) s)
    | some fd ↦ elim r.dev [
      | none ↦ (
        false,
        call (close_fd fd) (call (device_initialize fd none) (call (open_render (some fd)) s)),
      )
      | some dev ↦ (
        true,
        record (call (device_initialize fd (some dev)) (call (open_render (some fd)) s)) {
          amdgpu_dev = some dev;
        },
      )
    ]
  ]
]

-- The import of the dma-buf into the NPU driver, whose result the source ignores.
pub import_npu : Replies → ℕ → Shim → Shim
import_npu r dmabuf_fd s =
    if s.npu_available
    then elim r.npu_fd [
      | none ↦ call (open_npu none) s
      | some fd ↦
          call (close_fd fd) (call (prime_import fd dmabuf_fd) (call (open_npu (some fd)) s))
    ]
    else s

abbrev pub out_of_memory : Shim → Outcome
out_of_memory s = record { code = memory_allocation; stored = none; shim = s }

pub track : ℕ → NpuBuffer → Shim → Shim
track p b s = call unlock (record (call lock s) { buffers = insert p b s.buffers })

pub export_buffer : Replies → ℕ → ℕ → ℕ → Shim → Outcome
unfolding import_npu track
export_buffer r size bo cpu_ptr s = elim r.export_handle [
  | none ↦ out_of_memory (call (bo_free bo) (call (bo_cpu_unmap bo) (call (bo_export bo none) s)))
  | some fd ↦ record {
    code = success;
    stored = some cpu_ptr;
    shim =
        track cpu_ptr (record { cpu_ptr = cpu_ptr; dmabuf_fd = fd; size = size; bo = bo })
          (import_npu r fd (call (bo_export bo (some fd)) s));
  }
]

pub map_buffer : Replies → ℕ → ℕ → Shim → Outcome
unfolding export_buffer
map_buffer r size bo s = elim r.cpu_ptr [
  | none ↦ out_of_memory (call (bo_free bo) (call (bo_cpu_map bo none) s))
  | some p ↦ export_buffer r size bo p (call (bo_cpu_map bo (some p)) s)
]

pub npu_malloc : Replies → ℕ → Shim → Outcome
unfolding ensure_amdgpu map_buffer
npu_malloc r size s =
    let (ready, s') = ensure_amdgpu r s in
    let alloc_size = page_round size in
    if ready
    then elim r.bo [
      | none ↦ out_of_memory (call (bo_alloc alloc_size none) s')
      | some bo ↦ map_buffer r alloc_size bo (call (bo_alloc alloc_size (some bo)) s')
    ]
    else out_of_memory s'

abbrev pub returns : HipError → Shim → Outcome
returns c s = record { code = c; stored = none; shim = s }

pub npu_free : ℕ → Shim → Outcome
npu_free p s = if p == 0 then returns success s else elim (find p s.buffers) [
  | none ↦ returns invalid_value (call unlock (call lock s))
  | some b ↦ returns success (
      call unlock
        (record (call (bo_free b.bo)
          (call (bo_cpu_unmap b.bo) (call (close_fd b.dmabuf_fd) (call lock s)))) {
            buffers = erase p s.buffers;
          }))
]

pub npu_memcpy : ℕ → ℕ → ℕ → MemcpyKind → Shim → Outcome
npu_memcpy dst src size host_to_device s = returns success (call (cpu_memcpy dst src size) s)
npu_memcpy dst src size device_to_host s = returns success (call (cpu_memcpy dst src size) s)
npu_memcpy dst src size device_to_device s = returns success (call (cpu_memcpy dst src size) s)
npu_memcpy dst src size _ s = returns invalid_value s

-- The first argument is the `ptr` that the caller passes: the address of its pointer, 0 if null.
unfoldable pub hip_malloc : Replies → ℕ → ℕ → Shim → Outcome
unfolding npu_malloc
hip_malloc r ptr size s =
    if ptr == 0
    then returns invalid_value s
    else if size == 0
    then record { code = success; stored = some 0; shim = s }
    else if ltb_ℤ r.device_id r.gpu_count
    then record { code = r.real_code; stored = r.real_ptr; shim = call (real_malloc size) s }
    else npu_malloc r size s

-- The source unlocks, then lets `npu_free` lock again.
unfoldable pub hip_free : Replies → ℕ → Shim → Outcome
unfolding npu_free
hip_free r p s =
    if p == 0
    then returns success s
    else if is_tracked p s.buffers
    then npu_free p (call unlock (call lock s))
    else returns r.real_code (call unlock (call (real_free p) (call lock s)))

abbrev pub unlocking : Outcome → Outcome
unlocking o = record o { shim = call unlock o.shim }

unfoldable pub hip_memcpy : Replies → ℕ → ℕ → ℕ → MemcpyKind → Shim → Outcome
unfolding npu_memcpy
hip_memcpy r dst src size kind s =
    if is_tracked src s.buffers || is_tracked dst s.buffers
    then unlocking (npu_memcpy dst src size kind (call lock s))
    else returns r.real_code (call (real_memcpy dst src size kind) (call unlock (call lock s)))

pub hip_memcpy_dtod : Replies → ℕ → ℕ → ℕ → Shim → Outcome
hip_memcpy_dtod r dst src size s = returns r.real_code (call (real_memcpy_dtod dst src size) s)

pub hip_memcpy_htod : Replies → ℕ → ℕ → ℕ → Shim → Outcome
unfolding hip_memcpy
hip_memcpy_htod r dst src size s = hip_memcpy r dst src size host_to_device s

pub hip_memcpy_dtoh : Replies → ℕ → ℕ → ℕ → Shim → Outcome
unfolding hip_memcpy
hip_memcpy_dtoh r dst src size s = hip_memcpy r dst src size device_to_host s
