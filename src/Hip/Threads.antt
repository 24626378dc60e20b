-- ===== src/Hip/Threads.antt =====
-- rocm-npu/hip_npu_memory.cpp, called by several threads. A thread is where it stands in a call, and one
-- step of it is one access to the globals or one call that leaves the source, so that all the orders in
-- which the threads of a process can take these are sequences of steps. The names are those of
-- Hip/Memory, where a call is one function.
pub mod Count
pub mod Mutex
pub mod Hand
pub mod Orders
pub mod Empty
pub mod Invariant
pub mod Safety
pub mod Alone
pub mod Race
mod Examples
use npu_gpu_cpu.Prelude.{
  ℕ, ltb_ℤ, Bool, true, false, ◌||◌, Option, none, some, [], ◌==◌, if◌then◌else◌, Array, write,
}
use npu_gpu_cpu.Hip.{HipError, success, invalid_value, memory_allocation}
use npu_gpu_cpu.Hip.Memory.{
  NpuBuffer, Replies, Shim, MemcpyKind, host_to_device, device_to_host, device_to_device, Event,
  lock, unlock, open_render, open_npu, close_fd, device_initialize, bo_alloc, bo_cpu_map, bo_export,
  bo_cpu_unmap, bo_free, prime_import, cpu_memcpy, real_malloc, real_free, real_memcpy, call, find,
  insert, erase, is_tracked, page_round,
}
use npu_gpu_cpu.Hip.Memory.Contract.{Call, malloc, free, memcpy, is_device_copy}

-- What a thread does next.
pub data Pc : Type 0 where
  idle : Pc
  -- the code, and what was stored through `ptr`
  finished : HipError → Option ℕ → Pc
  -- `hipMalloc` and `npu_malloc`; a size is rounded from `maps` on
  begins_malloc : ℕ → ℕ → Pc
  asks_real : ℕ → Pc
  checks_dev : ℕ → Pc
  opens_dev : ℕ → Pc
  initializes : ℕ → ℕ → Pc
  closes_render : ℕ → Pc
  allocates : ℕ → Pc
  maps : ℕ → ℕ → Pc
  exports : ℕ → ℕ → ℕ → Pc
  unmaps : ℕ → ℕ → Pc
  frees_object : ℕ → Pc
  imports : NpuBuffer → Pc
  passes : NpuBuffer → ℕ → Pc
  closes_npu : NpuBuffer → ℕ → Pc
  waits_track : NpuBuffer → Pc
  tracks : NpuBuffer → Pc
  -- `hipFree` and `npu_free`
  begins_free : ℕ → Pc
  looks : ℕ → Pc
  frees_real : ℕ → Pc
  hands_over : ℕ → Pc
  waits_free : ℕ → Pc
  finds : ℕ → Pc
  closes : ℕ → NpuBuffer → Pc
  unmapping : ℕ → NpuBuffer → Pc
  freeing : ℕ → NpuBuffer → Pc
  erases : ℕ → NpuBuffer → Pc
  -- `hipMemcpy`
  begins_copy : ℕ → ℕ → ℕ → MemcpyKind → Pc
  checks_copy : ℕ → ℕ → ℕ → MemcpyKind → Pc
  copying : ℕ → ℕ → ℕ → MemcpyKind → Pc
  leaves_copy : ℕ → ℕ → ℕ → MemcpyKind → Pc
  copies_real : ℕ → ℕ → ℕ → MemcpyKind → Pc
  -- the end of a scope that holds the mutex
  leaves : HipError → Option ℕ → Pc

-- The globals, and whether a thread holds `g_buf_mutex`.
pub record Globals : Type 0 where
  pub shim : Shim
  pub held : Bool

abbrev pub Stepped : Type 0
Stepped = Option (Pc × Globals)

-- A thread that asks for a mutex that is held does not move.
abbrev acquires : Pc → Globals → Stepped
acquires next g =
    if g.held then none else some (next, record { shim = call lock g.shim; held = true })

abbrev releases : Pc → Globals → Stepped
releases next g = some (next, record { shim = call unlock g.shim; held = false })

abbrev does : Event → Pc → Globals → Stepped
does e next g = some (next, record g { shim = call e g.shim })

abbrev no_memory : Pc
no_memory = finished memory_allocation none

pub step : Replies → Pc → Globals → Stepped
step r idle g = none
step r (finished c stored) g = none
step r (begins_malloc ptr size) g = some (
  if ptr == 0
      then finished invalid_value none
      else if size == 0
      then finished success (some 0)
      else if ltb_ℤ r.device_id r.gpu_count
      then asks_real size
      else checks_dev size,
  g,
)
step r (asks_real size) g = does (real_malloc size) (finished r.real_code r.real_ptr) g
step r (checks_dev size) g = elim g.shim.amdgpu_dev [
  | none ↦ some (opens_dev size, g)
  | some dev ↦ some (allocates size, g)
]
step r (opens_dev size) g = elim r.render_fd [
  | none ↦ does (open_render none) no_memory g
  | some fd ↦ does (open_render (some fd)) (initializes size fd) g
]
step r (initializes size fd) g = elim r.dev [
  | none ↦ does (device_initialize fd none) (closes_render fd) g
  | some dev ↦ some (
    allocates size,
    record g {
      shim = record (call (device_initialize fd (some dev)) g.shim) { amdgpu_dev = some dev };
    },
  )
]
step r (closes_render fd) g = does (close_fd fd) no_memory g
step r (allocates size) g = elim r.bo [
  | none ↦ does (bo_alloc (page_round size) none) no_memory g
  | some bo ↦ does (bo_alloc (page_round size) (some bo)) (maps (page_round size) bo) g
]
step r (maps size bo) g = elim r.cpu_ptr [
  | none ↦ does (bo_cpu_map bo none) (frees_object bo) g
  | some p ↦ does (bo_cpu_map bo (some p)) (exports size bo p) g
]
step r (exports size bo p) g = elim r.export_handle [
  | none ↦ does (bo_export bo none) (unmaps bo p) g
  | some fd ↦
      does (bo_export bo (some fd))
        (imports (record { cpu_ptr = p; dmabuf_fd = fd; size = size; bo = bo })) g
]
step r (unmaps bo p) g = does (bo_cpu_unmap bo) (frees_object bo) g
step r (frees_object bo) g = does (bo_free bo) no_memory g
step r (imports b) g =
    if g.shim.npu_available
    then elim r.npu_fd [
      | none ↦ does (open_npu none) (waits_track b) g
      | some fd ↦ does (open_npu (some fd)) (passes b fd) g
    ]
    else some (waits_track b, g)
step r (passes b fd) g = does (prime_import fd b.dmabuf_fd) (closes_npu b fd) g
step r (closes_npu b fd) g = does (close_fd fd) (waits_track b) g
step r (waits_track b) g = acquires (tracks b) g
step r (tracks b) g = some (
  leaves success (some b.cpu_ptr),
  record g { shim = record g.shim { buffers = insert b.cpu_ptr b g.shim.buffers } },
)
step r (begins_free p) g = if p == 0 then some (finished success none, g) else acquires (looks p) g
step r (looks p) g = some (if is_tracked p g.shim.buffers then hands_over p else frees_real p, g)
step r (frees_real p) g = does (real_free p) (leaves r.real_code none) g
step r (hands_over p) g = releases (waits_free p) g
step r (waits_free p) g = acquires (finds p) g
step r (finds p) g = elim (find p g.shim.buffers) [
  | none ↦ some (leaves invalid_value none, g)
  | some b ↦ some (closes p b, g)
]
step r (closes p b) g = does (close_fd b.dmabuf_fd) (unmapping p b) g
step r (unmapping p b) g = does (bo_cpu_unmap b.bo) (freeing p b) g
step r (freeing p b) g = does (bo_free b.bo) (erases p b) g
step r (erases p b) g =
    some
      (leaves success none, record g { shim = record g.shim { buffers = erase p g.shim.buffers } })
step r (begins_copy dst src size kind) g = acquires (checks_copy dst src size kind) g
step r (checks_copy dst src size kind) g = some (
  if is_tracked src g.shim.buffers || is_tracked dst g.shim.buffers
      then copying dst src size kind
      else leaves_copy dst src size kind,
  g,
)
step r (copying dst src size kind) g =
    if is_device_copy kind
    then does (cpu_memcpy dst src size) (leaves success none) g
    else some (leaves invalid_value none, g)
step r (leaves_copy dst src size kind) g = releases (copies_real dst src size kind) g
step r (copies_real dst src size kind) g =
    does (real_memcpy dst src size kind) (finished r.real_code none) g
step r (leaves c stored) g = releases (finished c stored) g

-- Where a thread begins a call.
pub entry : Call → Pc
entry (malloc r ptr size) = begins_malloc ptr size
entry (free r p) = begins_free p
entry (memcpy r dst src size kind) = begins_copy dst src size kind

pub record System : Type 0 where
  pub pcs : Array Pc
  pub globals : Globals

-- `moves r i s`: thread i makes a step, if it can; r is what it is answered.
pub moves : Replies → ℕ → System → System
unfolding step
moves r i s = elim (step r (s.pcs i) s.globals) [
  | none ↦ s
  | some (pc, g) ↦ record { pcs = write i pc s.pcs; globals = g }
]
