-- ===== src/Hip.antt =====
-- rocm-npu/: the shim that puts the NPU behind the HIP interface.
pub mod Device
pub mod Memory
pub mod Threads
use npu_gpu_cpu.Prelude.{ℕ}

-- `hipError_t`: the codes that the shim returns itself, and those that the real HIP hands it.
pub data HipError : Type 0 where
  success invalid_value memory_allocation : HipError
  other : ℕ → HipError
