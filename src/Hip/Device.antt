-- ===== src/Hip/Device.antt =====
-- rocm-npu/hip_npu.cpp: the device list with the NPU behind the last GPU. What the next HIP library
-- in the chain answers is an argument, so is whether `/dev/accel/accel0` opens.
pub mod Listing
pub mod Program
mod Examples
use Prim.Native.String.{String}
use npu_gpu_cpu.Prelude.{
  ℕ, ◌+◌, ◌*◌, ◌^◌, ℤ, pos, negsuc, ltb_ℤ, negative, Bool, Option, none, some, if◌then◌else◌, zero,
  suc,
}
use npu_gpu_cpu.Hip.{HipError, success}

-- The members of `hipDeviceProp_t` that the source sets; `memset` clears all others.
pub record DeviceProp : Type 0 where
  pub name : String
  pub gcn_arch_name : String
  pub major : ℕ
  pub minor : ℕ
  pub total_global_mem : ℕ
  pub multi_processor_count : ℕ
  pub clock_rate : ℕ
  pub integrated : ℕ
  pub can_map_host_memory : ℕ
  pub warp_size : ℕ
  pub max_threads_per_block : ℕ
  pub max_threads_dim : ℕ × ℕ × ℕ
  pub max_grid_size : ℕ × ℕ × ℕ

abbrev pub npu_prop : DeviceProp
npu_prop = record {
  name = "AMD XDNA 2 NPU (aie2)";
  gcn_arch_name = "aie2";
  major = 2;
  minor = 0;
  total_global_mem = 128 * 1024 * 1024 * 1024;
  multi_processor_count = 8;
  clock_rate = 1000;
  integrated = 1;
  can_map_host_memory = 1;
  warp_size = 1;
  max_threads_per_block = 1;
  max_threads_dim = (1, 1, 1);
  max_grid_size = (1, 1, 1);
}

-- `n += 1`
abbrev pub add_one : ℤ → ℤ
add_one (pos n) = pos (n + 1)
add_one (negsuc zero) = pos 0
add_one (negsuc (suc n)) = negsuc n

-- The real `hipGetDeviceCount`: its code, and what the variable holds after it.
pub record RealCount : Type 0 where
  pub code : HipError
  pub count : ℤ

abbrev is_success : HipError → Bool
is_success success = Bool.true
is_success _ = Bool.false

-- The code, and what is stored through `count`, if anything is.
unfoldable pub hip_get_device_count : RealCount → Bool → HipError × Option ℤ
hip_get_device_count real npu_opens =
    if is_success real.code
    then (success, some (if npu_opens then add_one real.count else real.count))
    else (real.code, none)

-- `g_real_gpu_count`, -1 until the first call.
abbrev pub not_cached : ℤ
not_cached = negsuc 0

-- The code, the properties, and the new `g_real_gpu_count`. `real_count` is what the real
-- `hipGetDeviceCount` leaves in it, `real_prop` the real `hipGetDeviceProperties`.
unfoldable pub hip_get_device_properties :
    ℤ → (ℤ → HipError × DeviceProp) → ℤ → ℤ → HipError × DeviceProp × ℤ
hip_get_device_properties real_count real_prop g_real_gpu_count device_id =
    let cached = if negative g_real_gpu_count then real_count else g_real_gpu_count in
    if ltb_ℤ device_id cached
    then ((real_prop device_id).0, (real_prop device_id).1, cached)
    else (success, npu_prop, cached)
