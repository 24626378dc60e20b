-- ===== src/Hip/Device/Listing.antt =====
-- Which devices the two calls list.
use npu_gpu_cpu.Prelude.{
  ℕ, ◌+◌, ◌<◌, ◌≤◌, ◌≡◌, ℤ, pos, negative, true, some, arith, ltb, if◌then◌else◌,
}
use npu_gpu_cpu.Hip.{HipError, success}
use npu_gpu_cpu.Hip.Device.{
  DeviceProp, npu_prop, RealCount, hip_get_device_count, hip_get_device_properties, not_cached,
}

-- If the real call succeeds with n GPUs and the NPU opens, n + 1 devices are reported; of these, in a
-- first call, the devices below n have
-- the real properties, and device n, the last one, has those of the NPU.
pub last_device_is_npu :
    (n : ℕ) (real : RealCount) (real_prop : ℤ → HipError × DeviceProp) (i : ℕ)
    → real.code ≡ success
    → real.count ≡ pos n
    → i < n + 1
    → (hip_get_device_count real true ≡ (success, some (pos (n + 1))))
      × (hip_get_device_properties real.count real_prop not_cached (pos i) ≡ (
          if ltb i n
          then ((real_prop (pos i)).0, (real_prop (pos i)).1, pos n)
          else (success, npu_prop, pos n)))
unfolding hip_get_device_count hip_get_device_properties
last_device_is_npu n real real_prop i hc hn hi = ground arith

-- Once a first call has found a real count that is not negative, a later call answers as it would have
-- at first, whatever the real `hipGetDeviceCount` would answer then.
pub count_is_cached :
    (n : ℕ) (later g : ℤ) (real_prop : ℤ → HipError × DeviceProp) (first second : ℤ)
    → negative g ≡ true
    → let (c, p, g') = hip_get_device_properties (pos n) real_prop g first in
      (g' ≡ pos n)
      × (hip_get_device_properties later real_prop g' second
          ≡ hip_get_device_properties (pos n) real_prop g second)
unfolding hip_get_device_properties
count_is_cached n later g real_prop first second h = ground arith

-- In a first call every id from the real count on, however large, is answered with success and the
-- NPU's properties.
pub properties_past_the_end :
    (n i : ℕ) (real_prop : ℤ → HipError × DeviceProp)
    → n ≤ i
    → hip_get_device_properties (pos n) real_prop not_cached (pos i) ≡ (success, npu_prop, pos n)
unfolding hip_get_device_properties
properties_past_the_end n i real_prop h = ground arith
