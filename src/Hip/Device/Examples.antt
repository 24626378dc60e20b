-- ===== src/Hip/Device/Examples.antt =====
-- The device list with one GPU.
use npu_gpu_cpu.Prelude.{
  [], ◌∷◌, ◌++◌, ◌+◌, ◌≡◌, refl, ℤ, pos, true, some, arith, if◌then◌else◌, ltb,
}
use npu_gpu_cpu.Hip.{HipError, success, other}
use npu_gpu_cpu.Hip.Device.Program.{
  list_from, real_devices, list_devices, list_devices_lem, list_devices_failure,
}
use npu_gpu_cpu.Hip.Device.{
  DeviceProp, npu_prop, RealCount, hip_get_device_count, hip_get_device_properties, not_cached,
}
use npu_gpu_cpu.Hip.Device.Listing.{last_device_is_npu, count_is_cached, properties_past_the_end}

abbrev gpu_prop : DeviceProp
gpu_prop = record npu_prop { name = "GPU"; major = 11; integrated = 0 }

abbrev one_gpu : RealCount
one_gpu = record { code = success; count = pos 1 }

abbrev real_prop : ℤ → HipError × DeviceProp
real_prop i = (success, gpu_prop)

last_device_is_npu_test :
    (hip_get_device_count one_gpu true ≡ (success, some (pos (1 + 1))))
    × (hip_get_device_properties (pos 1) real_prop not_cached (pos 1)
        ≡ (if ltb 1 1 then (success, gpu_prop, pos 1) else (success, npu_prop, pos 1)))
last_device_is_npu_test = last_device_is_npu 1 one_gpu real_prop 1 refl refl (omega arith)

count_is_cached_test :
    let (c, p, g') = hip_get_device_properties (pos 1) real_prop not_cached (pos 0) in
    (g' ≡ pos 1)
    × (hip_get_device_properties (pos 2) real_prop g' (pos 1)
        ≡ hip_get_device_properties (pos 1) real_prop not_cached (pos 1))
count_is_cached_test = count_is_cached 1 (pos 2) not_cached real_prop (pos 0) (pos 1) (ground arith)

properties_past_the_end_test :
    hip_get_device_properties (pos 1) real_prop not_cached (pos 99) ≡ (success, npu_prop, pos 1)
properties_past_the_end_test = properties_past_the_end 1 99 real_prop (omega arith)

list_devices_lem_example :
    list_devices one_gpu true real_prop ≡ real_devices real_prop 0 1 ++ npu_prop ∷ []
list_devices_lem_example = list_devices_lem 1 one_gpu true real_prop refl refl

two_devices : list_devices one_gpu true real_prop ≡ gpu_prop ∷ npu_prop ∷ []
unfolding list_devices list_from hip_get_device_count hip_get_device_properties
two_devices = refl

abbrev no_driver : RealCount
no_driver = record { code = other 100; count = pos 0 }

list_devices_failure_test : list_devices no_driver true real_prop ≡ []
list_devices_failure_test = list_devices_failure no_driver true real_prop (λ e. cc)
