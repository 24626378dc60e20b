-- ===== src/Hip/Device/Program.antt =====
-- tests/hip_list_devices.cpp, run with the shim: the properties that it prints.
use npu_gpu_cpu.Prelude.{
  ℕ, zero, suc, ◌+◌, ◌≤◌, ◌≡◌, ◌≢◌, refl, sym, ap, ◌∙◌, ℤ, pos, negsuc, Bool, true, false, Option,
  none, some, List, [], ◌∷◌, ◌++◌, if◌then◌else◌, arith,
}
use mathlib.Core.List.{append-nil}
use npu_gpu_cpu.Hip.{HipError, success}
use npu_gpu_cpu.Hip.Device.{
  DeviceProp, npu_prop, RealCount, hip_get_device_count, hip_get_device_properties, not_cached,
}

-- `count` after the call: it is 0 before.
abbrev count_of : HipError × Option ℤ → ℤ
count_of (code, none) = pos 0
count_of (code, some c) = c

-- The rounds of `for(int i=0;i<count;i++)`.
abbrev rounds : ℤ → ℕ
rounds (pos n) = n
rounds (negsuc n) = 0

module _ (real_count : ℤ) (real_prop : ℤ → HipError × DeviceProp) where
  -- The loop from device i on; `g` is the shim's `g_real_gpu_count`.
  unfoldable pub list_from : ℤ → ℕ → ℕ → List DeviceProp
  unfolding hip_get_device_properties
  list_from g i zero = []
  list_from g i (suc left) =
      let (code, props, g') = hip_get_device_properties real_count real_prop g (pos i) in
      props ∷ list_from g' (suc i) left

-- The devices of the real library from i on.
abbrev pub real_devices : (ℤ → HipError × DeviceProp) → ℕ → ℕ → List DeviceProp
real_devices real_prop i zero = []
real_devices real_prop i (suc left) = (real_prop (pos i)).1 ∷ real_devices real_prop (suc i) left

-- The devices that `main` prints, in this order; the real library counts the same in every call.
unfoldable pub list_devices : RealCount → Bool → (ℤ → HipError × DeviceProp) → List DeviceProp
unfolding list_from
list_devices real npu_opens real_prop =
    list_from real.count real_prop not_cached 0
      (rounds (count_of (hip_get_device_count real npu_opens)))

module _ (n : ℕ) (real_prop : ℤ → HipError × DeviceProp) where
  -- The first call finds the count, the others have it.
  list_from-first :
      (left i : ℕ)
      → list_from (pos n) real_prop not_cached i left ≡ list_from (pos n) real_prop (pos n) i left
  unfolding list_from hip_get_device_properties
  list_from-first zero i = refl
  list_from-first (suc left) i = ground arith

  list_from-real :
      (left i : ℕ)
      → i + left ≤ n
      → list_from (pos n) real_prop (pos n) i left ≡ real_devices real_prop i left
  unfolding list_from hip_get_device_properties
  list_from-real zero i le = refl
  list_from-real (suc left) i le = ground (arith, list_from-real left (suc i) (omega arith))

  list_from-npu :
      (left i : ℕ)
      → i + left ≡ n
      → list_from (pos n) real_prop (pos n) i (suc left)
        ≡ real_devices real_prop i left ++ npu_prop ∷ []
  unfolding list_from hip_get_device_properties
  list_from-npu zero i e = ground arith
  list_from-npu (suc left) i e = ground (arith, list_from-npu left (suc i) (omega arith))

-- If the real library counts n devices, the program lists these in their order, with the real properties,
-- and then the NPU, if it opens.
pub list_devices_lem :
    (n : ℕ) (real : RealCount) (npu_opens : Bool) (real_prop : ℤ → HipError × DeviceProp)
    → real.code ≡ success
    → real.count ≡ pos n
    → list_devices real npu_opens real_prop
      ≡ real_devices real_prop 0 n ++ (if npu_opens then npu_prop ∷ [] else [])
unfolding list_devices hip_get_device_count
list_devices_lem n real true real_prop hc hn =
    rw (hc, hn) (list_from-first n real_prop (n + 1) 0 ∙ from_zero)
  where
    from_zero :
        list_from (pos n) real_prop (pos n) 0 (n + 1) ≡ real_devices real_prop 0 n ++ npu_prop ∷ []
    from_zero =
        ap (list_from (pos n) real_prop (pos n) 0) {x = n + 1} {y = suc n} (omega arith)
        ∙ list_from-npu n real_prop n 0 (omega arith)
list_devices_lem n real false real_prop hc hn =
    rw (hc, hn)
      (list_from-first n real_prop n 0
        ∙ list_from-real n real_prop n 0 (omega arith)
        ∙ sym (append-nil (real_devices real_prop 0 n)))

-- If the real library fails, the program lists nothing.
pub list_devices_failure :
    (real : RealCount) (npu_opens : Bool) (real_prop : ℤ → HipError × DeviceProp)
    → real.code ≢ success
    → list_devices real npu_opens real_prop ≡ []
unfolding list_devices hip_get_device_count list_from
list_devices_failure real npu_opens real_prop h = ground arith
