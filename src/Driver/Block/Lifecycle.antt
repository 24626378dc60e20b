-- ===== src/Driver/Block/Lifecycle.antt =====
-- The lifecycle early_init → sw_init → hw_init → … → hw_fini → sw_fini, with suspend and resume.
use npu_gpu_cpu.Prelude.{
  ℕ, ◌+◌, ◌≡◌, ◌≢◌, refl, ℤ, pos, nonzero, Bool, true, Option, none, some, List, [], ◌∷◌, arith,
}
use npu_gpu_cpu.Driver.Block.{
  PciDev, npu_uninit, npu_started, npu_stopped, Npu, Event, kzalloc, kfree, pci_get_slot,
  pci_dev_put, firmware_request, release_firmware, Adev, early_init, sw_init, hw_init, hw_fini,
  sw_fini, suspend, resume,
}

pub data Phase : Type 0 where
  off early failed ready running halted : Phase

-- The order of calls that the driver framework keeps to: a hook is called only after the one before
-- it in the lifecycle has returned 0. Of the failures, that of `amdgpu_ring_init` in `sw_init` is not among
-- the steps: `sw_init_ring_failure` is about it.
pub data Reach : Phase → Adev → Type 0 where
  load_module : Reach off (record { npu = none; log = [] })
  early_inits :
      {d : Adev} (memory : Bool) (slot : Option PciDev)
      → Reach off d
      → (early_init memory slot d).0 ≡ pos 0
      → Reach early (early_init memory slot d).1
  early_fails :
      {d : Adev} (memory : Bool) (slot : Option PciDev)
      → Reach off d
      → (early_init memory slot d).0 ≢ pos 0
      → Reach off (early_init memory slot d).1
  firmware_fails :
      {d : Adev} (fw_ret : ℤ) (fw : ℕ) (ring_ret : ℤ)
      → Reach early d
      → nonzero fw_ret ≡ true
      → (sw_init fw_ret fw ring_ret d).0 ≢ pos 0
      → Reach failed (sw_init fw_ret fw ring_ret d).1
  sw_inits :
      {d : Adev} (fw_ret : ℤ) (fw : ℕ) (ring_ret : ℤ)
      → Reach early d
      → (sw_init fw_ret fw ring_ret d).0 ≡ pos 0
      → Reach ready (sw_init fw_ret fw ring_ret d).1
  hw_inits : {d : Adev} → Reach ready d → Reach running (hw_init d).1
  suspends : {d : Adev} → Reach running d → Reach halted (suspend d).1
  resumes : {d : Adev} → Reach halted d → Reach running (resume d).1
  hw_finis : {d : Adev} → Reach running d → Reach halted (hw_fini d).1
  sw_finis : {d : Adev} → Reach halted d → Reach off (sw_fini d).1

pub data Kind : Type 0 where
  memory pci_reference firmware : Kind

abbrev pub taken_by : Kind → Event → ℕ
taken_by memory kzalloc = 1
taken_by pci_reference (pci_get_slot p) = 1
taken_by firmware (firmware_request p f) = 1
taken_by _ _ = 0

abbrev pub returned_by : Kind → Event → ℕ
returned_by memory kfree = 1
returned_by pci_reference (pci_dev_put p) = 1
returned_by firmware (release_firmware f) = 1
returned_by _ _ = 0

abbrev pub total : (Event → ℕ) → List Event → ℕ
total f [] = 0
total f (e ∷ log) = f e + total f log

abbrev one_if_some {ℓ} : {A : Type ℓ} → Option A → ℕ
one_if_some none = 0
one_if_some (some a) = 1

abbrev pub owned : Kind → Option Npu → ℕ
owned k none = 0
owned memory (some npu) = 1
owned pci_reference (some npu) = one_if_some npu.pdev
owned firmware (some npu) = one_if_some npu.fw

abbrev Owes : Kind → Adev → Type 0
Owes k d = total (taken_by k) d.log ≡ total (returned_by k) d.log + owned k d.npu

-- What each phase knows of the device.
abbrev pub StatusIs : Phase → Option Npu → Type 0
StatusIs off none = Unit
StatusIs off (some npu) = ⊥
StatusIs p none = ⊥
StatusIs early (some npu) = (npu.status ≡ npu_uninit) × (npu.fw ≡ none)
StatusIs failed (some npu) = (npu.status ≡ npu_uninit) × (npu.fw ≡ none)
StatusIs ready (some npu) = npu.status ≡ npu_uninit
StatusIs running (some npu) =
    npu.status ≡ elim npu.pdev [ none ↦ npu_uninit | some _ ↦ npu_started ]
StatusIs halted (some npu) = npu.status ≡ elim npu.pdev [ none ↦ npu_uninit | some _ ↦ npu_stopped ]

pub Reach-StatusIs : {p : Phase} {d : Adev} → Reach p d → StatusIs p d.npu
unfolding early_init sw_init hw_init hw_fini sw_fini suspend resume
Reach-StatusIs load_module = tt
Reach-StatusIs (early_inits m slot r e) = let h = Reach-StatusIs r in ground arith
Reach-StatusIs (early_fails m slot r e) = let h = Reach-StatusIs r in ground arith
Reach-StatusIs (firmware_fails {d = d} fw_ret fw ring_ret r n e) =
    let h = Reach-StatusIs r in ground arith
Reach-StatusIs (sw_inits {d = d} fw_ret fw ring_ret r e) = let h = Reach-StatusIs r in ground arith
Reach-StatusIs (hw_inits {d = d} r) = let h = Reach-StatusIs r in ground arith
Reach-StatusIs (suspends {d = d} r) = let h = Reach-StatusIs r in ground arith
Reach-StatusIs (resumes {d = d} r) = let h = Reach-StatusIs r in ground arith
Reach-StatusIs (hw_finis {d = d} r) = let h = Reach-StatusIs r in ground arith
Reach-StatusIs (sw_finis {d = d} r) = let h = Reach-StatusIs r in ground arith

early_init-Owes :
    (k : Kind) (m : Bool) (slot : Option PciDev) (d : Adev)
    → StatusIs off d.npu
    → Owes k d
    → Owes k (early_init m slot d).1
unfolding early_init
early_init-Owes memory m slot d h o = ground arith
early_init-Owes pci_reference m slot d h o = ground arith
early_init-Owes firmware m slot d h o = ground arith

sw_init-Owes :
    (k : Kind) (fw_ret : ℤ) (fw : ℕ) (ring_ret : ℤ) (d : Adev)
    → StatusIs early d.npu
    → (sw_init fw_ret fw ring_ret d).0 ≡ pos 0
    → Owes k d
    → Owes k (sw_init fw_ret fw ring_ret d).1
unfolding sw_init
sw_init-Owes memory fw_ret fw ring_ret d h e o = ground arith
sw_init-Owes pci_reference fw_ret fw ring_ret d h e o = ground arith
sw_init-Owes firmware fw_ret fw ring_ret d h e o = ground arith

firmware_fails-Owes :
    (k : Kind) (fw_ret : ℤ) (fw : ℕ) (ring_ret : ℤ) (d : Adev)
    → StatusIs early d.npu
    → nonzero fw_ret ≡ true
    → Owes k d
    → Owes k (sw_init fw_ret fw ring_ret d).1
unfolding sw_init
firmware_fails-Owes memory fw_ret fw ring_ret d h n o = ground arith
firmware_fails-Owes pci_reference fw_ret fw ring_ret d h n o = ground arith
firmware_fails-Owes firmware fw_ret fw ring_ret d h n o = ground arith

hw_init-Owes : (k : Kind) (d : Adev) → Owes k d → Owes k (hw_init d).1
unfolding hw_init
hw_init-Owes memory d o = ground arith
hw_init-Owes pci_reference d o = ground arith
hw_init-Owes firmware d o = ground arith

hw_fini-Owes : (k : Kind) (d : Adev) → Owes k d → Owes k (hw_fini d).1
unfolding hw_fini
hw_fini-Owes memory d o = ground arith
hw_fini-Owes pci_reference d o = ground arith
hw_fini-Owes firmware d o = ground arith

sw_fini-Owes : (k : Kind) (d : Adev) → Owes k d → Owes k (sw_fini d).1
unfolding sw_fini
sw_fini-Owes memory d o = ground arith
sw_fini-Owes pci_reference d o = ground arith
sw_fini-Owes firmware d o = ground arith

-- As long as every hook is called only after the one before it in the lifecycle has returned 0, suspend and
-- resume included, the memory, the PCI reference and the firmware that were taken and not given back are
-- exactly those that the device's NPU state holds: also after an early_init that fails and after a sw_init
-- that fails to load the firmware, but a failure of `amdgpu_ring_init` in sw_init is excluded.
pub Reach-Owes :
    {p : Phase} {d : Adev}
    → Reach p d
    → (k : Kind) → total (taken_by k) d.log ≡ total (returned_by k) d.log + owned k d.npu
unfolding suspend resume
Reach-Owes load_module memory = refl
Reach-Owes load_module pci_reference = refl
Reach-Owes load_module firmware = refl
Reach-Owes (early_inits {d = d} m slot r e) k =
    early_init-Owes k m slot d (Reach-StatusIs r) (Reach-Owes r k)
Reach-Owes (early_fails {d = d} m slot r e) k =
    early_init-Owes k m slot d (Reach-StatusIs r) (Reach-Owes r k)
Reach-Owes (firmware_fails {d = d} fw_ret fw ring_ret r n e) k =
    firmware_fails-Owes k fw_ret fw ring_ret d (Reach-StatusIs r) n (Reach-Owes r k)
Reach-Owes (sw_inits {d = d} fw_ret fw ring_ret r e) k =
    sw_init-Owes k fw_ret fw ring_ret d (Reach-StatusIs r) e (Reach-Owes r k)
Reach-Owes (hw_inits {d = d} r) k = hw_init-Owes k d (Reach-Owes r k)
Reach-Owes (suspends {d = d} r) k = hw_fini-Owes k d (Reach-Owes r k)
Reach-Owes (resumes {d = d} r) k = hw_init-Owes k d (Reach-Owes r k)
Reach-Owes (hw_finis {d = d} r) k = hw_fini-Owes k d (Reach-Owes r k)
Reach-Owes (sw_finis {d = d} r) k = sw_fini-Owes k d (Reach-Owes r k)

-- When the lifecycle is over, everything that was taken has been given back.
pub off_returns_all :
    {d : Adev} → Reach off d → (k : Kind) → total (taken_by k) d.log ≡ total (returned_by k) d.log
off_returns_all {d} r k = let h = Reach-StatusIs r in let o = Reach-Owes r k in ground arith

-- Where `amdgpu_ring_init` fails for a device with an NPU after early_init, `sw_init` leaves the memory and the PCI
-- reference taken, and if `sw_fini` is called after it, the firmware has been released once more than
-- it was requested.
pub sw_init_ring_failure :
    {d : Adev} (npu : Npu) (p : PciDev) (fw : ℕ) (ring_ret : ℤ)
    → Reach early d
    → d.npu ≡ some npu
    → npu.pdev ≡ some p
    → nonzero ring_ret ≡ true
    → let failed = (sw_init (pos 0) fw ring_ret d).1 in
      let finished = (sw_fini failed).1 in
      (total (taken_by memory) failed.log ≡ total (returned_by memory) failed.log + 1)
      × (total (taken_by pci_reference) failed.log
          ≡ total (returned_by pci_reference) failed.log + 1)
      × (total (returned_by firmware) finished.log ≡ total (taken_by firmware) finished.log + 1)
unfolding sw_init sw_fini
sw_init_ring_failure {d} npu p fw ring_ret r en ep er =
    let h = Reach-StatusIs r in
    let m = Reach-Owes r memory in
    let q = Reach-Owes r pci_reference in let f = Reach-Owes r firmware in ground arith
