-- ===== src/Driver/Block/Descriptor/Life.antt =====
-- The use that a driver makes of the block through its descriptor.
use npu_gpu_cpu.Prelude.{
  ℕ, zero, suc, ◌≡◌, refl, ℤ, pos, nonzero, Bool, true, Option, none, some, [], if◌then◌else◌,
  arith,
}
use npu_gpu_cpu.Driver.Block.{
  PciDev, Adev, early_init, sw_init, hw_init, hw_fini, sw_fini, suspend, resume,
}
use npu_gpu_cpu.Driver.Block.Descriptor.{
  Pci, GpuPdev, find_pci_dev, IpFuncs, npu_ip_funcs, npu_ip_block,
}
use npu_gpu_cpu.Driver.Block.Lifecycle.{
  running, Reach, load_module, early_inits, sw_inits, hw_inits, suspends, resumes, hw_finis,
  sw_finis, Kind, total, taken_by, returned_by, off_returns_all,
}

infixl 5 ◌>>=◌
abbrev pub ◌>>=◌ : ℤ × Adev → (Adev → Option Adev) → Option Adev
(r, d) >>= next = if nonzero r then none else next d

-- The driver's use of a block: a function is called only when the one before has returned 0.
unfoldable pub power_cycles : IpFuncs → ℕ → Adev → Option Adev
power_cycles funcs zero d = some d
power_cycles funcs (suc n) d = do
  asleep ← funcs.suspend d
  awake ← funcs.resume asleep
  power_cycles funcs n awake

unfoldable pub whole_life : IpFuncs → Bool → ℤ → ℕ → ℤ → ℕ → Adev → Option Adev
unfolding power_cycles
whole_life funcs memory fw_ret fw ring_ret n d = do
  found ← funcs.early_init memory d
  loaded ← funcs.sw_init fw_ret fw ring_ret found
  started ← funcs.hw_init loaded
  elim (power_cycles funcs n started) [
    | none ↦ none
    | some d' ↦ do stopped ← funcs.hw_fini d'; closed ← funcs.sw_fini stopped; some closed
  ]

early_init_ok : (slot : Option PciDev) (d : Adev) → (early_init true slot d).0 ≡ pos 0
unfolding early_init
early_init_ok slot d = ground arith

sw_init_ok : (fw : ℕ) (d : Adev) → (sw_init (pos 0) fw (pos 0) d).0 ≡ pos 0
unfolding sw_init
sw_init_ok fw d = ground arith

hw_init_ok : (d : Adev) → (hw_init d).0 ≡ pos 0
unfolding hw_init
hw_init_ok d = ground arith

hw_fini_ok : (d : Adev) → (hw_fini d).0 ≡ pos 0
unfolding hw_fini
hw_fini_ok d = ground arith

sw_fini_ok : (d : Adev) → (sw_fini d).0 ≡ pos 0
unfolding sw_fini
sw_fini_ok d = ground arith

suspend_ok : (d : Adev) → (suspend d).0 ≡ pos 0
unfolding suspend
suspend_ok d = hw_fini_ok d

resume_ok : (d : Adev) → (resume d).0 ≡ pos 0
unfolding resume
resume_ok d = hw_init_ok d

power_cycles-Reach :
    (pci : Pci) (gpu : GpuPdev) (n : ℕ) (d : Adev)
    → Reach running d
    → (d' : Adev) × (power_cycles (npu_ip_funcs pci gpu) n d ≡ some d') × Reach running d'
unfolding power_cycles npu_ip_funcs
power_cycles-Reach pci gpu zero d r = (d, refl, r)
power_cycles-Reach pci gpu (suc n) d r =
    let (d', e, r') =
      power_cycles-Reach pci gpu n (resume (suspend d).1).1 (resumes (suspends r)) in
    (d', rw (suspend_ok d, resume_ok (suspend d).1) e, r')

-- Where the memory, the firmware and the ring are to be had, loading, any number of suspends and
-- resumes, and unloading through the functions of the descriptor all return 0, and everything that
-- was taken has then been given back, with and without an NPU.
pub whole_life_returns_all :
    (type : ℕ) (pci : Pci) (gpu : GpuPdev) (fw n : ℕ)
    → (d : Adev) × (whole_life
          (npu_ip_block type pci gpu).funcs
          true
          (pos 0)
          fw
          (pos 0)
          n
          (record { npu = none; log = [] })
        ≡ some d)
      × ((k : Kind) → total (taken_by k) d.log ≡ total (returned_by k) d.log)
unfolding npu_ip_block npu_ip_funcs whole_life
whole_life_returns_all type pci gpu fw n =
    let found = (early_init true (find_pci_dev pci gpu) (record { npu = none; log = [] })).1 in
    let loaded = (sw_init (pos 0) fw (pos 0) found).1 in
    let r = hw_inits (
      sw_inits (pos 0) fw (pos 0)
        (early_inits true (find_pci_dev pci gpu) load_module (early_init_ok _ _))
        (sw_init_ok fw found)) in
    let (d, e, r') = power_cycles-Reach pci gpu n (hw_init loaded).1 r in
    (
      (sw_fini (hw_fini d).1).1,
      rw
          (
            early_init_ok (find_pci_dev pci gpu) (record { npu = none; log = [] }),
            sw_init_ok fw found,
            hw_init_ok loaded,
            e,
            hw_fini_ok d,
            sw_fini_ok (hw_fini d).1,
          )
          refl,
      off_returns_all (sw_finis (hw_finis r')),
    )
