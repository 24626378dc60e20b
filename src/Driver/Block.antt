-- ===== src/Driver/Block.antt =====
-- patches/amdgpu_npu.c: the IP block of the NPU. What the kernel answers (memory, the PCI slot, the
-- firmware loader, `amdgpu_ring_init`) is an argument, and what the block takes from it and gives
-- back is logged, latest first.
pub mod Path
pub mod Lifecycle
pub mod Ioctl
pub mod Descriptor
mod Examples
use npu_gpu_cpu.Prelude.{
  ℕ, ℤ, pos, negsuc, nonzero, Bool, Option, none, some, List, [], ◌∷◌, if◌then◌else◌,
}

-- The PCI function: its device and revision ids.
pub record PciDev : Type 0 where
  pub device : ℕ
  pub revision : ℕ

pub data Status : Type 0 where
  npu_uninit npu_started npu_stopped : Status

-- `struct amdgpu_npu`, less the members that no code here touches.
pub record Npu : Type 0 where
  pub pdev : Option PciDev
  pub fw : Option ℕ
  pub status : Status

pub data Event : Type 0 where
  kzalloc kfree : Event
  pci_get_slot : PciDev → Event
  pci_dev_put : PciDev → Event
  firmware_request : PciDev → ℕ → Event
  firmware_failed : PciDev → Event
  release_firmware : ℕ → Event
  ring_init : ℤ → Event
  ring_fini : Event

-- `struct amdgpu_device`, as far as the block goes.
pub record Adev : Type 0 where
  pub npu : Option Npu
  pub log : List Event

abbrev pub call : Event → Adev → Adev
call e d = record d { log = e ∷ d.log }

abbrev pub enomem : ℤ
enomem = negsuc 11

abbrev pub enodev : ℤ
enodev = negsuc 18

-- `memory`: whether kzalloc succeeds; `slot`: what pci_get_slot finds.
pub early_init : Bool → Option PciDev → Adev → ℤ × Adev
early_init memory slot d =
    if memory
    then elim slot [
      | none ↦ (
        pos 0,
        record (call kzalloc d) {
          npu = some (record { pdev = none; fw = none; status = npu_uninit });
        },
      )
      | some p ↦ (
        pos 0,
        record (call (pci_get_slot p) (call kzalloc d)) {
          npu = some (record { pdev = some p; fw = none; status = npu_uninit });
        },
      )
    ]
    else (enomem, d)

-- The firmware loader clears `npu->fw` when it fails. After `amdgpu_ring_init` has failed the
-- firmware is released and the pointer stays.
pub load : ℤ → ℕ → ℤ → Npu → PciDev → Adev → ℤ × Adev
load fw_ret fw ring_ret npu p d =
    if nonzero fw_ret
    then (fw_ret, record (call (firmware_failed p) d) { npu = some (record npu { fw = none }) })
    else let d' = record (call (ring_init ring_ret) (call (firmware_request p fw) d)) {
      npu = some (record npu { fw = some fw });
    } in
      if nonzero ring_ret then (ring_ret, call (release_firmware fw) d') else (pos 0, d')

pub sw_init : ℤ → ℕ → ℤ → Adev → ℤ × Adev
unfolding load
sw_init fw_ret fw ring_ret d = elim d.npu [
  | none ↦ (pos 0, d)
  | some npu ↦ elim npu.pdev [ none ↦ (pos 0, d) | some p ↦ load fw_ret fw ring_ret npu p d ]
]

pub hw_init : Adev → ℤ × Adev
hw_init d = elim d.npu [
  | none ↦ (pos 0, d)
  | some npu ↦ elim npu.pdev [
    | none ↦ (pos 0, d)
    | some _ ↦ (pos 0, record d { npu = some (record npu { status = npu_started }) })
  ]
]

abbrev is_started : Status → Bool
is_started npu_started = Bool.true
is_started _ = Bool.false

pub hw_fini : Adev → ℤ × Adev
hw_fini d = elim d.npu [
  | none ↦ (pos 0, d)
  | some npu ↦ elim npu.pdev [
    | none ↦ (pos 0, d)
    | some _ ↦
        if is_started npu.status
        then (pos 0, record d { npu = some (record npu { status = npu_stopped }) })
        else (pos 0, d)
  ]
]

abbrev drop_firmware : Option ℕ → Adev → Adev
drop_firmware none d = d
drop_firmware (some fw) d = call (release_firmware fw) d

abbrev drop_pdev : Option PciDev → Adev → Adev
drop_pdev none d = d
drop_pdev (some p) d = call (pci_dev_put p) d

pub sw_fini : Adev → ℤ × Adev
sw_fini d = elim d.npu [
  | none ↦ (pos 0, d)
  | some npu ↦ (
    pos 0,
    record (call kfree (drop_pdev npu.pdev (drop_firmware npu.fw (call ring_fini d)))) {
      npu = none;
    },
  )
]

pub suspend : Adev → ℤ × Adev
unfolding hw_fini
suspend d = hw_fini d

pub resume : Adev → ℤ × Adev
unfolding hw_init
resume d = hw_init d

-- The arguments of the two ioctls.
pub record NpuCtx : Type 0 where
  pub ctx_id : ℕ
  pub flags : ℕ
  pub pad : ℕ

pub record NpuExec : Type 0 where
  pub ctx_id : ℕ
  pub command_id : ℕ
  pub addr : ℕ
  pub size : ℕ
  pub flags : ℕ

pub ctx_ioctl : Adev → NpuCtx → ℤ × NpuCtx
ctx_ioctl d args = elim d.npu [
  | none ↦ (enodev, args)
  | some npu ↦ elim npu.pdev [
    | none ↦ (enodev, args)
    | some _ ↦ if is_started npu.status then (pos 0, record args { ctx_id = 1 }) else (enodev, args)
  ]
]

pub exec_ioctl : Adev → NpuExec → ℤ × NpuExec
exec_ioctl d args = elim d.npu [
  | none ↦ (enodev, args)
  | some npu ↦
      if is_started npu.status then (pos 0, record args { command_id = 1 }) else (enodev, args)
]
