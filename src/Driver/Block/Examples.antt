-- ===== src/Driver/Block/Examples.antt =====
-- Runs through the lifecycle with an NPU at device 0x17f0, revision 0x10.
use npu_gpu_cpu.Prelude.{
  ◌*◌, ◌/◌, ◌%◌, ◌==◌, if◌then◌else◌, ◌+◌, ◌≡◌, refl, pos, negsuc, true, none, some, [], arith,
}
use npu_gpu_cpu.Driver.Block.{
  PciDev, npu_uninit, Adev, early_init, sw_init, hw_init, hw_fini, sw_fini, suspend, resume, NpuCtx,
  NpuExec, ctx_ioctl, exec_ioctl,
}
use npu_gpu_cpu.Driver.Block.Path.{fw_path, printed_path, fw_path_faithful}
use npu_gpu_cpu.Driver.Block.Lifecycle.{
  Kind, off, early, running, Reach, load_module, early_inits, sw_inits, hw_inits, hw_finis,
  sw_finis, memory, pci_reference, firmware, total, taken_by, returned_by, owned, Reach-Owes,
  off_returns_all, sw_init_ring_failure,
}
use npu_gpu_cpu.Driver.Block.Descriptor.{Pci, find_pci_dev, npu_ip_block}
use npu_gpu_cpu.Driver.Block.Descriptor.Life.{whole_life, whole_life_returns_all}
use npu_gpu_cpu.Driver.Block.Ioctl.{ctx_ioctl-exec_ioctl, exec_ioctl-running, resume-suspend}

abbrev npu_pci : PciDev
npu_pci = record { device = 0x17f0; revision = 0x10 }

abbrev fresh : Adev
fresh = record { npu = none; log = [] }

abbrev found : Adev
found = (early_init true (some npu_pci) fresh).1

abbrev found-Reach : Reach early found
unfolding early_init
found-Reach = early_inits true (some npu_pci) load_module refl

abbrev started : Adev
started = (hw_init (sw_init (pos 0) 9 (pos 0) found).1).1

abbrev started-Reach : Reach running started
unfolding early_init sw_init
started-Reach = hw_inits (sw_inits (pos 0) 9 (pos 0) found-Reach refl)

abbrev finished : Adev
finished = (sw_fini (hw_fini started).1).1

abbrev finished-Reach : Reach off finished
finished-Reach = sw_finis (hw_finis started-Reach)

Reach-Owes_example :
    total (taken_by firmware) started.log
    ≡ total (returned_by firmware) started.log + owned firmware started.npu
Reach-Owes_example = Reach-Owes started-Reach firmware

off_returns_all_test :
    total (taken_by pci_reference) finished.log ≡ total (returned_by pci_reference) finished.log
off_returns_all_test = off_returns_all finished-Reach pci_reference

sw_init_ring_failure_example :
    let failed = (sw_init (pos 0) 9 (negsuc 11) found).1 in
    let closed = (sw_fini failed).1 in
    (total (taken_by memory) failed.log ≡ total (returned_by memory) failed.log + 1)
    × (total (taken_by pci_reference) failed.log ≡ total (returned_by pci_reference) failed.log + 1)
    × (total (returned_by firmware) closed.log ≡ total (taken_by firmware) closed.log + 1)
unfolding early_init
sw_init_ring_failure_example =
    sw_init_ring_failure (record { pdev = some npu_pci; fw = none; status = npu_uninit }) npu_pci 9
      (negsuc 11) found-Reach refl refl (ground arith)

abbrev ctx : NpuCtx
ctx = record { ctx_id = 0; flags = 0; pad = 0 }

abbrev exec : NpuExec
exec = record { ctx_id = 1; command_id = 0; addr = 0x1000; size = 64; flags = 0 }

ctx_ioctl-exec_ioctl_test : (ctx_ioctl started ctx).0 ≡ (exec_ioctl started exec).0
ctx_ioctl-exec_ioctl_test = ctx_ioctl-exec_ioctl ctx exec started-Reach

exec_ioctl-running_test : running ≡ running
unfolding early_init sw_init hw_init exec_ioctl
exec_ioctl-running_test = exec_ioctl-running exec started-Reach refl

resume-suspend_test : (resume (suspend started).1).1 ≡ started
resume-suspend_test = resume-suspend started-Reach

fw_path_faithful_test :
    (fw_path npu_pci ≡ printed_path npu_pci) × (npu_pci.device ≡ 0x17f0) × (npu_pci.revision ≡ 0x10)
fw_path_faithful_test =
    fw_path_faithful npu_pci npu_pci (omega arith) (omega arith) (omega arith) (omega arith) refl

-- The kernel's macros, and an NPU at function 1 of the slot of every GPU.
abbrev pci : Pci
pci = record {
  slot = λ devfn. devfn / 8 % 32;
  devfn = λ slot function. slot % 32 * 8 + function % 8;
  get_slot = λ bus devfn. if devfn % 8 == 1 then some npu_pci else none;
}

npu_found : find_pci_dev pci (record { bus = 0xc4; devfn = 0 }) ≡ some npu_pci
unfolding find_pci_dev
npu_found = refl

whole_life_returns_all_example :
    (d : Adev) × (whole_life
        (npu_ip_block 12 pci (record { bus = 0xc4; devfn = 0 })).funcs
        true
        (pos 0)
        9
        (pos 0)
        3
        fresh
      ≡ some d)
    × ((k : Kind) → total (taken_by k) d.log ≡ total (returned_by k) d.log)
whole_life_returns_all_example =
    whole_life_returns_all 12 pci (record { bus = 0xc4; devfn = 0 }) 9 3
