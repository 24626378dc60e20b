-- ===== src/Driver/Block/Ioctl.antt =====
-- The two ioctls, and the power management hooks.
use npu_gpu_cpu.Prelude.{◌≡◌, refl, pos, arith}
use npu_gpu_cpu.Driver.Block.{
  Adev, NpuCtx, NpuExec, hw_init, hw_fini, suspend, resume, ctx_ioctl, exec_ioctl,
}
use npu_gpu_cpu.Driver.Block.Lifecycle.{
  Phase, off, early, failed, ready, running, halted, Reach, Reach-StatusIs, StatusIs,
}

status_cases :
    (p : Phase) (d : Adev) (ctx : NpuCtx) (exec : NpuExec)
    → StatusIs p d.npu
    → (ctx_ioctl d ctx).0 ≡ (exec_ioctl d exec).0
unfolding ctx_ioctl exec_ioctl
status_cases off d ctx exec h = ground arith
status_cases early d ctx exec h = ground arith
status_cases failed d ctx exec h = ground arith
status_cases ready d ctx exec h = ground arith
status_cases running d ctx exec h = ground arith
status_cases halted d ctx exec h = ground arith

-- Along the lifecycle both ioctls return the same code, although only the first tests for the PCI
-- function.
pub ctx_ioctl-exec_ioctl :
    {p : Phase} {d : Adev} (ctx : NpuCtx) (exec : NpuExec)
    → Reach p d
    → (ctx_ioctl d ctx).0 ≡ (exec_ioctl d exec).0
ctx_ioctl-exec_ioctl {p} {d} ctx exec r = status_cases p d ctx exec (Reach-StatusIs r)

only_running :
    (p : Phase) (d : Adev) (exec : NpuExec)
    → StatusIs p d.npu
    → (exec_ioctl d exec).0 ≡ pos 0
    → p ≡ running
unfolding exec_ioctl
only_running off d exec h e = ground arith
only_running early d exec h e = ground arith
only_running failed d exec h e = ground arith
only_running ready d exec h e = ground arith
only_running running d exec h e = refl
only_running halted d exec h e = ground arith

-- Along the lifecycle a command is accepted only in the running phase, between hw_init or resume and
-- hw_fini or suspend.
pub exec_ioctl-running :
    {p : Phase} {d : Adev} (exec : NpuExec)
    → Reach p d
    → (exec_ioctl d exec).0 ≡ pos 0
    → p ≡ running
exec_ioctl-running {p} {d} exec r = only_running p d exec (Reach-StatusIs r)

-- In the running phase, resume after suspend restores the device as it was.
pub resume-suspend : {d : Adev} → Reach running d → (resume (suspend d).1).1 ≡ d
unfolding resume suspend hw_init hw_fini
resume-suspend {d} r = let h = Reach-StatusIs r in ground arith
