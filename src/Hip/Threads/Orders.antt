-- ===== src/Hip/Threads/Orders.antt =====
-- All orders in which n threads can make their steps.
use npu_gpu_cpu.Prelude.{ℕ, ◌+◌, ◌≤◌, ◌<◌, ◌≡◌, Bool, false, none, [], write}
use npu_gpu_cpu.Hip.Memory.{Replies}
use npu_gpu_cpu.Hip.Memory.Contract.{Call}
use npu_gpu_cpu.Hip.Threads.{Pc, idle, finished, System, moves, entry}
use npu_gpu_cpu.Hip.Threads.Count.{sum_over}
use npu_gpu_cpu.Hip.Threads.Hand.{has_mapped, has_unmapped, one_if_tracked, newly_mapped}

-- No mapping stands at the address a: each one there, of a thread or of a tracked buffer, has been
-- given back.
abbrev pub Unmapped : ℕ → ℕ → System → Type 0
Unmapped n a s =
    sum_over (has_mapped a) n s.pcs + one_if_tracked a s.globals.shim.buffers
    ≤ sum_over (has_unmapped a) n s.pcs

-- libdrm maps a buffer object at an address where nothing is mapped.
abbrev pub Fresh : ℕ → ℕ → Replies → System → Type 0
Fresh n i r s = (a : ℕ) → newly_mapped a r (s.pcs i) ≡ 1 → Unmapped n a s

-- The thread is in no call.
abbrev pub IsReady : Pc → Type 0
IsReady idle = Unit {0}
IsReady (finished c stored) = Unit {0}
IsReady _ = ⊥

-- A thread goes on, or begins a call, or the flag `g_npu_available` is set.
pub data Step (n : ℕ) (s : System) : System → Type 0 where
  runs : (i : ℕ) (r : Replies) → i < n → Fresh n i r s → Step n s (moves r i s)
  calls :
      (i : ℕ) (c : Call)
      → i < n
      → IsReady (s.pcs i)
      → Step n s (record s { pcs = write i (entry c) s.pcs })
  sets :
      (b : Bool)
      → Step n s (record s {
        globals = record s.globals { shim = record s.globals.shim { npu_available = b } };
      })

abbrev pub loaded : System
loaded = record {
  pcs = λ i. idle;
  globals = record {
    shim = record { amdgpu_dev = none; buffers = []; npu_available = false; log = [] };
    held = false;
  };
}

pub data Reach (n : ℕ) : System → Type 0 where
  start : Reach n loaded
  next : {s t : System} → Reach n s → Step n s t → Reach n t
