-- ===== src/Hip/Threads/Empty.antt =====
-- Threads that are in no call, and threads that have just begun one.
use npu_gpu_cpu.Prelude.{ℕ, ◌≡◌, refl, arith}
use npu_gpu_cpu.Hip.Memory.Contract.{Call, malloc, free, memcpy}
use npu_gpu_cpu.Hip.Memory.Ledger.{Resource}
use npu_gpu_cpu.Hip.Threads.{Pc, idle, finished, begins_malloc, begins_free, begins_copy, entry}
use npu_gpu_cpu.Hip.Threads.Hand.{in_hand, given_back, has_mapped, has_unmapped}
use npu_gpu_cpu.Hip.Threads.Mutex.{inside}
use npu_gpu_cpu.Hip.Threads.Orders.{IsReady}

-- A thread that is in no call, or has just begun one, has nothing in hand.
pub record IsEmpty (pc : Pc) : Type 0 where
  pub no_mutex : inside pc ≡ 0
  pub no_resource : (x : Resource) → in_hand x pc ≡ 0
  pub none_given : (x : Resource) → given_back x pc ≡ 0
  pub none_mapped : (a : ℕ) → has_mapped a pc ≡ 0
  pub none_unmapped : (a : ℕ) → has_unmapped a pc ≡ 0

-- The thread is in no call, or at the beginning of one.
abbrev AtRest : Pc → Type 0
AtRest idle = Unit {0}
AtRest (finished c stored) = Unit {0}
AtRest (begins_malloc ptr size) = Unit {0}
AtRest (begins_free p) = Unit {0}
AtRest (begins_copy dst src size kind) = Unit {0}
AtRest _ = ⊥

AtRest-IsEmpty : (pc : Pc) → AtRest pc → IsEmpty pc
AtRest-IsEmpty idle h = record {
  no_mutex = refl;
  no_resource = λ x. refl;
  none_given = λ x. refl;
  none_mapped = λ a. refl;
  none_unmapped = λ a. refl;
}
AtRest-IsEmpty _ h = record {
  no_mutex = ground arith;
  no_resource = λ x. ground arith;
  none_given = λ x. ground arith;
  none_mapped = λ a. ground arith;
  none_unmapped = λ a. ground arith;
}

pub ready-IsEmpty : (pc : Pc) → IsReady pc → IsEmpty pc
ready-IsEmpty idle h = AtRest-IsEmpty idle tt
ready-IsEmpty (finished c stored) h = AtRest-IsEmpty (finished c stored) tt
ready-IsEmpty _ h = absurd h

pub entry-IsEmpty : (c : Call) → IsEmpty (entry c)
unfolding entry
entry-IsEmpty (malloc r ptr size) = AtRest-IsEmpty (begins_malloc ptr size) tt
entry-IsEmpty (free r p) = AtRest-IsEmpty (begins_free p) tt
entry-IsEmpty (memcpy r dst src size kind) = AtRest-IsEmpty (begins_copy dst src size kind) tt
