-- ===== src/Hip/Threads/Race.antt =====
-- `ensure_amdgpu`, which reads and writes g_amdgpu_dev without the mutex.
use npu_gpu_cpu.Prelude.{ℕ, ◌≡◌, ◌≢◌, none, some, List, [], ◌∷◌, arith}
use npu_gpu_cpu.Hip.Memory.{Replies, open_render, device_initialize}
use npu_gpu_cpu.Hip.Threads.{checks_dev, allocates, System, moves}

-- A schedule: which thread moves, and what it is answered.
unfoldable pub follow : List (ℕ × Replies) → System → System
unfolding moves
follow [] s = s
follow ((i, r) ∷ rest) s = follow rest (moves r i s)

-- Two threads that come to `ensure_amdgpu` before the device is open, and take turns, both open the
-- render node and both initialise the device; the global holds the second answer, and neither
-- descriptor has been closed.
pub ensure_amdgpu_race :
    (s : System) (i j size size' fd fd' dev dev' : ℕ) (r r' : Replies)
    → i ≢ j
    → s.pcs i ≡ checks_dev size
    → s.pcs j ≡ checks_dev size'
    → s.globals.shim.amdgpu_dev ≡ none
    → r.render_fd ≡ some fd
    → r'.render_fd ≡ some fd'
    → r.dev ≡ some dev
    → r'.dev ≡ some dev'
    → let t = follow ((i, r) ∷ (j, r') ∷ (i, r) ∷ (j, r') ∷ (i, r) ∷ (j, r') ∷ []) s in
      (t.globals.shim.amdgpu_dev ≡ some dev')
      × (t.globals.shim.log
          ≡ device_initialize fd' (some dev')
            ∷ device_initialize fd (some dev)
            ∷ open_render (some fd')
            ∷ open_render (some fd)
            ∷ s.globals.shim.log)
      × (t.pcs i ≡ allocates size)
      × (t.pcs j ≡ allocates size')
unfolding follow moves
ensure_amdgpu_race s i j size size' fd fd' dev dev' r r' ne ei ej en er er' ed ed' = ground arith
