-- ===== src/Hip/Threads/Invariant.antt =====
-- What holds after every sequence of steps.
use npu_gpu_cpu.Prelude.{
  ℕ, ◌+◌, ◌≤◌, ◌<◌, ◌≡◌, ◌≢◌, refl, ◌∙◌, some, inl, inr, Array, write, ◌==◌, arith, Option-cases,
  Bool-cases,
}
use npu_gpu_cpu.Hip.Memory.{Replies, find}
use npu_gpu_cpu.Hip.Memory.Ledger.{Resource, taken_by, settled_by, total, held}
use npu_gpu_cpu.Hip.Memory.Table.{Distinct}
use npu_gpu_cpu.Hip.Threads.{Pc, idle, tracks, Globals, step, System, moves, entry}
use npu_gpu_cpu.Hip.Threads.Count.{
  sum_over, sum_over-write, sum_over_none, le-sum_over, two-le-sum_over, sum_over-le,
}
use npu_gpu_cpu.Hip.Threads.Hand.{
  in_hand, given_back, has_mapped, has_unmapped, one_if_tracked, newly_mapped, Room, step-Balance,
  step-mapped,
}
use npu_gpu_cpu.Hip.Threads.Mutex.{
  inside, one_if, Holds, outside-Holds, step-inside, step-Holds, step-buffers, step-Distinct,
}
use npu_gpu_cpu.Hip.Threads.Orders.{Fresh, Step, runs, calls, sets, loaded, Reach, start, next}
use npu_gpu_cpu.Hip.Threads.Empty.{IsEmpty, ready-IsEmpty, entry-IsEmpty}

pub record Inv (n : ℕ) (pcs : Array Pc) (g : Globals) : Type 0 where
  pub mutex : sum_over inside n pcs ≡ one_if g.held
  pub knows : (i : ℕ) → i < n → Holds (pcs i) g.shim.buffers
  pub distinct : Distinct g.shim.buffers
  pub mapped :
      (a : ℕ)
      → sum_over (has_mapped a) n pcs + one_if_tracked a g.shim.buffers
        ≤ 1 + sum_over (has_unmapped a) n pcs
  pub balanced :
      (x : Resource)
      → total (taken_by x) g.shim.log + sum_over (given_back x) n pcs
        ≡ total (settled_by x) g.shim.log + held x g.shim.buffers + sum_over (in_hand x) n pcs

has_unmapped-le-inside : (a : ℕ) (pc : Pc) → has_unmapped a pc ≤ inside pc
has_unmapped-le-inside a idle = omega arith
has_unmapped-le-inside a _ = ground arith

newly_mapped-le : (a : ℕ) (r : Replies) (pc : Pc) → newly_mapped a r pc ≤ 1
newly_mapped-le a r idle = omega arith
newly_mapped-le a r _ = ground arith

module _ (n : ℕ) (pcs : Array Pc) (g : Globals) (inv : Inv n pcs g) (i : ℕ) (lt : i < n) where
  -- Nobody is unmapping while this thread puts a buffer into the table.
  room : (pc : Pc) → pcs i ≡ pc → Room pc g.shim.buffers
  room idle e = tt
  room (tracks b) e =
      let others =
        sum_over-le (has_unmapped b.cpu_ptr) inside n pcs i (has_unmapped-le-inside b.cpu_ptr) lt in
      let mine = le-sum_over (has_mapped b.cpu_ptr) n pcs i lt in
      ground (arith, inv.mapped b.cpu_ptr, others, mine, inv.mutex)
  room _ e = ground arith

  module _ (r : Replies) (pc : Pc) (g' : Globals) (e : step r (pcs i) g ≡ some (pc, g')) where
    may_step : inside (pcs i) ≤ one_if g.held
    may_step = omega (arith, le-sum_over inside n pcs i lt, inv.mutex)

    mutex_kept : sum_over inside n (write i pc pcs) ≡ one_if g'.held
    mutex_kept = omega (
      arith,
      sum_over-write inside n pcs i pc lt,
      step-inside r (pcs i) pc g g' e may_step,
      inv.mutex,
    )

    -- A thread that holds the mutex holds it alone.
    others_outside : (j : ℕ) → j < n → j ≢ i → inside (pcs i) ≡ 1 → inside (pcs j) ≡ 0
    others_outside j lt' ne one =
        ground (arith, two-le-sum_over inside n pcs j i lt' lt ne, inv.mutex)

    other_knows : (j : ℕ) → j < n → j ≢ i → Holds (pcs j) g'.shim.buffers
    other_knows j lt' ne = elim (step-buffers r (pcs i) pc g g' e) [
      | inl one ↦ outside-Holds (pcs j) g'.shim.buffers (others_outside j lt' ne one)
      | inr same ↦ rw same (inv.knows j lt')
    ]

    knows_kept : (j : ℕ) → j < n → Holds (write i pc pcs j) g'.shim.buffers
    knows_kept j lt' = elim (Bool-cases (j == i)) [
      | inl q ↦ rw q (step-Holds r (pcs i) pc g g' e (inv.knows i lt))
      | inr q ↦ rw q (other_knows j lt' (λ p. ground arith))
    ]

    -- A step maps at most one address more, one where nothing stood.
    mapped_kept :
        (a : ℕ)
        → (newly_mapped a r (pcs i) ≡ 1
            → sum_over (has_mapped a) n pcs + one_if_tracked a g.shim.buffers
              ≤ sum_over (has_unmapped a) n pcs)
        → sum_over (has_mapped a) n (write i pc pcs) + one_if_tracked a g'.shim.buffers
          ≤ 1 + sum_over (has_unmapped a) n (write i pc pcs)
    mapped_kept a fresh = ground (
      arith,
      sum_over-write (has_mapped a) n pcs i pc lt,
      sum_over-write (has_unmapped a) n pcs i pc lt,
      step-mapped r a (pcs i) pc g g' e (inv.knows i lt) inv.distinct,
      newly_mapped-le a r (pcs i),
      inv.mapped a,
    )

    balanced_kept :
        (x : Resource)
        → total (taken_by x) g'.shim.log + sum_over (given_back x) n (write i pc pcs)
          ≡ total (settled_by x) g'.shim.log
            + held x g'.shim.buffers
            + sum_over (in_hand x) n (write i pc pcs)
    balanced_kept x = omega (
      arith,
      sum_over-write (in_hand x) n pcs i pc lt,
      sum_over-write (given_back x) n pcs i pc lt,
      step-Balance r x (pcs i) pc g g' e (inv.knows i lt) (room (pcs i) refl),
      inv.balanced x,
    )

moves-Inv :
    (n i : ℕ) (r : Replies) (s : System)
    → i < n
    → Fresh n i r s
    → Inv n s.pcs s.globals
    → Inv n (moves r i s).pcs (moves r i s).globals
unfolding moves
moves-Inv n i r s lt fresh inv = elim (Option-cases (step r (s.pcs i) s.globals)) [
  | inl e ↦ rw (e, moves) inv
  | inr ((pc, g), e) ↦
      rw (e, moves)
        (record {
          mutex = mutex_kept n s.pcs s.globals inv i lt r pc g e;
          knows = knows_kept n s.pcs s.globals inv i lt r pc g e;
          distinct = step-Distinct r (s.pcs i) pc s.globals g e inv.distinct;
          mapped = λ a. mapped_kept n s.pcs s.globals inv i lt r pc g e a (fresh a);
          balanced = balanced_kept n s.pcs s.globals inv i lt r pc g e;
        })
]

module _ (n : ℕ) (pcs : Array Pc) (g : Globals) (i : ℕ) (pc : Pc) (lt : i < n)
    (old : IsEmpty (pcs i)) (new : IsEmpty pc) where
  -- An empty thread in the place of an empty one counts the same.
  swap_empty :
      (w : Pc → ℕ) → w (pcs i) ≡ 0 → w pc ≡ 0 → sum_over w n (write i pc pcs) ≡ sum_over w n pcs
  swap_empty w h k = omega (arith, sum_over-write w n pcs i pc lt, h, k)

  begins-Inv : Inv n pcs g → Inv n (write i pc pcs) g
  begins-Inv inv = record {
    mutex = swap_empty inside old.no_mutex new.no_mutex ∙ inv.mutex;
    knows = λ j lt'. elim (Bool-cases (j == i)) [
      | inl q ↦ rw q (outside-Holds pc g.shim.buffers new.no_mutex)
      | inr q ↦ rw q (inv.knows j lt')
    ];
    distinct = inv.distinct;
    mapped = λ a. omega (
      arith,
      swap_empty (has_mapped a) (old.none_mapped a) (new.none_mapped a),
      swap_empty (has_unmapped a) (old.none_unmapped a) (new.none_unmapped a),
      inv.mapped a,
    );
    balanced = λ x. omega (
      arith,
      swap_empty (in_hand x) (old.no_resource x) (new.no_resource x),
      swap_empty (given_back x) (old.none_given x) (new.none_given x),
      inv.balanced x,
    );
  }

Step-Inv : (n : ℕ) {s t : System} → Step n s t → Inv n s.pcs s.globals → Inv n t.pcs t.globals
Step-Inv n {s} (runs i r lt fresh) inv = moves-Inv n i r s lt fresh inv
Step-Inv n {s} (calls i c lt ready) inv =
    begins-Inv n s.pcs s.globals i (entry c) lt (ready-IsEmpty (s.pcs i) ready) (entry-IsEmpty c)
      inv
Step-Inv n {s} (sets b) inv = record {
  mutex = inv.mutex;
  knows = inv.knows;
  distinct = inv.distinct;
  mapped = inv.mapped;
  balanced = inv.balanced;
}

loaded-Inv : (n : ℕ) → Inv n loaded.pcs loaded.globals
unfolding find
loaded-Inv n = record {
  mutex = sum_over_none inside n (λ i. idle) (λ i lt. refl);
  knows = λ i lt. tt;
  distinct = tt;
  mapped = λ a. omega (arith, sum_over_none (has_mapped a) n (λ i. idle) (λ i lt. refl));
  balanced = λ x. omega (
    arith,
    sum_over_none (in_hand x) n (λ i. idle) (λ i lt. refl),
    sum_over_none (given_back x) n (λ i. idle) (λ i lt. refl),
  );
}

pub Reach-Inv : (n : ℕ) {s : System} → Reach n s → Inv n s.pcs s.globals
Reach-Inv n start = loaded-Inv n
Reach-Inv n (next r st) = Step-Inv n st (Reach-Inv n r)
