-- ===== src/Hip/Memory/Abstract.antt =====
-- The shim on states in which the order of the table's entries is forgotten: a quotient of the states.
use mathlib.Core.Path.{ap₂}
use mathlib.Core.Quot
use mathlib.Core.Quot.{Quot, Quot-set}
use npu_gpu_cpu.Prelude.{◌≡◌, refl, sym, ap, ◌∙◌, List, [], ◌∷◌}
use native.Mathlib.Decide.{ℕ_discrete}
use npu_gpu_cpu.Hip.{HipError}
use npu_gpu_cpu.Hip.Memory.{Shim}
use npu_gpu_cpu.Hip.Memory.Table.{Distinct}
use npu_gpu_cpu.Hip.Memory.Contract.{Call, Result}
use npu_gpu_cpu.Hip.Memory.Refine.{perform, perform_all, perform-Distinct}
use npu_gpu_cpu.Hip.Memory.Alike.{Alike, perform-Alike}

abbrev Concrete : Type 0
Concrete = (s : Shim) × Distinct s.buffers

abbrev SameState : Concrete → Concrete → Type 0
SameState s t = Alike s.0 t.0

abbrev pub Abstract : Type 0
Abstract = Quot SameState

abbrev pub abstract_of : (s : Shim) → Distinct s.buffers → Abstract
abstract_of s d = Quot.mk (s, d)

HipError-discrete : Discrete HipError
HipError-discrete = hlevel ℕ_discrete

Result-set : IsSet Result
Result-set = hlevel ℕ_discrete

result_of : Call → Concrete → Result
result_of c (s, d) = ((perform c s).code, (perform c s).stored)

state_after : Call → Concrete → Concrete
state_after c (s, d) = ((perform c s).shim, perform-Distinct c s d)

-- What a call returns.
answer : Call → Abstract → Result
unfolding result_of
answer c = Quot.lift Result-set (result_of c) λ s t h.
    let (code, stored, _) = perform-Alike c s.0 t.0 s.1 t.1 h in ap₂ (λ x y. (x, y)) code stored

-- What it leaves.
after : Call → Abstract → Abstract
unfolding state_after
after c =
    Quot.lift Quot-set (λ s. Quot.mk (state_after c s))
      λ s t h. Quot.sound (let (_, _, alike) = perform-Alike c s.0 t.0 s.1 t.1 h in alike)

pub answers : List Call → Abstract → List Result
unfolding answer after
answers [] a = []
answers (c ∷ cs) a = answer c a ∷ answers cs (after c a)

answers_lem :
    (cs : List Call) (s : Shim) (d : Distinct s.buffers)
    → perform_all cs s ≡ answers cs (abstract_of s d)
unfolding perform_all answers answer after state_after result_of
answers_lem [] s d = refl
answers_lem (c ∷ cs) s d =
    ap (λ xs. ((perform c s).code, (perform c s).stored) ∷ xs)
      (answers_lem cs (perform c s).shim (perform-Distinct c s d))

-- The order of the table's entries is not seen from outside: in two states that are the same but for
-- that order, every sequence of calls returns and stores the same.
pub perform_all-Abstract :
    (cs : List Call) (s t : Shim) (d : Distinct s.buffers) (e : Distinct t.buffers)
    → abstract_of s d ≡ abstract_of t e
    → perform_all cs s ≡ perform_all cs t
perform_all-Abstract cs s t d e h =
    answers_lem cs s d ∙ ap (answers cs) h ∙ sym (answers_lem cs t e)
