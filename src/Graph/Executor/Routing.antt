-- ===== src/Graph/Executor/Routing.antt =====
-- Where a plan goes on after a sub-task, and what is written to one, for the nodes of engine/graph.
use alice_core.Prelude.{
  ℕ, zero, suc, ltb, sign_bit, ◌<◌, ◌≡◌, refl, ap, arith, Bool, List, [], ◌∷◌, Option, none, some,
  add_int, length, length-modify, modify, get_elem?, get_elem?-modify_self, if◌then◌else◌,
}
use alice_core.Hermes.State.{SubTask}
use alice_core.Hermes.Snapshot.{RuntimeStep, StateUpdate}
use alice_core.Graph.Node.{Handled, outputs}
use alice_core.Graph.Executor.{next_step_after}

-- After the sub-task at the index: the executor while there is another one, then the reviewer, or
-- the end where the whole task is not reviewed.
abbrev pub onward : Bool → ℕ → ℕ → RuntimeStep
onward per_task idx total =
    if ltb (suc idx) total
    then RuntimeStep.executor
    else if per_task
    then RuntimeStep.reviewer
    else RuntimeStep.terminal

-- The index moves by one and the task goes on.
abbrev pub Moves : Bool → ℕ → ℕ → Option ℕ → RuntimeStep → Type 0
Moves per_task idx total idx_write next =
    (idx_write ≡ some (suc idx)) × (next ≡ onward per_task idx total)

pub moves :
    (per_task : Bool) (idx total : ℕ)
    → idx < total
    → total < sign_bit
    → Moves per_task idx total
        (some (add_int idx 1))
        (next_step_after per_task (add_int idx 1) total)
unfolding next_step_after
moves per_task idx total h l = (ground arith, ground arith)

-- A node makes one update, with the step that is due after it.
abbrev pub OneUpdate : (StateUpdate → RuntimeStep → Type 0) → Handled → Type 0
OneUpdate P (outputs o) = (u : StateUpdate) × (o.updates ≡ u ∷ []) × P u o.next_step
OneUpdate P _ = ⊥

-- The plan is written with the sub-task at the index changed to one with the property, and no other.
pub record TaskWrite (plan : List SubTask) (idx : ℕ) (P : SubTask → Type 0)
    (written : Option (List SubTask)) : Type 0 where
  pub new_plan : List SubTask
  pub is_written : written ≡ some new_plan
  pub size : length new_plan ≡ length plan
  pub task : SubTask
  pub there : get_elem? new_plan idx ≡ some task
  pub changed : P task
  pub only : new_plan ≡ modify plan idx (λ _. task)

modify-constant :
    (plan : List SubTask) (idx : ℕ) (f : SubTask → SubTask) (t : SubTask)
    → get_elem? plan idx ≡ some t
    → modify plan idx f ≡ modify plan idx (λ _. f t)
modify-constant [] idx f t e = refl
modify-constant (x ∷ xs) zero f t e = ap (λ o. elim o [ none ↦ f x ∷ xs | some y ↦ f y ∷ xs ]) e
modify-constant (x ∷ xs) (suc idx) f t e = ap (λ ys. x ∷ ys) (modify-constant xs idx f t e)

pub modify-TaskWrite :
    (plan : List SubTask) (idx : ℕ) (P : SubTask → Type 0) (f : SubTask → SubTask) (t : SubTask)
    → get_elem? plan idx ≡ some t
    → P (f t)
    → TaskWrite plan idx P (some (modify plan idx f))
modify-TaskWrite plan idx P f t e p = record {
  new_plan = modify plan idx f;
  is_written = refl;
  size = length-modify plan idx f;
  task = f t;
  there = get_elem?-modify_self plan idx f t e;
  changed = p;
  only = modify-constant plan idx f t e;
}
