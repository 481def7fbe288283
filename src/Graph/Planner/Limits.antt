-- ===== src/Graph/Planner/Limits.antt =====
-- What a dispatch of engine/graph/planner_node.go hands to the executor.
use alice_core.Prelude.{
  ℕ, ◌≡◌, refl, sym, subst, arith, Bool, true, false, ◌&&◌, is_empty, is_some, slt, if◌then◌else◌,
  if_cases, List, [], ◌∷◌, ◌++◌, ◌+◌, Option, Str, none, some, length,
}
use alice_core.Hermes.Status.{TaskStatus}
use alice_core.Hermes.State.{SubTask}
use alice_core.Hermes.Snapshot.{HermesState, StateUpdate, RuntimeStep, ReplanContext}
use alice_core.Graph.Node.{Handled, outputs, fails, too_many_sub_tasks, Moment, missing_service}
use alice_core.Graph.Replan.{rename_replanned, trimmed_ids, merge_preserved_sub_tasks}
use alice_core.Graph.Planner.{
  PlannerNode, PlannerSession, Planned, PlanResult, planned, failed, planner_handle, on_plan,
  plan_update, with_plan_usage, merged_tasks, planner_goal, replan_accumulated,
}

abbrev pub within_limit : ℕ → List SubTask → Bool
within_limit max plan = if slt 0 max && slt max (length plan) then false else true

-- As many sub-tasks, which differ in nothing but the id.
abbrev pub Renamed : List SubTask → List SubTask → Type 0
Renamed [] [] = Unit
Renamed (t ∷ ts) (x ∷ xs) = (record x { id = t.id } ≡ t) × Renamed ts xs
Renamed _ _ = ⊥

-- The preserved sub-tasks and then those of the planner, which keep their ids where nothing is
-- preserved.
abbrev pub After : List SubTask → List SubTask → List SubTask → Type 0
After [] tasks plan = plan ≡ tasks
After (t ∷ ts) tasks plan = (rest : List SubTask) × (plan ≡ (t ∷ ts) ++ rest) × Renamed tasks rest

-- The whole plan, after what a replan preserved.
abbrev pub Whole : Option ReplanContext → List SubTask → List SubTask → Type 0
Whole none tasks plan = plan ≡ tasks
Whole (some c) tasks plan = After c.preserved_sub_tasks tasks plan

abbrev pub accumulated_of : Option ReplanContext → Option Str
accumulated_of none = none
accumulated_of (some c) = some c.accumulated

-- The update of a plan: it is written whole unless it is empty, from the first sub-task on, with the
-- text of a replan context, which is cleared.
pub record Ready (n : PlannerNode) (s : HermesState) (plan : List SubTask) (u : StateUpdate)
    : Type 0 where
  pub limit : within_limit n.max_sub_tasks plan ≡ true
  pub written : u.plan ≡ (if is_empty plan then none else some plan)
  pub status : u.status ≡ some TaskStatus.executing
  pub from_first : u.current_idx ≡ some 0
  pub accumulated : u.accumulated ≡ accumulated_of s.replan
  pub clears : u.clear_replan ≡ is_some s.replan

-- What the node makes of a plan.
abbrev pub Planning : PlannerNode → HermesState → List SubTask → Handled → Type 0
Planning n s plan (outputs o) =
    (u : StateUpdate) × (o.updates ≡ u ∷ [])
    × (o.next_step ≡ RuntimeStep.executor)
    × Ready n s plan u
Planning n s plan (fails e) =
    (within_limit n.max_sub_tasks plan ≡ false)
    × (e ≡ too_many_sub_tasks (length plan) n.max_sub_tasks)
Planning n s plan _ = ⊥

-- What a dispatch answers to a result of the planner session.
abbrev pub Answers : PlannerNode → HermesState → PlanResult → Handled → Type 0
Answers n s (planned p) h =
    (plan : List SubTask) × Whole s.replan p.tasks plan × Planning n s plan h
Answers n s (failed e) h = h ≡ fails e

rename_replanned-Renamed :
    (attempt i : ℕ) (seen : List Str) (ts : List SubTask)
    → Renamed ts (rename_replanned attempt i seen ts)
unfolding rename_replanned
rename_replanned-Renamed attempt i seen [] = tt
rename_replanned-Renamed attempt i seen (t ∷ ts) =
    (refl, rename_replanned-Renamed attempt (i + 1) _ ts)

merged_tasks-Whole :
    (c : Option ReplanContext) (tasks : List SubTask) → Whole c tasks (merged_tasks c tasks)
unfolding merged_tasks merge_preserved_sub_tasks
merged_tasks-Whole none tasks = refl
merged_tasks-Whole (some c) tasks = after c.preserved_sub_tasks
  where
    after : (ps : List SubTask) → After ps tasks (merge_preserved_sub_tasks ps tasks c.attempt_idx)
    after [] = refl
    after (t ∷ ts) = (
      rename_replanned c.attempt_idx 0 (trimmed_ids (t ∷ ts)) tasks,
      refl,
      rename_replanned-Renamed c.attempt_idx 0 (trimmed_ids (t ∷ ts)) tasks,
    )

replan_accumulated-of : (c : Option ReplanContext) → replan_accumulated c ≡ accumulated_of c
replan_accumulated-of none = refl
replan_accumulated-of (some c) = refl

plan_update-Ready :
    (n : PlannerNode) (s : HermesState) (p : Planned) (plan : List SubTask)
    → within_limit n.max_sub_tasks plan ≡ true
    → Ready n s plan (plan_update n s p plan)
unfolding plan_update with_plan_usage
plan_update-Ready n s p plan h = record {
  limit = h;
  written = ground arith;
  status = ground arith;
  from_first = ground arith;
  accumulated = ground (arith, replan_accumulated-of s.replan);
  clears = ground arith;
}

on_plan-Answers :
    (n : PlannerNode) (s : HermesState) (r : PlanResult) → Answers n s r (on_plan n s r)
unfolding on_plan
on_plan-Answers n s (failed e) = refl
on_plan-Answers n s (planned p) =
    let plan = merged_tasks s.replan p.tasks in
    (
      plan,
      merged_tasks-Whole s.replan p.tasks,
      if_cases (Planning n s plan) (slt 0 n.max_sub_tasks && slt n.max_sub_tasks (length plan)) _ _
          (λ h. (rw h refl, refl)) (λ h. (_, refl, refl, plan_update-Ready n s p plan (rw h refl))),
    )

-- Every dispatch of the planner node with a session answers the session's result. An error is
-- passed on. The plan is that of the session, or for a replan the preserved sub-tasks and then those
-- of the session, in order, whose ids alone may differ, and do not where nothing is preserved. Where
-- it has more sub-tasks than a positive limit it is refused. Otherwise the executor is due: the plan
-- is written whole unless it is empty, the index is the first one, the task is executing, and a
-- replan context gives the accumulated text and is cleared.
pub planner_handle-Answers :
    (n : PlannerNode) (m : Moment) (s : HermesState) (session : PlannerSession)
    → n.planner ≡ some session
    → Answers n s (session m.call (planner_goal s) s.project_dir) (planner_handle n m s)
unfolding planner_handle
planner_handle-Answers n m s session h =
    subst
      (λ o. Answers n s (session m.call (planner_goal s) s.project_dir) (elim o [
        | none ↦ fails missing_service
        | some plan ↦ on_plan n s (plan m.call (planner_goal s) s.project_dir)
      ]))
      (sym h) (on_plan-Answers n s (session m.call (planner_goal s) s.project_dir))
