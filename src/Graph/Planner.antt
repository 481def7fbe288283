-- ===== src/Graph/Planner.antt =====
-- engine/graph/planner_node.go: the goal is decomposed into the plan.
pub mod Limits
use alice_core.Prelude.{
  ℕ, Bool, not, ◌&&◌, ◌||◌, Str, codes, trim_space, is_empty, is_some, add_int, slt, if◌then◌else◌,
  List, [], ◌∷◌, Option, none, some, length,
}
use alice_core.Hermes.Status.{TaskStatus}
use alice_core.Hermes.Usage.{Cost}
use alice_core.Hermes.State.{SubTask}
use alice_core.Hermes.Snapshot.{HermesState, StateUpdate, RuntimeStep, ReplanContext, no_update}
use alice_core.Graph.Node.{
  Handled, Moment, NodeError, fails, missing_service, too_many_sub_tasks, route, reported,
}
use alice_core.Graph.Replan.{merge_preserved_sub_tasks}

-- What `PlannerSession.Plan` returns without an error, and `SessionID` after it; `costs` tells
-- whether the cost is not zero.
pub record Planned : Type 0 where
  pub tasks : List SubTask
  pub input : ℕ
  pub output : ℕ
  pub cost : Cost
  pub costs : Bool
  pub session_id : Str

pub data PlanResult : Type 0 where
  planned : Planned → PlanResult
  failed : NodeError → PlanResult

-- The planner session: a plan for a goal in a project directory.
abbrev pub PlannerSession : Type 0
PlannerSession = ℕ → Str → Str → PlanResult

pub record PlannerNode : Type 0 where
  pub planner : Option PlannerSession
  pub planner_model : Str
  pub max_sub_tasks : ℕ

-- The goal that the planner is given.
unfoldable pub planner_goal : HermesState → Str
unfolding trim_space
planner_goal s = elim s.replan [
  | none ↦ s.goal
  | some c ↦ if is_empty (trim_space c.goal) then s.goal else c.goal
]

-- `mergePreservedSubTasks` where a replan preserved sub-tasks.
unfoldable pub merged_tasks : Option ReplanContext → List SubTask → List SubTask
unfolding merge_preserved_sub_tasks
merged_tasks none tasks = tasks
merged_tasks (some c) tasks = merge_preserved_sub_tasks c.preserved_sub_tasks tasks c.attempt_idx

abbrev pub replan_accumulated : Option ReplanContext → Option Str
replan_accumulated none = none
replan_accumulated (some c) = some c.accumulated

-- The telemetry of a plan: any of the three counts is enough.
unfoldable pub with_plan_usage : Str → Planned → StateUpdate → StateUpdate
with_plan_usage model p u =
    let counters = reported p.input p.input 0 0 p.output p.cost in
    if not (is_empty model) && (slt 0 p.input || slt 0 p.output || p.costs)
    then record u {
      model_usages = record { model = model; counters = counters } ∷ [];
      phase_usages = record { phase = codes "planner"; model = model; counters = counters } ∷ [];
      token_usage_delta = add_int p.input p.output;
    }
    else u

unfoldable pub plan_update : PlannerNode → HermesState → Planned → List SubTask → StateUpdate
unfolding with_plan_usage
plan_update n s p tasks = with_plan_usage n.planner_model p (record no_update {
  status = some TaskStatus.executing;
  current_idx = some 0;
  plan = if is_empty tasks then none else some tasks;
  accumulated = replan_accumulated s.replan;
  clear_replan = is_some s.replan;
  planner_session_id = if is_empty p.session_id then none else some p.session_id;
})

unfoldable pub on_plan : PlannerNode → HermesState → PlanResult → Handled
unfolding plan_update merged_tasks
on_plan n s (failed e) = fails e
on_plan n s (planned p) =
    let tasks = merged_tasks s.replan p.tasks in
    if slt 0 n.max_sub_tasks && slt n.max_sub_tasks (length tasks)
    then fails (too_many_sub_tasks (length tasks) n.max_sub_tasks)
    else route (plan_update n s p tasks ∷ []) RuntimeStep.executor (codes "plan_ready")

-- `PlannerNode.Handle`
unfoldable pub planner_handle : PlannerNode → Moment → HermesState → Handled
unfolding on_plan planner_goal
planner_handle n m s = elim n.planner [
  | none ↦ fails missing_service
  | some plan ↦ on_plan n s (plan m.call (planner_goal s) s.project_dir)
]
