-- ===== src/Graph/Replan.antt =====
-- engine/graph/replan_setup_node.go: the decision how the planner starts again.
use alice_core.Prelude.{
  ℕ, ◌+◌, Bool, false, ◌&&◌, ◌||◌, Str, codes, str_eq, decimal, trim_space, is_empty, if◌then◌else◌,
  List, [], ◌∷◌, ◌++◌, Option, none, some,
}
use alice_core.Hermes.State.{SubTask}
use alice_core.Hermes.Snapshot.{HermesState, RuntimeStep, ReplanContext, no_update}
use alice_core.Graph.Node.{Handled, Moment, NodeError, fails, missing_service, route}

pub record ReplanDecision : Type 0 where
  pub goal : Str
  pub accumulated : Str
  pub preserved_sub_tasks : List SubTask
  pub attempt_idx : ℕ
  pub trigger : Str

-- `ReplanDecider.DecideReplan`: a decision or an error.
pub data Decided : Type 0 where
  decided : ReplanDecision → Decided
  undecided : NodeError → Decided

abbrev pub Decider : Type 0
Decider = ℕ → HermesState → Decided

pub record ReplanSetupNode : Type 0 where
  pub decider : Option Decider

-- A set of ids, as the list of its members.
abbrev pub seen_id : Str → List Str → Bool
seen_id id [] = false
seen_id id (x ∷ xs) = str_eq x id || seen_id id xs

-- `fmt.Sprintf("retry%d-s%d", attemptIdx, i+1)`
abbrev pub retry_id : ℕ → ℕ → Str
retry_id attempt i = codes "retry" ++ decimal attempt ++ codes "-s" ++ decimal (i + 1)

-- The ids that the loop over `preserved` marks.
unfoldable pub trimmed_ids : List SubTask → List Str
unfolding trim_space
trimmed_ids [] = []
trimmed_ids (t ∷ ts) =
    let rest = trimmed_ids ts in if is_empty (trim_space t.id) then rest else trim_space t.id ∷ rest

-- The loop over `replanned`, from the index `i`.
unfoldable pub rename_replanned : ℕ → ℕ → List Str → List SubTask → List SubTask
unfolding trim_space
rename_replanned attempt i seen [] = []
rename_replanned attempt i seen (t ∷ ts) =
    let id =
      if is_empty (trim_space t.id) || seen_id (trim_space t.id) seen
      then retry_id attempt i
      else t.id in
    record t { id = id } ∷ rename_replanned attempt (i + 1) (id ∷ seen) ts

unfoldable pub merge_preserved_sub_tasks : List SubTask → List SubTask → ℕ → List SubTask
unfolding rename_replanned trimmed_ids
merge_preserved_sub_tasks [] replanned attempt = replanned
merge_preserved_sub_tasks (t ∷ ts) replanned attempt =
    (t ∷ ts) ++ rename_replanned attempt 0 (trimmed_ids (t ∷ ts)) replanned

unfoldable pub is_noop : ReplanDecision → Bool
unfolding trim_space
is_noop d =
    is_empty (trim_space d.goal)
    && is_empty (trim_space d.accumulated)
    && is_empty d.preserved_sub_tasks
    && is_empty (trim_space d.trigger)

abbrev pub context_of : ReplanDecision → ReplanContext
context_of d = record {
  goal = d.goal;
  accumulated = d.accumulated;
  preserved_sub_tasks = d.preserved_sub_tasks;
  attempt_idx = d.attempt_idx;
  trigger = d.trigger;
}

unfoldable pub on_decision : Decided → Handled
on_decision (undecided e) = fails e
on_decision (decided d) =
    if is_noop d
    then route [] RuntimeStep.planner (codes "replan_setup_noop")
    else route (record no_update { replan = some (context_of d) } ∷ []) RuntimeStep.planner (
        if str_eq d.trigger (codes "partial")
        then codes "replan_setup_partial"
        else codes "replan_setup_full")

-- `ReplanSetupNode.Handle`
unfoldable pub replan_setup_handle : ReplanSetupNode → Moment → HermesState → Handled
unfolding on_decision is_noop
replan_setup_handle n m s = elim n.decider [
  | none ↦ fails missing_service
  | some decide ↦ on_decision (decide m.call s)
]
