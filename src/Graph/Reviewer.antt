-- ===== src/Graph/Reviewer.antt =====
-- engine/graph/reviewer_node.go: the review of the whole task.
use alice_core.Prelude.{
  ℕ, Bool, ◌||◌, not, Str, codes, str_eq, is_empty, add_int, ◌==◌, if◌then◌else◌, List, [], ◌∷◌,
  Option, none, some,
}
use alice_core.Hermes.Status.{TaskStatus}
use alice_core.Hermes.Usage.{Cost}
use alice_core.Hermes.Snapshot.{HermesState, StateUpdate, RuntimeStep, no_update}
use alice_core.Graph.Node.{Handled, Moment, fails, missing_service, route, reported, with_usage}

pub record TaskReviewResult : Type 0 where
  pub verdict : Str
  pub replan : Bool
  pub feedback : Str
  pub overall_score : ℕ
  pub model : Str
  pub input_tokens : ℕ
  pub output_tokens : ℕ
  pub cost_usd : Cost

-- `TaskReviewer.ReviewTask`; `none` is an error, whose text the node does not use.
abbrev pub TaskReviewer : Type 0
TaskReviewer = ℕ → HermesState → Option TaskReviewResult

pub record ReviewerNode : Type 0 where
  pub reviewer : Option TaskReviewer

-- The update that `attachReviewerTelemetry` makes of an empty one.
unfoldable pub review_update : TaskReviewResult → StateUpdate
unfolding with_usage
review_update r =
    with_usage (codes "reviewer") r.model (add_int r.input_tokens r.output_tokens)
      (reported r.input_tokens r.input_tokens 0 0 r.output_tokens r.cost_usd) no_update

-- `hasTelemetry`
unfoldable pub has_telemetry : StateUpdate → Bool
has_telemetry u =
    not (is_empty u.model_usages) || not (is_empty u.phase_usages) || not (u.token_usage_delta == 0)

-- `if hasTelemetry(update) { out.Updates = … }`
abbrev if_telemetry : StateUpdate → List StateUpdate
unfolding has_telemetry
if_telemetry u = if has_telemetry u then u ∷ [] else []

unfoldable pub on_task_review : TaskReviewResult → Handled
unfolding review_update has_telemetry
on_task_review r =
    let u = review_update r in
    if str_eq r.verdict (codes "block")
    then if r.replan
      then route (if_telemetry u) RuntimeStep.replan_setup (codes "reviewer_block_replan")
      else route (if_telemetry u) RuntimeStep.terminal (codes "reviewer_block_terminal")
    else if str_eq r.verdict (codes "fail")
    then route (record u { status = some TaskStatus.failed } ∷ []) RuntimeStep.terminal
        (codes "reviewer_fail")
    else route (if_telemetry u) RuntimeStep.terminal (codes "reviewer_pass")

-- `ReviewerNode.Handle`
unfoldable pub reviewer_handle : ReviewerNode → Moment → HermesState → Handled
unfolding on_task_review
reviewer_handle n m s = elim n.reviewer [
  | none ↦ fails missing_service
  | some review ↦ elim (review m.call s) [
    | none ↦ route [] RuntimeStep.terminal (codes "reviewer_error_accept")
    | some r ↦ on_task_review r
  ]
]
