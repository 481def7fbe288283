-- ===== src/Graph/StrictReview.antt =====
-- engine/graph/strict_review_node.go: the review of one sub-task's candidate result.
pub mod Retries
use alice_core.Prelude.{
  ℕ, Bool, Str, codes, str_eq, is_empty, add_int, slt, out_of_range, if◌then◌else◌, List, [], ◌∷◌,
  ◌++◌, Option, none, some, length, get_elem?, modify,
}
use alice_core.Hermes.Status.{SubTaskStatus}
use alice_core.Hermes.Usage.{Cost}
use alice_core.Hermes.State.{SubTask}
use alice_core.Hermes.Snapshot.{HermesState, StateUpdate, RuntimeStep, no_update}
use alice_core.Graph.Node.{
  Handled, Moment, fails, missing_service, empty_plan, index_out_of_range, route, reported,
  with_usage,
}
use alice_core.Graph.Executor.{next_step_after, result_of, accumulate}

pub record SubTaskReviewResult : Type 0 where
  pub verdict : Str
  pub feedback : Str
  pub score : ℕ
  pub block_tags : List Str
  pub model : Str
  pub input_tokens : ℕ
  pub output_tokens : ℕ
  pub cost_usd : Cost

-- `SubTaskReviewer.ReviewSubTask`; `none` is an error, whose text the node does not use.
abbrev pub Reviewer : Type 0
Reviewer = ℕ → HermesState → ℕ → Option SubTaskReviewResult

pub record StrictReviewNode : Type 0 where
  pub reviewer : Option Reviewer
  pub max_retries_per_sub : ℕ
  pub review_mode_is_per_task : Bool

-- `attachReviewerTelemetry`
unfoldable pub attach_telemetry : SubTaskReviewResult → StateUpdate → StateUpdate
unfolding with_usage
attach_telemetry r =
    with_usage (codes "reviewer_strict") r.model (add_int r.input_tokens r.output_tokens)
      (reported r.input_tokens r.input_tokens 0 0 r.output_tokens r.cost_usd)

-- `formatPartialResult`
unfoldable pub format_partial_result : Str → Str → Str
format_partial_result original feedback =
    codes "PARTIAL"
    ++ (if is_empty original then [] else 10 ∷ original)
    ++ (if is_empty feedback then [] else 10 ∷ 10 ∷ codes "Reviewer feedback:" ++ 10 ∷ feedback)

-- The updates of the branches that move the index on, with `t` as the sub-task's last state.
abbrev pub moving_on : HermesState → ℕ → SubTask → StateUpdate
moving_on s idx t = record no_update {
  plan = some (modify s.plan idx (λ _. t));
  current_idx = some (add_int idx 1);
  sub_task_results = result_of idx t ∷ [];
}

-- `advanceWith` after `finaliseSubTaskAsDone`: both calls keep the result of the sub-task.
unfoldable pub accept_update : HermesState → ℕ → SubTask → StateUpdate
accept_update s idx t =
    let done = record t { status = SubTaskStatus.done; strict_retry_feedback = [] } in
    record (moving_on s idx done) {
      accumulated =
          accumulate SubTaskStatus.done done.result (modify s.plan idx (λ _. done)) s.accumulated;
    }

abbrev pub move_to : StrictReviewNode → HermesState → ℕ → StateUpdate → Str → Handled
move_to n s idx u reason =
    route (u ∷ []) (next_step_after n.review_mode_is_per_task (add_int idx 1) (length s.plan))
      reason

abbrev pub retry_update : HermesState → ℕ → Str → StateUpdate
retry_update s idx feedback = record no_update {
  plan = some (modify s.plan idx (λ x. record x { strict_retry_feedback = feedback }));
}

-- The sub-task as a used-up retry budget and as the verdict "fail" leave it.
abbrev pub skipped_task : SubTask → Str → SubTask
unfolding format_partial_result
skipped_task t feedback = record t {
  status = SubTaskStatus.skipped;
  result = format_partial_result t.result feedback;
  strict_retry_feedback = [];
}

abbrev pub failed_task : SubTask → Str → SubTask
failed_task t feedback = record t {
  status = SubTaskStatus.failed;
  result = if is_empty feedback then t.result else feedback;
  strict_retry_feedback = [];
}

-- The verdict "block": a retry with feedback while attempts are left, then a skip.
unfoldable pub on_block :
    StrictReviewNode → HermesState → ℕ → SubTask → SubTaskReviewResult → Handled
unfolding attach_telemetry format_partial_result next_step_after
on_block n s idx t r =
    if slt t.attempts n.max_retries_per_sub
    then route (attach_telemetry r (retry_update s idx r.feedback) ∷ []) RuntimeStep.executor
        (codes "strict_review_block_retry")
    else move_to n s idx (attach_telemetry r (moving_on s idx (skipped_task t r.feedback)))
        (codes "strict_review_block_budget_exhausted")

-- The verdict "fail".
unfoldable pub on_fail :
    StrictReviewNode → HermesState → ℕ → SubTask → SubTaskReviewResult → Handled
unfolding attach_telemetry next_step_after
on_fail n s idx t r =
    move_to n s idx (attach_telemetry r (moving_on s idx (failed_task t r.feedback)))
      (codes "strict_review_fail")

unfoldable pub on_verdict :
    StrictReviewNode → HermesState → ℕ → SubTask → Option SubTaskReviewResult → Handled
unfolding on_block on_fail accept_update attach_telemetry next_step_after
on_verdict n s idx t none =
    move_to n s idx (accept_update s idx t) (codes "strict_review_reviewer_error_accept")
on_verdict n s idx t (some r) =
    if str_eq r.verdict (codes "block")
    then on_block n s idx t r
    else if str_eq r.verdict (codes "fail")
    then on_fail n s idx t r
    else move_to n s idx (attach_telemetry r (accept_update s idx t)) (codes "strict_review_pass")

unfoldable pub review_sub_task :
    StrictReviewNode → Reviewer → Moment → HermesState → Option SubTask → Handled
unfolding on_verdict
review_sub_task n review m s none = fails (index_out_of_range s.current_idx (length s.plan))
review_sub_task n review m s (some t) =
    on_verdict n s s.current_idx t (review m.call s s.current_idx)

-- `StrictReviewNode.Handle`
unfoldable pub strict_review_handle : StrictReviewNode → Moment → HermesState → Handled
unfolding review_sub_task
strict_review_handle n m s = elim n.reviewer [
  | none ↦ fails missing_service
  | some review ↦
      if is_empty s.plan
      then fails empty_plan
      else if out_of_range s.current_idx (length s.plan)
      then fails (index_out_of_range s.current_idx (length s.plan))
      else review_sub_task n review m s (get_elem? s.plan s.current_idx)
]
