-- ===== src/Examples/Policies.antt =====
-- The policies on concrete executions, errors, reviews and plans.
use alice_core.Prelude.{
  ℕ, ◌≡◌, refl, arith, true, false, Str, codes, is_empty, trim_space, to_lower, none, List, [], ◌∷◌,
  ◌⊎◌, map,
}
use mathlib.Core.List.{Permᴰ}
use alice_core.Hermes.Status.{TaskStatus, SubTaskStatus}
use alice_core.Hermes.State.{SubTask, TaskState}
use alice_core.Hermes.Usage.{bits}
use alice_core.Engine.Execution.{
  TransitionCall, ExecutionState, transitions, new_execution_lifecycle,
  valid_execution_state_transition, transition_of,
}
use alice_core.Engine.Execution.Streaming.{PassesStreaming, succeeded-PassesStreaming}
use alice_core.Engine.Review.{
  ReviewResult, ReviewSubTaskResult, ReviewRequest, Verdict, validate, validate_for_request,
  requested_review_sub_tasks, bad_sub_task, validate_ids, match_results, key_set, delete,
}
use alice_core.Engine.Review.Validation.{result_ids, validate_for_request-Perm}
use alice_core.Engine.Recovery.{RecoveryRequest, decide_recovery}
use alice_core.Engine.Recovery.Retries.{Bounded, limit, decide_recovery-Bounded}
use alice_core.Engine.Resume.{decide_task_resume}
use alice_core.Engine.Resume.Splitting.{Splits, Refuses, decide_task_resume-Splits}
use alice_core.Engine.TaskRetry.{build_partial_retry_plan, retry_request}
use alice_core.Engine.TaskRetry.Partition.{
  Partitioned, is_kept, build_partial_retry_plan-Partitioned,
}
use alice_core.Examples.Data.{sub_task, task_at}

abbrev call_to : ExecutionState → TransitionCall
call_to s = record { now = 3; to = s; reason = [] }

-- A first `succeeded` is rejected.
abbrev calls : List TransitionCall
calls =
    call_to ExecutionState.starting
    ∷ call_to ExecutionState.succeeded
    ∷ call_to ExecutionState.streaming
    ∷ call_to ExecutionState.succeeded
    ∷ []

calls_succeed : (transitions calls (new_execution_lifecycle 1)).state ≡ ExecutionState.succeeded
unfolding transitions transition_of valid_execution_state_transition
calls_succeed = refl

succeeded-PassesStreaming_example : PassesStreaming calls (new_execution_lifecycle 1)
succeeded-PassesStreaming_example = succeeded-PassesStreaming 1 calls calls_succeed

abbrev limited : Str
limited = codes " HTTP 429 "

limited_text : is_empty (to_lower (trim_space limited)) ≡ false
unfolding trim_space
limited_text = refl

abbrev scored : Str → ℕ → ReviewSubTaskResult
scored id score = record { sub_task_id = id; score = score; feedback = []; issue_tags = [] }

abbrev pub review : ReviewResult
review = record {
  reviewer_model = codes "m";
  verdict = Verdict.partial;
  overall_score = 65;
  feedback = codes "tests missing";
  issue_tags = [];
  sub_task_results = scored (codes "b") 40 ∷ scored (codes " a ") 90 ∷ [];
  input_tokens = 9;
  output_tokens = 2;
  cost_usd = bits 0;
  block_count = 0;
  auto_fixed_count = 0;
}

abbrev two_sub_tasks : List SubTask
two_sub_tasks =
    sub_task (codes "a") SubTaskStatus.done ∷ sub_task (codes "b") SubTaskStatus.done ∷ []

abbrev request : ReviewRequest
request = record { plan = two_sub_tasks; sub_task_results = [] }

accepted : validate_for_request review request ≡ none
unfolding validate_for_request validate bad_sub_task validate_ids match_results key_set delete
    requested_review_sub_tasks trim_space
accepted = refl

asked : is_empty (requested_review_sub_tasks request) ≡ false
unfolding requested_review_sub_tasks
asked = refl

validate_for_request-Perm_example :
    (validate review ≡ none)
    × Permᴰ
        (map trim_space (requested_review_sub_tasks request))
        (result_ids review.sub_task_results)
validate_for_request-Perm_example = validate_for_request-Perm review request accepted asked

abbrev broken : RecoveryRequest
broken =
    record (retry_request review
      (record { enabled = true; score_threshold = 0; max_task_retries = 2 }) 1) {
        error_text = limited;
        max_attempts = 3;
      }

decide_recovery-Bounded_example : Bounded 1 (limit broken) (decide_recovery broken)
decide_recovery-Bounded_example = decide_recovery-Bounded broken (omega arith)

abbrev half_done : TaskState
half_done = record (task_at (codes "t3") TaskStatus.executing) {
  plan = sub_task (codes "a") SubTaskStatus.done ∷ sub_task (codes "b") SubTaskStatus.failed ∷ [];
}

decide_task_resume-Splits_example :
    ((decide_task_resume half_done).can_resume ≡ true)
    × ((decide_task_resume half_done).terminal ≡ false)
    × (Splits half_done.plan (decide_task_resume half_done)
        ⊎ Refuses half_done.plan (decide_task_resume half_done))
decide_task_resume-Splits_example = decide_task_resume-Splits half_done

abbrev reading : SubTask
reading = record (sub_task (codes "r") SubTaskStatus.pending) {
  tool_hints = codes "Read" ∷ codes "Grep" ∷ [];
}

abbrev readers : List SubTask
readers = reading ∷ reading ∷ sub_task (codes "w") SubTaskStatus.pending ∷ []

build_partial_retry_plan-Partitioned_example :
    Partitioned (is_kept review 0) two_sub_tasks (build_partial_retry_plan review two_sub_tasks 0)
build_partial_retry_plan-Partitioned_example =
    build_partial_retry_plan-Partitioned review two_sub_tasks 0
