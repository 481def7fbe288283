-- ===== src/Graph/Executor.antt =====
-- engine/graph/executor_node.go: one sub-task of the plan is run and recorded.
pub mod Routing
pub mod Progress
use alice_core.Prelude.{
  ℕ, suc, ◌+◌, ◌*◌, Bool, true, not, ◌&&◌, ◌||◌, Str, codes, decimal, trim_space, is_empty, add_int,
  slt, ◌==◌, out_of_range, if◌then◌else◌, List, [], ◌∷◌, ◌++◌, Option, none, some, length,
  get_elem?, modify,
}
use alice_core.Hermes.Status.{SubTaskStatus, sub_task_status_eq}
use alice_core.Hermes.Usage.{Cost, Counters}
use alice_core.Hermes.State.{SubTask}
use alice_core.Hermes.Snapshot.{
  HermesState, StateUpdate, RuntimeStep, SubTaskResult, HermesInterrupt, WalkingAgentState,
  no_update, sub_task_pause,
}
use alice_core.Hermes.Accumulated.{append_result}
use alice_core.Graph.Node.{
  Handled, Moment, fails, missing_service, empty_plan, index_out_of_range, route, reported,
  with_usage,
}

pub record SubTaskRunResult : Type 0 where
  pub text : Str
  pub model : Str
  pub input_tokens : ℕ
  pub uncached_input_tokens : ℕ
  pub cache_read_input_tokens : ℕ
  pub cache_creation_input_tokens : ℕ
  pub output_tokens : ℕ
  pub cost_usd : Cost
  pub walking_state : Option WalkingAgentState

unfoldable pub token_volume : SubTaskRunResult → ℕ
token_volume r =
    let cached =
      add_int (add_int r.uncached_input_tokens r.cache_read_input_tokens)
        r.cache_creation_input_tokens in
    add_int (if r.input_tokens == 0 then cached else r.input_tokens) r.output_tokens

-- `SubTaskRunner.RunSubTask`: Go returns the result and the error side by side.
abbrev pub Runner : Type 0
Runner = ℕ → HermesState → ℕ → SubTaskRunResult × Option Str

pub record ExecutorNode : Type 0 where
  pub runner : Option Runner
  pub review_mode_is_per_task : Bool
  pub failure_pause_enabled : Bool
  pub strict_review_enabled : Bool

-- `nextStepAfter`; `routeAfterAdvance` of strict_review_node.go is the same function.
unfoldable pub next_step_after : Bool → ℕ → ℕ → RuntimeStep
next_step_after per_task next_idx total =
    if slt next_idx total
    then RuntimeStep.executor
    else if per_task
    then RuntimeStep.reviewer
    else RuntimeStep.terminal

unfoldable pub completed_count : List SubTask → ℕ
completed_count [] = 0
completed_count (t ∷ ts) =
    let rest = completed_count ts in
    if sub_task_status_eq t.status SubTaskStatus.done then suc rest else rest

-- `applyWalkingDelta`
unfoldable pub apply_walking_delta : Option WalkingAgentState → StateUpdate → StateUpdate
apply_walking_delta none u = u
apply_walking_delta (some w) u =
    if w.enabled
    then record u { walking = some w }
    else record u { clear_walking = true; walking = none }

abbrev pub result_counters : SubTaskRunResult → Counters
result_counters r =
    reported r.input_tokens r.uncached_input_tokens r.cache_read_input_tokens
      r.cache_creation_input_tokens r.output_tokens r.cost_usd

unfoldable pub with_run_usage : SubTaskRunResult → StateUpdate → StateUpdate
unfolding with_usage token_volume
with_run_usage r = with_usage (codes "executor") r.model (token_volume r) (result_counters r)

-- The sub-task after an attempt with this text; its status stays.
abbrev pub attempted : Str → ℕ → SubTask → SubTask
attempted text tokens t = record t {
  result = text;
  tokens_used = add_int t.tokens_used tokens;
  attempts = add_int t.attempts 1;
}

-- The record of a sub-task that is emitted when the index moves on.
abbrev pub result_of : ℕ → SubTask → SubTaskResult
result_of idx t = record {
  sub_task_id = t.id;
  index = idx;
  status = t.status;
  result = t.result;
  tokens_used = t.tokens_used;
  attempts = t.attempts;
  ended_at = none;
}

abbrev pub ns_per_day : ℕ
ns_per_day = 24 * 3600 * 1000000000

abbrev pub pause_interrupt : Moment → HermesState → ℕ → SubTask → Str → HermesInterrupt
pause_interrupt m s idx t error_text = record {
  id = s.task_id ++ codes ":graphpause:" ++ decimal idx ++ codes ":" ++ decimal m.now;
  message_id = 0;
  source_step = RuntimeStep.executor;
  resume_step = RuntimeStep.executor;
  payload = sub_task_pause idx t.id t.description (length s.plan) error_text;
  reason = codes "subtask_failure_pause";
  created_at = m.now;
  expires_at = some (m.now + ns_per_day);
}

-- The updates of the three branches before their telemetry.
abbrev pub pause_update : Moment → HermesState → ℕ → SubTask → Str → SubTaskRunResult → StateUpdate
unfolding token_volume
pause_update m s idx t error_text r = record no_update {
  plan = some (modify s.plan idx (attempted error_text (token_volume r)));
  interrupt = some (pause_interrupt m s idx t error_text);
}

abbrev pub candidate_update : HermesState → ℕ → SubTaskRunResult → StateUpdate
unfolding token_volume trim_space
candidate_update s idx r = record no_update {
  plan = some (
      modify s.plan idx (λ t. record (attempted (trim_space r.text) (token_volume r) t) {
        strict_retry_feedback = [];
      }));
}

abbrev pub accumulate : SubTaskStatus → Str → List SubTask → Str → Option Str
accumulate status text plan accumulated =
    if sub_task_status_eq status SubTaskStatus.done && not (is_empty text)
    then some (append_result accumulated text (completed_count plan)).0
    else none

abbrev pub finished_update : HermesState → ℕ → SubTaskStatus → Str → SubTask → StateUpdate
finished_update s idx status text finished =
    let plan = modify s.plan idx (λ _. finished) in
    record no_update {
      plan = some plan;
      current_idx = some (add_int idx 1);
      sub_task_results = result_of idx finished ∷ [];
      accumulated = accumulate status text plan s.accumulated;
    }

-- `outputForApprovalPause`
unfoldable pub output_for_approval_pause :
    Moment → HermesState → ℕ → SubTask → Str → SubTaskRunResult → Handled
unfolding with_run_usage
output_for_approval_pause m s idx t error_text r =
    route (with_run_usage r (pause_update m s idx t error_text r) ∷ []) RuntimeStep.approval
      (codes "subtask_failure_pause")

-- The branch for strict review: the candidate is recorded and the index stays.
unfoldable pub output_for_strict_review : HermesState → ℕ → SubTaskRunResult → Handled
unfolding with_run_usage apply_walking_delta trim_space
output_for_strict_review s idx r =
    route (apply_walking_delta r.walking_state (with_run_usage r (candidate_update s idx r)) ∷ [])
      RuntimeStep.strict_review (codes "subtask_candidate_for_strict_review")

-- The last branch: the sub-task is recorded with its final status and the index moves on.
unfoldable pub output_advancing :
    ExecutorNode
    → HermesState
    → ℕ
    → SubTask
    → SubTaskStatus
    → Str
    → Str
    → SubTaskRunResult
    → Handled
unfolding with_run_usage apply_walking_delta next_step_after
output_advancing n s idx t status text reason r =
    let finished = record (attempted text (token_volume r) t) { status = status } in
    route
      (apply_walking_delta r.walking_state
          (with_run_usage r (finished_update s idx status text finished))
        ∷ [])
      (next_step_after n.review_mode_is_per_task (add_int idx 1) (length s.plan)) reason

-- What follows the call of the runner.
unfoldable pub after_run :
    ExecutorNode → Moment → HermesState → ℕ → SubTask → SubTaskRunResult → Option Str → Handled
unfolding output_for_approval_pause output_for_strict_review output_advancing trim_space
after_run n m s idx t r (some error_text) =
    if n.failure_pause_enabled
    then output_for_approval_pause m s idx t error_text r
    else output_advancing n s idx t SubTaskStatus.failed error_text (codes "subtask_failed") r
after_run n m s idx t r none =
    if n.strict_review_enabled
    then output_for_strict_review s idx r
    else output_advancing n s idx t SubTaskStatus.done (trim_space r.text) (codes "subtask_done") r

-- `advanceWithoutRunning`
unfoldable pub advance_without_running : ExecutorNode → HermesState → ℕ → Handled
unfolding next_step_after
advance_without_running n s idx =
    route (record no_update { current_idx = some (add_int idx 1) } ∷ [])
      (next_step_after n.review_mode_is_per_task (add_int idx 1) (length s.plan))
      (codes "subtask_already_done")

abbrev pub is_finished : SubTask → Bool
is_finished t =
    sub_task_status_eq t.status SubTaskStatus.done
    || sub_task_status_eq t.status SubTaskStatus.skipped

-- The plan's sub-task at the index is there: the index has been checked.
unfoldable pub run_sub_task :
    ExecutorNode → Runner → Moment → HermesState → Option SubTask → Handled
unfolding advance_without_running after_run
run_sub_task n run m s none = fails (index_out_of_range s.current_idx (length s.plan))
run_sub_task n run m s (some t) =
    if is_finished t
    then advance_without_running n s s.current_idx
    else after_run n m s s.current_idx t (run m.call s s.current_idx).0
        (run m.call s s.current_idx).1

-- `ExecutorNode.Handle`
unfoldable pub executor_handle : ExecutorNode → Moment → HermesState → Handled
unfolding run_sub_task
executor_handle n m s = elim n.runner [
  | none ↦ fails missing_service
  | some run ↦
      if is_empty s.plan
      then fails empty_plan
      else if out_of_range s.current_idx (length s.plan)
      then fails (index_out_of_range s.current_idx (length s.plan))
      else run_sub_task n run m s (get_elem? s.plan s.current_idx)
]
