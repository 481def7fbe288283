-- ===== src/Hermes/Snapshot.antt =====
-- hermes/snapshot.go: the state that a snapshot holds, partial updates of it, and commits.
use alice_core.Prelude.{ℕ, Bool, true, false, Str, codes, str_eq, List, [], Option, none, some}
use alice_core.Hermes.Status.{TaskStatus, SubTaskStatus}
use alice_core.Hermes.Usage.{ModelUsage, PhaseUsage}
use alice_core.Hermes.State.{SubTask, Artifact, TokenBudget, TaskState}

pub data RuntimeStep : Type 0 where
  unset planner replan_setup executor reviewer strict_review approval terminal : RuntimeStep
  other : Str → RuntimeStep

-- `a == b` on the step strings.
abbrev pub step_eq : RuntimeStep → RuntimeStep → Bool
step_eq unset unset = true
step_eq planner planner = true
step_eq replan_setup replan_setup = true
step_eq executor executor = true
step_eq reviewer reviewer = true
step_eq strict_review strict_review = true
step_eq approval approval = true
step_eq terminal terminal = true
step_eq (other a) (other b) = str_eq a b
step_eq _ _ = false

-- `string(step)`
abbrev pub step_text : RuntimeStep → Str
step_text unset = []
step_text planner = codes "planner"
step_text replan_setup = codes "replan_setup"
step_text executor = codes "executor"
step_text reviewer = codes "reviewer"
step_text strict_review = codes "strict_review"
step_text approval = codes "approval"
step_text terminal = codes "terminal"
step_text (other s) = s

-- The values that the code stores in a field of type `any`.
pub data Payload : Type 0 where
  nothing : Payload
  budget : ℕ → ℕ → Payload
  sub_task_pause : ℕ → Str → Str → ℕ → Str → Payload

pub record HermesInterrupt : Type 0 where
  pub id : Str
  pub message_id : ℕ
  pub source_step : RuntimeStep
  pub resume_step : RuntimeStep
  pub payload : Payload
  pub reason : Str
  pub created_at : ℕ
  pub expires_at : Option ℕ

pub record SubTaskResult : Type 0 where
  pub sub_task_id : Str
  pub index : ℕ
  pub status : SubTaskStatus
  pub result : Str
  pub tokens_used : ℕ
  pub attempts : ℕ
  pub ended_at : Option ℕ

pub record HermesStateError : Type 0 where
  pub step : RuntimeStep
  pub message : Str
  pub retryable : Bool
  pub created_at : ℕ

pub record WalkingAgentState : Type 0 where
  pub enabled : Bool
  pub prev_executor_model : Str
  pub tokens_seen : ℕ
  pub max_context_tokens : ℕ

pub record ReplanContext : Type 0 where
  pub goal : Str
  pub accumulated : Str
  pub preserved_sub_tasks : List SubTask
  pub attempt_idx : ℕ
  pub trigger : Str

pub record HermesState : Type 0 where
  pub task_id : Str
  pub chat_id : ℕ
  pub thread_id : ℕ
  pub planner_session_id : Str
  pub executor_session_id : Str
  pub project_dir : Str
  pub goal : Str
  pub status : TaskStatus
  pub current_idx : ℕ
  pub plan : List SubTask
  pub accumulated : Str
  pub artifacts : List Artifact
  pub token_budget : TokenBudget
  pub github_issue_number : ℕ
  pub model_usages : List ModelUsage
  pub phase_usages : List PhaseUsage
  pub sub_task_results : List SubTaskResult
  pub interrupt : Option HermesInterrupt
  pub errors : List HermesStateError
  pub replan : Option ReplanContext
  pub walking : Option WalkingAgentState

-- A pointer is an `Option`, and so is `plan`, since the reducer tells a nil slice from an empty one.
pub record StateUpdate : Type 0 where
  pub status : Option TaskStatus
  pub current_idx : Option ℕ
  pub plan : Option (List SubTask)
  pub accumulated : Option Str
  pub accumulated_delta : Str
  pub artifacts : List Artifact
  pub model_usages : List ModelUsage
  pub phase_usages : List PhaseUsage
  pub token_usage_delta : ℕ
  pub budget_started_at : Option ℕ
  pub planner_session_id : Option Str
  pub executor_session_id : Option Str
  pub sub_task_results : List SubTaskResult
  pub interrupt : Option HermesInterrupt
  pub clear_interrupt : Bool
  pub errors : List HermesStateError
  pub github_issue_number : Option ℕ
  pub replan : Option ReplanContext
  pub clear_replan : Bool
  pub walking : Option WalkingAgentState
  pub clear_walking : Bool

-- `StateUpdate{}`
abbrev pub no_update : StateUpdate
no_update = record {
  status = none;
  current_idx = none;
  plan = none;
  accumulated = none;
  accumulated_delta = [];
  artifacts = [];
  model_usages = [];
  phase_usages = [];
  token_usage_delta = 0;
  budget_started_at = none;
  planner_session_id = none;
  executor_session_id = none;
  sub_task_results = [];
  interrupt = none;
  clear_interrupt = false;
  errors = [];
  github_issue_number = none;
  replan = none;
  clear_replan = false;
  walking = none;
  clear_walking = false;
}

pub record SnapshotMetadata : Type 0 where
  pub source : Str
  pub reason : Str
  pub attempt : ℕ
  pub model : Str
  pub step_status : Str
  pub tags : List Str
  pub extra : List (Str × Payload)

pub record Snapshot : Type 0 where
  pub id : Str
  pub task_id : Str
  pub chat_id : ℕ
  pub thread_id : ℕ
  pub step : ℕ
  pub state : HermesState
  pub next_step : RuntimeStep
  pub source_node : RuntimeStep
  pub writes : StateUpdate
  pub metadata : SnapshotMetadata
  pub parent_snapshot_id : Str
  pub channel_versions : List (Str × ℕ)
  pub created_at : ℕ

pub record RuntimeCommit : Type 0 where
  pub task_id : Str
  pub updates : List StateUpdate
  pub next_step : RuntimeStep
  pub source_node : RuntimeStep
  pub metadata : SnapshotMetadata
  pub snapshot_id : Str
  pub parent_snapshot_id : Str
  pub channel_versions : List (Str × ℕ)
  pub created_at : ℕ

-- The interrupt that a task marked by `MarkInterrupted` carries into its snapshots.
abbrev pub legacy_interrupt : Option ℕ → Option HermesInterrupt
legacy_interrupt none = none
legacy_interrupt (some message_id) = some (record {
  id = [];
  message_id = message_id;
  source_step = unset;
  resume_step = unset;
  payload = nothing;
  reason = codes "legacy_interrupted_by";
  created_at = 0;
  expires_at = none;
})

unfoldable pub hermes_state_from_task_state : TaskState → HermesState
hermes_state_from_task_state task = record {
  task_id = task.id;
  chat_id = task.chat_id;
  thread_id = task.thread_id;
  planner_session_id = task.planner_session_id;
  executor_session_id = task.executor_session_id;
  project_dir = task.project_dir;
  goal = task.goal;
  status = task.status;
  current_idx = task.current_idx;
  plan = task.plan;
  accumulated = task.accumulated;
  artifacts = task.artifacts;
  token_budget = task.token_budget;
  github_issue_number = task.github_issue_number;
  model_usages = task.model_usages;
  phase_usages = task.phase_usages;
  sub_task_results = [];
  interrupt = legacy_interrupt task.interrupted_by;
  errors = [];
  replan = none;
  walking = none;
}
