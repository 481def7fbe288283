-- ===== src/Hermes/State.antt =====
-- hermes/state.go: tasks, sub-tasks, artifacts and the token budget. A `time.Time` is a number of
-- nanoseconds, and 0 is the zero time.
use alice_core.Prelude.{
  ℕ, ◌-◌, ◌/◌, Bool, not, ◌&&◌, ◌||◌, Str, slt, sle, ◌==◌, out_of_range, if◌then◌else◌, List,
  Option, none, length, get_elem?,
}
use alice_core.Hermes.Status.{TaskStatus, SubTaskStatus}
use alice_core.Hermes.Usage.{ModelUsage, PhaseUsage}

pub record SubTask : Type 0 where
  pub id : Str
  pub description : Str
  pub tool_hints : List Str
  pub status : SubTaskStatus
  pub result : Str
  pub attempts : ℕ
  pub tokens_used : ℕ
  pub checklist_item_ids : List Str
  pub strict_retry_feedback : Str

pub record Artifact : Type 0 where
  pub path : Str
  pub hash : Str
  pub sub_task_id : Str

pub record TokenBudget : Type 0 where
  pub max_total_tokens : ℕ
  pub max_wallclock_seconds : ℕ
  pub used_tokens : ℕ
  pub started_at : ℕ

pub record TaskState : Type 0 where
  pub id : Str
  pub chat_id : ℕ
  pub thread_id : ℕ
  pub planner_session_id : Str
  pub executor_session_id : Str
  pub project_dir : Str
  pub goal : Str
  pub plan : List SubTask
  pub current_idx : ℕ
  pub accumulated : Str
  pub artifacts : List Artifact
  pub status : TaskStatus
  pub interrupted_by : Option ℕ
  pub token_budget : TokenBudget
  pub github_issue_number : ℕ
  pub model_usages : List ModelUsage
  pub phase_usages : List PhaseUsage
  pub created_at : ℕ
  pub updated_at : ℕ

-- `CurrentSubTask`; `none` is the nil pointer.
unfoldable pub current_sub_task : TaskState → Option SubTask
current_sub_task t =
    if out_of_range t.current_idx (length t.plan) then none else get_elem? t.plan t.current_idx

abbrev pub ns_per_second : ℕ
ns_per_second = 1000000000

-- `TokenBudget.Exceeded` at the time `now`: an elapsed time below zero is below every limit, as 0 is.
unfoldable pub exceeded : ℕ → TokenBudget → Bool
exceeded now b =
    (slt 0 b.max_total_tokens && sle b.max_total_tokens b.used_tokens)
    || (slt 0 b.max_wallclock_seconds
        && not (b.started_at == 0)
        && sle b.max_wallclock_seconds ((now - b.started_at) / ns_per_second))
