-- ===== src/Examples/Data.antt =====
-- A task in each kind of status, updates, commits and stores.
use alice_core.Prelude.{true, ℕ, Str, codes, List, [], ◌∷◌, none, some}
use alice_core.Hermes.Status.{TaskStatus, SubTaskStatus}
use alice_core.Hermes.Usage.{bits, ModelUsage, TokenUsageBreakdown}
use alice_core.Hermes.State.{SubTask, TaskState}
use alice_core.Hermes.Snapshot.{
  HermesState, HermesStateError, StateUpdate, no_update, RuntimeCommit, RuntimeStep,
}
use alice_core.Hermes.MemoryStore.{Store}

abbrev pub sub_task : Str → SubTaskStatus → SubTask
sub_task id status = record {
  id = id;
  description = codes "write the code";
  tool_hints = [];
  status = status;
  result = [];
  attempts = 0;
  tokens_used = 0;
  checklist_item_ids = [];
  strict_retry_feedback = [];
}

abbrev pub task_at : Str → TaskStatus → TaskState
task_at id status = record {
  id = id;
  chat_id = 7;
  thread_id = 1;
  planner_session_id = codes "p";
  executor_session_id = [];
  project_dir = codes "/work";
  goal = codes "ship";
  plan = sub_task (codes "a") SubTaskStatus.pending ∷ [];
  current_idx = 0;
  accumulated = codes "seen";
  artifacts = [];
  status = status;
  interrupted_by = none;
  token_budget = record {
    max_total_tokens = 1000;
    max_wallclock_seconds = 0;
    used_tokens = 10;
    started_at = 0;
  };
  github_issue_number = 0;
  model_usages = [];
  phase_usages = [];
  created_at = 5;
  updated_at = 5;
}

abbrev pub active_id : Str
active_id = codes "t1"

abbrev pub finished_id : Str
finished_id = codes "t2"

abbrev pub active_task : TaskState
active_task = task_at active_id TaskStatus.executing

abbrev pub finished_task : TaskState
finished_task = task_at finished_id TaskStatus.done

abbrev pub two_tasks : Store
two_tasks = record {
  tasks = (active_id, active_task) ∷ (finished_id, finished_task) ∷ [];
  snapshots = [];
}

abbrev pub state_at : Str → TaskStatus → HermesState
state_at id status = record {
  task_id = id;
  chat_id = 7;
  thread_id = 1;
  planner_session_id = codes "p";
  executor_session_id = [];
  project_dir = codes "/work";
  goal = codes "ship";
  status = status;
  current_idx = 0;
  plan = sub_task (codes "a") SubTaskStatus.pending ∷ [];
  accumulated = codes "seen";
  artifacts = [];
  token_budget = record {
    max_total_tokens = 1000;
    max_wallclock_seconds = 0;
    used_tokens = 10;
    started_at = 0;
  };
  github_issue_number = 0;
  model_usages = [];
  phase_usages = [];
  sub_task_results = [];
  interrupt = none;
  errors = [];
  replan = none;
  walking = none;
}

abbrev pub active_state : HermesState
active_state = state_at active_id TaskStatus.executing

abbrev pub finished_state : HermesState
finished_state = state_at finished_id TaskStatus.done

abbrev pub one_error : HermesStateError
one_error = record {
  step = RuntimeStep.executor;
  message = codes "slow";
  retryable = true;
  created_at = 9;
}

-- An update that spends tokens, reports an error and appends to the text.
abbrev pub spending : ℕ → Str → StateUpdate
spending tokens text = record no_update {
  token_usage_delta = tokens;
  accumulated_delta = text;
  errors = one_error ∷ [];
}

abbrev pub finishing : StateUpdate
finishing = record no_update { status = some TaskStatus.done; current_idx = some 1 }

abbrev pub batch : List StateUpdate
batch = spending 20 (codes "one") ∷ spending 30 (codes "two") ∷ finishing ∷ []

abbrev pub commit_with : List StateUpdate → RuntimeStep → RuntimeCommit
commit_with updates next = record {
  task_id = active_id;
  updates = updates;
  next_step = next;
  source_node = RuntimeStep.executor;
  metadata = record {
    source = codes "test";
    reason = [];
    attempt = 1;
    model = [];
    step_status = [];
    tags = [];
    extra = [];
  };
  snapshot_id = [];
  parent_snapshot_id = [];
  channel_versions = [];
  created_at = 0;
}

abbrev pub model_usage : Str → ℕ → ModelUsage
model_usage model tokens = record {
  model = model;
  counters = record {
    input_tokens = tokens;
    uncached_input_tokens = tokens;
    cache_read_input_tokens = 0;
    cache_creation_input_tokens = 0;
    output_tokens = 2;
    cost_usd = bits 0;
    call_count = 1;
  };
}

abbrev pub breakdown : TokenUsageBreakdown
breakdown = record {
  uncached_input_tokens = 3;
  cache_read_input_tokens = 4;
  cache_creation_input_tokens = 0;
  output_tokens = 5;
  cost_usd = bits 1;
}
