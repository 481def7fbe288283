-- ===== src/Hermes/SqliteStore/Resolution.antt =====
-- hermes/store.go: `MarkTaskFailedDurable`, `ApplyInterruptResolution` and `SweepZombieTasks`.
use alice_core.Prelude.{
  ℕ, ◌+◌, Bool, true, false, Str, str_eq, codes, add_int, out_of_range, is_empty, is_some,
  trim_space, if◌then◌else◌, List, [], ◌∷◌, Option, none, some, length, modify,
}
use alice_core.Hermes.Status.{TaskStatus, SubTaskStatus}
use alice_core.Hermes.State.{SubTask}
use alice_core.Hermes.Snapshot.{
  HermesState, HermesInterrupt, RuntimeStep, step_eq, nothing, budget, sub_task_pause, StateUpdate,
  no_update, SnapshotMetadata, Snapshot, RuntimeCommit,
}
use alice_core.Hermes.SqliteStore.Tables.{
  TaskRow, Db, Action, Result, ok, err, no_pending_interrupt, no_sub_task_idx, index_out_of_range,
  unknown_decision, task_id_required, void, query, raise, ◌>>=◌, latest,
}
use alice_core.Hermes.SqliteStore.Reads.{get_latest_snapshot, current_status}
use alice_core.Hermes.SqliteStore.Commits.{commit_runtime_step}

abbrev pub metadata_of : Str → Str → SnapshotMetadata
metadata_of source reason = record {
  source = source;
  reason = reason;
  attempt = 0;
  model = [];
  step_status = [];
  tags = [];
  extra = [];
}

abbrev pub commit_of :
    Str → StateUpdate → RuntimeStep → RuntimeStep → SnapshotMetadata → RuntimeCommit
commit_of id update next_step source_node metadata = record {
  task_id = id;
  updates = update ∷ [];
  next_step = next_step;
  source_node = source_node;
  metadata = metadata;
  snapshot_id = [];
  parent_snapshot_id = [];
  channel_versions = [];
  created_at = 0;
}

abbrev pub failing_update : StateUpdate
failing_update = record no_update { status = some TaskStatus.failed }

abbrev pub failing_metadata : Str → SnapshotMetadata
failing_metadata reason =
    metadata_of (codes "orphan_recovery")
      (if is_empty reason then codes "startup_orphan_failed" else reason)

unfoldable pub failing_commit : Str → Str → RuntimeCommit
failing_commit id reason =
    commit_of id failing_update RuntimeStep.terminal RuntimeStep.executor (failing_metadata reason)

unfoldable pub mark_task_failed_durable : Str → ℕ → Str → Str → Action (Unit {0})
unfolding failing_commit commit_runtime_step
mark_task_failed_durable new_id now id reason =
    if is_empty (trim_space id)
    then raise task_id_required
    else void (commit_runtime_step new_id now (failing_commit id reason))

pub data InterruptResolution : Type 0 where
  retry skip abort : InterruptResolution
  other : Str → InterruptResolution

-- `InterruptSubTaskIdx`: only the pause of a sub-task has the field in its payload.
abbrev pub interrupt_sub_task_idx : HermesInterrupt → Option ℕ
interrupt_sub_task_idx i = elim i.payload [
  | nothing ↦ none
  | budget used limit ↦ none
  | sub_task_pause idx id text total message ↦ some idx
]

unfoldable pub resolving_commit : Str → StateUpdate → RuntimeStep → Str → RuntimeCommit
resolving_commit id update next_step reason =
    commit_of id update next_step RuntimeStep.approval
      (metadata_of (codes "interrupt_resolution") reason)

abbrev pub skipping_update : ℕ → List SubTask → StateUpdate
skipping_update idx plan = record no_update {
  plan = some (modify plan idx (λ t. record t { status = SubTaskStatus.skipped }));
  current_idx = some (add_int idx 1);
  clear_interrupt = true;
}

unfoldable pub skipping_commit : Str → ℕ → List SubTask → RuntimeCommit
unfolding resolving_commit
skipping_commit id idx plan =
    resolving_commit id (skipping_update idx plan) RuntimeStep.executor
      (codes "user_skip_after_pause")

-- `if resumeStep == "" { resumeStep = RuntimeStepExecutor }`
abbrev pub resume_step_of : HermesInterrupt → RuntimeStep
resume_step_of i =
    if step_eq i.resume_step RuntimeStep.unset then RuntimeStep.executor else i.resume_step

-- The commit for an interrupt of the budget, and for any other.
unfoldable pub retrying_commit_at : Bool → Str → ℕ → HermesInterrupt → RuntimeCommit
unfolding resolving_commit
retrying_commit_at true id now i =
    resolving_commit id (record no_update { clear_interrupt = true; budget_started_at = some now })
      (resume_step_of i) (codes "user_continue_after_budget")
retrying_commit_at false id now i =
    resolving_commit id (record no_update { clear_interrupt = true }) RuntimeStep.executor
      (codes "user_retry_after_pause")

unfoldable pub retrying_commit : Str → ℕ → HermesInterrupt → RuntimeCommit
unfolding retrying_commit_at
retrying_commit id now i = retrying_commit_at (str_eq i.reason (codes "budget_exceeded")) id now i

unfoldable pub skip_sub_task : Str → ℕ → Str → List SubTask → Option ℕ → Action (Unit {0})
unfolding skipping_commit commit_runtime_step
skip_sub_task new_id now id plan none = raise no_sub_task_idx
skip_sub_task new_id now id plan (some idx) =
    if out_of_range idx (length plan)
    then raise index_out_of_range
    else void (commit_runtime_step new_id now (skipping_commit id idx plan))

unfoldable pub resolve :
    Str → ℕ → Str → InterruptResolution → HermesState → HermesInterrupt → Action (Unit {0})
unfolding skip_sub_task retrying_commit mark_task_failed_durable commit_runtime_step
resolve new_id now id abort s i =
    mark_task_failed_durable new_id now id (codes "user_abort_after_pause")
resolve new_id now id skip s i = skip_sub_task new_id now id s.plan (interrupt_sub_task_idx i)
resolve new_id now id retry s i = void (commit_runtime_step new_id now (retrying_commit id now i))
resolve new_id now id (other text) s i = raise unknown_decision

unfoldable pub resolve_pending :
    Str → ℕ → Str → InterruptResolution → Snapshot → Option HermesInterrupt → Action (Unit {0})
unfolding resolve
resolve_pending new_id now id decision x none = raise no_pending_interrupt
resolve_pending new_id now id decision x (some i) = resolve new_id now id decision x.state i

unfoldable pub apply_interrupt_resolution : Str → ℕ → Str → InterruptResolution → Action (Unit {0})
unfolding get_latest_snapshot resolve_pending
apply_interrupt_resolution new_id now id decision =
    if is_empty (trim_space id)
    then raise task_id_required
    else (query (get_latest_snapshot id) >>= λ (x : Snapshot).
        resolve_pending new_id now id decision x x.state.interrupt)

-- `IN ('planning','executing','validating')`
abbrev pub is_running : TaskStatus → Bool
is_running TaskStatus.planning = true
is_running TaskStatus.executing = true
is_running (TaskStatus.other s) = str_eq s (codes "validating")
is_running _ = false

abbrev pub interrupted : Option Snapshot → Bool
interrupted none = false
interrupted (some x) = is_some x.state.interrupt

unfoldable pub is_zombie : Db → Str → TaskRow → Bool
unfolding current_status latest
is_zombie db id r =
    if is_running (current_status db id r)
    then (if interrupted (latest id db) then false else true)
    else false

-- The ids that the query of `SweepZombieTasks` and its loop collect.
unfoldable pub zombies : Db → List (Str × TaskRow) → List Str
unfolding is_zombie
zombies db [] = []
zombies db ((id, r) ∷ rest) =
    let others = zombies db rest in if is_zombie db id r then id ∷ others else others

abbrev pub count_ok : Result (Unit {0}) → ℕ → ℕ
count_ok (ok u) n = n + 1
count_ok (err e) n = n

-- The loop that fails them; `new_id id` is the snapshot id drawn for the task `id`.
unfoldable pub fail_all : (Str → Str) → ℕ → Str → List Str → ℕ → Db → ℕ × Db
unfolding mark_task_failed_durable
fail_all new_id now reason [] swept db = (swept, db)
fail_all new_id now reason (id ∷ ids) swept db =
    let (r, db') = mark_task_failed_durable (new_id id) now id reason db in
    fail_all new_id now reason ids (count_ok r swept) db'

unfoldable pub sweep_zombie_tasks : (Str → Str) → ℕ → Str → Db → ℕ × Db
unfolding zombies fail_all
sweep_zombie_tasks new_id now reason db =
    fail_all new_id now reason (zombies db db.task_states) 0 db
