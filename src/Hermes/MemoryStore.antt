-- ===== src/Hermes/MemoryStore.antt =====
-- hermes/memory_store.go: the in-process task store. Each method is a function of the store and of
-- the time that its `time.Now()` returns; the mutex makes each method one step. Copies of slices
-- are values. `none` in a time is the zero time, 0.
pub mod Rows
pub mod Inversion
pub mod Commit
pub mod Calls
pub mod Statuses
use alice_core.Prelude.{
  ℕ, ◌+◌, Bool, false, not, ◌&&◌, ◌||◌, Str, str_eq, decimal, add_int, is_empty, out_of_range, slt,
  ltb, ◌==◌, if◌then◌else◌, List, [], ◌∷◌, ◌++◌, Option, none, some, length, modify, take, lookup,
  insert,
}
use alice_core.Hermes.Status.{
  TaskStatus, SubTaskStatus, Error, no_task, index_out_of_range, task_id_required,
  snapshot_task_id_required, duplicate_snapshot, is_terminal, validate_task_status_transition,
}
use alice_core.Hermes.Usage.{TokenUsageBreakdown, add_usage_breakdown, add_phase_usage_breakdown}
use alice_core.Hermes.State.{SubTask, TaskState}
use alice_core.Hermes.Snapshot.{
  HermesState, HermesInterrupt, Snapshot, RuntimeCommit, hermes_state_from_task_state,
}
use alice_core.Hermes.Reducer.{
  Reduced, reduced, refused, apply_state_updates, collapse_state_updates,
  carry_forward_snapshot_fields,
}
use Rows.{Result, ok, err, ◌>>=◌, found}

pub record Store : Type 0 where
  pub tasks : List (Str × TaskState)
  pub snapshots : List (Str × List Snapshot)

unfoldable pub new_memory_task_store : Store
new_memory_task_store = record { tasks = []; snapshots = [] }

abbrev pub or_now : ℕ → ℕ → ℕ
or_now t now = if t == 0 then now else t

-- `CreateTask`: the task with its times as stored.
unfoldable pub create_task : ℕ → TaskState → Store → Result (TaskState × Store)
create_task now task s =
    let stamped = record task { created_at = or_now task.created_at now; updated_at = now } in
    if is_empty task.id
    then err task_id_required
    else ok (stamped, record s { tasks = insert task.id stamped s.tasks })

unfoldable pub get_task : Str → Store → Result TaskState
get_task id s = found (lookup id s.tasks)

-- `if !found || task.CreatedAt.After(newest.CreatedAt) { newest = task }`
abbrev pub newer_task : Option TaskState → TaskState → Option TaskState
newer_task none t = some t
newer_task (some old) t = if ltb old.created_at t.created_at then some t else some old

-- The loop of `GetActiveTaskForChat` over the map's entries.
unfoldable pub newest_active : ℕ → Option TaskState → List (Str × TaskState) → Option TaskState
newest_active chat_id newest [] = newest
newest_active chat_id newest ((k, task) ∷ rest) =
    newest_active chat_id
      (if not (task.chat_id == chat_id) || is_terminal task.status
        then newest
        else newer_task newest task)
      rest

unfoldable pub get_active_task_for_chat : ℕ → Store → Result TaskState
unfolding newest_active
get_active_task_for_chat chat_id s = found (newest_active chat_id none s.tasks)

-- The loop of `ListTasksForChat` and its limit, where a limit that is not positive is none.
unfoldable pub tasks_of_chat : ℕ → List (Str × TaskState) → List TaskState
tasks_of_chat chat_id [] = []
tasks_of_chat chat_id ((k, task) ∷ rest) =
    let others = tasks_of_chat chat_id rest in
    if task.chat_id == chat_id then task ∷ others else others

unfoldable pub list_tasks_for_chat : ℕ → ℕ → Store → List TaskState
unfolding tasks_of_chat
list_tasks_for_chat chat_id limit s =
    let out = tasks_of_chat chat_id s.tasks in
    if slt 0 limit && slt limit (length out) then take limit out else out

-- `updateErr`: change one task, or leave the store as it was.
unfoldable pub update_err : ℕ → Str → (TaskState → Result TaskState) → Store → Result Store
update_err now id fn s = do
  task ← found (lookup id s.tasks)
  changed ← fn task
  ok (record s { tasks = insert id (record changed { updated_at = now }) s.tasks })

unfoldable pub update : ℕ → Str → (TaskState → TaskState) → Store → Result Store
unfolding update_err
update now id fn = update_err now id (λ task. ok (fn task))

-- `s.snapshots[id]`, where a missing key reads as the empty slice.
unfoldable pub history : Str → Store → List Snapshot
history id s = elim (lookup id s.snapshots) [ none ↦ [] | some h ↦ h ]

abbrev pub last_snapshot : List Snapshot → Option Snapshot
last_snapshot [] = none
last_snapshot (x ∷ xs) = elim (last_snapshot xs) [ none ↦ some x | some y ↦ some y ]

-- The loops that look for a snapshot of the same id or step.
unfoldable pub is_duplicate : Str → ℕ → List Snapshot → Bool
is_duplicate id step [] = false
is_duplicate id step (x ∷ xs) = str_eq x.id id || x.step == step || is_duplicate id step xs

-- `fmt.Sprintf("%s:%d", id, n)`
abbrev pub numbered_id : Str → ℕ → Str
numbered_id id n = id ++ b':' ∷ decimal n

abbrev pub or_text : Str → Str → Str
or_text s other = if is_empty s then other else s

unfoldable pub create_snapshot : ℕ → Snapshot → Store → Result (Snapshot × Store)
unfolding is_duplicate history
create_snapshot now snapshot s =
    let old = history snapshot.task_id s in
    let made = record snapshot {
      id = or_text snapshot.id (numbered_id snapshot.task_id (length old + 1));
      created_at = or_now snapshot.created_at now;
    } in
    if is_empty snapshot.task_id
    then err snapshot_task_id_required
    else if is_duplicate made.id made.step old
    then err duplicate_snapshot
    else ok (made, record s { snapshots = insert snapshot.task_id (old ++ made ∷ []) s.snapshots })

unfoldable pub get_latest_snapshot : Str → Store → Result Snapshot
unfolding history
get_latest_snapshot id s = found (last_snapshot (history id s))

unfoldable pub list_snapshot_history : Str → Store → Result (List Snapshot)
unfolding history
list_snapshot_history id s = if is_empty (history id s) then err no_task else ok (history id s)

abbrev pub newer_snapshot : Option Snapshot → Snapshot → Option Snapshot
newer_snapshot none y = some y
newer_snapshot (some old) y = if ltb old.created_at y.created_at then some y else some old

-- The loops of `GetLatestSnapshotForThread`.
unfoldable pub newest_of_thread : ℕ → ℕ → Option Snapshot → List Snapshot → Option Snapshot
newest_of_thread chat_id thread_id latest [] = latest
newest_of_thread chat_id thread_id latest (x ∷ xs) =
    newest_of_thread chat_id thread_id
      (if not (x.chat_id == chat_id) || not (x.thread_id == thread_id)
        then latest
        else newer_snapshot latest x)
      xs

unfoldable pub newest_in_store :
    ℕ → ℕ → Option Snapshot → List (Str × List Snapshot) → Option Snapshot
unfolding newest_of_thread
newest_in_store chat_id thread_id latest [] = latest
newest_in_store chat_id thread_id latest ((k, h) ∷ rest) =
    newest_in_store chat_id thread_id (newest_of_thread chat_id thread_id latest h) rest

unfoldable pub get_latest_snapshot_for_thread : ℕ → ℕ → Store → Result Snapshot
unfolding newest_in_store
get_latest_snapshot_for_thread chat_id thread_id s =
    found (newest_in_store chat_id thread_id none s.snapshots)

-- hermes/store.go: the message that the task row keeps of an interrupt.
abbrev pub message_of : Option HermesInterrupt → Option ℕ
message_of none = none
message_of (some i) = if i.message_id == 0 then none else some i.message_id

-- `hermesStateToTaskState` of hermes/store.go.
unfoldable pub hermes_state_to_task_state : TaskState → HermesState → TaskState
hermes_state_to_task_state base state = record base {
  id = state.task_id;
  chat_id = state.chat_id;
  thread_id = state.thread_id;
  planner_session_id = state.planner_session_id;
  executor_session_id = state.executor_session_id;
  project_dir = state.project_dir;
  goal = state.goal;
  plan = state.plan;
  current_idx = state.current_idx;
  accumulated = state.accumulated;
  artifacts = state.artifacts;
  status = state.status;
  interrupted_by = message_of state.interrupt;
  token_budget = state.token_budget;
  github_issue_number = state.github_issue_number;
  model_usages = state.model_usages;
  phase_usages = state.phase_usages;
}

-- The state that the updates of a commit are applied to.
unfoldable pub seed_state : TaskState → List Snapshot → HermesState
unfolding hermes_state_from_task_state carry_forward_snapshot_fields
seed_state task old = elim (last_snapshot old) [
  | none ↦ hermes_state_from_task_state task
  | some prev ↦ carry_forward_snapshot_fields (hermes_state_from_task_state task) prev.state
]

abbrev pub parent_of : Str → List Snapshot → Str
parent_of given old = elim (last_snapshot old) [ none ↦ given | some prev ↦ or_text given prev.id ]

abbrev pub to_result : Reduced → Result HermesState
to_result (reduced t) = ok t
to_result (refused e) = err e

-- The snapshot that a commit adds to the history `old`.
unfoldable pub committed_snapshot : ℕ → RuntimeCommit → List Snapshot → HermesState → Snapshot
unfolding collapse_state_updates
committed_snapshot now c old next = record {
  id = or_text c.snapshot_id (numbered_id c.task_id (length old + 1));
  task_id = c.task_id;
  chat_id = next.chat_id;
  thread_id = next.thread_id;
  step = length old + 1;
  state = next;
  next_step = c.next_step;
  source_node = c.source_node;
  writes = collapse_state_updates c.updates;
  metadata = c.metadata;
  parent_snapshot_id = parent_of c.parent_snapshot_id old;
  channel_versions = c.channel_versions;
  created_at = or_now c.created_at now;
}

unfoldable pub save_commit :
    ℕ → RuntimeCommit → TaskState → HermesState → Store → Result (Snapshot × Store)
save_commit now c task next s =
    let old = history c.task_id s in
    let snapshot = committed_snapshot now c old next in
    let row = record (hermes_state_to_task_state task next) {
      updated_at = or_now c.created_at now;
    } in
    if is_duplicate snapshot.id snapshot.step old
    then err duplicate_snapshot
    else ok (
      snapshot,
      record {
        tasks = insert c.task_id row s.tasks;
        snapshots = insert c.task_id (old ++ snapshot ∷ []) s.snapshots;
      },
    )

unfoldable pub commit_runtime_step : ℕ → RuntimeCommit → Store → Result (Snapshot × Store)
commit_runtime_step now c s = do
  task ← found (lookup c.task_id s.tasks)
  next ← to_result (apply_state_updates (seed_state task (history c.task_id s)) c.updates)
  save_commit now c task next s
