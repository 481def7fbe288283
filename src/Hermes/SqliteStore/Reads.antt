-- ===== src/Hermes/SqliteStore/Reads.antt =====
-- hermes/store.go: the queries. Where rows tie in an order, SQL promises none of them first, and the
-- model takes the one that was inserted first. Times compare as the numbers that their texts spell.
use alice_core.Prelude.{
  ℕ, Bool, not, ◌&&◌, ◌||◌, Str, str_eq, codes, slt, ltb, ◌==◌, is_empty, if◌then◌else◌, List, [],
  ◌∷◌, Option, none, some, take, drop, lookup, map,
}
use alice_core.Hermes.Status.{TaskStatus, is_terminal}
use alice_core.Hermes.State.{Artifact, TaskState}
use alice_core.Hermes.Snapshot.{Snapshot}
use alice_core.Hermes.MemoryStore.{hermes_state_to_task_state}
use alice_core.Hermes.SqliteStore.Tables.{
  TaskRow, Db, Result, ok, err, no_task, or_raise, latest, load_artifacts,
}

-- `normalizeStatus`: a status column read as a `TaskStatus`.
unfoldable pub normalize_status : TaskStatus → TaskStatus
normalize_status (TaskStatus.other s) =
    if str_eq s (codes "validating") then TaskStatus.executing else TaskStatus.other s
normalize_status s = s

-- `scanTask`, with `loadArtifacts`. The executor's session is no column.
unfoldable pub scan_task : Str → TaskRow → List Artifact → TaskState
unfolding normalize_status
scan_task id r artifacts = record {
  id = id;
  chat_id = r.chat_id;
  thread_id = r.thread_id;
  planner_session_id = r.planner_session;
  executor_session_id = [];
  project_dir = r.project_dir;
  goal = r.goal;
  plan = r.plan;
  current_idx = r.current_idx;
  accumulated = r.accumulated;
  artifacts = artifacts;
  status = normalize_status r.status;
  interrupted_by = r.interrupted_by;
  token_budget = r.token_budget;
  github_issue_number = r.github_issue_number;
  model_usages = r.model_usages;
  phase_usages = r.phase_usages;
  created_at = r.created_at;
  updated_at = r.updated_at;
}

-- `overlayLatestSnapshot`
unfoldable pub overlay : Option Snapshot → TaskState → TaskState
unfolding hermes_state_to_task_state
overlay none base = base
overlay (some x) base =
    let merged = hermes_state_to_task_state base x.state in
    record merged {
      artifacts = if is_empty merged.artifacts then base.artifacts else merged.artifacts;
    }

-- The task that `GetTask` makes of its row.
unfoldable pub viewed : Db → Str → TaskRow → TaskState
unfolding overlay scan_task latest load_artifacts
viewed db id r = overlay (latest id db) (scan_task id r (load_artifacts id db.task_artifacts))

abbrev pub view_of : Db → Str → Option TaskRow → Option TaskState
view_of db id none = none
view_of db id (some r) = some (viewed db id r)

unfoldable pub get_task : Str → Db → Result TaskState
unfolding viewed
get_task id db = or_raise no_task (view_of db id (lookup id db.task_states))

unfoldable pub get_latest_snapshot : Str → Db → Result Snapshot
unfolding latest
get_latest_snapshot id db = or_raise no_task (latest id db)

-- `ORDER BY created_at DESC, step DESC`
abbrev pub later_created : Option Snapshot → Snapshot → Option Snapshot
later_created none x = some x
later_created (some y) x =
    if ltb y.created_at x.created_at || (y.created_at == x.created_at && slt y.step x.step)
    then some x
    else some y

unfoldable pub newest_for_thread : ℕ → ℕ → Option Snapshot → List Snapshot → Option Snapshot
newest_for_thread chat_id thread_id best [] = best
newest_for_thread chat_id thread_id best (x ∷ xs) =
    newest_for_thread chat_id thread_id
      (if x.chat_id == chat_id && x.thread_id == thread_id then later_created best x else best) xs

unfoldable pub get_latest_snapshot_for_thread : ℕ → ℕ → Db → Result Snapshot
unfolding newest_for_thread
get_latest_snapshot_for_thread chat_id thread_id db =
    or_raise no_task (newest_for_thread chat_id thread_id none db.snapshots)

-- `ORDER BY` as a stable insertion by a test `before`.
unfoldable pub insert_by {ℓ} : {A : Type ℓ} → (A → A → Bool) → A → List A → List A
insert_by before x [] = x ∷ []
insert_by before x (y ∷ ys) = if before y x then y ∷ insert_by before x ys else x ∷ y ∷ ys

unfoldable pub sort_by {ℓ} : {A : Type ℓ} → (A → A → Bool) → List A → List A
unfolding insert_by
sort_by before [] = []
sort_by before (x ∷ xs) = insert_by before x (sort_by before xs)

-- The snapshots of one task.
unfoldable pub snapshots_of : Str → List Snapshot → List Snapshot
snapshots_of id [] = []
snapshots_of id (x ∷ xs) =
    let others = snapshots_of id xs in if str_eq x.task_id id then x ∷ others else others

unfoldable pub list_snapshot_history : Str → Db → Result (List Snapshot)
unfolding snapshots_of sort_by
list_snapshot_history id db =
    let rows = sort_by (λ (x y : Snapshot). slt x.step y.step) (snapshots_of id db.snapshots) in
    if is_empty rows then err no_task else ok rows

-- `COALESCE(snap.state_status, task.status)`
unfoldable pub current_status : Db → Str → TaskRow → TaskStatus
unfolding latest
current_status db id r = elim (latest id db) [ none ↦ r.status | some x ↦ x.state.status ]

abbrev pub newer_row : Option (Str × TaskRow) → Str → TaskRow → Option (Str × TaskRow)
newer_row none id r = some (id, r)
newer_row (some (k, q)) id r = if ltb q.created_at r.created_at then some (id, r) else some (k, q)

-- The query of `GetActiveTaskForChat` with its `activeStatusFilter`.
unfoldable pub active_row :
    Db → ℕ → Option (Str × TaskRow) → List (Str × TaskRow) → Option (Str × TaskRow)
unfolding current_status
active_row db chat_id best [] = best
active_row db chat_id best ((id, r) ∷ rest) =
    active_row db chat_id
      (if r.chat_id == chat_id && not (is_terminal (current_status db id r))
        then newer_row best id r
        else best)
      rest

abbrev pub view_row : Db → Option (Str × TaskRow) → Option TaskState
view_row db none = none
view_row db (some (id, r)) = some (viewed db id r)

unfoldable pub get_active_task_for_chat : ℕ → Db → Result TaskState
unfolding active_row viewed
get_active_task_for_chat chat_id db =
    or_raise no_task (view_row db (active_row db chat_id none db.task_states))

unfoldable pub rows_where {ℓ} : {A : Type ℓ} → (A → Bool) → List A → List A
rows_where keep [] = []
rows_where keep (x ∷ xs) = let others = rows_where keep xs in if keep x then x ∷ others else others

-- `LIMIT ?`, where a negative limit is none, and `OFFSET ?`, where a negative offset is zero.
abbrev pub limited {ℓ} : {A : Type ℓ} → ℕ → List A → List A
limited n xs = if slt n 0 then xs else take n xs

abbrev pub offset_by {ℓ} : {A : Type ℓ} → ℕ → List A → List A
offset_by n xs = if slt n 0 then xs else drop n xs

-- At one time the row that was inserted first stands first.
abbrev pub later_row : Str × TaskRow → Str × TaskRow → Bool
later_row a b = ltb b.1.created_at a.1.created_at

unfoldable pub list_tasks_for_chat : ℕ → ℕ → Db → List TaskState
unfolding rows_where sort_by viewed
list_tasks_for_chat chat_id limit db =
    map (λ (x : Str × TaskRow). viewed db x.0 x.1)
      (limited limit (
        sort_by later_row
          (rows_where (λ (x : Str × TaskRow). x.1.chat_id == chat_id) db.task_states)))
