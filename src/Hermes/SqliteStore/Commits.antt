-- ===== src/Hermes/SqliteStore/Commits.antt =====
-- hermes/store.go: `CreateTask`, `CreateSnapshot` and `CommitRuntimeStep`. `new_id` is what
-- `uuid.NewString` returns in the call, and `now` what `time.Now` does.
use alice_core.Prelude.{
  ℕ, Str, add_int, ◌==◌, is_empty, trim_space, if◌then◌else◌, Option, none, some,
}
use alice_core.Hermes.State.{TaskState}
use alice_core.Hermes.Snapshot.{HermesState, Snapshot, RuntimeCommit, hermes_state_from_task_state}
use alice_core.Hermes.Reducer.{
  Reduced, reduced, refused, apply_state_updates, collapse_state_updates,
  carry_forward_snapshot_fields,
}
use alice_core.Hermes.MemoryStore.{or_now, or_text, message_of, hermes_state_to_task_state}
use alice_core.Hermes.SqliteStore.Tables.{
  TaskRow, Db, Action, Result, reducer, task_id_required, ok, err, query, change, raise, return,
  transaction, ◌>>=◌, ◌>>◌, update_task, whole_seconds, insert_task, insert_snapshot, latest,
}
use alice_core.Hermes.SqliteStore.Mirror.{
  upsert_unified_task, replace_unified_sub_tasks, terminal_ended_at,
}
use alice_core.Hermes.SqliteStore.Reads.{get_task}

-- The row that `CreateTask` inserts.
abbrev pub row_of : TaskState → TaskRow
row_of t = record {
  chat_id = t.chat_id;
  thread_id = t.thread_id;
  planner_session = t.planner_session_id;
  project_dir = t.project_dir;
  goal = t.goal;
  current_idx = t.current_idx;
  accumulated = t.accumulated;
  status = t.status;
  interrupted_by = t.interrupted_by;
  token_budget = t.token_budget;
  plan = t.plan;
  github_issue_number = t.github_issue_number;
  model_usages = t.model_usages;
  phase_usages = t.phase_usages;
  created_at = whole_seconds t.created_at;
  updated_at = whole_seconds t.updated_at;
}

unfoldable pub create_task : ℕ → TaskState → Action TaskState
unfolding insert_task upsert_unified_task
create_task now task =
    let stamped : TaskState = record task { created_at = now; updated_at = now } in
    insert_task task.id (row_of stamped) >> upsert_unified_task now stamped none >> return stamped

-- The fields that `CreateSnapshot` fills in where they are missing.
unfoldable pub completed_snapshot : Str → ℕ → Snapshot → Snapshot
completed_snapshot new_id now x = record x {
  id = or_text x.id new_id;
  created_at = or_now x.created_at now;
  state = record x.state { task_id = or_text x.state.task_id x.task_id };
  chat_id = if x.chat_id == 0 then x.state.chat_id else x.chat_id;
  thread_id = if x.thread_id == 0 then x.state.thread_id else x.thread_id;
}

unfoldable pub create_snapshot : Str → ℕ → Snapshot → Action Snapshot
unfolding completed_snapshot insert_snapshot
create_snapshot new_id now x =
    let made = completed_snapshot new_id now x in
    if is_empty (trim_space x.task_id)
    then raise task_id_required
    else (insert_snapshot made >> return made)

-- The state that the updates of a commit are applied to.
unfoldable pub seed_state : TaskState → Option Snapshot → HermesState
unfolding hermes_state_from_task_state carry_forward_snapshot_fields
seed_state task none = hermes_state_from_task_state task
seed_state task (some prev) =
    carry_forward_snapshot_fields (hermes_state_from_task_state task) prev.state

abbrev pub to_result : Reduced → Result HermesState
to_result (reduced t) = ok t
to_result (refused e) = err (reducer e)

abbrev pub step_after : Option Snapshot → ℕ
step_after none = 1
step_after (some prev) = add_int prev.step 1

abbrev pub parent_after : Str → Option Snapshot → Str
parent_after given none = given
parent_after given (some prev) = or_text given prev.id

unfoldable pub committed_snapshot :
    Str → ℕ → RuntimeCommit → Option Snapshot → HermesState → Snapshot
unfolding collapse_state_updates
committed_snapshot new_id now c prev next = record {
  id = or_text c.snapshot_id new_id;
  task_id = c.task_id;
  chat_id = next.chat_id;
  thread_id = next.thread_id;
  step = step_after prev;
  state = next;
  next_step = c.next_step;
  source_node = c.source_node;
  writes = collapse_state_updates c.updates;
  metadata = c.metadata;
  parent_snapshot_id = parent_after c.parent_snapshot_id prev;
  channel_versions = c.channel_versions;
  created_at = or_now c.created_at now;
}

-- The three columns of the row that a commit still writes.
abbrev pub committed_row : ℕ → HermesState → TaskRow → TaskRow
committed_row created_at next r = record r {
  status = next.status;
  interrupted_by = message_of next.interrupt;
  updated_at = whole_seconds created_at;
}

-- The transaction.
unfoldable pub write_commit : ℕ → TaskState → HermesState → Snapshot → Action (Unit {0})
unfolding replace_unified_sub_tasks upsert_unified_task insert_snapshot hermes_state_to_task_state
write_commit now task next x = transaction (
    change (update_task x.task_id (committed_row x.created_at next))
    >> replace_unified_sub_tasks now x.task_id next.plan
    >> upsert_unified_task now (hermes_state_to_task_state task next)
        (terminal_ended_at now next.status x.created_at)
    >> insert_snapshot x)

unfoldable pub save_commit : Str → ℕ → RuntimeCommit → TaskState → HermesState → Action Snapshot
unfolding committed_snapshot write_commit latest
save_commit new_id now c task next db =
    let x = committed_snapshot new_id now c (latest c.task_id db) next in
    (write_commit now task next x >> return x) db

unfoldable pub next_state : RuntimeCommit → TaskState → Db → Result HermesState
unfolding seed_state apply_state_updates latest
next_state c task db =
    to_result (apply_state_updates (seed_state task (latest c.task_id db)) c.updates)

unfoldable pub commit_from : Str → ℕ → RuntimeCommit → TaskState → Action Snapshot
unfolding next_state save_commit
commit_from new_id now c task =
    query (next_state c task) >>= λ (next : HermesState). save_commit new_id now c task next

unfoldable pub commit_runtime_step : Str → ℕ → RuntimeCommit → Action Snapshot
unfolding get_task commit_from
commit_runtime_step new_id now c =
    if is_empty (trim_space c.task_id)
    then raise task_id_required
    else (query (get_task c.task_id) >>= λ (task : TaskState). commit_from new_id now c task)
