-- ===== src/Examples/Sqlite.antt =====
-- Commits, resolutions and sweeps of the SQLite store at concrete values.
use alice_core.Prelude.{
  ℕ, ◌≡◌, refl, codes, Str, [], ◌∷◌, Option, none, some, lookup, insert, trim_space,
}
use alice_core.Hermes.Status.{TaskStatus, valid_task_status_transition}
use alice_core.Hermes.Snapshot.{
  Snapshot, RuntimeCommit, RuntimeStep, HermesInterrupt, no_update, hermes_state_from_task_state,
}
use alice_core.Hermes.Reducer.{apply_state_updates}
use alice_core.Hermes.MemoryStore.{hermes_state_to_task_state}
use alice_core.Hermes.SqliteStore.Tables.{Db, Result, ok, err, latest, update_row}
use alice_core.Hermes.SqliteStore.Reads.{get_task, viewed, scan_task}
use alice_core.Hermes.SqliteStore.Commits.{
  create_task, commit_runtime_step, committed_snapshot, seed_state,
}
use alice_core.Hermes.SqliteStore.Committed.{Durable, commit-Durable}
use alice_core.Hermes.SqliteStore.Accepted.{StepFits}
use alice_core.Hermes.SqliteStore.Tables.{TaskRow, stored, load_artifacts}
use alice_core.Hermes.SqliteStore.Commits.{row_of}
use alice_core.Hermes.SqliteStore.Agreement.{Agree, SameStep, commits-Agree}
use alice_core.Hermes.SqliteStore.Overlaid.{marks, write_row, untimed, write_row-Overlaid}
use alice_core.Hermes.SqliteStore.Resolution.{sweep_zombie_tasks, skip, apply_interrupt_resolution}
use alice_core.Hermes.SqliteStore.Sweeping.{Swept, sweep-Swept}
use alice_core.Hermes.SqliteStore.Retry.{is_busy_text, exec_with_retry}
use alice_core.Hermes.SqliteStore.Retry.Attempts.{Ended, exec_with_retry-Ended}
use alice_core.Hermes.Snapshot.{sub_task_pause}
use alice_core.Hermes.MemoryStore as Memory
use alice_core.Hermes.MemoryStore.Rows as Rows
use alice_core.Prelude.{if◌then◌else◌, ltb}
use alice_core.Examples.Data.{
  two_tasks, active_id, active_task, finished_task, active_state, spending, commit_with,
}

abbrev no_tables : Db
no_tables = record {
  task_states = [];
  task_artifacts = [];
  snapshots = [];
  tasks = [];
  sub_tasks = [];
  artifacts = [];
}

-- The tables once both tasks are created.
abbrev created : Db
created = (create_task 6 finished_task (create_task 5 active_task no_tables).1).1

abbrev first_id : Str
first_id = codes "u1"

abbrev first_commit : RuntimeCommit
first_commit = commit_with (spending 20 (codes "one") ∷ []) RuntimeStep.reviewer

abbrev blank : Snapshot
unfolding committed_snapshot
blank = committed_snapshot first_id 100 first_commit none active_state

abbrev snapshot_or : Result Snapshot → Snapshot
snapshot_or (ok x) = x
snapshot_or (err e) = blank

abbrev committed : Db
committed = (commit_runtime_step first_id 100 first_commit created).1

abbrev snapshot1 : Snapshot
snapshot1 = snapshot_or (commit_runtime_step first_id 100 first_commit created).0

accepted1 : commit_runtime_step first_id 100 first_commit created ≡ (ok snapshot1, committed)
unfolding commit_runtime_step create_task lookup insert apply_state_updates trim_space update_row
accepted1 = refl

fits1 : StepFits (latest active_id created)
unfolding latest create_task lookup insert
fits1 = tt

commit-Durable_example : Durable first_commit created committed snapshot1
commit-Durable_example =
    commit-Durable first_id 100 first_commit created committed snapshot1 fits1 accepted1

abbrev in_memory : Rows.Result (Snapshot × Memory.Store)
in_memory = Memory.commit_runtime_step 100 first_commit two_tasks

abbrev store_or : Rows.Result (Snapshot × Memory.Store) → Memory.Store
store_or (Rows.ok (x, s)) = s
store_or (Rows.err e) = two_tasks

abbrev memory_snapshot_or : Rows.Result (Snapshot × Memory.Store) → Snapshot
memory_snapshot_or (Rows.ok (x, s)) = x
memory_snapshot_or (Rows.err e) = blank

accepted_in_memory : in_memory ≡ Rows.ok (memory_snapshot_or in_memory, store_or in_memory)
unfolding Memory.commit_runtime_step Memory.save_commit Memory.is_duplicate Memory.history lookup
    insert apply_state_updates
accepted_in_memory = refl

abbrev active_row : TaskRow
active_row = row_of (record active_task { created_at = 5; updated_at = 5 })

agree : Agree active_id two_tasks created
unfolding create_task lookup insert latest viewed scan_task load_artifacts Memory.history
    Memory.seed_state seed_state hermes_state_from_task_state
agree = record {
  task = active_task;
  has_task = refl;
  row = active_row;
  has_row = refl;
  same_due = refl;
  no_files = refl;
}

commits-Agree_example :
    SameStep (memory_snapshot_or in_memory) snapshot1
    × Agree active_id (store_or in_memory) committed
commits-Agree_example =
    commits-Agree first_id 100 first_commit two_tasks (store_or in_memory) created committed
      (memory_snapshot_or in_memory) snapshot1 agree fits1 accepted_in_memory accepted1

latest1 : latest active_id committed ≡ some (stored snapshot1)
unfolding latest commit_runtime_step create_task lookup insert apply_state_updates trim_space
    update_row
latest1 = refl

write_row-Overlaid_example :
    (untimed (get_task active_id (write_row 150 (marks active_id TaskStatus.failed) committed).1)
      ≡ untimed (get_task active_id committed))
    × (latest active_id (write_row 150 (marks active_id TaskStatus.failed) committed).1
        ≡ some (stored snapshot1))
write_row-Overlaid_example =
    write_row-Overlaid 150 (marks active_id TaskStatus.failed) active_id (stored snapshot1)
      committed latest1

abbrev drawn : Str → Str
drawn id = b'z' ∷ id

sweep-Swept_example : Swept committed (sweep_zombie_tasks drawn 200 (codes "restart") committed)
sweep-Swept_example = sweep-Swept drawn 200 (codes "restart") committed

-- The task that was executing is failed, and the finished one is no zombie.
swept_one : (sweep_zombie_tasks drawn 200 (codes "restart") committed).0 ≡ 1
unfolding sweep_zombie_tasks commit_runtime_step create_task lookup insert apply_state_updates
    trim_space update_row valid_task_status_transition
swept_one = refl

abbrev pause : HermesInterrupt
pause = record {
  id = codes "i1";
  message_id = 0;
  source_step = RuntimeStep.executor;
  resume_step = RuntimeStep.executor;
  payload = sub_task_pause 0 (codes "a") (codes "write the code") 1 (codes "no network");
  reason = codes "sub_task_failure";
  created_at = 120;
  expires_at = none;
}

abbrev pausing : RuntimeCommit
pausing = commit_with (record no_update { interrupt = some pause } ∷ []) RuntimeStep.executor

abbrev paused : Db
paused = (commit_runtime_step (codes "u2") 120 pausing committed).1

abbrev skipped : Db
skipped = (apply_interrupt_resolution (codes "u3") 300 active_id skip paused).1

-- A write that finds the database busy twice and then stores its number.
abbrev busy_twice : ℕ → ℕ → Option Str × ℕ
busy_twice i s = if ltb i 2 then (some (codes "commit: SQLITE_BUSY (5)"), s) else (none, i)

exec_with_retry-Ended_example :
    Ended is_busy_text busy_twice 9 (exec_with_retry is_busy_text busy_twice 9)
exec_with_retry-Ended_example = exec_with_retry-Ended is_busy_text busy_twice 9

third_attempt : exec_with_retry is_busy_text busy_twice 9 ≡ (none, 2)
unfolding exec_with_retry is_busy_text
third_attempt = refl
