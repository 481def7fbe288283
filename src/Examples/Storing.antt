-- ===== src/Examples/Storing.antt =====
-- Commits and calls of the memory store at concrete values.
use alice_core.Prelude.{
  decimal, ℕ, ◌≡◌, ◌≢◌, refl, codes, List, [], ◌∷◌, some, lookup, insert, arith,
}
use alice_core.Hermes.Status.{TaskStatus, valid_task_status_transition}
use alice_core.Hermes.State.{TaskState}
use alice_core.Hermes.Snapshot.{Snapshot, RuntimeCommit, RuntimeStep}
use alice_core.Hermes.Reducer.{reduced, apply_state_updates}
use alice_core.Hermes.MemoryStore.Rows.{Result, ok, err}
use alice_core.Hermes.MemoryStore.{
  Store, hermes_state_to_task_state, is_duplicate, seed_state, commit_runtime_step, save_commit,
  committed_snapshot, history,
}
use alice_core.Hermes.MemoryStore.Commit.{Committed, commit-Committed, commit_twice}
use alice_core.Hermes.MemoryStore.Calls.{Call, run, marks, commits, spends, creates_task}
use alice_core.Hermes.MemoryStore.Statuses.{run_terminal}
use alice_core.Examples.Data.{
  active_id, finished_id, two_tasks, finished_task, active_state, task_at, spending, finishing,
  commit_with,
}

abbrev first_commit : RuntimeCommit
first_commit = commit_with (spending 20 (codes "one") ∷ []) RuntimeStep.reviewer

abbrev second_commit : RuntimeCommit
second_commit = commit_with (spending 5 (codes "two") ∷ finishing ∷ []) RuntimeStep.terminal

abbrev blank : Snapshot
unfolding committed_snapshot
blank = committed_snapshot 100 first_commit [] active_state

abbrev store_or : Store → Result (Snapshot × Store) → Store
store_or s (ok (x, t)) = t
store_or s (err e) = s

abbrev snapshot_or : Result (Snapshot × Store) → Snapshot
unfolding blank
snapshot_or (ok (x, t)) = x
snapshot_or (err e) = blank

abbrev store1 : Store
store1 = store_or two_tasks (commit_runtime_step 100 first_commit two_tasks)

abbrev snapshot1 : Snapshot
unfolding snapshot_or
snapshot1 = snapshot_or (commit_runtime_step 100 first_commit two_tasks)

abbrev store2 : Store
store2 = store_or store1 (commit_runtime_step 200 second_commit store1)

abbrev snapshot2 : Snapshot
unfolding snapshot_or
snapshot2 = snapshot_or (commit_runtime_step 200 second_commit store1)

accepted1 : commit_runtime_step 100 first_commit two_tasks ≡ ok (snapshot1, store1)
unfolding commit_runtime_step save_commit lookup apply_state_updates is_duplicate history snapshot1
    committed_snapshot
accepted1 = refl

accepted2 : commit_runtime_step 200 second_commit store1 ≡ ok (snapshot2, store2)
unfolding commit_runtime_step save_commit lookup insert apply_state_updates is_duplicate history
    snapshot2 committed_snapshot seed_state valid_task_status_transition hermes_state_to_task_state
    decimal
accepted2 = refl

commit-Committed_example : Committed first_commit two_tasks store1 snapshot1
commit-Committed_example = commit-Committed 100 first_commit two_tasks store1 snapshot1 accepted1

commit_twice_example :
    apply_state_updates snapshot1.state second_commit.updates ≡ reduced snapshot2.state
commit_twice_example =
    commit_twice 100 200 first_commit second_commit two_tasks store1 store2 snapshot1 snapshot2
      accepted1 accepted2 refl

abbrev calls : List (ℕ × Call)
calls =
    (1, marks active_id TaskStatus.failed)
    ∷ (2, marks finished_id TaskStatus.executing)
    ∷ (3, commits first_commit)
    ∷ (4, creates_task (task_at (codes "t3") TaskStatus.planning))
    ∷ (5, spends finished_id 10)
    ∷ []

ids_differ : codes "t3" ≢ finished_id
ids_differ h = ground arith

run_terminal_example :
    (t' : TaskState) × (lookup finished_id (run calls two_tasks).tasks ≡ some t')
    × (t'.status ≡ TaskStatus.done)
unfolding lookup
run_terminal_example =
    run_terminal finished_id calls two_tasks finished_task (tt, (tt, (tt, (ids_differ, (tt, tt)))))
      refl refl
