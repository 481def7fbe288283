-- ===== src/Hermes/SqliteStore/Committed.antt =====
-- What the store of hermes/store.go reads after an accepted `CommitRuntimeStep`.
use alice_core.Prelude.{
  ℕ, ◌≡◌, refl, sym, ap, subst, ◌∙◌, false, Str, str_eq, str_eq_refl, if_of_true, if_of_false,
  if◌then◌else◌, List, [], ◌∷◌, ◌++◌, Option, none, some, lookup, lookup-insert,
}
use alice_core.Hermes.Snapshot.{HermesState, Snapshot, RuntimeCommit}
use alice_core.Hermes.Reducer.{reduced, apply_state_updates}
use alice_core.Hermes.SqliteStore.Tables.{
  TaskRow, Db, ok, or_raise, no_task, update_row, latest_from, latest, newer_of, is_taken, stored,
  load_artifacts,
}
use alice_core.Hermes.SqliteStore.Reads.{
  get_task, get_latest_snapshot, viewed, view_of, overlay, scan_task,
}
use alice_core.Hermes.SqliteStore.Commits.{
  seed_state, step_after, committed_snapshot, committed_row, commit_runtime_step,
}
use alice_core.Hermes.SqliteStore.Inversion.{Written}
use alice_core.Hermes.SqliteStore.Accepted.{
  Inversion, commit-Inversion, latest_from-append, StepFits, newer-next, with_files,
  seed_state-overlay,
}

-- The state that a commit to the task would be applied to.
abbrev pub due_state : Str → TaskRow → Db → HermesState
due_state id row db = seed_state (viewed db id row) (latest id db)

-- What an accepted commit has done.
pub record Durable (c : RuntimeCommit) (db db' : Db) (x : Snapshot) : Type 0 where
  pub one_more : db'.snapshots ≡ db.snapshots ++ stored x ∷ []
  pub is_latest : get_latest_snapshot c.task_id db' ≡ ok (stored x)
  pub numbered : x.step ≡ step_after (latest c.task_id db)
  pub routed : x.next_step ≡ c.next_step
  pub fresh : is_taken x db.snapshots ≡ false
  pub row : TaskRow
  pub had_row : lookup c.task_id db.task_states ≡ some row
  pub applied : apply_state_updates (due_state c.task_id row db) c.updates ≡ reduced x.state
  pub row_after : lookup c.task_id db'.task_states ≡ some (committed_row x.created_at x.state row)
  pub due_after :
      due_state c.task_id (committed_row x.created_at x.state row) db'
      ≡ with_files (load_artifacts c.task_id db.task_artifacts) x.state
  pub other_tasks : (id : Str) → str_eq c.task_id id ≡ false → get_task id db' ≡ get_task id db
  pub other_snapshots : (id : Str) → str_eq c.task_id id ≡ false → latest id db' ≡ latest id db

committed_fields :
    (new_id : Str) (now : ℕ) (c : RuntimeCommit) (prev : Option Snapshot) (next : HermesState)
    → let x = committed_snapshot new_id now c prev next in
      (x.task_id ≡ c.task_id)
      × (x.step ≡ step_after prev)
      × (x.next_step ≡ c.next_step)
      × (x.state ≡ next)
unfolding committed_snapshot
committed_fields new_id now c prev next = (refl, refl, refl, refl)

pub latest-one_more :
    (id : Str) (x : Snapshot) (db db' : Db)
    → db'.snapshots ≡ db.snapshots ++ x ∷ []
    → latest id db' ≡ newer_of id (latest id db) x
unfolding latest
latest-one_more id x db db' e =
    ap (latest_from id none) e ∙ latest_from-append id none db.snapshots x

pub get_task-same :
    (id : Str) (db db' : Db)
    → lookup id db'.task_states ≡ lookup id db.task_states
    → latest id db' ≡ latest id db
    → db'.task_artifacts ≡ db.task_artifacts
    → get_task id db' ≡ get_task id db
unfolding get_task viewed
get_task-same id db db' rows snaps files = at (lookup id db.task_states) rows
  where
    at :
        (o : Option TaskRow)
        → lookup id db'.task_states ≡ o
        → or_raise no_task (view_of db' id (lookup id db'.task_states))
          ≡ or_raise no_task (view_of db id o)
    at none e = rw e refl
    at (some r) e =
        ap (λ o. or_raise no_task (view_of db' id o)) e
        ∙ (λ i. ok (overlay (snaps i) (scan_task id r (load_artifacts id (files i)))))

lookup-update_row :
    {A : Type 0} (k j : Str) (f : A → A) (r : A) (rows : List (Str × A))
    → lookup k rows ≡ some r
    → lookup j (update_row k f rows) ≡ (if str_eq k j then some (f r) else lookup j rows)
unfolding update_row
lookup-update_row k j f r rows e = rw (e, update_row) (lookup-insert k j (f r) rows)

latest-other :
    (id : Str) (x : Snapshot) (db db' : Db)
    → db'.snapshots ≡ db.snapshots ++ x ∷ []
    → str_eq x.task_id id ≡ false
    → latest id db' ≡ latest id db
latest-other id x db db' e ne =
    latest-one_more id x db db' e ∙ if_of_false (str_eq x.task_id id) _ _ ne

latest-own :
    (x : Snapshot) (db db' : Db)
    → db'.snapshots ≡ db.snapshots ++ x ∷ []
    → StepFits (latest x.task_id db)
    → x.step ≡ step_after (latest x.task_id db)
    → latest x.task_id db' ≡ some x
latest-own x db db' e fits numbered =
    latest-one_more x.task_id x db db' e
    ∙ if_of_true (str_eq x.task_id x.task_id) _ _ (str_eq_refl x.task_id)
    ∙ newer-next (latest x.task_id db) x fits numbered

pub due_state-latest :
    (id : Str) (row : TaskRow) (x : Snapshot) (db : Db)
    → latest id db ≡ some x
    → due_state id row db ≡ with_files (load_artifacts id db.task_artifacts) x.state
unfolding viewed scan_task
due_state-latest id row x db e =
    ap (λ o. seed_state (overlay o (scan_task id row (load_artifacts id db.task_artifacts))) o) e
    ∙ seed_state-overlay (scan_task id row (load_artifacts id db.task_artifacts)) x

-- The row of the commit's task has three columns written, and the others are as they were.
rows_after :
    (c : RuntimeCommit) (next : HermesState) (x : Snapshot) (row : TaskRow) (db db' : Db)
    → Written next x db db'
    → x.task_id ≡ c.task_id
    → x.state ≡ next
    → lookup c.task_id db.task_states ≡ some row
    → (id : Str)
    → lookup id db'.task_states ≡ (
        if str_eq c.task_id id
        then some (committed_row x.created_at x.state row)
        else lookup id db.task_states)
rows_after c next x row db db' w own reached had id =
    ap (lookup id) w.rows
    ∙ (λ i.
        lookup id (update_row (own i) (committed_row x.created_at (sym reached i)) db.task_states))
    ∙ lookup-update_row c.task_id id (committed_row x.created_at x.state) row db.task_states had

-- What is known of every accepted commit, whatever its step number.
pub record Appended (c : RuntimeCommit) (db db' : Db) (x : Snapshot) : Type 0 where
  pub own : x.task_id ≡ c.task_id
  pub numbered : x.step ≡ step_after (latest c.task_id db)
  pub routed : x.next_step ≡ c.next_step
  pub row : TaskRow
  pub had_row : lookup c.task_id db.task_states ≡ some row
  pub applied : apply_state_updates (due_state c.task_id row db) c.updates ≡ reduced x.state
  pub fresh : is_taken x db.snapshots ≡ false
  pub one_more : db'.snapshots ≡ db.snapshots ++ stored x ∷ []
  pub rows :
      (id : Str)
      → lookup id db'.task_states ≡ (
          if str_eq c.task_id id
          then some (committed_row x.created_at x.state row)
          else lookup id db.task_states)
  pub files : db'.task_artifacts ≡ db.task_artifacts
  pub other_tasks : (id : Str) → str_eq c.task_id id ≡ false → get_task id db' ≡ get_task id db
  pub other_snapshots : (id : Str) → str_eq c.task_id id ≡ false → latest id db' ≡ latest id db

pub commit-Appended :
    (new_id : Str) (now : ℕ) (c : RuntimeCommit) (db db' : Db) (x : Snapshot)
    → commit_runtime_step new_id now c db ≡ (ok x, db')
    → Appended c db db' x
commit-Appended new_id now c db db' x h =
    let r : Inversion new_id now c db db' x = commit-Inversion new_id now c x db db' h in
    let w = r.written in
    let facts = committed_fields new_id now c (latest c.task_id db) r.next in
    let own : x.task_id ≡ c.task_id = ap (λ z. z.task_id) r.is_new ∙ facts.0 in
    let reached : x.state ≡ r.next = ap (λ z. z.state) r.is_new ∙ facts.3 in
    let rows = rows_after c r.next x r.row db db' w own reached r.had_row in
    let other : (id : Str) → str_eq c.task_id id ≡ false → latest id db' ≡ latest id db =
      λ id ne. latest-other id (stored x) db db' w.one_more (ap (λ k. str_eq k id) own ∙ ne) in
    record {
      own = own;
      numbered = ap (λ z. z.step) r.is_new ∙ facts.1;
      routed = ap (λ z. z.next_step) r.is_new ∙ facts.2;
      row = r.row;
      had_row = r.had_row;
      applied = r.applied ∙ ap reduced (sym reached);
      fresh = w.fresh;
      one_more = w.one_more;
      rows = rows;
      files = w.files;
      other_tasks =
          λ id ne. get_task-same id db db' (rows id ∙ if_of_false _ _ _ ne) (other id ne) w.files;
      other_snapshots = other;
    }

-- An accepted commit applies its updates to the state that is due and appends one snapshot, under a
-- new id and the next step number, which then is the latest, where that number does not overflow.
-- The state that is due next is the snapshot's, with the task's recorded files where it has none.
-- Of the row it writes the status, the interrupt and the time. Other tasks are read as before.
pub commit-Durable :
    (new_id : Str) (now : ℕ) (c : RuntimeCommit) (db db' : Db) (x : Snapshot)
    → StepFits (latest c.task_id db)
    → commit_runtime_step new_id now c db ≡ (ok x, db')
    → Durable c db db' x
unfolding get_latest_snapshot
commit-Durable new_id now c db db' x fits h =
    let r : Appended c db db' x = commit-Appended new_id now c db db' x h in
    let is_latest : latest c.task_id db' ≡ some (stored x) =
      subst
        (λ id.
          StepFits (latest id db)
          → x.step ≡ step_after (latest id db)
          → latest id db' ≡ some (stored x))
        r.own (latest-own (stored x) db db' r.one_more) fits r.numbered in
    record {
      one_more = r.one_more;
      is_latest = ap (or_raise no_task) is_latest;
      numbered = r.numbered;
      routed = r.routed;
      fresh = r.fresh;
      row = r.row;
      had_row = r.had_row;
      applied = r.applied;
      row_after = r.rows c.task_id ∙ if_of_true _ _ _ (str_eq_refl c.task_id);
      due_after =
          due_state-latest c.task_id (committed_row x.created_at x.state r.row) (stored x) db'
            is_latest
          ∙ ap (λ l. with_files (load_artifacts c.task_id l) x.state) r.files;
      other_tasks = r.other_tasks;
      other_snapshots = r.other_snapshots;
    }
