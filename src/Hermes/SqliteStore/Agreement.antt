-- ===== src/Hermes/SqliteStore/Agreement.antt =====
-- The stores of hermes/memory_store.go and hermes/store.go against each other.
use alice_core.Prelude.{
  ℕ, ◌≡◌, refl, sym, ap, ◌∙◌, arith, Str, is_empty, if◌then◌else◌, List, [], ◌∷◌, Option, some,
  lookup,
}
use alice_core.Hermes.State.{TaskState, Artifact}
use alice_core.Hermes.Snapshot.{HermesState, Snapshot, RuntimeCommit}
use alice_core.Hermes.Reducer.{reduced, apply_state_updates}
use alice_core.Hermes.MemoryStore.Rows as Rows
use alice_core.Hermes.MemoryStore as Memory
use alice_core.Hermes.MemoryStore.Inversion as Memory_inversion
use alice_core.Hermes.MemoryStore.Commit as Memory_commit
use alice_core.Hermes.SqliteStore.Tables.{TaskRow, Db, ok, latest, load_artifacts}
use alice_core.Hermes.SqliteStore.Commits as Sqlite
use alice_core.Hermes.SqliteStore.Accepted.{Inversion, commit-Inversion, StepFits, with_files}
use alice_core.Hermes.SqliteStore.Committed.{commit-Durable, due_state}

-- Both stores have the task, the same state is due to its next commit, and no file is recorded beside
-- the snapshots.
pub record Agree (id : Str) (m : Memory.Store) (db : Db) : Type 0 where
  pub task : TaskState
  pub has_task : lookup id m.tasks ≡ some task
  pub row : TaskRow
  pub has_row : lookup id db.task_states ≡ some row
  pub same_due : Memory.seed_state task (Memory.history id m) ≡ due_state id row db
  pub no_files : load_artifacts id db.task_artifacts ≡ []

-- The part of a snapshot that does not name its place in one of the stores.
pub record SameStep (x y : Snapshot) : Type 0 where
  pub task_id : x.task_id ≡ y.task_id
  pub state : x.state ≡ y.state
  pub writes : x.writes ≡ y.writes
  pub next_step : x.next_step ≡ y.next_step
  pub source_node : x.source_node ≡ y.source_node
  pub metadata : x.metadata ≡ y.metadata
  pub channel_versions : x.channel_versions ≡ y.channel_versions
  pub created_at : x.created_at ≡ y.created_at

without_files : (s : HermesState) → with_files [] s ≡ s
without_files s = λ i. record s { artifacts = kept s.artifacts i }
  where
    kept : (xs : List Artifact) → (if is_empty xs then [] else xs) ≡ xs
    kept [] = refl
    kept (x ∷ xs) = refl

SameStep-new :
    (new_id : Str) (now : ℕ) (c : RuntimeCommit) (old : List Snapshot) (prev : Option Snapshot)
    (next : HermesState)
    → SameStep
        (Memory.committed_snapshot now c old next)
        (Sqlite.committed_snapshot new_id now c prev next)
unfolding Memory.committed_snapshot Sqlite.committed_snapshot
SameStep-new new_id now c old prev next = record {
  task_id = refl;
  state = refl;
  writes = refl;
  next_step = refl;
  source_node = refl;
  metadata = refl;
  channel_versions = refl;
  created_at = refl;
}

reduced-inj : (s t : HermesState) → reduced s ≡ reduced t → s ≡ t
reduced-inj s t h = ground arith

same_value : {A : Type 0} (o : Option A) (a b : A) → o ≡ some a → o ≡ some b → a ≡ b
same_value o a b p q = cc

-- The state that both stores reach.
same_next :
    (new_id : Str) (now : ℕ) (c : RuntimeCommit) (m m' : Memory.Store) (db db' : Db)
    (x y : Snapshot)
    → Agree c.task_id m db
    → (p : Memory_inversion.Inversion now c m m' x) → (q : Inversion new_id now c db db' y)
    → p.next ≡ q.next
same_next new_id now c m m' db db' x y a p q = reduced-inj p.next q.next (
    sym p.applied
    ∙ ap (λ t. apply_state_updates (Memory.seed_state t (Memory.history c.task_id m)) c.updates)
        (same_value (lookup c.task_id m.tasks) p.before a.task p.had_row a.has_task)
    ∙ ap (λ s. apply_state_updates s c.updates) a.same_due
    ∙ ap (λ r. apply_state_updates (due_state c.task_id r db) c.updates)
        (same_value (lookup c.task_id db.task_states) a.row q.row a.has_row q.had_row)
    ∙ q.applied)

same_step :
    (new_id : Str) (now : ℕ) (c : RuntimeCommit) (m m' : Memory.Store) (db db' : Db)
    (x y : Snapshot)
    → Agree c.task_id m db
    → Memory_inversion.Inversion now c m m' x
    → Inversion new_id now c db db' y
    → SameStep x y
same_step new_id now c m m' db db' x y a p q =
    rw (p.is_new, q.is_new, same_next new_id now c m m' db db' x y a p q)
      (SameStep-new new_id now c (Memory.history c.task_id m) (latest c.task_id db) q.next)

-- Where the two stores agree on a task, a commit to it that both accept makes the same step in both,
-- whatever ids and numbers they give it, and they agree again afterwards.
pub commits-Agree :
    (new_id : Str) (now : ℕ) (c : RuntimeCommit) (m m' : Memory.Store) (db db' : Db)
    (x y : Snapshot)
    → Agree c.task_id m db
    → StepFits (latest c.task_id db)
    → Memory.commit_runtime_step now c m ≡ Rows.ok (x, m')
    → Sqlite.commit_runtime_step new_id now c db ≡ (ok y, db')
    → SameStep x y × Agree c.task_id m' db'
unfolding Memory.get_task
commits-Agree new_id now c m m' db db' x y a fits h k =
    let p = Memory_inversion.commit-Inversion now c m x m' h in
    let q = commit-Inversion new_id now c y db db' k in
    let f = Memory_commit.commit-Committed now c m m' x h in
    let g = commit-Durable new_id now c db db' y fits k in
    let same = same_step new_id now c m m' db db' x y a p q in
    (
      same,
      record {
        task = f.row;
        has_task = Memory_commit.found_ok (lookup c.task_id m'.tasks) f.row f.has_row;
        row = _;
        has_row = g.row_after;
        same_due =
            f.row_is_view
            ∙ same.state
            ∙ sym (without_files y.state)
            ∙ ap (λ l. with_files l y.state) (sym a.no_files)
            ∙ sym g.due_after;
        no_files = ap (load_artifacts c.task_id) q.written.files ∙ a.no_files;
      },
    )
