-- ===== src/Hermes/SqliteStore/Tables.antt =====
-- hermes/store.go: the tables of `migrate`, the actions on them, and the statements that the methods
-- share. A key column has the row's id, so a table with a primary key is an association list in the
-- order of insertion.
use alice_core.Prelude.{
  ℕ, ◌*◌, ◌/◌, Bool, false, not, ◌&&◌, ◌||◌, Str, str_eq, slt, ◌==◌, if◌then◌else◌, is_some, List,
  [], ◌∷◌, ◌++◌, Option, none, some, lookup, insert,
}
use alice_core.Hermes.Status.{TaskStatus, SubTaskStatus}
use alice_core.Hermes.Status as Status
use alice_core.Hermes.Usage.{ModelUsage, PhaseUsage}
use alice_core.Hermes.State.{SubTask, Artifact, TokenBudget, ns_per_second}
use alice_core.Hermes.Snapshot.{Snapshot}

-- A row of `hermes_task_states`.
pub record TaskRow : Type 0 where
  pub chat_id : ℕ
  pub thread_id : ℕ
  pub planner_session : Str
  pub project_dir : Str
  pub goal : Str
  pub current_idx : ℕ
  pub accumulated : Str
  pub status : TaskStatus
  pub interrupted_by : Option ℕ
  pub token_budget : TokenBudget
  pub plan : List SubTask
  pub github_issue_number : ℕ
  pub model_usages : List ModelUsage
  pub phase_usages : List PhaseUsage
  pub created_at : ℕ
  pub updated_at : ℕ

-- A row of `tasks`; its engine, its backend and its cost are constants.
pub record UnifiedTask : Type 0 where
  pub chat_id : ℕ
  pub thread_id : ℕ
  pub project_dir : Str
  pub github_issue_number : ℕ
  pub goal : Str
  pub status : TaskStatus
  pub started_at : ℕ
  pub ended_at : Option ℕ
  pub total_input_tokens : ℕ
  pub total_output_tokens : ℕ

-- A row of `sub_tasks`.
pub record UnifiedSubTask : Type 0 where
  pub task_id : Str
  pub idx : ℕ
  pub description : Str
  pub status : SubTaskStatus
  pub result_text : Str
  pub input_tokens : ℕ
  pub started_at : ℕ
  pub ended_at : Option ℕ

-- A row of `artifacts`.
pub record UnifiedArtifact : Type 0 where
  pub sub_task_id : Str
  pub path : Str
  pub hash : Str

pub record Db : Type 0 where
  pub task_states : List (Str × TaskRow)
  pub task_artifacts : List (Str × Artifact)
  pub snapshots : List Snapshot
  pub tasks : List (Str × UnifiedTask)
  pub sub_tasks : List (Str × UnifiedSubTask)
  pub artifacts : List UnifiedArtifact

-- The errors of the store, of the reducer under it, and of the statements.
pub data Error : Type 0 where
  reducer : Status.Error → Error
  no_task : Error
  no_rows : Error
  unique_constraint : Error
  foreign_key_constraint : Error
  task_id_required : Error
  index_out_of_range : Error
  no_pending_interrupt : Error
  no_sub_task_idx : Error
  unknown_decision : Error

pub data Result {ℓ} (A : Type ℓ) : Type ℓ where
  ok : A → Result A
  err : Error → Result A

-- What a call returns and the tables that it leaves, on an error too.
abbrev pub Action : Type 0 → Type 0
Action A = Db → Result A × Db

infixl 5 ◌>>=◌ ◌>>◌
abbrev pub ◌>>=◌ : {A B : Type 0} → Action A → (A → Action B) → Action B
◌>>=◌ m f db = let (r, db') = m db in elim r [ ok a ↦ f a db' | err e ↦ (err e, db') ]

abbrev pub ◌>>◌ : {B : Type 0} → Action (Unit {0}) → Action B → Action B
m >> k = m >>= λ _. k

abbrev pub return : {A : Type 0} → A → Action A
return a db = (ok a, db)

-- The call's result is dropped.
abbrev pub void : {A : Type 0} → Action A → Action (Unit {0})
void m = m >>= λ _. return tt

abbrev pub raise : {A : Type 0} → Error → Action A
raise e db = (err e, db)

-- A query: it reads the tables and leaves them.
abbrev pub query : {A : Type 0} → (Db → Result A) → Action A
query q db = (q db, db)

abbrev pub change : (Db → Db) → Action (Unit {0})
change f db = (ok tt, f db)

abbrev pub or_raise : {A : Type 0} → Error → Option A → Result A
or_raise e none = err e
or_raise e (some a) = ok a

-- `tx.Begin`, `tx.Commit` and the deferred `tx.Rollback`.
abbrev pub transaction : {A : Type 0} → Action A → Action A
transaction m db = let (r, db') = m db in elim r [ ok a ↦ (ok a, db') | err e ↦ (err e, db) ]

-- `t.Format(time.RFC3339)`, read back: the second that `t` is in.
abbrev pub whole_seconds : ℕ → ℕ
whole_seconds t = t / ns_per_second * ns_per_second

-- `UPDATE ... WHERE id = ?`, which changes no row where there is none.
unfoldable pub update_row {ℓ} : {A : Type ℓ} → Str → (A → A) → List (Str × A) → List (Str × A)
update_row id f rows = elim (lookup id rows) [ none ↦ rows | some r ↦ insert id (f r) rows ]

abbrev pub update_task : Str → (TaskRow → TaskRow) → Db → Db
update_task id f db = record db { task_states = update_row id f db.task_states }

-- `ORDER BY step DESC LIMIT 1`: steps of one task differ.
abbrev pub newer : Option Snapshot → Snapshot → Option Snapshot
newer none x = some x
newer (some y) x = if slt y.step x.step then some x else some y

-- `FROM hermes_snapshots WHERE task_id = ?`, one row.
abbrev pub newer_of : Str → Option Snapshot → Snapshot → Option Snapshot
newer_of id best x = if str_eq x.task_id id then newer best x else best

unfoldable pub latest_from : Str → Option Snapshot → List Snapshot → Option Snapshot
latest_from id best [] = best
latest_from id best (x ∷ xs) = latest_from id (newer_of id best x) xs

unfoldable pub latest : Str → Db → Option Snapshot
unfolding latest_from
latest id db = latest_from id none db.snapshots

-- The unique keys `id` and `(task_id, step)` of `hermes_snapshots`.
unfoldable pub is_taken : Snapshot → List Snapshot → Bool
is_taken x [] = false
is_taken x (y ∷ ys) =
    str_eq y.id x.id || (str_eq y.task_id x.task_id && y.step == x.step) || is_taken x ys

-- The row that is stored has the time of its snapshot in whole seconds.
abbrev pub stored : Snapshot → Snapshot
stored x = record x { created_at = whole_seconds x.created_at }

-- `INSERT INTO hermes_snapshots`
unfoldable pub insert_snapshot : Snapshot → Action (Unit {0})
unfolding is_taken
insert_snapshot x db =
    if is_taken x db.snapshots
    then (err unique_constraint, db)
    else if not (is_some (lookup x.task_id db.task_states))
    then (err foreign_key_constraint, db)
    else (ok tt, record db { snapshots = db.snapshots ++ stored x ∷ [] })

-- `INSERT INTO hermes_task_states`
unfoldable pub insert_task : Str → TaskRow → Action (Unit {0})
insert_task id row db =
    if is_some (lookup id db.task_states)
    then (err unique_constraint, db)
    else (ok tt, record db { task_states = insert id row db.task_states })

-- `INSERT INTO hermes_task_artifacts`
unfoldable pub insert_artifact : Str → Artifact → Action (Unit {0})
insert_artifact id a db =
    if is_some (lookup id db.task_states)
    then (ok tt, record db { task_artifacts = db.task_artifacts ++ (id, a) ∷ [] })
    else (err foreign_key_constraint, db)

-- `loadArtifacts`
unfoldable pub load_artifacts : Str → List (Str × Artifact) → List Artifact
load_artifacts id [] = []
load_artifacts id ((k, a) ∷ rest) =
    let others = load_artifacts id rest in if str_eq k id then a ∷ others else others
