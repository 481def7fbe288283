-- ===== src/Hermes/SqliteStore/Inversion.antt =====
-- hermes/store.go: how an accepted `CommitRuntimeStep` went. Nothing that writes the mirror touches
-- the tables that the store reads.
use alice_core.Prelude.{
  ℕ, ◌+◌, ◌≡◌, refl, sym, ap, subst, ◌∙◌, inl, inr, arith, false, Bool-cases, Str, is_some, List,
  [], ◌∷◌, ◌++◌, Option, lookup,
}
use alice_core.Hermes.State.{SubTask, TaskState}
use alice_core.Hermes.Snapshot.{HermesState, Snapshot}
use alice_core.Hermes.SqliteStore.Tables.{
  Db, Action, Result, ok, err, ◌>>=◌, change, transaction, update_row, update_task, is_taken,
  insert_snapshot, stored,
}
use alice_core.Hermes.SqliteStore.Mirror.{
  terminal_ended_at, upsert_unified_task, upsert_unified_sub_task, upsert_all, delete_sub_tasks,
  replace_unified_sub_tasks,
}
use alice_core.Hermes.MemoryStore.{hermes_state_to_task_state}
use alice_core.Hermes.SqliteStore.Commits.{committed_row, write_commit}

-- The parts of a sequence of two actions that succeeds.
pub bind-ok :
    {A B : Type 0} (m : Action A) (f : A → Action B) (b : B) (db db' : Db)
    → (m >>= f) db ≡ (ok b, db')
    → (a : A) × (db1 : Db) × (m db ≡ (ok a, db1)) × (f a db1 ≡ (ok b, db'))
bind-ok {A} {B} m f b db db' h = at (m db) h
  where
    at :
        (p : Result A × Db)
        → ◌≡◌ {A = Result B × Db} (elim p.0 [ ok a ↦ f a p.1 | err e ↦ (err e, p.1) ]) (ok b, db')
        → (a : A) × (db1 : Db) × (p ≡ (ok a, db1)) × (f a db1 ≡ (ok b, db'))
    at (ok a, db1) q = (a, db1, refl, q)
    at (err e, db1) q = absurd (ground arith)

-- The tables that the reads of tasks and snapshots use are the same.
pub record SameCore (db db' : Db) : Type 0 where
  pub task_states : db'.task_states ≡ db.task_states
  pub snapshots : db'.snapshots ≡ db.snapshots
  pub task_artifacts : db'.task_artifacts ≡ db.task_artifacts

pub SameCore-refl : (db : Db) → SameCore db db
SameCore-refl db = record { task_states = refl; snapshots = refl; task_artifacts = refl }

pub SameCore-trans : (a b c : Db) → SameCore a b → SameCore b c → SameCore a c
SameCore-trans a b c p q = record {
  task_states = q.task_states ∙ p.task_states;
  snapshots = q.snapshots ∙ p.snapshots;
  task_artifacts = q.task_artifacts ∙ p.task_artifacts;
}

-- An action that leaves those tables, whether it succeeds or not.
abbrev pub KeepsCore : Action (Unit {0}) → Type 0
KeepsCore m = (db : Db) → SameCore db (m db).1

abbrev then_run : Action (Unit {0}) → Result (Unit {0}) × Db → Result (Unit {0}) × Db
then_run k p = elim p.0 [ ok a ↦ k p.1 | err e ↦ (err e, p.1) ]

pub >>-KeepsCore : (m k : Action (Unit {0})) → KeepsCore m → KeepsCore k → KeepsCore (m >>= λ _. k)
>>-KeepsCore m k p q db = at (m db) (p db)
  where
    at : (r : Result (Unit {0}) × Db) → SameCore db r.1 → SameCore db (then_run k r).1
    at (ok a, db1) s = SameCore-trans db db1 (k db1).1 s (q db1)
    at (err e, db1) s = s

pub upsert_unified_sub_task-KeepsCore :
    (now : ℕ) (id : Str) (idx : ℕ) (t : SubTask) → KeepsCore (upsert_unified_sub_task now id idx t)
unfolding upsert_unified_sub_task
upsert_unified_sub_task-KeepsCore now id idx t db = record {
  task_states = ground arith;
  snapshots = ground arith;
  task_artifacts = ground arith;
}

upsert_all-KeepsCore :
    (now : ℕ) (id : Str) (idx : ℕ) (plan : List SubTask) → KeepsCore (upsert_all now id idx plan)
unfolding upsert_all
upsert_all-KeepsCore now id idx [] db = SameCore-refl db
upsert_all-KeepsCore now id idx (t ∷ ts) db =
    >>-KeepsCore (upsert_unified_sub_task now id idx t) (upsert_all now id (idx + 1) ts)
      (upsert_unified_sub_task-KeepsCore now id idx t) (upsert_all-KeepsCore now id (idx + 1) ts) db

pub replace-KeepsCore :
    (now : ℕ) (id : Str) (plan : List SubTask) → KeepsCore (replace_unified_sub_tasks now id plan)
unfolding replace_unified_sub_tasks delete_sub_tasks
replace-KeepsCore now id plan =
    >>-KeepsCore (change (delete_sub_tasks id)) (upsert_all now id 0 plan)
      (λ db. record { task_states = refl; snapshots = refl; task_artifacts = refl })
      (upsert_all-KeepsCore now id 0 plan)

pub upsert_unified_task-KeepsCore :
    (now : ℕ) (task : TaskState) (ended : Option ℕ) → KeepsCore (upsert_unified_task now task ended)
unfolding upsert_unified_task
upsert_unified_task-KeepsCore now task ended db = record {
  task_states = refl;
  snapshots = refl;
  task_artifacts = refl;
}

insert_snapshot-ok :
    (x : Snapshot) (db db' : Db)
    → insert_snapshot x db ≡ (ok tt, db')
    → (is_taken x db.snapshots ≡ false)
      × (db' ≡ record db { snapshots = db.snapshots ++ stored x ∷ [] })
unfolding insert_snapshot
insert_snapshot-ok x db db' h = elim (Bool-cases (is_taken x db.snapshots)) [
  | inl taken ↦ absurd (ground arith)
  | inr free ↦ elim (Bool-cases (is_some (lookup x.task_id db.task_states))) [
    | inl here ↦ (free, ground arith)
    | inr absent ↦ absurd (ground arith)
  ]
]

transaction-ok :
    {A : Type 0} (m : Action A) (a : A) (db db' : Db)
    → transaction m db ≡ (ok a, db')
    → m db ≡ (ok a, db')
transaction-ok {A} m a db db' h = at (m db) h
  where
    at :
        (p : Result A × Db)
        → ◌≡◌ {A = Result A × Db}
            (elim p.0 [ ok b ↦ (ok b, p.1) | err e ↦ (err e, db) ])
            (ok a, db')
        → p ≡ (ok a, db')
    at (ok b, db1) q = q
    at (err e, db1) q = absurd (ground arith)

-- What the transaction of a commit has written to the tables that are read back.
pub record Written (next : HermesState) (x : Snapshot) (db db' : Db) : Type 0 where
  pub fresh : is_taken x db.snapshots ≡ false
  pub rows : db'.task_states ≡ update_row x.task_id (committed_row x.created_at next) db.task_states
  pub one_more : db'.snapshots ≡ db.snapshots ++ stored x ∷ []
  pub files : db'.task_artifacts ≡ db.task_artifacts

Written-mirrored :
    (next : HermesState) (x : Snapshot) (db db3 db' : Db)
    → SameCore (update_task x.task_id (committed_row x.created_at next) db) db3
    → (is_taken x db3.snapshots ≡ false)
      × (db' ≡ record db3 { snapshots = db3.snapshots ++ stored x ∷ [] })
    → Written next x db db'
Written-mirrored next x db db3 db' same (free, e) = record {
  fresh = ap (is_taken x) (sym same.snapshots) ∙ free;
  rows = ap (λ z. z.task_states) e ∙ same.task_states;
  one_more = ap (λ z. z.snapshots) e ∙ ap (λ l. l ++ stored x ∷ []) same.snapshots;
  files = ap (λ z. z.task_artifacts) e ∙ same.task_artifacts;
}

SameCore-of :
    (m : Action (Unit {0})) (r : Result (Unit {0})) (db db' : Db)
    → KeepsCore m
    → m db ≡ (r, db')
    → SameCore db db'
SameCore-of m r db db' k e = subst (SameCore db) (ap (λ p. p.1) e) (k db)

pub write_commit-Written :
    (now : ℕ) (task : TaskState) (next : HermesState) (x : Snapshot) (db db' : Db)
    → write_commit now task next x db ≡ (ok tt, db')
    → Written next x db db'
unfolding write_commit
write_commit-Written now task next x db db' h =
    let (u3, db3, e3, inserted) =
      bind-ok m3 (λ _. insert_snapshot x) tt db db'
        (transaction-ok (m3 >>= λ _. insert_snapshot x) tt db db' h) in
    let (u2, db2, e2, upserted) = bind-ok m2 (λ _. upsert) u3 db db3 e3 in
    let db1 : Db = update_task x.task_id (committed_row x.created_at next) db in
    Written-mirrored next x db db3 db'
      (SameCore-trans db1 db2 db3
        (SameCore-of replace (ok u2) db1 db2 (replace-KeepsCore now x.task_id next.plan) e2)
        (SameCore-of upsert (ok u3) db2 db3
          (upsert_unified_task-KeepsCore now (hermes_state_to_task_state task next)
            (terminal_ended_at now next.status x.created_at))
          upserted))
      (insert_snapshot-ok x db3 db' inserted)
  where
    replace : Action (Unit {0})
    replace = replace_unified_sub_tasks now x.task_id next.plan

    upsert : Action (Unit {0})
    upsert =
        upsert_unified_task now (hermes_state_to_task_state task next)
          (terminal_ended_at now next.status x.created_at)

    m2 : Action (Unit {0})
    m2 = change (update_task x.task_id (committed_row x.created_at next)) >>= λ _. replace

    m3 : Action (Unit {0})
    m3 = m2 >>= λ _. upsert
