-- ===== src/Hermes/SqliteStore/Failing.antt =====
-- What `MarkTaskFailedDurable` of hermes/store.go does to every task.
use alice_core.Prelude.{
  ℕ, ◌≡◌, refl, sym, ap, subst, ◌⊎◌, inl, inr, false, Str, str_eq, is_empty, trim_space, if_cases,
  [], ◌∷◌, ◌++◌,
}
use alice_core.Hermes.Status.{TaskStatus}
use alice_core.Hermes.Snapshot.{Snapshot, RuntimeStep}
use alice_core.Hermes.Reducer.Frame.{apply-Accounts}
use alice_core.Hermes.SqliteStore.Tables.{
  Db, Action, Error, Result, task_id_required, ok, err, raise, void, latest, stored,
}
use alice_core.Hermes.SqliteStore.Reads.{get_task}
use alice_core.Hermes.SqliteStore.Commits.{commit_runtime_step}
use alice_core.Hermes.SqliteStore.Resolution.{failing_commit, mark_task_failed_durable}
use alice_core.Hermes.SqliteStore.Committed.{Appended, commit-Appended}
use alice_core.Hermes.SqliteStore.Refusals.{Settles, commit-Atomic}

-- The snapshot ends its task as failed.
pub record Fails (x : Snapshot) : Type 0 where
  pub status : x.state.status ≡ TaskStatus.failed
  pub next_step : x.next_step ≡ RuntimeStep.terminal

-- Other tasks than `id` are read as before.
pub record Apart (id : Str) (db db' : Db) : Type 0 where
  pub tasks : (k : Str) → str_eq id k ≡ false → get_task k db' ≡ get_task k db
  pub snapshots : (k : Str) → str_eq id k ≡ false → latest k db' ≡ latest k db

-- Either nothing has happened, or one snapshot fails the task.
abbrev pub FailedOr : Str → Db → Result (Unit {0}) × Db → Type 0
FailedOr id db p =
    ((e : Error) × (p ≡ (err e, db)))
    ⊎ ((db' : Db) × (x : Snapshot) × (p ≡ (ok tt, db'))
        × (x.task_id ≡ id)
        × Fails x
        × (db'.snapshots ≡ db.snapshots ++ x ∷ [])
        × Apart id db db')

failing-state :
    (id reason : Str) (db : Db) (db' : Db) (x : Snapshot)
    → Appended (failing_commit id reason) db db' x
    → (x.task_id ≡ id) × Fails x
unfolding failing_commit
failing-state id reason db db' x r = (
  r.own,
  record { status = (apply-Accounts _ x.state _ r.applied).last_write_wins; next_step = r.routed },
)

failed-Apart :
    (id reason : Str) (db db' : Db) (x : Snapshot)
    → Appended (failing_commit id reason) db db' x
    → Apart id db db'
unfolding failing_commit
failed-Apart id reason db db' x r = record { tasks = r.other_tasks; snapshots = r.other_snapshots }

fails_once :
    (id reason : Str) (db db' : Db) (x : Snapshot)
    → Appended (failing_commit id reason) db db' x
    → FailedOr id db (ok tt, db')
fails_once id reason db db' x r =
    let (own, fails) = failing-state id reason db db' x r in
    inr (
      db',
      stored x,
      refl,
      own,
      record { status = fails.status; next_step = fails.next_step },
      r.one_more,
      failed-Apart id reason db db' x r,
    )

pub mark_failed-FailedOr :
    (new_id : Str) (now : ℕ) (id reason : Str) (db : Db)
    → FailedOr id db (mark_task_failed_durable new_id now id reason db)
unfolding mark_task_failed_durable
mark_failed-FailedOr new_id now id reason db =
    if_cases (λ (m : Action (Unit {0})). FailedOr id db (m db)) (is_empty (trim_space id))
      (raise task_id_required) _ (λ y. inl (task_id_required, refl))
      (λ n. at (commit-Atomic new_id now (failing_commit id reason) db))
  where
    at :
        Settles db (commit_runtime_step new_id now (failing_commit id reason) db)
        → FailedOr id db (void (commit_runtime_step new_id now (failing_commit id reason)) db)
    at (inl (x, db', e)) = subst (FailedOr id db) (sym (ap (λ p. void (λ (d : Db). p) db) e)) (
        fails_once id reason db db' x
          (commit-Appended new_id now (failing_commit id reason) db db' x e))
    at (inr (e, q)) = inl (e, ap (λ p. void (λ (d : Db). p) db) q)
