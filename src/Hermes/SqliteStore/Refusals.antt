-- ===== src/Hermes/SqliteStore/Refusals.antt =====
-- A `CommitRuntimeStep` of hermes/store.go that fails leaves the tables as they were.
use alice_core.Prelude.{ℕ, ◌≡◌, refl, ap, ◌⊎◌, inl, inr, Str, is_empty, trim_space, if_cases}
use alice_core.Hermes.Snapshot.{Snapshot, RuntimeCommit}
use alice_core.Hermes.SqliteStore.Tables.{
  Db, Action, Error, task_id_required, Result, ok, err, query, raise, return, transaction, void,
  ◌>>=◌, latest,
}
use alice_core.Hermes.SqliteStore.Reads.{get_task}
use alice_core.Hermes.SqliteStore.Commits.{
  next_state, commit_from, write_commit, save_commit, committed_snapshot, commit_runtime_step,
}

-- What a result and the tables may be, where a failure leaves them alone.
abbrev pub Settles : {A : Type 0} → Db → Result A × Db → Type 0
Settles {A} db p = ((a : A) × (db' : Db) × (p ≡ (ok a, db'))) ⊎ ((e : Error) × (p ≡ (err e, db)))

abbrev pub Atomic : {A : Type 0} → Action A → Type 0
Atomic m = (db : Db) → Settles db (m db)

transaction-Atomic : {A : Type 0} (m : Action A) → Atomic (transaction m)
transaction-Atomic {A} m db = at (m db)
  where
    at : (p : Result A × Db) → Settles db (transaction (λ d. p) db)
    at (ok a, db') = inl (a, db', refl)
    at (err e, db') = inr (e, refl)

query-Atomic :
    {A B : Type 0} (q : Db → Result A) (k : A → Action B)
    → ((a : A) → Atomic (k a))
    → Atomic (query q >>= k)
query-Atomic {A} {B} q k p db = at (q db)
  where
    at : (r : Result A) → Settles db ((query (λ d. r) >>= k) db)
    at (ok a) = p a db
    at (err e) = inr (e, refl)

return-Atomic :
    {A B : Type 0} (m : Action A) (f : A → B) → Atomic m → Atomic (m >>= λ a. return (f a))
return-Atomic {A} {B} m f p db = elim (p db) [
  | inl (a, db', e) ↦ inl (f a, db', at (m db) a db' e)
  | inr (x, e) ↦ inr (x, bad (m db) x e)
]
  where
    at :
        (r : Result A × Db) (a : A) (db' : Db)
        → r ≡ (ok a, db')
        → ((λ d. r) >>= λ b. return (f b)) db ≡ (ok (f a), db')
    at r a db' e = ap (λ s. ((λ (d : Db). s) >>= λ b. return (f b)) db) e

    bad :
        (r : Result A × Db) (x : Error)
        → r ≡ (err x, db)
        → ((λ d. r) >>= λ b. return (f b)) db ≡ (err x, db)
    bad r x e = ap (λ s. ((λ (d : Db). s) >>= λ b. return (f b)) db) e

-- A commit either is accepted or changes nothing.
pub commit-Atomic :
    (new_id : Str) (now : ℕ) (c : RuntimeCommit) → Atomic (commit_runtime_step new_id now c)
unfolding commit_runtime_step commit_from save_commit write_commit
commit-Atomic new_id now c =
    if_cases (Atomic {A = Snapshot}) (is_empty (trim_space c.task_id)) (raise task_id_required) _
      (λ y db. inr (task_id_required, refl))
      (λ n. query-Atomic (get_task c.task_id) (commit_from new_id now c) (λ task.
        query-Atomic (next_state c task) (save_commit new_id now c task) (λ next db.
          let x = committed_snapshot new_id now c (latest c.task_id db) next in
          return-Atomic (write_commit now task next x) (λ u. x) (transaction-Atomic _) db)))

pub void-Atomic : {A : Type 0} (m : Action A) → Atomic m → Atomic (void m)
void-Atomic m p = return-Atomic m (λ a. tt) p
