-- ===== src/Hermes/SqliteStore/Touched.antt =====
-- What the methods of hermes/store.go that write columns of a task's row leave as it was.
use alice_core.Prelude.{
  ℕ, ◌≡◌, refl, sym, ap, subst, ◌∙◌, inl, inr, Option-cases, Str, str_eq, str_eq_iff, if_cases,
  out_of_range, List, Option, none, some, length, modify, get_elem?, lookup, lookup-insert,
}
use alice_core.Hermes.Status.{TaskStatus, SubTaskStatus, validate_task_status_transition}
use alice_core.Hermes.Status as Status
use alice_core.Hermes.Usage.{ModelUsage}
use alice_core.Hermes.State.{SubTask}
use alice_core.Hermes.SqliteStore.Tables.{
  TaskRow, Db, Action, Error, Result, ok, err, index_out_of_range, no_task, no_rows, reducer,
  return, change, raise, ◌>>=◌, update_row, update_task,
}
use alice_core.Hermes.SqliteStore.Mirror.{
  upsert_unified_sub_task, update_unified_task_status, update_unified_task_usage,
}
use alice_core.Hermes.SqliteStore.Writes.{
  touched, write_then, when_valid, read_row, mirror_at, mutate_sub_task, move_status,
}
use alice_core.Hermes.SqliteStore.Inversion.{
  SameCore, SameCore-refl, KeepsCore, upsert_unified_sub_task-KeepsCore,
}

abbrev pub SameRow : Option TaskRow → Option TaskRow → Type 0
SameRow none none = Unit
SameRow (some r) (some r') = r'.created_at ≡ r.created_at
SameRow _ _ = ⊥

-- Rows stay where they are, with the time they were made at; snapshots and files stay.
pub record RowsTouched (db db' : Db) : Type 0 where
  pub rows : (id : Str) → SameRow (lookup id db.task_states) (lookup id db'.task_states)
  pub snapshots : db'.snapshots ≡ db.snapshots
  pub files : db'.task_artifacts ≡ db.task_artifacts

SameRow-refl : (o : Option TaskRow) → SameRow o o
SameRow-refl none = tt
SameRow-refl (some r) = refl

SameRow-trans : (a b c : Option TaskRow) → SameRow a b → SameRow b c → SameRow a c
SameRow-trans none none none p q = tt
SameRow-trans (some a) (some b) (some c) p q = q ∙ p
SameRow-trans none none (some c) p q = q
SameRow-trans none (some b) c p q = absurd p
SameRow-trans (some a) none c p q = absurd p
SameRow-trans (some a) (some b) none p q = absurd q

RowsTouched-trans : (a b c : Db) → RowsTouched a b → RowsTouched b c → RowsTouched a c
RowsTouched-trans a b c p q = record {
  rows = λ id. SameRow-trans _ _ _ (p.rows id) (q.rows id);
  snapshots = q.snapshots ∙ p.snapshots;
  files = q.files ∙ p.files;
}

RowsTouched-core : (a b : Db) → SameCore a b → RowsTouched a b
RowsTouched-core a b s = record {
  rows = λ id.
      subst (λ l. SameRow (lookup id a.task_states) (lookup id l)) (sym s.task_states)
        (SameRow-refl (lookup id a.task_states));
  snapshots = s.snapshots;
  files = s.task_artifacts;
}

abbrev pub TouchesRows : {A : Type 0} → Action A → Type 0
TouchesRows m = (db : Db) → RowsTouched db (m db).1

pub KeepsCore-Touches : (m : Action (Unit {0})) → KeepsCore m → TouchesRows m
KeepsCore-Touches m k db = RowsTouched-core db (m db).1 (k db)

RowsTouched-refl : (db : Db) → RowsTouched db db
RowsTouched-refl db = RowsTouched-core db db (SameCore-refl db)

abbrev run_next : {A : Type 0} → (A → Action (Unit {0})) → Result A × Db → Result (Unit {0}) × Db
run_next k p = elim p.0 [ ok a ↦ k a p.1 | err e ↦ (err e, p.1) ]

bind-Touches :
    {A : Type 0} (m : Action A) (k : A → Action (Unit {0}))
    → TouchesRows m
    → ((a : A) → TouchesRows (k a))
    → TouchesRows (m >>= k)
bind-Touches {A} m k p q db = at (m db) (p db)
  where
    at : (r : Result A × Db) → RowsTouched db r.1 → RowsTouched db (run_next k r).1
    at (ok a, db1) s = RowsTouched-trans db db1 (k a db1).1 s (q a db1)
    at (err e, db1) s = s

lookup-touched :
    (id k : Str) (f : TaskRow → TaskRow) (rows : List (Str × TaskRow))
    → ((r : TaskRow) → (f r).created_at ≡ r.created_at)
    → SameRow (lookup id rows) (lookup id (update_row k f rows))
unfolding update_row
lookup-touched id k f rows keeps = elim (Option-cases (lookup k rows)) [
  | inl e ↦ rw (e, update_row) (SameRow-refl (lookup id rows))
  | inr (r, e) ↦
      rw (e, update_row, lookup-insert k id (f r) rows)
        (if_cases (SameRow (lookup id rows)) (str_eq k id) (some (f r)) (lookup id rows)
          (λ y.
            subst (λ o. SameRow o (some (f r)))
              (sym e ∙ ap (λ j. lookup j rows) ((str_eq_iff k id).0 y)) (keeps r))
          (λ n. SameRow-refl (lookup id rows)))
]

change-Touches :
    (k : Str) (f : TaskRow → TaskRow)
    → ((r : TaskRow) → (f r).created_at ≡ r.created_at)
    → TouchesRows (change (update_task k f))
change-Touches k f keeps db = record {
  rows = λ id. lookup-touched id k f db.task_states keeps;
  snapshots = refl;
  files = refl;
}

read_row-Touches : (e : Error) (id : Str) → TouchesRows (read_row e id)
read_row-Touches e id db = RowsTouched-refl db

update_status-KeepsCore :
    (now : ℕ) (id : Str) (status : TaskStatus)
    → KeepsCore (update_unified_task_status now id status)
unfolding update_unified_task_status
update_status-KeepsCore now id status db = record {
  task_states = refl;
  snapshots = refl;
  task_artifacts = refl;
}

pub update_usage-KeepsCore :
    (id : Str) (usages : List ModelUsage) → KeepsCore (update_unified_task_usage id usages)
unfolding update_unified_task_usage
update_usage-KeepsCore id usages db = record {
  task_states = refl;
  snapshots = refl;
  task_artifacts = refl;
}

raise-Touches : (e : Error) → TouchesRows (raise {A = Unit {0}} e)
raise-Touches e db = RowsTouched-refl db

pub return-Touches : TouchesRows (return tt)
return-Touches db = RowsTouched-refl db

pub write_then-Touches :
    (now : ℕ) (id : Str) (f : TaskRow → TaskRow) (k : Action (Unit {0}))
    → ((r : TaskRow) → (f r).created_at ≡ r.created_at)
    → TouchesRows k
    → TouchesRows (write_then now id f k)
write_then-Touches now id f k keeps rest =
    bind-Touches (change (update_task id (λ r. touched now (f r)))) (λ u. k)
      (change-Touches id (λ r. touched now (f r)) keeps) (λ u. rest)

-- A method that reads the row first, where every row it may find is then written so.
pub read_then-Touches :
    (e : Error) (id : Str) (k : TaskRow → Action (Unit {0}))
    → ((r : TaskRow) → TouchesRows (k r))
    → TouchesRows (read_row e id >>= k)
read_then-Touches e id k p = bind-Touches (read_row e id) k (read_row-Touches e id) p

mirror_at-Touches :
    (now : ℕ) (id : Str) (idx : ℕ) (o : Option SubTask) → TouchesRows (mirror_at now id idx o)
unfolding mirror_at
mirror_at-Touches now id idx none = raise-Touches index_out_of_range
mirror_at-Touches now id idx (some t) =
    KeepsCore-Touches (upsert_unified_sub_task now id idx t)
      (upsert_unified_sub_task-KeepsCore now id idx t)

pub mutate_sub_task-Touches :
    (now : ℕ) (id : Str) (idx : ℕ) (place : TaskRow → TaskRow) (mutate : SubTask → SubTask)
    → ((r : TaskRow) → (place r).created_at ≡ r.created_at)
    → TouchesRows (mutate_sub_task now id idx place mutate)
unfolding mutate_sub_task
mutate_sub_task-Touches now id idx place mutate keeps = read_then-Touches no_rows id _ (λ row.
    if_cases (TouchesRows {A = Unit {0}}) (out_of_range idx (length row.plan)) _ _
      (λ y. raise-Touches index_out_of_range)
      (λ n.
        write_then-Touches now id (λ r. record (place r) { plan = modify row.plan idx mutate })
          (mirror_at now id idx (get_elem? (modify row.plan idx mutate) idx)) keeps
          (mirror_at-Touches now id idx (get_elem? (modify row.plan idx mutate) idx))))

when_valid-Touches :
    (o : Option Status.Error) (m : Action (Unit {0})) → TouchesRows m → TouchesRows (when_valid o m)
when_valid-Touches none m p = p
when_valid-Touches (some e) m p = raise-Touches (reducer e)

pub move_status-Touches :
    (now : ℕ) (id : Str) (status : TaskStatus) (place : TaskRow → TaskRow)
    → ((r : TaskRow) → (place r).created_at ≡ r.created_at)
    → TouchesRows (move_status now id status place)
unfolding move_status
move_status-Touches now id status place keeps = read_then-Touches no_task id _ (λ row.
    when_valid-Touches (validate_task_status_transition id row.status status) _ (
      write_then-Touches now id (λ r. record (place r) { status = status })
        (update_unified_task_status now id status) keeps
        (KeepsCore-Touches (update_unified_task_status now id status)
          (update_status-KeepsCore now id status))))
