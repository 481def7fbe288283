-- ===== src/Hermes/MemoryStore/Statuses.antt =====
-- What the calls of hermes/memory_store.go, in any order, keep of every task's status.
use alice_core.Prelude.{
  ℕ, ◌≡◌, ◌≢◌, refl, ap, subst, ◌∙◌, inl, inr, arith, true, Str, str_eq, str_eq_iff, str_ne,
  is_empty, if◌then◌else◌, if_of_true, if_of_false, List, [], ◌∷◌, Option, none, some, lookup,
  insert, lookup-insert, Bool-cases, Option-cases,
}
use alice_core.Hermes.Status.{
  TaskStatus, is_terminal, valid_task_status_transition, validate_task_status_transition,
}
use alice_core.Hermes.State.{TaskState}
use alice_core.Hermes.Snapshot.{HermesState, Snapshot, RuntimeCommit}
use alice_core.Hermes.Reducer.Frame.{terminal_final, stays-valid, apply-Accounts}
use alice_core.Hermes.MemoryStore.Rows.{Result-cases, Result, ok}
use alice_core.Hermes.MemoryStore.Inversion.{Inversion, commit-Inversion, committed_row}
use alice_core.Hermes.MemoryStore.{
  last_snapshot, hermes_state_to_task_state, Store, create_task, update_err, create_snapshot,
  commit_runtime_step, seed_state, history,
}
use alice_core.Hermes.MemoryStore.Calls.{
  Call, creates_task, creates_snapshot, commits, change, store_of, keep_on_error, apply_change,
  exec, run, Spares,
}

-- A task that is there stays there, and its status has moved along valid transitions.
abbrev pub StatusKept : Str → Store → Store → Type 0
StatusKept id s s' =
    (t : TaskState)
    → lookup id s.tasks ≡ some t
    → (t' : TaskState) × (lookup id s'.tasks ≡ some t')
      × (valid_task_status_transition t.status t'.status ≡ true)

StatusKept-refl : (id : Str) (s : Store) → StatusKept id s s
StatusKept-refl id s t h = (t, h, stays-valid t.status)

abbrev RowValid : (TaskState → Result TaskState) → Type 0
RowValid fn =
    (t t' : TaskState) → fn t ≡ ok t' → valid_task_status_transition t.status t'.status ≡ true

abbrev ChangeValid : Option (Str × (TaskState → Result TaskState)) → Type 0
ChangeValid none = Unit
ChangeValid (some (k, fn)) = RowValid fn

-- Every function that a method hands to `updateErr` moves the status validly.
change-valid : (call : Call) → ChangeValid (change call)
unfolding change validate_task_status_transition
change-valid (creates_task task) = tt
change-valid (creates_snapshot x) = tt
change-valid (commits c) = tt
change-valid _ = λ t t' e. ground (arith, stays-valid t.status)

insert-StatusKept :
    (id k : Str) (t t' : TaskState) (s s' : Store)
    → lookup k s.tasks ≡ some t
    → valid_task_status_transition t.status t'.status ≡ true
    → s'.tasks ≡ insert k t' s.tasks
    → StatusKept id s s'
insert-StatusKept id k t t' s s' r v e u h = elim (Bool-cases (str_eq k id)) [
  | inl same ↦ (
    t',
    at_id ∙ if_of_true (str_eq k id) _ _ same,
    subst (λ z. valid_task_status_transition z.status t'.status ≡ true) (row_of same) v,
  )
  | inr other ↦ (u, at_id ∙ if_of_false (str_eq k id) _ _ other ∙ h, stays-valid u.status)
]
  where
    row_of : str_eq k id ≡ true → t ≡ u
    row_of same = cc (r, h, ap (λ i. lookup i s.tasks) ((str_eq_iff k id).0 same))

    at_id : lookup id s'.tasks ≡ (if str_eq k id then some t' else lookup id s.tasks)
    at_id = ap (lookup id) e ∙ lookup-insert k id t' s.tasks

update_err-StatusKept :
    (id : Str) (now : ℕ) (k : Str) (fn : TaskState → Result TaskState) (s : Store)
    → RowValid fn
    → StatusKept id s (keep_on_error s (update_err now k fn s))
unfolding update_err
update_err-StatusKept id now k fn s v = elim (Option-cases (lookup k s.tasks)) [
  | inl r ↦ rw r (StatusKept-refl id s)
  | inr (t, r) ↦ elim (Result-cases (fn t)) [
    | inl (t', e) ↦
        rw (r, e)
          (insert-StatusKept id k t (record t' { updated_at = now }) s
            (record s { tasks = insert k (record t' { updated_at = now }) s.tasks }) r (v t t' e)
            refl)
    | inr (x, e) ↦ rw (r, e) (StatusKept-refl id s)
  ]
]

change-StatusKept :
    (id : Str) (now : ℕ) (o : Option (Str × (TaskState → Result TaskState))) (s : Store)
    → ChangeValid o
    → StatusKept id s (apply_change now o s)
change-StatusKept id now none s v = StatusKept-refl id s
change-StatusKept id now (some (k, fn)) s v = update_err-StatusKept id now k fn s v

create_task-StatusKept :
    (id : Str) (now : ℕ) (task : TaskState) (s : Store)
    → task.id ≢ id
    → StatusKept id s (store_of s (create_task now task s))
unfolding create_task
create_task-StatusKept id now task s spares t h = elim (Bool-cases (is_empty task.id)) [
  | inl none_given ↦ rw none_given (t, h, stays-valid t.status)
  | inr given ↦ rw given (
    t,
    lookup-insert task.id id _ s.tasks
        ∙ if_of_false (str_eq task.id id) _ _ (str_ne task.id id spares)
        ∙ h,
    stays-valid t.status,
  )
]

tasks-create_snapshot :
    (now : ℕ) (x : Snapshot) (s : Store) → (store_of s (create_snapshot now x s)).tasks ≡ s.tasks
unfolding create_snapshot
tasks-create_snapshot now x s = ground arith

create_snapshot-StatusKept :
    (id : Str) (now : ℕ) (x : Snapshot) (s : Store)
    → StatusKept id s (store_of s (create_snapshot now x s))
create_snapshot-StatusKept id now x s t h =
    (t, ap (lookup id) (tasks-create_snapshot now x s) ∙ h, stays-valid t.status)

status-seed_state : (t : TaskState) (h : List Snapshot) → (seed_state t h).status ≡ t.status
unfolding seed_state
status-seed_state t h = elim (Option-cases (last_snapshot h)) [
  | inl e ↦ rw (e, seed_state)
  | inr (x, e) ↦ rw (e, seed_state)
]

status-committed_row :
    (now : ℕ) (c : RuntimeCommit) (t : TaskState) (next : HermesState)
    → (committed_row now c t next).status ≡ next.status
unfolding hermes_state_to_task_state
status-committed_row now c t next = refl

commit_moves :
    (id : Str) (now : ℕ) (c : RuntimeCommit) (s s' : Store) (x : Snapshot)
    → Inversion now c s s' x
    → StatusKept id s s'
commit_moves id now c s s' x r =
    insert-StatusKept id c.task_id r.before (committed_row now c r.before r.next) s s' r.had_row
      moved (ap (λ z. z.tasks) r.stored)
  where
    moved :
        valid_task_status_transition r.before.status (committed_row now c r.before r.next).status
        ≡ true
    moved =
        rw
          (
            status-committed_row now c r.before r.next,
            ← status-seed_state r.before (history c.task_id s),
          )
          (apply-Accounts _ r.next c.updates r.applied).valid_step

pub commit_ok-StatusKept :
    (id : Str) (now : ℕ) (c : RuntimeCommit) (s s' : Store) (x : Snapshot)
    → commit_runtime_step now c s ≡ ok (x, s')
    → StatusKept id s s'
commit_ok-StatusKept id now c s s' x e =
    commit_moves id now c s s' x (commit-Inversion now c s x s' e)

commit-StatusKept :
    (id : Str) (now : ℕ) (c : RuntimeCommit) (s : Store)
    → StatusKept id s (store_of s (commit_runtime_step now c s))
commit-StatusKept id now c s = elim (Result-cases (commit_runtime_step now c s)) [
  | inl ((x, s'), e) ↦ rw e (commit_ok-StatusKept id now c s s' x e)
  | inr (x, e) ↦ rw e (StatusKept-refl id s)
]

-- No call of the store but a `CreateTask` with the task's own id takes a task away or moves its
-- status against `ValidTaskStatusTransition`.
pub exec-StatusKept :
    (id : Str) (now : ℕ) (call : Call) (s : Store)
    → Spares id call
    → StatusKept id s (exec now call s)
unfolding exec
exec-StatusKept id now (creates_task task) s h = create_task-StatusKept id now task s h
exec-StatusKept id now (creates_snapshot x) s h = create_snapshot-StatusKept id now x s
exec-StatusKept id now (commits c) s h = commit-StatusKept id now c s
exec-StatusKept id now call s h = change-StatusKept id now (change call) s (change-valid call)

-- The valid transitions are reflexive and transitive.
pub valid_trans :
    (a b c : TaskStatus)
    → valid_task_status_transition a b ≡ true
    → valid_task_status_transition b c ≡ true
    → valid_task_status_transition a c ≡ true
unfolding valid_task_status_transition
valid_trans TaskStatus.unset b c h k = refl
valid_trans (TaskStatus.other x) (TaskStatus.other y) c h k =
    let same : x ≡ y = (str_eq_iff x y).0 (ground arith) in rw same k
valid_trans a TaskStatus.unset c h k = ground arith
valid_trans _ _ c h k = ground arith

abbrev pub AllSpare : Str → List (ℕ × Call) → Type 0
AllSpare id [] = Unit
AllSpare id ((now, call) ∷ calls) = Spares id call × AllSpare id calls

-- Over a sequence of calls none of which creates the task anew, the task stays in the store, and its
-- status has made a valid transition as a whole.
pub run-StatusKept :
    (id : Str) (calls : List (ℕ × Call)) (s : Store)
    → AllSpare id calls
    → StatusKept id s (run calls s)
unfolding run
run-StatusKept id [] s h t e = (t, e, stays-valid t.status)
run-StatusKept id ((now, call) ∷ calls) s h t e =
    let (u, at_u, first) = exec-StatusKept id now call s h.0 t e in
    let (v, at_v, rest) = run-StatusKept id calls (exec now call s) h.1 u at_u in
    (v, at_v, valid_trans t.status u.status v.status first rest)

-- A task that is done, failed or interrupted keeps that status whatever calls follow, unless a
-- `CreateTask` with its own id replaces it.
pub run_terminal :
    (id : Str) (calls : List (ℕ × Call)) (s : Store) (t : TaskState)
    → AllSpare id calls
    → lookup id s.tasks ≡ some t
    → is_terminal t.status ≡ true
    → (t' : TaskState) × (lookup id (run calls s).tasks ≡ some t') × (t'.status ≡ t.status)
run_terminal id calls s t spare e f =
    let (v, at_v, moved) = run-StatusKept id calls s spare t e in
    (v, at_v, terminal_final t.status v.status f moved)
