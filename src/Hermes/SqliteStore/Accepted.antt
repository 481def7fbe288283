-- ===== src/Hermes/SqliteStore/Accepted.antt =====
-- What an accepted `CommitRuntimeStep` of hermes/store.go makes durable, and what the store reads
-- back of it.
use alice_core.Prelude.{
  ℕ, ◌+◌, ◌<◌, ◌≡◌, refl, sym, ap, subst, inl, inr, arith, true, Bool-cases, Option-cases, Str,
  is_empty, trim_space, sign_bit, slt, if_of_true, if◌then◌else◌, ◌orelse◌, orelse_none, List, [],
  ◌∷◌, ◌++◌, Option, none, some, lookup,
}
use alice_core.Hermes.State.{TaskState, Artifact}
use alice_core.Hermes.Snapshot.{
  HermesState, HermesInterrupt, Snapshot, RuntimeCommit, hermes_state_from_task_state,
  legacy_interrupt,
}
use alice_core.Hermes.Reducer.{
  Reduced, reduced, refused, apply_state_updates, carry_forward_snapshot_fields,
}
use alice_core.Hermes.MemoryStore.{message_of, hermes_state_to_task_state}
use alice_core.Hermes.SqliteStore.Tables.{
  TaskRow, Db, Result, ok, ◌>>=◌, query, return, latest_from, latest, newer, newer_of,
}
use alice_core.Hermes.SqliteStore.Reads.{get_task, viewed, overlay}
use alice_core.Hermes.SqliteStore.Commits.{
  seed_state, to_result, step_after, committed_snapshot, write_commit, save_commit,
  commit_runtime_step, next_state, commit_from,
}
use alice_core.Hermes.SqliteStore.Inversion.{bind-ok, Written, write_commit-Written}

-- The way that an accepted commit went.
pub record Inversion (new_id : Str) (now : ℕ) (c : RuntimeCommit) (db db' : Db) (x : Snapshot)
    : Type 0 where
  pub row : TaskRow
  pub next : HermesState
  pub had_row : lookup c.task_id db.task_states ≡ some row
  pub applied :
      apply_state_updates (seed_state (viewed db c.task_id row) (latest c.task_id db)) c.updates
      ≡ reduced next
  pub is_new : x ≡ committed_snapshot new_id now c (latest c.task_id db) next
  pub written : Written next x db db'

get_task-row :
    (id : Str) (db : Db) (task : TaskState)
    → get_task id db ≡ ok task
    → (r : TaskRow) × (lookup id db.task_states ≡ some r) × (task ≡ viewed db id r)
unfolding get_task
get_task-row id db task h = elim (Option-cases (lookup id db.task_states)) [
  | inl e ↦ absurd (ground arith)
  | inr (r, e) ↦ (r, e, ground arith)
]

query-ok :
    {A : Type 0} (q : Db → Result A) (a : A) (db db' : Db)
    → query q db ≡ (ok a, db')
    → (q db ≡ ok a) × (db' ≡ db)
query-ok q a db db' h = (ap (λ p. p.0) h, sym (ap (λ p. p.1) h))

to_result-reduced : (r : Reduced) (next : HermesState) → to_result r ≡ ok next → r ≡ reduced next
to_result-reduced (reduced t) next h = ground arith
to_result-reduced (refused e) next h = absurd (ground arith)

module _ (new_id : Str) (now : ℕ) (c : RuntimeCommit) where
  save_commit-ok :
      (task : TaskState) (next : HermesState) (x : Snapshot) (db db' : Db)
      → save_commit new_id now c task next db ≡ (ok x, db')
      → let new = committed_snapshot new_id now c (latest c.task_id db) next in
        (x ≡ new) × Written next new db db'
  unfolding save_commit
  save_commit-ok task next x db db' h =
      let new = committed_snapshot new_id now c (latest c.task_id db) next in
      let (u, db1, e, last) =
        bind-ok (write_commit now task next new) (λ _. return new) x db db' h in
      let written = write_commit-Written now task next new db db1 e in
      (ground arith, subst (Written next new db) (ap (λ p. p.1) last) written)

  commit_from-Inversion :
      (task : TaskState) (row : TaskRow) (x : Snapshot) (db db' : Db)
      → lookup c.task_id db.task_states ≡ some row
      → task ≡ viewed db c.task_id row
      → commit_from new_id now c task db ≡ (ok x, db')
      → Inversion new_id now c db db' x
  unfolding commit_from next_state
  commit_from-Inversion task row x db db' had seen h =
      let (next, db1, reduces, saves) =
        bind-ok (query (next_state c task)) (save_commit new_id now c task) x db db' h in
      let same = query-ok (next_state c task) next db db1 reduces in
      let (is_new, written) =
        save_commit-ok task next x db db'
          (subst (λ d. save_commit new_id now c task next d ≡ (ok x, db')) same.1 saves) in
      record {
        row = row;
        next = next;
        had_row = had;
        applied =
            subst
              (λ t.
                apply_state_updates (seed_state t (latest c.task_id db)) c.updates ≡ reduced next)
              seen (to_result-reduced _ next same.0);
        is_new = is_new;
        written = subst (λ y. Written next y db db') (sym is_new) written;
      }

  pub commit-Inversion :
      (x : Snapshot) (db db' : Db)
      → commit_runtime_step new_id now c db ≡ (ok x, db')
      → Inversion new_id now c db db' x
  unfolding commit_runtime_step
  commit-Inversion x db db' h = elim (Bool-cases (is_empty (trim_space c.task_id))) [
    | inl blank ↦ absurd (ground arith)
    | inr named ↦ named_commit (rw named at h)
  ]
    where
      named_commit :
          (query (get_task c.task_id) >>= commit_from new_id now c) db ≡ (ok x, db')
          → Inversion new_id now c db db' x
      named_commit k =
          let (task, db1, reads, commits) =
            bind-ok (query (get_task c.task_id)) (commit_from new_id now c) x db db' k in
          let same = query-ok (get_task c.task_id) task db db1 reads in
          let (row, had, seen) = get_task-row c.task_id db task same.0 in
          commit_from-Inversion task row x db db' had seen
            (subst (λ d. commit_from new_id now c task d ≡ (ok x, db')) same.1 commits)

pub latest_from-append :
    (id : Str) (best : Option Snapshot) (xs : List Snapshot) (y : Snapshot)
    → latest_from id best (xs ++ y ∷ []) ≡ newer_of id (latest_from id best xs) y
unfolding latest_from
latest_from-append id best [] y = refl
latest_from-append id best (x ∷ xs) y = latest_from-append id (newer_of id best x) xs y

-- The next step number is no overflow.
abbrev pub StepFits : Option Snapshot → Type 0
StepFits none = Unit
StepFits (some y) = y.step + 1 < sign_bit

pub newer-next :
    (prev : Option Snapshot) (x : Snapshot)
    → StepFits prev
    → x.step ≡ step_after prev
    → newer prev x ≡ some x
newer-next none x fits e = refl
newer-next (some y) x fits e =
    if_of_true (slt y.step x.step) (some x) (some y)
      (subst (λ n. slt y.step n ≡ true) (sym e) (ground arith))

-- `base.Artifacts` where the snapshot has none.
abbrev pub with_files : List Artifact → HermesState → HermesState
with_files files s = record s { artifacts = if is_empty s.artifacts then files else s.artifacts }

kept : {A : Type 0} (xs : List A) → (if is_empty xs then [] else xs) ≡ xs
kept [] = refl
kept (x ∷ xs) = refl

own_interrupt : (o : Option HermesInterrupt) → (o orelse legacy_interrupt (message_of o)) ≡ o
own_interrupt none = refl
own_interrupt (some a) = refl

-- With a snapshot the row and its columns do not matter: the next commit starts from the state of
-- the latest snapshot.
pub seed_state-overlay :
    (base : TaskState) (x : Snapshot)
    → seed_state (overlay (some x) base) (some x) ≡ with_files base.artifacts x.state
unfolding seed_state overlay carry_forward_snapshot_fields hermes_state_from_task_state
    hermes_state_to_task_state
seed_state-overlay base x = λ i. record (with_files base.artifacts x.state) {
  sub_task_results = kept x.state.sub_task_results i;
  interrupt = own_interrupt x.state.interrupt i;
  errors = kept x.state.errors i;
  replan = orelse_none x.state.replan i;
  walking = orelse_none x.state.walking i;
}
