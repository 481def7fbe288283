-- ===== src/Hermes/MemoryStore/Commit.antt =====
-- What `CommitRuntimeStep` of hermes/memory_store.go makes durable.
use alice_core.Prelude.{
  orelse_none, ℕ, ◌+◌, ◌≡◌, refl, sym, ap, ◌∙◌, arith, str_eq_refl, false, Str, str_eq, is_empty,
  if◌then◌else◌, List, [], ◌∷◌, ◌++◌, Option, none, some, length, ◌orelse◌, lookup, insert,
  lookup-insert, lookup-insert_self, if_of_true, if_of_false,
}
use alice_core.Hermes.State.{TaskState}
use alice_core.Hermes.Snapshot.{
  HermesState, HermesInterrupt, Snapshot, RuntimeCommit, hermes_state_from_task_state,
  legacy_interrupt,
}
use alice_core.Hermes.Reducer.{reduced, apply_state_updates, carry_forward_snapshot_fields}
use alice_core.Hermes.MemoryStore.Rows.{ok, found}
use alice_core.Hermes.MemoryStore.{
  Store, history, last_snapshot, is_duplicate, committed_snapshot, commit_runtime_step, seed_state,
  hermes_state_to_task_state, get_latest_snapshot, get_task, message_of,
}
use alice_core.Hermes.MemoryStore.Inversion.{
  Inversion, commit-Inversion, committed_row, committed_store,
}

pub last_snapshot-append :
    (xs : List Snapshot) (x : Snapshot) → last_snapshot (xs ++ x ∷ []) ≡ some x
last_snapshot-append [] x = refl
last_snapshot-append (y ∷ xs) x = ground (arith, last_snapshot-append xs x)

pub history-insert :
    (k j : Str) (h : List Snapshot) (s : Store) (ts : List (Str × TaskState))
    → history j (record { tasks = ts; snapshots = insert k h s.snapshots })
      ≡ (if str_eq k j then h else history j s)
unfolding history
history-insert k j h s ts = ground (arith, lookup-insert k j h s.snapshots)

kept : {A : Type 0} (xs : List A) → (if is_empty xs then [] else xs) ≡ xs
kept [] = refl
kept (x ∷ xs) = refl

own_interrupt : (o : Option HermesInterrupt) → (o orelse legacy_interrupt (message_of o)) ≡ o
own_interrupt none = refl
own_interrupt (some a) = refl

-- A row that was made from a state, and the snapshot's own fields, give the state back.
carry-row :
    (task : TaskState) (next : HermesState) (now : ℕ)
    → carry_forward_snapshot_fields
        (hermes_state_from_task_state
          (record (hermes_state_to_task_state task next) { updated_at = now }))
        next
      ≡ next
unfolding carry_forward_snapshot_fields hermes_state_from_task_state hermes_state_to_task_state
carry-row task next now = λ i. record next {
  sub_task_results = kept next.sub_task_results i;
  interrupt = own_interrupt next.interrupt i;
  errors = kept next.errors i;
  replan = orelse_none next.replan i;
  walking = orelse_none next.walking i;
}

-- What an accepted commit has done.
pub record Committed (c : RuntimeCommit) (s s' : Store) (x : Snapshot) : Type 0 where
  pub one_more : history c.task_id s' ≡ history c.task_id s ++ x ∷ []
  pub is_latest : get_latest_snapshot c.task_id s' ≡ ok x
  pub numbered : x.step ≡ length (history c.task_id s) + 1
  pub routed : x.next_step ≡ c.next_step
  pub fresh : is_duplicate x.id x.step (history c.task_id s) ≡ false
  pub row : TaskState
  pub has_row : get_task c.task_id s' ≡ ok row
  pub row_is_view : seed_state row (history c.task_id s') ≡ x.state
  pub other_rows : (id : Str) → str_eq c.task_id id ≡ false → get_task id s' ≡ get_task id s
  pub other_histories : (id : Str) → str_eq c.task_id id ≡ false → history id s' ≡ history id s

module _ (c : RuntimeCommit) (row : TaskState) (x : Snapshot) (s : Store) where
  abbrev after : Store
  after = committed_store c row x s

  history-after : history c.task_id after ≡ history c.task_id s ++ x ∷ []
  history-after =
      history-insert c.task_id c.task_id _ s _
      ∙ if_of_true (str_eq c.task_id c.task_id) _ _ (str_eq_refl c.task_id)

  latest-after : last_snapshot (history c.task_id after) ≡ some x
  latest-after = ap last_snapshot history-after ∙ last_snapshot-append (history c.task_id s) x

  row-after : get_task c.task_id after ≡ ok row
  unfolding get_task
  row-after = ap found (lookup-insert_self c.task_id row s.tasks)

  other_row-after : (id : Str) → str_eq c.task_id id ≡ false → get_task id after ≡ get_task id s
  unfolding get_task
  other_row-after id ne =
      ap found (lookup-insert c.task_id id row s.tasks ∙ if_of_false (str_eq c.task_id id) _ _ ne)

  other_history-after : (id : Str) → str_eq c.task_id id ≡ false → history id after ≡ history id s
  other_history-after id ne =
      history-insert c.task_id id _ s _ ∙ if_of_false (str_eq c.task_id id) _ _ ne

seed-last :
    (row : TaskState) (h : List Snapshot) (x : Snapshot)
    → last_snapshot h ≡ some x
    → seed_state row h ≡ carry_forward_snapshot_fields (hermes_state_from_task_state row) x.state
unfolding seed_state
seed-last row h x e = rw (e, seed_state)

committed_fields :
    (now : ℕ) (c : RuntimeCommit) (old : List Snapshot) (next : HermesState)
    → let x = committed_snapshot now c old next in
      (x.step ≡ length old + 1) × (x.next_step ≡ c.next_step) × (x.state ≡ next)
unfolding committed_snapshot
committed_fields now c old next = (refl, refl, refl)

Committed-store :
    (now : ℕ) (c : RuntimeCommit) (s : Store) (before : TaskState) (next : HermesState)
    → let x = committed_snapshot now c (history c.task_id s) next in
      is_duplicate x.id x.step (history c.task_id s) ≡ false
      → Committed c s (committed_store c (committed_row now c before next) x s) x
Committed-store now c s before next fresh =
    let x = committed_snapshot now c (history c.task_id s) next in
    let row = committed_row now c before next in
    let facts = committed_fields now c (history c.task_id s) next in
    record {
      one_more = history-after c row x s;
      is_latest = unfold get_latest_snapshot in ap found (latest-after c row x s);
      numbered = facts.0;
      routed = facts.1;
      fresh = fresh;
      row = row;
      has_row = row-after c row x s;
      row_is_view =
          seed-last row _ x (latest-after c row x s)
          ∙ ap (carry_forward_snapshot_fields (hermes_state_from_task_state row)) facts.2
          ∙ carry-row before next _
          ∙ sym facts.2;
      other_rows = other_row-after c row x s;
      other_histories = other_history-after c row x s;
    }

-- An accepted commit appends one snapshot to the history of its task, under a new id and the next
-- step number, and that snapshot is the latest. The task's row then is the view of that snapshot:
-- a further commit starts from exactly the state it holds. Other tasks keep row and history.
pub commit-Committed :
    (now : ℕ) (c : RuntimeCommit) (s s' : Store) (x : Snapshot)
    → commit_runtime_step now c s ≡ ok (x, s')
    → Committed c s s' x
commit-Committed now c s s' x h = by_inversion (commit-Inversion now c s x s' h)
  where
    by_inversion : Inversion now c s s' x → Committed c s s' x
    by_inversion r =
        rw (r.stored, r.is_new) (Committed-store now c s r.before r.next (rw r.is_new at r.fresh))

pub found_ok : {A : Type 0} (o : Option A) (a : A) → found o ≡ ok a → o ≡ some a
found_ok none a h = cc
found_ok (some b) a h = ground arith

-- Two accepted commits to one task in a row: the second applies its updates to the state that the
-- first one's snapshot holds, so nothing of that state is lost on the way through the task row.
pub commit_twice :
    (now later : ℕ) (c d : RuntimeCommit) (s s' s'' : Store) (x y : Snapshot)
    → commit_runtime_step now c s ≡ ok (x, s')
    → commit_runtime_step later d s' ≡ ok (y, s'')
    → d.task_id ≡ c.task_id
    → apply_state_updates x.state d.updates ≡ reduced y.state
unfolding get_task
commit_twice now later c d s s' s'' x y h k same =
    chain (commit-Committed now c s s' x h) (commit-Inversion later d s' y s'' k)
  where
    chain :
        Committed c s s' x
        → Inversion later d s' s'' y
        → apply_state_updates x.state d.updates ≡ reduced y.state
    chain f r =
        let same_row : r.before ≡ f.row = cc (
          found_ok (lookup c.task_id s'.tasks) f.row f.has_row,
          r.had_row,
          ap (λ i. lookup i s'.tasks) same,
        ) in
        let seed : seed_state r.before (history d.task_id s') ≡ x.state =
          (λ i. seed_state (same_row i) (history (same i) s')) ∙ f.row_is_view in
        let result : r.next ≡ y.state = sym (
          ap (λ z. z.state) r.is_new
          ∙ (committed_fields later d (history d.task_id s') r.next).2) in
        ap (λ z. apply_state_updates z d.updates) (sym seed) ∙ r.applied ∙ ap reduced result
