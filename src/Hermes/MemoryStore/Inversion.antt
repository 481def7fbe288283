-- ===== src/Hermes/MemoryStore/Inversion.antt =====
-- The way through `CommitRuntimeStep` of hermes/memory_store.go when it accepts a commit.
use alice_core.Prelude.{
  ℕ, ◌≡◌, refl, ◌⊎◌, inl, inr, arith, true, false, [], ◌∷◌, ◌++◌, some, lookup, insert, Bool-cases,
  Option-cases,
}
use alice_core.Hermes.Status.{Error}
use alice_core.Hermes.State.{TaskState}
use alice_core.Hermes.Snapshot.{HermesState, Snapshot, RuntimeCommit}
use alice_core.Hermes.Reducer.{Reduced, reduced, refused, apply_state_updates}
use alice_core.Hermes.MemoryStore.Rows.{ok}
use alice_core.Hermes.MemoryStore.{
  Store, history, is_duplicate, committed_snapshot, save_commit, commit_runtime_step, seed_state,
  hermes_state_to_task_state, or_now,
}

pub Reduced-cases :
    (r : Reduced) → ((t : HermesState) × (r ≡ reduced t)) ⊎ ((e : Error) × (r ≡ refused e))
Reduced-cases (reduced t) = inl (t, refl)
Reduced-cases (refused e) = inr (e, refl)

-- The row and the store that an accepted commit writes.
abbrev pub committed_row : ℕ → RuntimeCommit → TaskState → HermesState → TaskState
committed_row now c task next = record (hermes_state_to_task_state task next) {
  updated_at = or_now c.created_at now;
}

abbrev pub committed_store : RuntimeCommit → TaskState → Snapshot → Store → Store
committed_store c row x s = record {
  tasks = insert c.task_id row s.tasks;
  snapshots = insert c.task_id (history c.task_id s ++ x ∷ []) s.snapshots;
}

-- The way that an accepted commit went.
pub record Inversion (now : ℕ) (c : RuntimeCommit) (s s' : Store) (x : Snapshot) : Type 0 where
  pub before : TaskState
  pub next : HermesState
  pub had_row : lookup c.task_id s.tasks ≡ some before
  pub applied :
      apply_state_updates (seed_state before (history c.task_id s)) c.updates ≡ reduced next
  pub is_new : x ≡ committed_snapshot now c (history c.task_id s) next
  pub fresh : is_duplicate x.id x.step (history c.task_id s) ≡ false
  pub stored : s' ≡ committed_store c (committed_row now c before next) x s

module _ (now : ℕ) (c : RuntimeCommit) (s : Store) where
  save-Inversion :
      (task : TaskState) (next : HermesState) (x : Snapshot) (s' : Store)
      → lookup c.task_id s.tasks ≡ some task
      → apply_state_updates (seed_state task (history c.task_id s)) c.updates ≡ reduced next
      → save_commit now c task next s ≡ ok (x, s')
      → Inversion now c s s' x
  unfolding save_commit
  save-Inversion task next x s' r a h =
      elim (Bool-cases (is_duplicate new.id new.step (history c.task_id s))) [
        | inl d ↦ absurd (refused_duplicate d)
        | inr d ↦ record {
          before = task;
          next = next;
          had_row = r;
          applied = a;
          is_new = (made d).0;
          fresh = rw (made d).0 d;
          stored = rw (made d).0 (made d).1;
        }
      ]
    where
      new : Snapshot
      new = committed_snapshot now c (history c.task_id s) next

      refused_duplicate : is_duplicate new.id new.step (history c.task_id s) ≡ true → ⊥
      refused_duplicate d = ground arith

      made :
          is_duplicate new.id new.step (history c.task_id s) ≡ false
          → (x ≡ new) × (s' ≡ committed_store c (committed_row now c task next) new s)
      made d = (ground arith, ground arith)

  pub commit-Inversion :
      (x : Snapshot) (s' : Store)
      → commit_runtime_step now c s ≡ ok (x, s')
      → Inversion now c s s' x
  unfolding commit_runtime_step
  commit-Inversion x s' h = elim (Option-cases (lookup c.task_id s.tasks)) [
    | inl r ↦ absurd (ground arith)
    | inr (task, r) ↦
        elim (Reduced-cases
          (apply_state_updates (seed_state task (history c.task_id s)) c.updates)) [
            | inl (next, a) ↦ save-Inversion task next x s' r a (ground arith)
            | inr (e, a) ↦ absurd (ground arith)
          ]
  ]
