-- ===== src/Hermes/SqliteStore/Updated.antt =====
-- What a commit of one update, of hermes/store.go, makes of a task that has a snapshot.
use alice_core.Prelude.{
  ℕ, ◌≡◌, refl, sym, ap, subst, ◌∙◌, arith, Str, get_or_old, orelse_none, List, [], ◌∷◌, Option,
  none, some,
}
use alice_core.Hermes.Status.{Error}
use alice_core.Hermes.State.{Artifact}
use alice_core.Hermes.Snapshot.{HermesState, Snapshot, RuntimeStep, StateUpdate, SnapshotMetadata}
use alice_core.Hermes.Reducer.{
  reduced, apply_state_updates, absorb_all, absorb, finish, settle, next_accumulated, next_budget,
  apply_update, write_plan, clear_or_write, refuse_or,
}
use alice_core.Hermes.Reducer.Merge.{append_accumulated_delta}
use alice_core.Hermes.SqliteStore.Tables.{
  Db, Action, ok, void, return, or_raise, no_task, latest, load_artifacts, stored,
}
use alice_core.Hermes.SqliteStore.Reads.{get_latest_snapshot}
use alice_core.Hermes.SqliteStore.Commits.{commit_runtime_step}
use alice_core.Hermes.SqliteStore.Resolution.{commit_of}
use alice_core.Hermes.SqliteStore.Inversion.{bind-ok}
use alice_core.Hermes.SqliteStore.Accepted.{StepFits, with_files}
use alice_core.Hermes.SqliteStore.Committed.{commit-Durable, due_state-latest}

refuse_or-reduced : (o : Option Error) (s t : HermesState) → refuse_or o s ≡ reduced t → t ≡ s
refuse_or-reduced none s t h = ground arith
refuse_or-reduced (some e) s t h = absurd (ground arith)

without_delta : (s : Str) → append_accumulated_delta s [] ≡ s
unfolding append_accumulated_delta
without_delta [] = refl
without_delta (c ∷ cs) = refl

-- What one update without a text of its own writes.
pub record Updated (u : StateUpdate) (s t : HermesState) : Type 0 where
  pub interrupt : t.interrupt ≡ clear_or_write u.clear_interrupt u.interrupt s.interrupt
  pub status : t.status ≡ get_or_old u.status s.status
  pub plan : t.plan ≡ get_or_old (write_plan u.plan none) s.plan
  pub current_idx : t.current_idx ≡ get_or_old u.current_idx s.current_idx
  pub accumulated : t.accumulated ≡ s.accumulated
  pub started_at :
      t.token_budget.started_at ≡ get_or_old u.budget_started_at s.token_budget.started_at

apply_one-Updated :
    (u : StateUpdate) (s t : HermesState)
    → apply_state_updates s (u ∷ []) ≡ reduced t
    → u.accumulated ≡ none
    → u.accumulated_delta ≡ []
    → Updated u s t
unfolding apply_state_updates finish settle absorb_all absorb apply_update next_accumulated
    next_budget
apply_one-Updated u s t h no_text no_delta =
    let e = refuse_or-reduced _ _ t h in
    record {
      interrupt = ap (λ z. z.interrupt) e;
      status = ap (λ z. z.status) e ∙ ap (λ o. get_or_old o s.status) (orelse_none u.status);
      plan = ap (λ z. z.plan) e;
      current_idx =
          ap (λ z. z.current_idx) e
          ∙ ap (λ o. get_or_old o s.current_idx) (orelse_none u.current_idx);
      accumulated =
          ap (λ z. z.accumulated) e
          ∙ (λ i. append_accumulated_delta (get_or_old (no_text i) s.accumulated) (no_delta i))
          ∙ without_delta s.accumulated;
      started_at = ap (λ z. z.token_budget.started_at) e;
    }

void-ok :
    {A : Type 0} (m : Action A) (db db' : Db)
    → void m db ≡ (ok tt, db')
    → (a : A) × (m db ≡ (ok a, db'))
void-ok m db db' h =
    let (a, db1, e, last) = bind-ok m (λ a. return tt) tt db db' h in
    (a, subst (λ d. m db ≡ (ok a, d)) (ap (λ p. p.1) last) e)

pub or_raise-ok : {A : Type 0} (o : Option A) (a : A) → or_raise no_task o ≡ ok a → o ≡ some a
or_raise-ok none a h = absurd (ground arith)
or_raise-ok (some b) a h = ground arith

-- The snapshot that one update of a task with a snapshot leads to.
pub record Reached (id : Str) (u : StateUpdate) (step : RuntimeStep) (x : Snapshot) (db' : Db)
    : Type 0 where
  pub y : Snapshot
  pub is_latest : latest id db' ≡ some y
  pub next_step : y.next_step ≡ step
  pub updated : Updated u x.state y.state

Updated-files :
    (u : StateUpdate) (files : List Artifact) (s t : HermesState)
    → Updated u (with_files files s) t
    → Updated u s t
Updated-files u files s t r = record {
  interrupt = r.interrupt;
  status = r.status;
  plan = r.plan;
  current_idx = r.current_idx;
  accumulated = r.accumulated;
  started_at = r.started_at;
}

pub commit_of-Reached :
    (new_id : Str) (now : ℕ) (id : Str) (u : StateUpdate) (step source : RuntimeStep)
    (metadata : SnapshotMetadata) (x : Snapshot) (db db' : Db)
    → u.accumulated ≡ none
    → u.accumulated_delta ≡ []
    → StepFits (latest id db)
    → latest id db ≡ some x
    → void (commit_runtime_step new_id now (commit_of id u step source metadata)) db ≡ (ok tt, db')
    → Reached id u step x db'
unfolding get_latest_snapshot
commit_of-Reached new_id now id u step source metadata x db db' no_text no_delta fits at h =
    let c = commit_of id u step source metadata in
    let (z, e) = void-ok (commit_runtime_step new_id now c) db db' h in
    let r = commit-Durable new_id now c db db' z fits e in
    record {
      y = stored z;
      is_latest = or_raise-ok (latest id db') (stored z) r.is_latest;
      next_step = r.routed;
      updated = Updated-files u (load_artifacts id db.task_artifacts) x.state z.state (
          apply_one-Updated u (with_files (load_artifacts id db.task_artifacts) x.state) z.state
            (ap (λ s. apply_state_updates s (u ∷ [])) (sym (due_state-latest id r.row x db at))
              ∙ r.applied)
            no_text no_delta);
    }
