-- ===== src/Graph/Walker/Memory.antt =====
-- The walker of engine/graph/runtime.go over the store of hermes/memory_store.go.
use alice_core.Prelude.{
  ℕ, ◌≡◌, sym, ap, ◌∙◌, true, Str, str_eq, str_eq_iff, List, [], ◌∷◌, ◌++◌, append-nil,
  append_assoc, some, inl, inr, Bool-cases, lookup,
}
use alice_core.Hermes.Status.{is_terminal}
use alice_core.Hermes.State.{TaskState}
use alice_core.Hermes.Snapshot.{Snapshot, RuntimeCommit}
use alice_core.Hermes.Reducer.Frame.{terminal_final, stays-valid}
use alice_core.Hermes.MemoryStore.Rows.{ok}
use alice_core.Hermes.MemoryStore.{Store, history, get_latest_snapshot, commit_runtime_step}
use alice_core.Hermes.MemoryStore.Commit.{commit-Committed}
use alice_core.Hermes.MemoryStore.Statuses.{StatusKept, commit_ok-StatusKept, valid_trans}
use alice_core.Graph.Registry.{Registry}
use alice_core.Graph.Walker.Types.{StepStore, Env, RunResult}
use alice_core.Graph.Walker.Loop.{run}
use alice_core.Graph.Walker.Invariant.{run-keeps}

abbrev pub memory_step_store : StepStore Store
memory_step_store = record {
  get_latest_snapshot = get_latest_snapshot;
  commit_runtime_step = commit_runtime_step;
}

-- Whatever nodes are registered and however they fail or panic, a walk keeps every task, and has
-- moved its status by a valid transition, if at all.
pub walk-StatusKept :
    (registry : Registry) (task_id id : Str) (fuel max : ℕ) (env : Env) (s : Store)
    (r : RunResult Store)
    → run memory_step_store registry task_id fuel max env s ≡ some r
    → StatusKept id s r.store
walk-StatusKept registry task_id id fuel max env s r =
    run-keeps memory_step_store registry task_id (StatusKept id s)
      (λ now c u u' x e k t at_t.
        let (v, at_v, first) = k t at_t in
        let (w, at_w, then_step) = commit_ok-StatusKept id now c u u' x e v at_v in
        (w, at_w, valid_trans t.status v.status w.status first then_step))
      fuel max env s r (λ t at_t. (t, at_t, stays-valid t.status))

-- Over the memory store, whatever nodes are registered and however they fail or panic, a walk that
-- returns has left every task that was done, failed or interrupted in the store with that status.
pub walk_terminal :
    (registry : Registry) (task_id id : Str) (fuel max : ℕ) (env : Env) (s : Store)
    (r : RunResult Store) (t : TaskState)
    → run memory_step_store registry task_id fuel max env s ≡ some r
    → lookup id s.tasks ≡ some t
    → is_terminal t.status ≡ true
    → (t' : TaskState) × (lookup id r.store.tasks ≡ some t') × (t'.status ≡ t.status)
walk_terminal registry task_id id fuel max env s r t h at_t f =
    let (v, at_v, moved) = walk-StatusKept registry task_id id fuel max env s r h t at_t in
    (v, at_v, terminal_final t.status v.status f moved)

abbrev Extends : List Snapshot → List Snapshot → Type 0
Extends old h = (new : List Snapshot) × (h ≡ old ++ new)

commit-Extends :
    (id : Str) (now : ℕ) (c : RuntimeCommit) (u u' : Store) (x : Snapshot) (old : List Snapshot)
    → commit_runtime_step now c u ≡ ok (x, u')
    → Extends old (history id u)
    → Extends old (history id u')
commit-Extends id now c u u' x old e (new, h) =
    let done = commit-Committed now c u u' x e in
    elim (Bool-cases (str_eq c.task_id id)) [
      | inl same ↦ (
        new ++ x ∷ [],
        ap (λ i. history i u') (sym ((str_eq_iff c.task_id id).0 same))
            ∙ done.one_more
            ∙ ap (λ i. history i u ++ x ∷ []) ((str_eq_iff c.task_id id).0 same)
            ∙ ap (λ l. l ++ x ∷ []) h
            ∙ append_assoc old new (x ∷ []),
      )
      | inr other ↦ (new, done.other_histories id other ∙ h)
    ]

-- A walk over the memory store that returns has only appended to the snapshot history of each task.
pub walk-Extends :
    (registry : Registry) (task_id id : Str) (fuel max : ℕ) (env : Env) (s : Store)
    (r : RunResult Store)
    → run memory_step_store registry task_id fuel max env s ≡ some r
    → (new : List Snapshot) × (history id r.store ≡ history id s ++ new)
walk-Extends registry task_id id fuel max env s r =
    run-keeps memory_step_store registry task_id (λ u. Extends (history id s) (history id u))
      (λ now c u u' x e k. commit-Extends id now c u u' x (history id s) e k) fuel max env s r
      ([], sym (append-nil (history id s)))
