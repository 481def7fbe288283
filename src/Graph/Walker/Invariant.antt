-- ===== src/Graph/Walker/Invariant.antt =====
-- The store changes only by the walker's commits (engine/graph/runtime.go): what every accepted
-- commit keeps, every walk keeps.
use alice_core.Prelude.{
  ℕ, zero, suc, ◌+◌, ◌≡◌, ◌&&◌, ◌||◌, Str, slt, sle, is_empty, List, [], Option, none, some, inl,
  inr, Bool-cases,
}
use alice_core.Hermes.Snapshot.{Snapshot, RuntimeCommit, RuntimeStep, step_eq, HermesInterrupt}
use alice_core.Hermes.State.{exceeded}
use alice_core.Hermes.MemoryStore.Rows.{Result, ok, err, Result-cases}
use alice_core.Graph.Node.{Handled, outputs, fails, panics, NodeOutput}
use alice_core.Graph.Registry.{Registry, Node}
use alice_core.Graph.Walker.Types.{
  StepStore, Env, RunResult, Round, stop, go_on, NodeEvent, RunError,
}
use alice_core.Graph.Walker.Loop.{
  round, run_from, run, prepend, continue_with, on_snapshot, on_interrupt, dispatch, after_handle,
  after_commit, on_cancel, committed_or,
}

abbrev After : {S : Type 0} → (S → Type 0) → Round S → Type 0
After P (stop r) = P r.store
After P (go_on x s events) = P s

abbrev Ends : {S : Type 0} → (S → Type 0) → Option (RunResult S) → Type 0
Ends P none = Unit
Ends P (some r) = P r.store

module _ {S : Type 0} (store : StepStore S) (registry : Registry) (task_id : Str) (P : S → Type 0)
    (keep : (now : ℕ) (c : RuntimeCommit) (s s' : S) (x : Snapshot)
      → store.commit_runtime_step now c s ≡ ok (x, s')
      → P s
      → P s') where
  committed_or-keeps :
      (now : ℕ) (c : RuntimeCommit) (old : Option Snapshot) (s : S) (e : RunError)
      (events : List NodeEvent)
      → P s
      → P
          (committed_or store registry task_id old s
            (store.commit_runtime_step now c s)
            e
            events).store
  committed_or-keeps now c old s e events p =
      elim (Result-cases (store.commit_runtime_step now c s)) [
        | inl ((x, s'), h) ↦ rw h (keep now c s s' x h p)
        | inr (f, h) ↦ rw h p
      ]

  on_cancel-keeps :
      (now : ℕ) (last : Option Snapshot) (s : S) (text : Str)
      → P s
      → P (on_cancel store registry task_id now last s text).store
  unfolding on_cancel
  on_cancel-keeps now none s text p = p
  on_cancel-keeps now (some x) s text p = elim (Bool-cases (is_empty x.task_id)) [
    | inl e ↦ rw e p
    | inr e ↦ rw e (committed_or-keeps now _ (some x) s _ [] p)
  ]

  after_commit-keeps :
      (index now : ℕ) (snap : Snapshot) (s : S) (o : NodeOutput) (reason : Str) (c : RuntimeCommit)
      → P s
      → After P (
          after_commit store registry task_id index snap s o reason
            (store.commit_runtime_step now c s))
  unfolding after_commit
  after_commit-keeps index now snap s o reason c p =
      elim (Result-cases (store.commit_runtime_step now c s)) [
        | inr (f, h) ↦ rw h p
        | inl ((x, s'), h) ↦
            elim (Bool-cases (step_eq o.next_step RuntimeStep.terminal || o.halt)) [
              | inl e ↦ rw (h, after_commit) (rw e (keep now c s s' x h p))
              | inr e ↦ rw (h, after_commit) (rw e (keep now c s s' x h p))
            ]
      ]

  after_handle-keeps :
      (index now : ℕ) (snap : Snapshot) (s : S) (h : Handled)
      → P s
      → After P (after_handle store registry task_id index now snap s h)
  unfolding after_handle
  after_handle-keeps index now snap s (fails e) p = p
  after_handle-keeps index now snap s (panics v) p = committed_or-keeps now _ (some snap) s _ _ p
  after_handle-keeps index now snap s (outputs o) p =
      elim (Bool-cases (step_eq o.next_step RuntimeStep.unset)) [
        | inl e ↦ rw e p
        | inr e ↦ rw e (after_commit-keeps index now snap s o _ _ p)
      ]

  dispatch-keeps :
      (index now : ℕ) (snap : Snapshot) (s : S) (o : Option Node)
      → P s
      → After P (dispatch store registry task_id index now snap s o)
  unfolding dispatch
  dispatch-keeps index now snap s none p = p
  dispatch-keeps index now snap s (some node) p = after_handle-keeps index now snap s _ p

  on_interrupt-keeps :
      (index now : ℕ) (snap : Snapshot) (s : S) (i : Option HermesInterrupt)
      → P s
      → After P (on_interrupt store registry task_id index now snap s i)
  unfolding on_interrupt
  on_interrupt-keeps index now snap s (some i) p = p
  on_interrupt-keeps index now snap s none p =
      elim (Bool-cases (exceeded now snap.state.token_budget)) [
        | inl e ↦ rw e (committed_or-keeps now _ (some snap) s _ _ p)
        | inr e ↦ rw e (dispatch-keeps index now snap s (registry snap.next_step) p)
      ]

  on_snapshot-keeps :
      (index now : ℕ) (last : Option Snapshot) (s : S) (r : Result Snapshot)
      → P s
      → After P (on_snapshot store registry task_id index now last s r)
  unfolding on_snapshot
  on_snapshot-keeps index now last s (err e) p = p
  on_snapshot-keeps index now last s (ok x) p =
      elim (Bool-cases (step_eq x.next_step RuntimeStep.terminal)) [
        | inl e ↦ rw e p
        | inr e ↦ rw e (on_interrupt-keeps index now x s _ p)
      ]

  round-keeps :
      (max index now : ℕ) (ctx : Option Str) (last : Option Snapshot) (s : S)
      → P s
      → After P (round store registry task_id max index now ctx last s)
  unfolding round
  round-keeps max index now (some text) last s p = on_cancel-keeps now last s text p
  round-keeps max index now none last s p = elim (Bool-cases (slt 0 max && sle max index)) [
    | inl e ↦ rw e p
    | inr e ↦ rw e (on_snapshot-keeps (index + 1) now last s _ p)
  ]

  prepend-Ends :
      (events : List NodeEvent) (o : Option (RunResult S)) → Ends P o → Ends P (prepend events o)
  prepend-Ends events none p = tt
  prepend-Ends events (some r) p = p

  continue-Ends :
      (rec : Option Snapshot → S → Option (RunResult S)) (o : Round S)
      → After P o
      → ((last : Option Snapshot) (s : S) → P s → Ends P (rec last s))
      → Ends P (continue_with rec o)
  continue-Ends rec (stop r) p later = p
  continue-Ends rec (go_on x s events) p later =
      prepend-Ends events (rec (some x) s) (later (some x) s p)

  run_from-keeps :
      (fuel max : ℕ) (env : Env) (index : ℕ) (last : Option Snapshot) (s : S)
      → P s
      → Ends P (run_from store registry task_id fuel max env index last s)
  unfolding run_from
  run_from-keeps zero max env index last s p = tt
  run_from-keeps (suc fuel) max env index last s p =
      continue-Ends (run_from store registry task_id fuel max env (index + 1))
        (round store registry task_id max index (env.now index) (env.ctx_err index) last s)
        (round-keeps max index (env.now index) (env.ctx_err index) last s p)
        (run_from-keeps fuel max env (index + 1))

  -- What every accepted commit keeps holds of the store that a walk leaves, on every way out.
  pub run-keeps :
      (fuel max : ℕ) (env : Env) (s : S) (r : RunResult S)
      → P s
      → run store registry task_id fuel max env s ≡ some r
      → P r.store
  unfolding run
  run-keeps fuel max env s r p h = rw h at (run_from-keeps fuel max env 0 none s p)
