-- ===== src/Graph/Walker/Fuel.antt =====
-- The loop of `Walker.Run` ends within `MaxSteps` rounds (engine/graph/runtime.go).
use alice_core.Prelude.{
  ℕ, zero, suc, ◌+◌, ◌*◌, ◌≤◌, ◌<◌, ◌≡◌, refl, arith, true, Str, slt, sign_bit, List, ◌++◌, length,
  length-append, Option, none, some,
}
use alice_core.Hermes.Snapshot.{Snapshot}
use alice_core.Graph.Registry.{Registry}
use alice_core.Graph.Walker.Types.{StepStore, Env, RunResult, Round, stop, go_on, NodeEvent}
use alice_core.Graph.Walker.Loop.{
  round, run_from, run, prepend, continue_with, on_snapshot, on_interrupt, dispatch, after_handle,
  after_commit, on_cancel,
}

-- A round emits at most two events.
abbrev SmallRound : {S : Type 0} → Round S → Type 0
SmallRound (stop r) = length r.events ≤ 2
SmallRound (go_on x s events) = length events ≤ 2

module _ {S : Type 0} (store : StepStore S) (registry : Registry) (task_id : Str) where
  round-small :
      (max index now : ℕ) (ctx : Option Str) (last : Option Snapshot) (s : S)
      → SmallRound (round store registry task_id max index now ctx last s)
  unfolding round on_snapshot on_interrupt dispatch after_handle after_commit on_cancel
  round-small max index now ctx last s = ground arith

  round-below :
      (max index now : ℕ) (ctx : Option Str) (last : Option Snapshot) (s : S) (x : Snapshot)
      (s' : S) (events : List NodeEvent)
      → round store registry task_id max index now ctx last s ≡ go_on x s' events
      → slt 0 max ≡ true
      → max < sign_bit
      → index < sign_bit
      → index < max
  unfolding round
  round-below max index now none last s x s' events h pos fits small = ground arith
  round-below max index now (some text) last s x s' events h pos fits small = ground arith

  abbrev Finishes : Option (RunResult S) → ℕ → Type 0
  Finishes o rounds = (r : RunResult S) × (o ≡ some r) × (length r.events ≤ 2 * rounds)

  prepend-Finishes :
      (events : List NodeEvent) (o : Option (RunResult S)) (rounds : ℕ)
      → length events ≤ 2
      → Finishes o rounds
      → Finishes (prepend events o) (suc rounds)
  prepend-Finishes events o rounds small (r, e, bound) = (
    record r { events = events ++ r.events },
    rw e,
    omega (arith, length-append {0} events r.events),
  )

  round-Finishes :
      (rec : Option Snapshot → S → Option (RunResult S)) (o : Round S) (rounds : ℕ)
      → SmallRound o
      → ((x : Snapshot) (s' : S) (events : List NodeEvent)
          → o ≡ go_on x s' events
          → Finishes (rec (some x) s') rounds)
      → Finishes (continue_with rec o) (suc rounds)
  round-Finishes rec (stop r) rounds small later = (r, refl, omega arith)
  round-Finishes rec (go_on x s' events) rounds small later =
      prepend-Finishes events (rec (some x) s') rounds small (later x s' events refl)

  run_from-Finishes :
      (fuel max rounds index : ℕ) (env : Env) (last : Option Snapshot) (s : S)
      → slt 0 max ≡ true
      → max < sign_bit
      → index + rounds ≡ max
      → rounds < fuel
      → Finishes (run_from store registry task_id fuel max env index last s) (suc rounds)
  unfolding run_from
  run_from-Finishes zero max rounds index env last s pos fits sum enough = absurd (omega arith)
  run_from-Finishes (suc fuel) max zero index env last s pos fits sum enough =
      round-Finishes (run_from store registry task_id fuel max env (index + 1))
        (round store registry task_id max index (env.now index) (env.ctx_err index) last s) zero
        (round-small max index (env.now index) (env.ctx_err index) last s)
        (λ x s' events h. absurd (beyond x s' events h))
    where
      beyond :
          (x : Snapshot) (s' : S) (events : List NodeEvent)
          → round store registry task_id max index (env.now index) (env.ctx_err index) last s
            ≡ go_on x s' events
          → ⊥
      beyond x s' events h = omega (
        arith,
        round-below max index (env.now index) (env.ctx_err index) last s x s' events h pos fits
            (omega arith),
      )
  run_from-Finishes (suc fuel) max (suc k) index env last s pos fits sum enough =
      round-Finishes (run_from store registry task_id fuel max env (index + 1))
        (round store registry task_id max index (env.now index) (env.ctx_err index) last s) (suc k)
        (round-small max index (env.now index) (env.ctx_err index) last s)
        (λ x s' events h.
          run_from-Finishes fuel max k (index + 1) env (some x) s' pos fits (omega arith)
            (omega arith))

  -- With a positive `MaxSteps` the walk returns, whatever the nodes, the store and the context do,
  -- on fuel above that number; and it emits at most two node events for each of its rounds, of
  -- which there are at most `MaxSteps` + 1.
  pub run-Finishes :
      (fuel max : ℕ) (env : Env) (s : S)
      → slt 0 max ≡ true
      → max < sign_bit
      → max < fuel
      → (r : RunResult S) × (run store registry task_id fuel max env s ≡ some r)
        × (length r.events ≤ 2 * suc max)
  unfolding run
  run-Finishes fuel max env s pos fits enough =
      run_from-Finishes fuel max max 0 env none s pos fits (omega arith) enough
