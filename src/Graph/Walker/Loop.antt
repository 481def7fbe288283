-- ===== src/Graph/Walker/Loop.antt =====
-- engine/graph/runtime.go: `Walker.Run`.
use alice_core.Prelude.{
  ℕ, zero, suc, ◌+◌, false, ◌&&◌, ◌||◌, Str, codes, is_empty, slt, sle, if◌then◌else◌, List, [],
  ◌∷◌, ◌++◌, Option, none, some,
}
use alice_core.Hermes.State.{exceeded}
use alice_core.Hermes.Snapshot.{RuntimeStep, step_eq, Snapshot, HermesInterrupt}
use alice_core.Hermes.MemoryStore.Rows.{Result, ok, err}
use alice_core.Graph.Node.{Handled, NodeOutput, outputs, fails, panics}
use alice_core.Graph.Registry.{Node, Registry}
use alice_core.Graph.Walker.Types.{
  StepStore, Env, NodeFault, fault, panicked, NodeEvent, started, failed, done, RunError, cancelled,
  max_steps_exceeded, load_failed, commit_failed, interrupted, unregistered_step, node_panic,
  node_failed, empty_next_step, RunResult, Round, stop, go_on,
}
use alice_core.Graph.Walker.Commits.{
  commit_of, ctx_interrupt_commit, budget_interrupt_commit, panic_commit, final_updates,
  reason_or_step,
}

abbrev pub prepend : {S : Type 0} → List NodeEvent → Option (RunResult S) → Option (RunResult S)
prepend events none = none
prepend events (some r) = some (record r { events = events ++ r.events })

-- The loop after one round, with its own next call handed in.
abbrev pub continue_with :
    {S : Type 0} → (Option Snapshot → S → Option (RunResult S)) → Round S → Option (RunResult S)
continue_with rec (stop r) = some r
continue_with rec (go_on x s events) = prepend events (rec (some x) s)

module _ {S : Type 0} (store : StepStore S) (registry : Registry) (task_id : Str) where
  -- The last snapshot of a commit that may fail, and the store after it.
  abbrev pub committed_or :
      Option Snapshot → S → Result (Snapshot × S) → RunError → List NodeEvent → RunResult S
  committed_or old s (ok (x, s')) e events = record {
    last = some x;
    error = some e;
    store = s';
    events = events;
  }
  committed_or old s (err _) e events = record {
    last = old;
    error = some e;
    store = s;
    events = events;
  }

  -- The branch for a cancelled context.
  unfoldable pub on_cancel : ℕ → Option Snapshot → S → Str → RunResult S
  on_cancel now none s text = record {
    last = none;
    error = some (cancelled text);
    store = s;
    events = [];
  }
  on_cancel now (some last) s text =
      if is_empty last.task_id
      then record { last = some last; error = some (cancelled text); store = s; events = [] }
      else committed_or (some last) s
          (store.commit_runtime_step now (ctx_interrupt_commit task_id last text now) s)
          (cancelled text) []

  abbrev pub done_event : ℕ → RuntimeStep → NodeOutput → Str → NodeEvent
  done_event index step o reason = record {
    node = step;
    status = done;
    next_step = o.next_step;
    reason = reason;
    step_index = index;
    halt = o.halt;
    error = none;
  }

  abbrev pub start_event : ℕ → RuntimeStep → NodeEvent
  start_event index step = record {
    node = step;
    status = started;
    next_step = RuntimeStep.unset;
    reason = [];
    step_index = index;
    halt = false;
    error = none;
  }

  abbrev pub failed_event : ℕ → RuntimeStep → NodeFault → NodeEvent
  failed_event index step e = record (start_event index step) { status = failed; error = some e }

  -- After the commit of a node's output.
  unfoldable pub after_commit :
      ℕ → Snapshot → S → NodeOutput → Str → Result (Snapshot × S) → Round S
  after_commit index snap s o reason (err e) = stop (record {
    last = some snap;
    error = some (commit_failed e);
    store = s;
    events = start_event index snap.next_step ∷ [];
  })
  after_commit index snap s o reason (ok (x, s')) =
      let events =
        start_event index snap.next_step ∷ done_event index snap.next_step o reason ∷ [] in
      if step_eq o.next_step RuntimeStep.terminal || o.halt
      then stop (record { last = some x; error = none; store = s'; events = events })
      else go_on x s' events

  -- What follows `safeHandle`.
  unfoldable pub after_handle : ℕ → ℕ → Snapshot → S → Handled → Round S
  after_handle index now snap s (fails e) = stop (record {
    last = some snap;
    error = some (node_failed snap.next_step e);
    store = s;
    events = start_event index snap.next_step ∷ failed_event index snap.next_step (fault e) ∷ [];
  })
  after_handle index now snap s (panics value) = stop (
      committed_or (some snap) s
        (store.commit_runtime_step now (panic_commit task_id snap snap.next_step value now) s)
        (node_panic snap.next_step value)
        (start_event index snap.next_step
          ∷ failed_event index snap.next_step (panicked value)
          ∷ []))
  after_handle index now snap s (outputs o) =
      let reason = reason_or_step o.reason snap.next_step in
      if step_eq o.next_step RuntimeStep.unset
      then stop (record {
        last = some snap;
        error = some (empty_next_step snap.next_step);
        store = s;
        events = start_event index snap.next_step ∷ [];
      })
      else after_commit index snap s o reason (
          store.commit_runtime_step now
            (commit_of task_id (final_updates snap.state o) o.next_step snap.next_step reason now)
            s)

  -- An interrupt that is set stops every step but the approval.
  abbrev pub blocked_by : Snapshot → Option HermesInterrupt
  blocked_by snap =
      if step_eq snap.next_step RuntimeStep.approval then none else snap.state.interrupt

  unfoldable pub dispatch : ℕ → ℕ → Snapshot → S → Option Node → Round S
  dispatch index now snap s none = stop (record {
    last = some snap;
    error = some (unregistered_step snap.next_step);
    store = s;
    events = [];
  })
  dispatch index now snap s (some node) =
      after_handle index now snap s (node.handle (record { call = index; now = now }) snap.state)

  unfoldable pub on_interrupt : ℕ → ℕ → Snapshot → S → Option HermesInterrupt → Round S
  on_interrupt index now snap s (some i) =
      stop
        (record { last = some snap; error = some (interrupted i.reason); store = s; events = [] })
  on_interrupt index now snap s none =
      if exceeded now snap.state.token_budget
      then stop (
          committed_or (some snap) s
            (store.commit_runtime_step now (budget_interrupt_commit task_id snap now) s)
            (interrupted (codes "budget_exceeded")) [])
      else dispatch index now snap s (registry snap.next_step)

  -- What follows the load of the latest snapshot.
  unfoldable pub on_snapshot : ℕ → ℕ → Option Snapshot → S → Result Snapshot → Round S
  on_snapshot index now last s (err e) =
      stop (record { last = last; error = some (load_failed e); store = s; events = [] })
  on_snapshot index now last s (ok snap) =
      if step_eq snap.next_step RuntimeStep.terminal
      then stop (record { last = some snap; error = none; store = s; events = [] })
      else on_interrupt index now snap s (blocked_by snap)

  -- The body of the loop, where `index` rounds have gone before.
  unfoldable pub round : ℕ → ℕ → ℕ → Option Str → Option Snapshot → S → Round S
  round max index now (some text) last s = stop (on_cancel now last s text)
  round max index now none last s =
      if slt 0 max && sle max index
      then stop
          (record { last = last; error = some (max_steps_exceeded index); store = s; events = [] })
      else on_snapshot (index + 1) now last s (store.get_latest_snapshot task_id s)

  -- The loop of `Run` on fuel; `none` means that the fuel ran out.
  unfoldable pub run_from : ℕ → ℕ → Env → ℕ → Option Snapshot → S → Option (RunResult S)
  run_from zero max env index last s = none
  run_from (suc fuel) max env index last s =
      continue_with (run_from fuel max env (index + 1))
        (round max index (env.now index) (env.ctx_err index) last s)

  -- `Walker.Run` with `MaxSteps` = `max`.
  unfoldable pub run : ℕ → ℕ → Env → S → Option (RunResult S)
  run fuel max env s = run_from fuel max env 0 none s
