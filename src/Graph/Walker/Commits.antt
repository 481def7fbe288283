-- ===== src/Graph/Walker/Commits.antt =====
-- engine/graph/runtime.go: the commits that the walker makes.
use alice_core.Prelude.{
  ℕ, Bool, false, not, ◌&&◌, ◌||◌, Str, codes, decimal, is_empty, is_some, if◌then◌else◌, List, [],
  ◌∷◌, ◌++◌, none, some,
}
use alice_core.Hermes.Status.{TaskStatus, is_terminal}
use alice_core.Hermes.Snapshot.{
  HermesState, StateUpdate, RuntimeStep, step_eq, step_text, Snapshot, SnapshotMetadata,
  RuntimeCommit, HermesInterrupt, Payload, nothing, budget, no_update,
}
use alice_core.Graph.Node.{NodeOutput}

abbrev pub walker_metadata : Str → SnapshotMetadata
walker_metadata reason = record {
  source = codes "graph_walker";
  reason = reason;
  attempt = 0;
  model = [];
  step_status = [];
  tags = [];
  extra = [];
}

abbrev pub commit_of : Str → List StateUpdate → RuntimeStep → RuntimeStep → Str → ℕ → RuntimeCommit
commit_of task_id updates next source reason now = record {
  task_id = task_id;
  updates = updates;
  next_step = next;
  source_node = source;
  metadata = walker_metadata reason;
  snapshot_id = [];
  parent_snapshot_id = [];
  channel_versions = [];
  created_at = now;
}

-- The interrupt that stops at `step` and resumes there.
abbrev pub pause_at : Str → RuntimeStep → Str → Str → Payload → ℕ → HermesInterrupt
pause_at task_id step kind reason payload now = record {
  id = task_id ++ codes ":" ++ kind ++ codes ":" ++ decimal now;
  message_id = 0;
  source_step = step;
  resume_step = step;
  payload = payload;
  reason = reason;
  created_at = now;
  expires_at = none;
}

-- The commit of `commitCtxInterrupt`.
unfoldable pub ctx_interrupt_commit : Str → Snapshot → Str → ℕ → RuntimeCommit
ctx_interrupt_commit task_id last ctx_text now =
    commit_of task_id
      (record no_update {
        interrupt = some (
            pause_at task_id last.next_step (codes "ctxcancel")
              (codes "ctx_cancelled: " ++ ctx_text) nothing now);
      }
        ∷ [])
      last.next_step last.next_step (codes "ctx_cancelled") now

-- The commit of `commitBudgetInterrupt`.
unfoldable pub budget_interrupt_commit : Str → Snapshot → ℕ → RuntimeCommit
budget_interrupt_commit task_id snap now =
    let b = snap.state.token_budget in
    commit_of task_id
      (record no_update {
        interrupt = some (
            pause_at task_id snap.next_step (codes "budget") (codes "budget_exceeded")
              (budget b.used_tokens b.max_total_tokens) now);
      }
        ∷ [])
      snap.next_step snap.next_step (codes "budget_exceeded") now

-- `NodePanicError.Error`: `%q` of a step name that needs no escapes.
abbrev pub panic_message : RuntimeStep → Str → Str
panic_message step value = codes "graph: node \"" ++ step_text step ++ codes "\" panic: " ++ value

-- The commit of `commitPanicTerminal`.
unfoldable pub panic_commit : Str → Snapshot → RuntimeStep → Str → ℕ → RuntimeCommit
panic_commit task_id last step value now =
    commit_of task_id
      (record no_update {
        errors =
            record {
              step = step;
              message = panic_message step value;
              retryable = false;
              created_at = now;
            }
            ∷ [];
        status = if is_terminal last.state.status then none else some TaskStatus.failed;
      }
        ∷ [])
      RuntimeStep.terminal step (codes "node_panic") now

-- `stateUpdatesSetStatus`
unfoldable pub state_updates_set_status : List StateUpdate → Bool
state_updates_set_status [] = false
state_updates_set_status (u ∷ us) = is_some u.status || state_updates_set_status us

-- The updates of a node's output, with the final status that the walker adds at the terminal step.
unfoldable pub final_updates : HermesState → NodeOutput → List StateUpdate
unfolding state_updates_set_status
final_updates s o =
    if step_eq o.next_step RuntimeStep.terminal
      && not (state_updates_set_status o.updates)
      && not (is_terminal s.status)
    then o.updates ++ record no_update { status = some TaskStatus.done } ∷ []
    else o.updates

abbrev pub reason_or_step : Str → RuntimeStep → Str
reason_or_step reason step = if is_empty reason then step_text step ++ codes "_step" else reason
