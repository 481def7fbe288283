-- ===== src/Examples/Walking.antt =====
-- A walk of one node over the memory store, and one whose node never ends.
use alice_core.Prelude.{
  false, insert, decimal, ◌≡◌, ◌+◌, ◌*◌, ◌≤◌, refl, arith, codes, List, [], ◌∷◌, ◌++◌, none, some,
  lookup, length, suc, get_or_old,
}
use alice_core.Hermes.Status.{TaskStatus, valid_task_status_transition}
use alice_core.Hermes.State.{TaskState, exceeded}
use alice_core.Hermes.Snapshot.{Snapshot, RuntimeStep, no_update, HermesState, HermesStateError}
use alice_core.Hermes.MemoryStore.{
  Store, history, get_latest_snapshot, commit_runtime_step, seed_state, save_commit, is_duplicate,
  committed_snapshot, hermes_state_to_task_state,
}
use alice_core.Graph.Node.{route, NodeOutput}
use alice_core.Graph.Registry.{Node, Registry, new_registry, register}
use alice_core.Graph.Walker.Types.{Env, RunResult}
use alice_core.Graph.Walker.Loop.{
  run, run_from, round, on_snapshot, on_interrupt, dispatch, after_handle, after_commit,
}
use alice_core.Graph.Walker.Commits.{
  final_updates, state_updates_set_status, panic_commit, ctx_interrupt_commit,
  budget_interrupt_commit,
}
use alice_core.Graph.Walker.Pauses.{Pauses, interrupt_commits-Pauses}
use alice_core.Graph.Walker.Endings.{final_updates-ends, panic_commit-ends}
use alice_core.Hermes.Reducer.{apply_state_updates, reduced}
use alice_core.Graph.Walker.Fuel.{run-Finishes}
use alice_core.Graph.Walker.Memory.{memory_step_store, walk_terminal, walk-Extends}
use alice_core.Examples.Data.{
  active_id, finished_id, two_tasks, finished_task, active_state, spending, commit_with,
}

abbrev first_snapshot : Snapshot
first_snapshot = record {
  id = codes "t1:1";
  task_id = active_id;
  chat_id = 7;
  thread_id = 1;
  step = 1;
  state = active_state;
  next_step = RuntimeStep.executor;
  source_node = RuntimeStep.planner;
  writes = no_update;
  metadata = (commit_with [] RuntimeStep.executor).metadata;
  parent_snapshot_id = [];
  channel_versions = [];
  created_at = 3;
}

abbrev planned_store : Store
planned_store = record two_tasks { snapshots = (active_id, first_snapshot ∷ []) ∷ [] }

abbrev quiet : Env
quiet = record { ctx_err = λ n. none; now = λ n. 100 + n }

abbrev step_to : RuntimeStep → Node
step_to next = record {
  name = RuntimeStep.executor;
  handle = λ m s. route (spending 5 (codes "x") ∷ []) next (codes "ran");
}

registry_to : RuntimeStep → Registry
unfolding register new_registry
registry_to next = register (step_to next) new_registry

no_result : RunResult Store
no_result = record { last = none; error = none; store = planned_store; events = [] }

walked : RunResult Store
unfolding registry_to run
walked =
    get_or_old
      (run memory_step_store (registry_to RuntimeStep.terminal) active_id 4 3 quiet planned_store)
      no_result

walk_ends :
    run memory_step_store (registry_to RuntimeStep.terminal) active_id 4 3 quiet planned_store
    ≡ some walked
unfolding walked run_from round on_snapshot get_latest_snapshot lookup on_interrupt exceeded
    dispatch after_handle after_commit commit_runtime_step apply_state_updates final_updates
    valid_task_status_transition seed_state save_commit is_duplicate state_updates_set_status
    committed_snapshot hermes_state_to_task_state history insert decimal
walk_ends = refl

walk_terminal_example :
    (t' : TaskState) × (lookup finished_id walked.store.tasks ≡ some t')
    × (t'.status ≡ TaskStatus.done)
unfolding lookup
walk_terminal_example =
    walk_terminal (registry_to RuntimeStep.terminal) active_id finished_id 4 3 quiet planned_store
      walked finished_task walk_ends refl refl

walk-Extends_example :
    (new : List Snapshot) × (history active_id walked.store
      ≡ history active_id planned_store ++ new)
walk-Extends_example =
    walk-Extends (registry_to RuntimeStep.terminal) active_id active_id 4 3 quiet planned_store
      walked walk_ends

run-Finishes_example :
    (r : RunResult Store) × (run memory_step_store
        (registry_to RuntimeStep.executor)
        active_id
        6
        5
        quiet
        planned_store
      ≡ some r)
    × (length r.events ≤ 2 * suc 5)
run-Finishes_example =
    run-Finishes memory_step_store (registry_to RuntimeStep.executor) active_id 6 5 quiet
      planned_store refl (omega arith) (omega arith)

abbrev last_output : NodeOutput
last_output = record {
  updates = spending 5 (codes "x") ∷ [];
  next_step = RuntimeStep.terminal;
  reason = [];
  halt = false;
}

final_updates-ends_example :
    (t : HermesState) × (apply_state_updates active_state (final_updates active_state last_output)
      ≡ reduced t)
    × (t.status ≡ TaskStatus.done)
unfolding state_updates_set_status
final_updates-ends_example = final_updates-ends active_state last_output refl refl refl

panic_commit-ends_example :
    (t : HermesState) × (apply_state_updates active_state
        (panic_commit active_id first_snapshot RuntimeStep.executor (codes "nil map") 70).updates
      ≡ reduced t)
    × (t.status ≡ TaskStatus.failed)
    × ((e : HermesStateError) × (t.errors ≡ e ∷ [])
        × (e.step ≡ RuntimeStep.executor)
        × (e.retryable ≡ false))
    × ((panic_commit active_id first_snapshot RuntimeStep.executor (codes "nil map") 70).next_step
        ≡ RuntimeStep.terminal)
panic_commit-ends_example =
    panic_commit-ends active_id first_snapshot RuntimeStep.executor (codes "nil map") 70 refl

interrupt_commits-Pauses_example :
    Pauses
      (ctx_interrupt_commit active_id first_snapshot (codes "context canceled") 80)
      first_snapshot
    × Pauses (budget_interrupt_commit active_id first_snapshot 80) first_snapshot
interrupt_commits-Pauses_example =
    interrupt_commits-Pauses active_id first_snapshot (codes "context canceled") 80 (omega arith)
