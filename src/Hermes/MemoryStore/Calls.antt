-- ===== src/Hermes/MemoryStore/Calls.antt =====
-- The calls that change the store of hermes/memory_store.go, and sequences of them.
-- The mutex makes each call one step, so calls of several goroutines are one sequence.
use alice_core.Prelude.{ℕ, ◌≢◌, Str, List, [], ◌∷◌, Option, none, some}
use alice_core.Hermes.Status.{TaskStatus, SubTaskStatus}
use alice_core.Hermes.Usage.{Cost, TokenUsageBreakdown, plain_breakdown}
use alice_core.Hermes.State.{SubTask, Artifact, TaskState}
use alice_core.Hermes.Snapshot.{Snapshot, RuntimeCommit}
use alice_core.Hermes.MemoryStore.Rows.{
  Result, ok, err, store_plan, update_sub_task, mark_sub_task_started, advance_task,
  mark_interrupted, mark_status, add_token_usage, add_model_usage, add_phase_usage, append_artifact,
  update_accumulated, update_planner_session, reset_budget_started_at,
}
use alice_core.Hermes.MemoryStore.{
  Store, create_task, update_err, create_snapshot, commit_runtime_step,
}

-- The methods that change the store, with their arguments.
pub data Call : Type 0 where
  creates_task : TaskState → Call
  stores_plan : Str → List SubTask → Call
  updates_sub_task : Str → ℕ → SubTaskStatus → Str → ℕ → Call
  starts_sub_task : Str → ℕ → Call
  advances : Str → ℕ → TaskStatus → Call
  appends_artifact : Str → Artifact → Call
  updates_accumulated : Str → Str → Call
  updates_planner_session : Str → Str → Call
  interrupts : Str → ℕ → Call
  marks : Str → TaskStatus → Call
  resets_budget : Str → ℕ → Call
  spends : Str → ℕ → Call
  adds_model_usage : Str → Str → ℕ → ℕ → Cost → Call
  adds_model_breakdown : Str → Str → TokenUsageBreakdown → Call
  adds_phase_usage : Str → Str → Str → ℕ → ℕ → Cost → Call
  adds_phase_breakdown : Str → Str → Str → TokenUsageBreakdown → Call
  creates_snapshot : Snapshot → Call
  commits : RuntimeCommit → Call

-- The row that a method hands to `updateErr`, by its key.
unfoldable pub change : Call → Option (Str × (TaskState → Result TaskState))
unfolding store_plan update_sub_task mark_sub_task_started advance_task mark_interrupted mark_status
    add_token_usage add_model_usage add_phase_usage plain_breakdown append_artifact
    update_accumulated update_planner_session reset_budget_started_at
change (stores_plan id plan) = some (id, λ t. ok (store_plan plan t))
change (updates_sub_task id idx status result tokens) =
    some (id, update_sub_task idx status result tokens)
change (starts_sub_task id idx) = some (id, mark_sub_task_started idx)
change (advances id next_idx status) = some (id, advance_task id next_idx status)
change (appends_artifact id a) = some (id, λ t. ok (append_artifact a t))
change (updates_accumulated id text) = some (id, λ t. ok (update_accumulated text t))
change (updates_planner_session id sid) = some (id, λ t. ok (update_planner_session sid t))
change (interrupts id message) = some (id, mark_interrupted id message)
change (marks id status) = some (id, mark_status id status)
change (resets_budget id time) = some (id, λ t. ok (reset_budget_started_at time t))
change (spends id delta) = some (id, λ t. ok (add_token_usage delta t))
change (adds_model_usage id model input output cost) =
    some (id, λ t. ok (add_model_usage model (plain_breakdown input output cost) t))
change (adds_model_breakdown id model usage) = some (id, λ t. ok (add_model_usage model usage t))
change (adds_phase_usage id phase model input output cost) =
    some (id, λ t. ok (add_phase_usage phase model (plain_breakdown input output cost) t))
change (adds_phase_breakdown id phase model usage) =
    some (id, λ t. ok (add_phase_usage phase model usage t))
change _ = none

-- The store after a call whose result is dropped: an error leaves it as it was.
abbrev pub keep_on_error : Store → Result Store → Store
keep_on_error s (ok s') = s'
keep_on_error s (err e) = s

abbrev pub store_of {ℓ} : {A : Type ℓ} → Store → Result (A × Store) → Store
store_of s (ok (a, s')) = s'
store_of s (err e) = s

abbrev pub apply_change : ℕ → Option (Str × (TaskState → Result TaskState)) → Store → Store
apply_change now none s = s
apply_change now (some (id, fn)) s = keep_on_error s (update_err now id fn s)

unfoldable pub exec : ℕ → Call → Store → Store
exec now (creates_task task) s = store_of s (create_task now task s)
exec now (creates_snapshot x) s = store_of s (create_snapshot now x s)
exec now (commits c) s = store_of s (commit_runtime_step now c s)
exec now call s = apply_change now (change call) s

unfoldable pub run : List (ℕ × Call) → Store → Store
unfolding exec
run [] s = s
run ((now, call) ∷ calls) s = run calls (exec now call s)

-- The call does not put a new task in the place of `id`.
abbrev pub Spares : Str → Call → Type 0
Spares id (creates_task task) = task.id ≢ id
Spares id _ = Unit
