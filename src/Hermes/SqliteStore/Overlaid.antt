-- ===== src/Hermes/SqliteStore/Overlaid.antt =====
-- What the methods of hermes/store.go that write columns of a task's row do to the reads of a task
-- that has a snapshot.
use alice_core.Prelude.{ℕ, ◌≡◌, refl, sym, add_int, ap, ◌∙◌, Str, List, Option, none, some, lookup}
use alice_core.Hermes.Status.{TaskStatus, SubTaskStatus}
use alice_core.Hermes.Usage.{
  TokenUsageBreakdown, Cost, plain_breakdown, add_usage_breakdown, add_phase_usage_breakdown,
}
use alice_core.Hermes.State.{SubTask, TaskState}
use alice_core.Hermes.Snapshot.{Snapshot}
use alice_core.Hermes.MemoryStore.{hermes_state_to_task_state}
use alice_core.Hermes.SqliteStore.Tables.{
  TaskRow, Db, Action, Result, ok, err, or_raise, no_task, no_rows, return, latest, latest_from,
  load_artifacts,
}
use alice_core.Hermes.SqliteStore.Mirror.{replace_unified_sub_tasks, update_unified_task_usage}
use alice_core.Hermes.SqliteStore.Reads.{get_task, viewed, view_of, overlay, scan_task}
use alice_core.Hermes.SqliteStore.Writes.{
  store_plan, update_sub_task, mark_sub_task_started, advance_task, mark_interrupted, mark_status,
  update_accumulated, update_planner_session, reset_budget_started_at, add_token_usage,
  add_model_usage_breakdown, add_model_usage, add_phase_usage_breakdown_row, add_phase_usage,
}
use alice_core.Hermes.SqliteStore.Inversion.{replace-KeepsCore}
use alice_core.Hermes.SqliteStore.Touched.{
  SameRow, RowsTouched, TouchesRows, KeepsCore-Touches, return-Touches, write_then-Touches,
  read_then-Touches, mutate_sub_task-Touches, move_status-Touches, update_usage-KeepsCore,
}

-- The methods that write columns of the row, with their arguments.
pub data RowWrite : Type 0 where
  stores_plan : Str → List SubTask → RowWrite
  updates_sub_task : Str → ℕ → SubTaskStatus → Str → ℕ → RowWrite
  starts_sub_task : Str → ℕ → RowWrite
  advances : Str → ℕ → TaskStatus → RowWrite
  updates_accumulated : Str → Str → RowWrite
  updates_planner_session : Str → Str → RowWrite
  interrupts : Str → ℕ → RowWrite
  marks : Str → TaskStatus → RowWrite
  resets_budget : Str → ℕ → RowWrite
  spends : Str → ℕ → RowWrite
  adds_model_usage : Str → Str → ℕ → ℕ → Cost → RowWrite
  adds_model_breakdown : Str → Str → TokenUsageBreakdown → RowWrite
  adds_phase_usage : Str → Str → Str → ℕ → ℕ → Cost → RowWrite
  adds_phase_breakdown : Str → Str → Str → TokenUsageBreakdown → RowWrite

unfoldable pub write_row : ℕ → RowWrite → Action (Unit {0})
unfolding store_plan update_sub_task mark_sub_task_started advance_task mark_interrupted mark_status
    update_accumulated update_planner_session reset_budget_started_at add_token_usage
    add_model_usage_breakdown add_model_usage add_phase_usage_breakdown_row add_phase_usage
write_row now (stores_plan id plan) = store_plan now id plan
write_row now (updates_sub_task id idx status result tokens) =
    update_sub_task now id idx status result tokens
write_row now (starts_sub_task id idx) = mark_sub_task_started now id idx
write_row now (advances id idx status) = advance_task now id idx status
write_row now (updates_accumulated id text) = update_accumulated now id text
write_row now (updates_planner_session id session) = update_planner_session now id session
write_row now (interrupts id message) = mark_interrupted now id message
write_row now (marks id status) = mark_status now id status
write_row now (resets_budget id t) = reset_budget_started_at now id t
write_row now (spends id delta) = add_token_usage now id delta
write_row now (adds_model_usage id model input output cost) =
    add_model_usage now id model input output cost
write_row now (adds_model_breakdown id model usage) = add_model_usage_breakdown now id model usage
write_row now (adds_phase_usage id phase model input output cost) =
    add_phase_usage now id phase model input output cost
write_row now (adds_phase_breakdown id phase model usage) =
    add_phase_usage_breakdown_row now id phase model usage

add_model-Touches :
    (now : ℕ) (id model : Str) (usage : TokenUsageBreakdown)
    → TouchesRows (add_model_usage_breakdown now id model usage)
unfolding add_model_usage_breakdown
add_model-Touches now id model usage = read_then-Touches no_rows id _ (λ row.
    let usages = add_usage_breakdown model usage row.model_usages in
    write_then-Touches now id (λ r. record r { model_usages = usages })
      (update_unified_task_usage id usages) (λ r. refl)
      (KeepsCore-Touches (update_unified_task_usage id usages) (update_usage-KeepsCore id usages)))

add_phase-Touches :
    (now : ℕ) (id phase model : Str) (usage : TokenUsageBreakdown)
    → TouchesRows (add_phase_usage_breakdown_row now id phase model usage)
unfolding add_phase_usage_breakdown_row
add_phase-Touches now id phase model usage = read_then-Touches no_rows id _ (λ row.
    let usages = add_phase_usage_breakdown phase model usage row.phase_usages in
    write_then-Touches now id (λ r. record r { phase_usages = usages }) (return tt) (λ r. refl)
      return-Touches)

write_row-Touches : (now : ℕ) (w : RowWrite) → TouchesRows (write_row now w)
unfolding write_row store_plan update_sub_task mark_sub_task_started advance_task mark_interrupted
    mark_status update_accumulated update_planner_session reset_budget_started_at add_token_usage
    add_model_usage_breakdown add_model_usage add_phase_usage_breakdown_row add_phase_usage
write_row-Touches now (stores_plan id plan) =
    write_then-Touches now id (λ r. record r { plan = plan })
      (replace_unified_sub_tasks now id plan) (λ r. refl)
      (KeepsCore-Touches (replace_unified_sub_tasks now id plan) (replace-KeepsCore now id plan))
write_row-Touches now (updates_sub_task id idx status result tokens) =
    mutate_sub_task-Touches now id idx (λ r. r) _ (λ r. refl)
write_row-Touches now (starts_sub_task id idx) =
    mutate_sub_task-Touches now id idx (λ r. record r { current_idx = idx }) _ (λ r. refl)
write_row-Touches now (advances id idx status) =
    move_status-Touches now id status (λ r. record r { current_idx = idx }) (λ r. refl)
write_row-Touches now (updates_accumulated id text) =
    write_then-Touches now id (λ r. record r { accumulated = text }) (return tt) (λ r. refl)
      return-Touches
write_row-Touches now (updates_planner_session id session) =
    write_then-Touches now id (λ r. record r { planner_session = session }) (return tt) (λ r. refl)
      return-Touches
write_row-Touches now (interrupts id message) =
    move_status-Touches now id TaskStatus.interrupted
      (λ r. record r { interrupted_by = some message }) (λ r. refl)
write_row-Touches now (marks id status) = move_status-Touches now id status (λ r. r) (λ r. refl)
write_row-Touches now (resets_budget id t) = read_then-Touches no_rows id _ (λ row.
    write_then-Touches now id
      (λ r. record r { token_budget = record row.token_budget { started_at = t } }) (return tt)
      (λ r. refl) return-Touches)
write_row-Touches now (spends id delta) = read_then-Touches no_rows id _ (λ row.
    write_then-Touches now id
      (λ r. record r {
        token_budget = record row.token_budget {
          used_tokens = add_int row.token_budget.used_tokens delta;
        };
      })
      (return tt) (λ r. refl) return-Touches)
write_row-Touches now (adds_model_usage id model input output cost) =
    add_model-Touches now id model (plain_breakdown input output cost)
write_row-Touches now (adds_model_breakdown id model usage) = add_model-Touches now id model usage
write_row-Touches now (adds_phase_usage id phase model input output cost) =
    add_phase-Touches now id phase model (plain_breakdown input output cost)
write_row-Touches now (adds_phase_breakdown id phase model usage) =
    add_phase-Touches now id phase model usage

-- A task as it is read, without the time of its last write.
abbrev pub untimed : Result TaskState → Result TaskState
untimed (ok t) = ok (record t { updated_at = 0 })
untimed (err e) = err e

read-touched :
    (id : Str) (x : Snapshot) (db db' : Db)
    → latest id db ≡ some x
    → RowsTouched db db'
    → untimed (get_task id db') ≡ untimed (get_task id db)
unfolding get_task viewed overlay scan_task latest hermes_state_to_task_state
read-touched id x db db' e t = at (lookup id db.task_states) (lookup id db'.task_states) (t.rows id)
  where
    at :
        (o o' : Option TaskRow)
        → SameRow o o'
        → untimed (or_raise no_task (view_of db' id o'))
          ≡ untimed (or_raise no_task (view_of db id o))
    at none none s = refl
    at (some r) (some r') s =
        ap (λ o. untimed (ok (overlay o (scan_task id r' (load_artifacts id db'.task_artifacts)))))
          (ap (latest_from id none) t.snapshots ∙ e)
        ∙ (λ i. untimed (
            ok (
              overlay (some x)
                (record (scan_task id r (load_artifacts id (t.files i))) { created_at = s i }))))
        ∙ ap (λ o. untimed (ok (overlay o (scan_task id r (load_artifacts id db.task_artifacts)))))
            (sym e)
    at none (some r') s = absurd s
    at (some r) none s = absurd s

-- Once a task has a snapshot, no method that writes columns of rows, on whichever task and with
-- whichever result, changes what `GetTask` reads of it but the time of the last write, nor its latest
-- snapshot: the status, plan, text, budget and usages that such a method stores are not read.
pub write_row-Overlaid :
    (now : ℕ) (w : RowWrite) (id : Str) (x : Snapshot) (db : Db)
    → latest id db ≡ some x
    → (untimed (get_task id (write_row now w db).1) ≡ untimed (get_task id db))
      × (latest id (write_row now w db).1 ≡ some x)
unfolding latest
write_row-Overlaid now w id x db e =
    let t = write_row-Touches now w db in
    (read-touched id x db (write_row now w db).1 e t, ap (latest_from id none) t.snapshots ∙ e)
