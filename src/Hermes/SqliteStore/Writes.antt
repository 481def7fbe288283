-- ===== src/Hermes/SqliteStore/Writes.antt =====
-- hermes/store.go: the methods that write the row of a task. Each is what one attempt does that
-- finds the database unlocked, at the time `now`.
use alice_core.Prelude.{
  ℕ, Str, add_int, out_of_range, if◌then◌else◌, List, Option, none, some, length, modify, get_elem?,
  lookup,
}
use alice_core.Hermes.Status.{TaskStatus, SubTaskStatus, validate_task_status_transition}
use alice_core.Hermes.Status as Status
use alice_core.Hermes.Usage.{
  TokenUsageBreakdown, Cost, add_usage_breakdown, add_phase_usage_breakdown, plain_breakdown,
}
use alice_core.Hermes.State.{SubTask, Artifact, TokenBudget}
use alice_core.Hermes.MemoryStore.Rows.{report}
use alice_core.Hermes.SqliteStore.Tables.{
  TaskRow, Db, Action, Error, reducer, no_task, no_rows, index_out_of_range, or_raise, query,
  change, raise, return, ◌>>=◌, ◌>>◌, update_task, whole_seconds, insert_artifact,
}
use alice_core.Hermes.SqliteStore.Mirror.{
  replace_unified_sub_tasks, upsert_unified_sub_task, insert_unified_artifact,
  update_unified_task_status, update_unified_task_usage,
}

-- `updated_at = ?`
abbrev pub touched : ℕ → TaskRow → TaskRow
touched now r = record r { updated_at = whole_seconds now }

-- The columns that `f` writes and the time, and then `k`.
abbrev pub write_then : ℕ → Str → (TaskRow → TaskRow) → Action (Unit {0}) → Action (Unit {0})
write_then now id f k = change (update_task id (λ r. touched now (f r))) >> k

abbrev pub read_row : Error → Str → Action TaskRow
read_row e id = query (λ (db : Db). or_raise e (lookup id db.task_states))

unfoldable pub store_plan : ℕ → Str → List SubTask → Action (Unit {0})
unfolding replace_unified_sub_tasks
store_plan now id plan =
    write_then now id (λ r. record r { plan = plan }) (replace_unified_sub_tasks now id plan)

unfoldable pub mirror_at : ℕ → Str → ℕ → Option SubTask → Action (Unit {0})
unfolding upsert_unified_sub_task
mirror_at now id idx none = raise index_out_of_range
mirror_at now id idx (some t) = upsert_unified_sub_task now id idx t

-- `mutateSubTask`, where `place` is what it writes to the row beside the plan.
unfoldable pub mutate_sub_task :
    ℕ → Str → ℕ → (TaskRow → TaskRow) → (SubTask → SubTask) → Action (Unit {0})
unfolding mirror_at
mutate_sub_task now id idx place mutate = read_row no_rows id >>= λ (row : TaskRow).
    if out_of_range idx (length row.plan)
    then raise index_out_of_range
    else write_then now id (λ r. record (place r) { plan = modify row.plan idx mutate })
        (mirror_at now id idx (get_elem? (modify row.plan idx mutate) idx))

unfoldable pub update_sub_task : ℕ → Str → ℕ → SubTaskStatus → Str → ℕ → Action (Unit {0})
unfolding mutate_sub_task
update_sub_task now id idx status result tokens =
    mutate_sub_task now id idx (λ r. r) (report status result tokens)

unfoldable pub mark_sub_task_started : ℕ → Str → ℕ → Action (Unit {0})
unfolding mutate_sub_task
mark_sub_task_started now id idx =
    mutate_sub_task now id idx (λ r. record r { current_idx = idx })
      (λ t. record t { status = SubTaskStatus.in_progress })

abbrev pub when_valid : Option Status.Error → Action (Unit {0}) → Action (Unit {0})
when_valid none m = m
when_valid (some e) m = raise (reducer e)

-- What `AdvanceTask`, `MarkInterrupted` and `MarkStatus` have in common: the status of the row is
-- tested, and the row and its mirror are written.
unfoldable pub move_status : ℕ → Str → TaskStatus → (TaskRow → TaskRow) → Action (Unit {0})
unfolding validate_task_status_transition update_unified_task_status
move_status now id status place = read_row no_task id >>= λ (row : TaskRow).
    when_valid (validate_task_status_transition id row.status status) (
      write_then now id (λ r. record (place r) { status = status })
        (update_unified_task_status now id status))

unfoldable pub advance_task : ℕ → Str → ℕ → TaskStatus → Action (Unit {0})
unfolding move_status
advance_task now id next_idx status =
    move_status now id status (λ r. record r { current_idx = next_idx })

unfoldable pub mark_interrupted : ℕ → Str → ℕ → Action (Unit {0})
unfolding move_status
mark_interrupted now id message_id =
    move_status now id TaskStatus.interrupted (λ r. record r { interrupted_by = some message_id })

unfoldable pub mark_status : ℕ → Str → TaskStatus → Action (Unit {0})
unfolding move_status
mark_status now id status = move_status now id status (λ r. r)

unfoldable pub append_artifact : Str → Artifact → Action (Unit {0})
unfolding insert_artifact insert_unified_artifact
append_artifact id a = insert_artifact id a >> insert_unified_artifact id a

unfoldable pub update_accumulated : ℕ → Str → Str → Action (Unit {0})
update_accumulated now id text =
    write_then now id (λ r. record r { accumulated = text }) (return tt)

unfoldable pub update_planner_session : ℕ → Str → Str → Action (Unit {0})
update_planner_session now id session =
    write_then now id (λ r. record r { planner_session = session }) (return tt)

abbrev pub write_budget : ℕ → Str → (TokenBudget → TokenBudget) → Action (Unit {0})
write_budget now id f = read_row no_rows id >>= λ (row : TaskRow).
    write_then now id (λ r. record r { token_budget = f row.token_budget }) (return tt)

unfoldable pub reset_budget_started_at : ℕ → Str → ℕ → Action (Unit {0})
reset_budget_started_at now id t = write_budget now id (λ b. record b { started_at = t })

unfoldable pub add_token_usage : ℕ → Str → ℕ → Action (Unit {0})
add_token_usage now id delta =
    write_budget now id (λ b. record b { used_tokens = add_int b.used_tokens delta })

-- The loops over the usages are those of `AddUsageBreakdown` and `AddPhaseUsageBreakdown` of
-- hermes/state.go.
unfoldable pub add_model_usage_breakdown : ℕ → Str → Str → TokenUsageBreakdown → Action (Unit {0})
unfolding add_usage_breakdown update_unified_task_usage
add_model_usage_breakdown now id model usage = read_row no_rows id >>= λ (row : TaskRow).
    write_then now id
      (λ r. record r { model_usages = add_usage_breakdown model usage row.model_usages })
      (update_unified_task_usage id (add_usage_breakdown model usage row.model_usages))

unfoldable pub add_model_usage : ℕ → Str → Str → ℕ → ℕ → Cost → Action (Unit {0})
unfolding add_model_usage_breakdown plain_breakdown
add_model_usage now id model input output cost =
    add_model_usage_breakdown now id model (plain_breakdown input output cost)

unfoldable pub add_phase_usage_breakdown_row :
    ℕ → Str → Str → Str → TokenUsageBreakdown → Action (Unit {0})
unfolding add_phase_usage_breakdown
add_phase_usage_breakdown_row now id phase model usage = read_row no_rows id >>= λ (row : TaskRow).
    write_then now id
      (λ r. record r {
        phase_usages = add_phase_usage_breakdown phase model usage row.phase_usages;
      })
      (return tt)

unfoldable pub add_phase_usage : ℕ → Str → Str → Str → ℕ → ℕ → Cost → Action (Unit {0})
unfolding add_phase_usage_breakdown_row plain_breakdown
add_phase_usage now id phase model input output cost =
    add_phase_usage_breakdown_row now id phase model (plain_breakdown input output cost)
