-- ===== src/Hermes/MemoryStore/Rows.antt =====
-- hermes/memory_store.go: what each method does to the task that `update` or `updateErr` hands it,
-- and the results of methods.
use alice_core.Prelude.{
  ℕ, ◌≡◌, refl, ◌⊎◌, inl, inr, Str, add_int, out_of_range, if◌then◌else◌, List, [], ◌∷◌, ◌++◌,
  Option, none, some, length, modify,
}
use alice_core.Hermes.Status.{
  TaskStatus, SubTaskStatus, Error, no_task, index_out_of_range, validate_task_status_transition,
}
use alice_core.Hermes.Usage.{TokenUsageBreakdown, add_usage_breakdown, add_phase_usage_breakdown}
use alice_core.Hermes.State.{SubTask, Artifact, TaskState}

pub data Result {ℓ} (A : Type ℓ) : Type ℓ where
  ok : A → Result A
  err : Error → Result A

pub Result-cases {ℓ} :
    {A : Type ℓ} (r : Result A) → ((a : A) × (r ≡ ok a)) ⊎ ((e : Error) × (r ≡ err e))
Result-cases (ok a) = inl (a, refl)
Result-cases (err e) = inr (e, refl)

infixl 5 ◌>>=◌
abbrev pub ◌>>=◌ {ℓ κ} : {A : Type ℓ} {B : Type κ} → Result A → (A → Result B) → Result B
ok a >>= f = f a
err e >>= f = err e

-- A Go `error` that is nil or not.
abbrev pub check {ℓ} : {A : Type ℓ} → Option Error → A → Result A
check none a = ok a
check (some e) a = err e

abbrev pub found {ℓ} : {A : Type ℓ} → Option A → Result A
found none = err no_task
found (some a) = ok a

unfoldable pub store_plan : List SubTask → TaskState → TaskState
store_plan plan task = record task { plan = plan }

abbrev pub report : SubTaskStatus → Str → ℕ → SubTask → SubTask
report status result tokens t = record t {
  status = status;
  result = result;
  tokens_used = add_int t.tokens_used tokens;
  attempts = add_int t.attempts 1;
}

-- The function that `UpdateSubTask` hands to `updateErr`; so for the methods below.
unfoldable pub update_sub_task : ℕ → SubTaskStatus → Str → ℕ → TaskState → Result TaskState
update_sub_task idx status result tokens task =
    if out_of_range idx (length task.plan)
    then err index_out_of_range
    else ok (record task { plan = modify task.plan idx (report status result tokens) })

unfoldable pub mark_sub_task_started : ℕ → TaskState → Result TaskState
mark_sub_task_started idx task =
    if out_of_range idx (length task.plan)
    then err index_out_of_range
    else ok (record task {
      current_idx = idx;
      plan = modify task.plan idx (λ t. record t { status = SubTaskStatus.in_progress });
    })

unfoldable pub advance_task : Str → ℕ → TaskStatus → TaskState → Result TaskState
unfolding validate_task_status_transition
advance_task id next_idx status task =
    check (validate_task_status_transition id task.status status)
      (record task { current_idx = next_idx; status = status })

unfoldable pub mark_interrupted : Str → ℕ → TaskState → Result TaskState
unfolding validate_task_status_transition
mark_interrupted id message_id task =
    check (validate_task_status_transition id task.status TaskStatus.interrupted)
      (record task { status = TaskStatus.interrupted; interrupted_by = some message_id })

unfoldable pub mark_status : Str → TaskStatus → TaskState → Result TaskState
unfolding validate_task_status_transition
mark_status id status task =
    check (validate_task_status_transition id task.status status) (record task { status = status })

unfoldable pub append_artifact : Artifact → TaskState → TaskState
append_artifact a task = record task { artifacts = task.artifacts ++ a ∷ [] }

unfoldable pub update_accumulated : Str → TaskState → TaskState
update_accumulated text task = record task { accumulated = text }

unfoldable pub update_planner_session : Str → TaskState → TaskState
update_planner_session session task = record task { planner_session_id = session }

unfoldable pub reset_budget_started_at : ℕ → TaskState → TaskState
reset_budget_started_at t task = record task {
  token_budget = record task.token_budget { started_at = t };
}

unfoldable pub add_token_usage : ℕ → TaskState → TaskState
add_token_usage delta task = record task {
  token_budget = record task.token_budget {
    used_tokens = add_int task.token_budget.used_tokens delta;
  };
}

unfoldable pub add_model_usage : Str → TokenUsageBreakdown → TaskState → TaskState
unfolding add_usage_breakdown
add_model_usage model usage task = record task {
  model_usages = add_usage_breakdown model usage task.model_usages;
}

unfoldable pub add_phase_usage : Str → Str → TokenUsageBreakdown → TaskState → TaskState
unfolding add_phase_usage_breakdown
add_phase_usage phase model usage task = record task {
  phase_usages = add_phase_usage_breakdown phase model usage task.phase_usages;
}
