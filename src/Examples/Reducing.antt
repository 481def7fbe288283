-- ===== src/Examples/Reducing.antt =====
-- The reducer's theorems and those on texts and issues at concrete values.
use alice_core.Prelude.{
  ◌↔◌, ◌≡◌, ◌≤◌, refl, arith, inl, true, false, str_eq, trim_space, to_lower, Str, codes, List, [],
  ◌∷◌, none, some, length, add_int,
}
use alice_core.Hermes.Status.{
  TaskStatus, invalid_transition, validate_task_status_transition, valid_task_status_transition,
}
use alice_core.Hermes.Usage.{ModelUsage}
use alice_core.Hermes.Snapshot.{HermesState, StateUpdate, no_update}
use alice_core.Hermes.Reducer.{
  Reduced, reduced, refused, apply_state_updates, collapse_state_updates, finish,
}
use alice_core.Hermes.Reducer.Merge.{append_accumulated_delta, merge_model_usages, at_least_one}
use alice_core.Hermes.Reducer.Collapse.{apply-collapse}
use alice_core.Hermes.Reducer.Frame.{Accounts, last_status, apply-Accounts, apply-refused_iff}
use alice_core.Hermes.Reducer.Usages.{total, Adds, total-merge_model_usages}
use alice_core.Hermes.Accumulated.{append_result, cheap_path_max_bytes}
use alice_core.Hermes.Accumulated.Bounds.{append_result-le}
use alice_core.Hermes.IssueState.{IssueState, state_eq, issue_state_from_git_hub}
use alice_core.Hermes.IssueState.Laws.{declared, drafted_or, issue_state_from_git_hub-text}
use alice_core.Examples.Data.{active_state, finished_state, batch, model_usage}

abbrev reduced_or : HermesState → Reduced → HermesState
reduced_or s (reduced t) = t
reduced_or s (refused e) = s

abbrev after_batch : HermesState
after_batch = reduced_or active_state (apply_state_updates active_state batch)

accepted : apply_state_updates active_state batch ≡ reduced after_batch
unfolding apply_state_updates validate_task_status_transition valid_task_status_transition finish
accepted = refl

spent : after_batch.token_budget.used_tokens ≡ 60
unfolding apply_state_updates valid_task_status_transition
spent = refl

apply-collapse_example :
    apply_state_updates active_state (collapse_state_updates batch ∷ [])
    ≡ apply_state_updates active_state batch
unfolding append_accumulated_delta
apply-collapse_example =
    apply-collapse active_state batch (omega arith) (inl refl, (inl refl, (inl refl, tt)))

apply-Accounts_example : Accounts active_state after_batch batch
apply-Accounts_example = apply-Accounts active_state after_batch batch accepted

abbrev reopening : List StateUpdate
reopening = record no_update { status = some TaskStatus.executing } ∷ []

apply-refused_iff_example :
    (apply_state_updates finished_state reopening
      ≡ refused (invalid_transition (codes "t2") TaskStatus.done TaskStatus.executing))
    ↔ ((to : TaskStatus) × (last_status none reopening ≡ some to)
        × (valid_task_status_transition TaskStatus.done to ≡ false)
        × (invalid_transition (codes "t2") TaskStatus.done TaskStatus.executing
            ≡ invalid_transition (codes "t2") TaskStatus.done to))
apply-refused_iff_example =
    apply-refused_iff finished_state reopening
      (invalid_transition (codes "t2") TaskStatus.done TaskStatus.executing)

abbrev two_models : List ModelUsage
two_models = model_usage (codes "m") 10 ∷ model_usage (codes "n") 20 ∷ []

abbrev five_more : List ModelUsage
five_more = model_usage (codes "n") 5 ∷ []

total-merge_model_usages_example :
    Adds (λ m. m.counters.input_tokens) two_models five_more
    × Adds (λ m. m.counters.uncached_input_tokens) two_models five_more
    × Adds (λ m. m.counters.cache_read_input_tokens) two_models five_more
    × Adds (λ m. m.counters.cache_creation_input_tokens) two_models five_more
    × Adds (λ m. m.counters.output_tokens) two_models five_more
    × (total (λ m. m.counters.call_count) (merge_model_usages two_models five_more)
        ≡ add_int
            (total (λ m. m.counters.call_count) two_models)
            (total (λ m. at_least_one m.counters.call_count) five_more))
total-merge_model_usages_example = total-merge_model_usages two_models five_more

abbrev a_result : Str
a_result = codes "work\nConclusion: parser added"

append_result-le_example : length (append_result (codes "seen") a_result 6).0 ≤ cheap_path_max_bytes
append_result-le_example = append_result-le (codes "seen") a_result 6 (omega arith)

issue_state_from_git_hub-text_example :
    (issue_state_from_git_hub (codes "blocked") ≡ IssueState.blocked)
    × (declared (issue_state_from_git_hub (codes " Blocked ")) ≡ true)
    × (drafted_or
          (state_eq (issue_state_from_git_hub (codes " Blocked ")) IssueState.blocked)
          IssueState.blocked
        ≡ drafted_or
            (str_eq (to_lower (trim_space (codes " Blocked "))) (codes "blocked"))
            IssueState.blocked)
issue_state_from_git_hub-text_example =
    issue_state_from_git_hub-text (codes " Blocked ") IssueState.blocked refl
