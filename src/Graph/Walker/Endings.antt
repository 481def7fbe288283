-- ===== src/Graph/Walker/Endings.antt =====
-- How the walker of engine/graph/runtime.go ends a task.
use alice_core.Prelude.{
  orelse_none, Str, ℕ, ◌≡◌, refl, sym, ap, subst, ◌∙◌, inl, inr, arith, Bool, true, false, ◌||◌,
  is_some, List, [], ◌∷◌, ◌++◌, Option, none, some, ◌orelse◌, get_or_old, Option-cases, Bool-cases,
  if◌then◌else◌,
}
use alice_core.Hermes.Status.{
  TaskStatus, planning, executing, is_terminal, valid_task_status_transition,
}
use alice_core.Hermes.Snapshot.{
  HermesState, HermesStateError, Snapshot, StateUpdate, RuntimeStep, step_eq, no_update,
}
use alice_core.Hermes.Reducer.{reduced, apply_state_updates}
use alice_core.Hermes.Reducer.Frame.{last_status, apply-refused_iff, apply-Accounts}
use alice_core.Hermes.MemoryStore.Inversion.{Reduced-cases}
use alice_core.Graph.Node.{NodeOutput}
use alice_core.Graph.Walker.Commits.{state_updates_set_status, final_updates, panic_commit}

last_status-unset :
    (us : List StateUpdate) → state_updates_set_status us ≡ false → last_status none us ≡ none
unfolding state_updates_set_status
last_status-unset [] h = refl
last_status-unset (u ∷ us) h = elim (Option-cases u.status) [
  | inl e ↦
      ap (λ x. last_status (x orelse none) us) e
      ∙ last_status-unset us (subst (λ x. (is_some x || state_updates_set_status us) ≡ false) e h)
  | inr (x, e) ↦
      absurd (some_set x (subst (λ y. (is_some y || state_updates_set_status us) ≡ false) e h))
]
  where
    some_set : (x : TaskStatus) → (is_some (some x) || state_updates_set_status us) ≡ false → ⊥
    some_set x k = cc

last_status-append :
    (o : Option TaskStatus) (us : List StateUpdate) (to : TaskStatus)
    → last_status o (us ++ record no_update { status = some to } ∷ []) ≡ some to
last_status-append o [] to = refl
last_status-append o (u ∷ us) to = last_status-append (u.status orelse o) us to

-- The statuses that the code declares, and the empty one.
abbrev pub known : TaskStatus → Bool
known (TaskStatus.other s) = false
known _ = true

last_status-final :
    (s : HermesState) (o : NodeOutput)
    → step_eq o.next_step RuntimeStep.terminal ≡ true
    → state_updates_set_status o.updates ≡ false
    → last_status none (final_updates s o)
      ≡ (if is_terminal s.status then none else some TaskStatus.done)
unfolding final_updates
last_status-final s o h k = elim (Bool-cases (is_terminal s.status)) [
  | inl e ↦ rw (h, k, e) (last_status-unset o.updates k)
  | inr e ↦ rw (h, k, e) (last_status-append none o.updates TaskStatus.done)
]

distinct_bools : true ≡ false → ⊥
distinct_bools h = cc

written_or_old :
    (b : Bool) (to old : TaskStatus)
    → get_or_old (if b then none else some to) old ≡ (if b then old else to)
written_or_old true to old = refl
written_or_old false to old = refl

-- Done is a valid successor wherever the walker adds it.
done_valid :
    (from to : TaskStatus)
    → known from ≡ true
    → (if is_terminal from then none else some TaskStatus.done) ≡ some to
    → valid_task_status_transition from to ≡ true
unfolding valid_task_status_transition
done_valid TaskStatus.unset to k e = refl
done_valid (TaskStatus.other x) to k e = cc
done_valid planning to k e = ground arith
done_valid executing to k e = ground arith
done_valid _ to k e = cc

-- A node that goes to the terminal step and writes no status ends the task: the updates that the
-- walker then commits are accepted from every state with a declared status, and the task is done,
-- or keeps the terminal status that it had.
pub final_updates-ends :
    (s : HermesState) (o : NodeOutput)
    → step_eq o.next_step RuntimeStep.terminal ≡ true
    → state_updates_set_status o.updates ≡ false
    → known s.status ≡ true
    → (t : HermesState) × (apply_state_updates s (final_updates s o) ≡ reduced t)
      × (t.status ≡ (if is_terminal s.status then s.status else TaskStatus.done))
final_updates-ends s o h k d = elim (Reduced-cases (apply_state_updates s (final_updates s o))) [
  | inl (t, e) ↦ (
    t,
    e,
    (apply-Accounts s t (final_updates s o) e).last_write_wins
        ∙ ap (λ w. get_or_old w s.status) (last_status-final s o h k)
        ∙ written_or_old (is_terminal s.status) TaskStatus.done s.status,
  )
  | inr (e, r) ↦
      let (to, w, v, same) = (apply-refused_iff s (final_updates s o) e).0 r in
      absurd
        (distinct_bools (sym (done_valid s.status to d (sym (last_status-final s o h k) ∙ w)) ∙ v))
]

failed_valid :
    (from to : TaskStatus)
    → known from ≡ true
    → (if is_terminal from then none else some TaskStatus.failed) ≡ some to
    → valid_task_status_transition from to ≡ true
unfolding valid_task_status_transition
failed_valid TaskStatus.unset to k e = refl
failed_valid (TaskStatus.other x) to k e = cc
failed_valid planning to k e = ground arith
failed_valid executing to k e = ground arith
failed_valid _ to k e = cc

last_status-panic :
    (task_id : Str) (last : Snapshot) (step : RuntimeStep) (value : Str) (now : ℕ)
    → last_status none (panic_commit task_id last step value now).updates
      ≡ (if is_terminal last.state.status then none else some TaskStatus.failed)
unfolding panic_commit
last_status-panic task_id last step value now = orelse_none _

-- The commit for a panic of a node is accepted from every snapshot with a declared status, provided
-- that it is applied to that snapshot's state: the task has failed, or keeps the terminal status
-- that it had, one error is added that names the node and cannot be retried, and the next step is
-- the terminal one.
pub panic_commit-ends :
    (task_id : Str) (last : Snapshot) (step : RuntimeStep) (value : Str) (now : ℕ)
    → known last.state.status ≡ true
    → (t : HermesState) × (apply_state_updates last.state
          (panic_commit task_id last step value now).updates
        ≡ reduced t)
      × (t.status
          ≡ (if is_terminal last.state.status then last.state.status else TaskStatus.failed))
      × ((e : HermesStateError) × (t.errors ≡ last.state.errors ++ e ∷ [])
          × (e.step ≡ step)
          × (e.retryable ≡ false))
      × ((panic_commit task_id last step value now).next_step ≡ RuntimeStep.terminal)
unfolding panic_commit
panic_commit-ends task_id last step value now d =
    elim (Reduced-cases (apply_state_updates last.state updates)) [
      | inl (t, e) ↦ (
        t,
        e,
        (apply-Accounts last.state t updates e).last_write_wins
            ∙ ap (λ w. get_or_old w last.state.status) written
            ∙ written_or_old (is_terminal last.state.status) TaskStatus.failed last.state.status,
        (_, (apply-Accounts last.state t updates e).errors_kept, refl, refl),
        refl,
      )
      | inr (e, r) ↦
          let (to, w, v, same) = (apply-refused_iff last.state updates e).0 r in
          absurd (distinct_bools (sym (failed_valid last.state.status to d (sym written ∙ w)) ∙ v))
    ]
  where
    updates : List StateUpdate
    updates = (panic_commit task_id last step value now).updates

    written :
        last_status none updates
        ≡ (if is_terminal last.state.status then none else some TaskStatus.failed)
    written = last_status-panic task_id last step value now
