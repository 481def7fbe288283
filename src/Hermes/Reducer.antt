-- ===== src/Hermes/Reducer.antt =====
-- hermes/reducer.go: `ApplyStateUpdates`, `collapseStateUpdates` and the carry-forward of the
-- fields that only snapshots hold. The clones of the source are copies of values, and so identities
-- here. `Merge` has the merges of single fields.
pub mod Merge
pub mod Accumulated
pub mod Usages
pub mod Collapse
pub mod Frame
use alice_core.Prelude.{
  ℕ, Bool, true, false, ◌||◌, not, Str, add_int, is_empty, is_some, get_or_old, ◌orelse◌,
  if◌then◌else◌, List, [], ◌∷◌, ◌++◌, Option, none, some,
}
use alice_core.Hermes.Status.{TaskStatus, SubTaskStatus, Error, validate_task_status_transition}
use alice_core.Hermes.State.{SubTask, TokenBudget}
use alice_core.Hermes.Snapshot.{HermesState, StateUpdate, SubTaskResult, HermesInterrupt, no_update}
use Merge.{append_accumulated_delta, merge_model_usages, merge_phase_usages, merge_sub_task_results}

-- The local variables of `ApplyStateUpdates`.
pub record Pending : Type 0 where
  pub next : HermesState
  pub status_write : Option TaskStatus
  pub current_idx_write : Option ℕ
  pub plan_write : Option (List SubTask)
  pub github_issue_write : Option ℕ
  pub result_writes : List SubTaskResult

-- `if update.Plan != nil { planWrite = append([]SubTask(nil), update.Plan...) }`: the copy of an
-- empty slice is nil, so an empty plan takes back an earlier write.
unfoldable pub write_plan : Option (List SubTask) → Option (List SubTask) → Option (List SubTask)
write_plan none old = old
write_plan (some []) old = none
write_plan (some (t ∷ ts)) old = some (t ∷ ts)

-- `if clear { x = nil }; if write != nil { x = write }`
abbrev pub clear_or_write {ℓ} : {A : Type ℓ} → Bool → Option A → Option A → Option A
clear_or_write clear write old = write orelse (if clear then none else old)

unfoldable pub next_accumulated : StateUpdate → Str → Str
next_accumulated u old = append_accumulated_delta (get_or_old u.accumulated old) u.accumulated_delta

unfoldable pub next_budget : StateUpdate → TokenBudget → TokenBudget
next_budget u b = record b {
  used_tokens = add_int b.used_tokens u.token_usage_delta;
  started_at = get_or_old u.budget_started_at b.started_at;
}

-- The body of the loop: the fields that each update changes at once.
unfoldable pub apply_update : HermesState → StateUpdate → HermesState
unfolding next_accumulated next_budget
apply_update s u = record s {
  accumulated = next_accumulated u s.accumulated;
  artifacts = s.artifacts ++ u.artifacts;
  model_usages =
      if is_empty u.model_usages
      then s.model_usages
      else merge_model_usages s.model_usages u.model_usages;
  phase_usages =
      if is_empty u.phase_usages
      then s.phase_usages
      else merge_phase_usages s.phase_usages u.phase_usages;
  token_budget = next_budget u s.token_budget;
  planner_session_id = get_or_old u.planner_session_id s.planner_session_id;
  executor_session_id = get_or_old u.executor_session_id s.executor_session_id;
  interrupt = clear_or_write u.clear_interrupt u.interrupt s.interrupt;
  errors = s.errors ++ u.errors;
  replan = clear_or_write u.clear_replan u.replan s.replan;
  walking = clear_or_write u.clear_walking u.walking s.walking;
}

-- One round of the loop, the writes that wait for its end included.
unfoldable pub absorb : Pending → StateUpdate → Pending
unfolding apply_update write_plan
absorb p u = record {
  next = apply_update p.next u;
  status_write = u.status orelse p.status_write;
  current_idx_write = u.current_idx orelse p.current_idx_write;
  plan_write = write_plan u.plan p.plan_write;
  github_issue_write = u.github_issue_number orelse p.github_issue_write;
  result_writes = p.result_writes ++ u.sub_task_results;
}

unfoldable pub absorb_all : Pending → List StateUpdate → Pending
unfolding absorb
absorb_all p [] = p
absorb_all p (u ∷ us) = absorb_all (absorb p u) us

abbrev pub start : HermesState → Pending
start s = record {
  next = s;
  status_write = none;
  current_idx_write = none;
  plan_write = none;
  github_issue_write = none;
  result_writes = [];
}

-- The result and the state that the caller keeps; on an error that is the state as it was.
pub data Reduced : Type 0 where
  reduced : HermesState → Reduced
  refused : Error → Reduced

-- What stands below the loop, once the status write is known to be valid.
unfoldable pub settle : Pending → HermesState
settle p = record p.next {
  status = get_or_old p.status_write p.next.status;
  current_idx = get_or_old p.current_idx_write p.next.current_idx;
  plan = get_or_old p.plan_write p.next.plan;
  sub_task_results =
      if is_empty p.result_writes
      then p.next.sub_task_results
      else merge_sub_task_results p.next.sub_task_results p.result_writes;
  github_issue_number = get_or_old p.github_issue_write p.next.github_issue_number;
}

abbrev pub check_status : Str → TaskStatus → Option TaskStatus → Option Error
check_status task_id from none = none
check_status task_id from (some to) = validate_task_status_transition task_id from to

abbrev pub refuse_or : Option Error → HermesState → Reduced
refuse_or none s = reduced s
refuse_or (some e) s = refused e

unfoldable pub finish : Pending → Reduced
unfolding settle validate_task_status_transition
finish p = refuse_or (check_status p.next.task_id p.next.status p.status_write) (settle p)

unfoldable pub apply_state_updates : HermesState → List StateUpdate → Reduced
unfolding absorb_all finish
apply_state_updates current updates = finish (absorb_all (start current) updates)

-- `collapseStateUpdates`: one update that stands for the batch in the snapshot.
unfoldable pub collapse_one : StateUpdate → StateUpdate → StateUpdate
unfolding write_plan
collapse_one c u = record {
  status = u.status orelse c.status;
  current_idx = u.current_idx orelse c.current_idx;
  plan = write_plan u.plan c.plan;
  accumulated = u.accumulated orelse c.accumulated;
  accumulated_delta =
      if is_empty u.accumulated_delta
      then c.accumulated_delta
      else append_accumulated_delta c.accumulated_delta u.accumulated_delta;
  artifacts = c.artifacts ++ u.artifacts;
  model_usages = c.model_usages ++ u.model_usages;
  phase_usages = c.phase_usages ++ u.phase_usages;
  token_usage_delta = add_int c.token_usage_delta u.token_usage_delta;
  budget_started_at = u.budget_started_at orelse c.budget_started_at;
  planner_session_id = u.planner_session_id orelse c.planner_session_id;
  executor_session_id = u.executor_session_id orelse c.executor_session_id;
  sub_task_results = c.sub_task_results ++ u.sub_task_results;
  interrupt = clear_or_write u.clear_interrupt u.interrupt c.interrupt;
  clear_interrupt = if is_some u.interrupt then false else (u.clear_interrupt || c.clear_interrupt);
  errors = c.errors ++ u.errors;
  github_issue_number = u.github_issue_number orelse c.github_issue_number;
  replan = clear_or_write u.clear_replan u.replan c.replan;
  clear_replan = if is_some u.replan then false else (u.clear_replan || c.clear_replan);
  walking = clear_or_write u.clear_walking u.walking c.walking;
  clear_walking = if is_some u.walking then false else (u.clear_walking || c.clear_walking);
}

unfoldable pub collapse_from : StateUpdate → List StateUpdate → StateUpdate
unfolding collapse_one
collapse_from c [] = c
collapse_from c (u ∷ us) = collapse_from (collapse_one c u) us

unfoldable pub collapse_state_updates : List StateUpdate → StateUpdate
unfolding collapse_from
collapse_state_updates updates = collapse_from no_update updates

-- `CarryForwardSnapshotFields`
unfoldable pub carry_forward_snapshot_fields : HermesState → HermesState → HermesState
carry_forward_snapshot_fields seed prev = record seed {
  sub_task_results =
      if is_empty prev.sub_task_results then seed.sub_task_results else prev.sub_task_results;
  interrupt = prev.interrupt orelse seed.interrupt;
  errors = if is_empty prev.errors then seed.errors else prev.errors;
  replan = prev.replan orelse seed.replan;
  walking = prev.walking orelse seed.walking;
}
