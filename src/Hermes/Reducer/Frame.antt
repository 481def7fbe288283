-- ===== src/Hermes/Reducer/Frame.antt =====
-- What `ApplyStateUpdates` of hermes/reducer.go may change, and when it refuses a batch.
use alice_core.Prelude.{
  ℕ, ◌≡◌, ◌↔◌, refl, sym, subst, ◌∙◌, inl, inr, arith, true, false, List, [], ◌∷◌, ◌++◌, Option,
  none, some, add_int, get_or_old, ◌orelse◌, append_assoc, append-nil, Str, str_eq_refl, Bool-cases,
}
use alice_core.Hermes.Status.{
  TaskStatus, Error, invalid_transition, is_terminal, task_status_eq, valid_task_status_transition,
  validate_task_status_transition,
}
use alice_core.Hermes.State.{Artifact}
use alice_core.Hermes.Snapshot.{HermesState, StateUpdate, HermesStateError}
use alice_core.Hermes.Reducer.{
  Pending, reduced, refused, absorb, absorb_all, start, finish, settle, refuse_or, check_status,
  apply_state_updates,
}

pub task_status_eq_refl : (s : TaskStatus) → task_status_eq s s ≡ true
task_status_eq_refl (TaskStatus.other a) = str_eq_refl a
task_status_eq_refl _ = refl

pub stays-valid : (s : TaskStatus) → valid_task_status_transition s s ≡ true
unfolding valid_task_status_transition
stays-valid s = ground (arith, task_status_eq_refl s)

-- The status that the batch asks for: the last one that an update writes.
abbrev pub last_status : Option TaskStatus → List StateUpdate → Option TaskStatus
last_status old [] = old
last_status old (u ∷ us) = last_status (u.status orelse old) us

abbrev pub all_errors : List StateUpdate → List HermesStateError
all_errors [] = []
all_errors (u ∷ us) = u.errors ++ all_errors us

abbrev pub all_artifacts : List StateUpdate → List Artifact
all_artifacts [] = []
all_artifacts (u ∷ us) = u.artifacts ++ all_artifacts us

-- The wrapping sum of the token deltas onto a count.
abbrev pub spend : ℕ → List StateUpdate → ℕ
spend n [] = n
spend n (u ∷ us) = spend (add_int n u.token_usage_delta) us

-- What the loop leaves alone, and what it adds up.
record Loop (p q : Pending) (us : List StateUpdate) : Type 0 where
  task_id : q.next.task_id ≡ p.next.task_id
  chat_id : q.next.chat_id ≡ p.next.chat_id
  thread_id : q.next.thread_id ≡ p.next.thread_id
  project_dir : q.next.project_dir ≡ p.next.project_dir
  goal : q.next.goal ≡ p.next.goal
  status : q.next.status ≡ p.next.status
  max_total : q.next.token_budget.max_total_tokens ≡ p.next.token_budget.max_total_tokens
  max_seconds :
      q.next.token_budget.max_wallclock_seconds ≡ p.next.token_budget.max_wallclock_seconds
  status_write : q.status_write ≡ last_status p.status_write us
  errors : q.next.errors ≡ p.next.errors ++ all_errors us
  artifacts : q.next.artifacts ≡ p.next.artifacts ++ all_artifacts us
  used : q.next.token_budget.used_tokens ≡ spend p.next.token_budget.used_tokens us

absorb_all-Loop : (p : Pending) (us : List StateUpdate) → Loop p (absorb_all p us) us
unfolding absorb_all
absorb_all-Loop p [] = record {
  task_id = refl;
  chat_id = refl;
  thread_id = refl;
  project_dir = refl;
  goal = refl;
  status = refl;
  max_total = refl;
  max_seconds = refl;
  status_write = refl;
  errors = sym (append-nil _);
  artifacts = sym (append-nil _);
  used = refl;
}
absorb_all-Loop p (u ∷ us) = step (absorb_all-Loop (absorb p u) us)
  where
    step :
        Loop (absorb p u) (absorb_all (absorb p u) us) us
        → Loop p (absorb_all (absorb p u) us) (u ∷ us)
    step r =
        unfold absorb in
        record {
          task_id = r.task_id;
          chat_id = r.chat_id;
          thread_id = r.thread_id;
          project_dir = r.project_dir;
          goal = r.goal;
          status = r.status;
          max_total = r.max_total;
          max_seconds = r.max_seconds;
          status_write = r.status_write;
          errors = r.errors ∙ append_assoc p.next.errors u.errors (all_errors us);
          artifacts = r.artifacts ∙ append_assoc p.next.artifacts u.artifacts (all_artifacts us);
          used = r.used;
        }

apply-last :
    (s : HermesState) (us : List StateUpdate)
    → apply_state_updates s us
      ≡ refuse_or
          (check_status s.task_id s.status (last_status none us))
          (settle (absorb_all (start s) us))
unfolding apply_state_updates
apply-last s us = by_parts (absorb_all-Loop (start s) us)
  where
    by_parts :
        Loop (start s) (absorb_all (start s) us) us
        → finish (absorb_all (start s) us)
          ≡ refuse_or
              (check_status s.task_id s.status (last_status none us))
              (settle (absorb_all (start s) us))
    by_parts r =
        unfold finish in
        λ i.
          refuse_or (check_status (r.task_id i) (r.status i) (r.status_write i))
            (settle (absorb_all (start s) us))

refused_iff :
    (id : Str) (from : TaskStatus) (write : Option TaskStatus) (after : HermesState) (e : Error)
    → (refuse_or (check_status id from write) after ≡ refused e) ↔ (
        (to : TaskStatus) × (write ≡ some to)
        × (valid_task_status_transition from to ≡ false)
        × (e ≡ invalid_transition id from to))
unfolding validate_task_status_transition
refused_iff id from none after e = (λ h. cc, λ h. cc h.1)
refused_iff id from (some to) after e = elim (Bool-cases (valid_task_status_transition from to)) [
  | inl v ↦ (λ h. ground arith, λ h. ground arith)
  | inr v ↦ (λ h. (to, refl, v, ground arith), λ h. ground arith)
]

-- A batch is refused exactly when the last status that it writes is no valid successor of the
-- state's status; the error then names the task and the two statuses.
pub apply-refused_iff :
    (s : HermesState) (us : List StateUpdate) (e : Error)
    → (apply_state_updates s us ≡ refused e) ↔ (
        (to : TaskStatus) × (last_status none us ≡ some to)
        × (valid_task_status_transition s.status to ≡ false)
        × (e ≡ invalid_transition s.task_id s.status to))
apply-refused_iff s us e = rw (apply-last s us) (refused_iff s.task_id s.status _ _ e)

-- What an accepted batch does to the fields that every batch treats alike.
pub record Accounts (s t : HermesState) (us : List StateUpdate) : Type 0 where
  pub same_task : t.task_id ≡ s.task_id
  pub same_chat : t.chat_id ≡ s.chat_id
  pub same_thread : t.thread_id ≡ s.thread_id
  pub same_project : t.project_dir ≡ s.project_dir
  pub same_goal : t.goal ≡ s.goal
  pub same_token_limit : t.token_budget.max_total_tokens ≡ s.token_budget.max_total_tokens
  pub same_time_limit : t.token_budget.max_wallclock_seconds ≡ s.token_budget.max_wallclock_seconds
  pub errors_kept : t.errors ≡ s.errors ++ all_errors us
  pub artifacts_kept : t.artifacts ≡ s.artifacts ++ all_artifacts us
  pub tokens_spent : t.token_budget.used_tokens ≡ spend s.token_budget.used_tokens us
  pub last_write_wins : t.status ≡ get_or_old (last_status none us) s.status
  pub valid_step : valid_task_status_transition s.status t.status ≡ true

accepted :
    (id : Str) (from : TaskStatus) (write : Option TaskStatus) (after t : HermesState)
    → refuse_or (check_status id from write) after ≡ reduced t
    → (after ≡ t) × (valid_task_status_transition from (get_or_old write from) ≡ true)
unfolding validate_task_status_transition
accepted id from none after t h = (ground arith, stays-valid from)
accepted id from (some to) after t h = ground arith

settle-Accounts :
    (s : HermesState) (us : List StateUpdate)
    → valid_task_status_transition s.status (get_or_old (last_status none us) s.status) ≡ true
    → Accounts s (settle (absorb_all (start s) us)) us
unfolding settle
settle-Accounts s us v =
    let r = absorb_all-Loop (start s) us in
    let written : get_or_old (absorb_all (start s) us).status_write
          (absorb_all (start s) us).next.status
        ≡ get_or_old (last_status none us) s.status =
      λ i. get_or_old (r.status_write i) (r.status i) in
    record {
      same_task = r.task_id;
      same_chat = r.chat_id;
      same_thread = r.thread_id;
      same_project = r.project_dir;
      same_goal = r.goal;
      same_token_limit = r.max_total;
      same_time_limit = r.max_seconds;
      errors_kept = r.errors;
      artifacts_kept = r.artifacts;
      tokens_spent = r.used;
      last_write_wins = written;
      valid_step = rw written v;
    }

-- An accepted batch keeps the task's identity, goal and limits, only appends errors and artifacts,
-- in order, adds every token delta, and takes the last status written, a valid successor.
pub apply-Accounts :
    (s t : HermesState) (us : List StateUpdate)
    → apply_state_updates s us ≡ reduced t
    → Accounts s t us
apply-Accounts s t us h =
    let (e, v) = accepted s.task_id s.status _ _ t (sym (apply-last s us) ∙ h) in
    subst (λ x. Accounts s x us) e (settle-Accounts s us v)

terminal_stays :
    (from to : TaskStatus)
    → is_terminal from ≡ true
    → valid_task_status_transition from to ≡ true
    → task_status_eq from to ≡ true
unfolding valid_task_status_transition
terminal_stays TaskStatus.done to t v = ground arith
terminal_stays _ to t v = ground arith

terminal_eq :
    (from to : TaskStatus) → is_terminal from ≡ true → task_status_eq from to ≡ true → to ≡ from
terminal_eq TaskStatus.done to t v = ground arith
terminal_eq _ to t v = ground arith

-- A terminal status is final: no accepted transition leaves it.
pub terminal_final :
    (from to : TaskStatus)
    → is_terminal from ≡ true
    → valid_task_status_transition from to ≡ true
    → to ≡ from
terminal_final from to t v = terminal_eq from to t (terminal_stays from to t v)

-- No batch of updates that the reducer accepts changes the status of a finished task.
pub apply_terminal :
    (s t : HermesState) (us : List StateUpdate)
    → is_terminal s.status ≡ true
    → apply_state_updates s us ≡ reduced t
    → t.status ≡ s.status
apply_terminal s t us f h = terminal_final s.status t.status f (apply-Accounts s t us h).valid_step
