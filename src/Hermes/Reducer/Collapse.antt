-- ===== src/Hermes/Reducer/Collapse.antt =====
-- The collapsed update that a snapshot records stands for the batch it was made from
-- (hermes/reducer.go).
use alice_core.Prelude.{
  ◌≡◌, ◌<◌, refl, sym, subst, ap, ◌∙◌, ◌⊎◌, inl, inr, arith, Bool, false, ◌||◌, List, [], ◌∷◌, ◌++◌,
  Option, none, some, add_int, word_mod, is_empty, is_some, get_or_old, ◌orelse◌, if◌then◌else◌,
  append_assoc, append-nil, Str, List-cases,
}
use alice_core.Hermes.State.{SubTask, TokenBudget}
use alice_core.Hermes.Usage.{ModelUsage, PhaseUsage}
use alice_core.Hermes.Snapshot.{HermesState, StateUpdate, no_update}
use alice_core.Hermes.Reducer.{
  absorb, absorb_all, start, finish, apply_update, apply_state_updates, write_plan, clear_or_write,
  next_accumulated, next_budget, collapse_one, collapse_from, collapse_state_updates,
}
use alice_core.Hermes.Reducer.Merge.{
  append_accumulated_delta, merge_model_usages, merge_phase_usages, merge_all,
}
use alice_core.Hermes.Reducer.Accumulated.{append_delta-nil, append_delta_assoc}
use alice_core.Hermes.Reducer.Usages.{merge_all-append}

-- No update replaces the accumulated text after `delta` or a later delta was appended to it.
abbrev pub NoLateReplace : Str → List StateUpdate → Type 0
NoLateReplace delta [] = Unit
NoLateReplace delta (u ∷ us) =
    ((u.accumulated ≡ none) ⊎ (delta ≡ []))
    × NoLateReplace (append_accumulated_delta delta u.accumulated_delta) us

-- A guard on the empty batch changes nothing, and two batches merge as their concatenation.
module _ {U : Type 0} (same : U → U → Bool) (combine : U → U → U) (entry : U → U) where
  guarded :
      (m a : List U)
      → (if is_empty a then m else merge_all same combine entry m a)
        ≡ merge_all same combine entry m a
  unfolding merge_all
  guarded m [] = refl
  guarded m (x ∷ a) = refl

  two_batches :
      (m a b : List U)
      → (if is_empty b
          then if is_empty a then m else merge_all same combine entry m a
          else merge_all same combine entry
              (if is_empty a then m else merge_all same combine entry m a)
              b)
        ≡ (if is_empty (a ++ b) then m else merge_all same combine entry m (a ++ b))
  two_batches m a b =
      rw (guarded m a, guarded (merge_all same combine entry m a) b, guarded m (a ++ b))
        (sym (merge_all-append same combine entry m a b))

module _ (m a b : List PhaseUsage) where
  two_phase_batches :
      (if is_empty b
        then if is_empty a then m else merge_phase_usages m a
        else merge_phase_usages (if is_empty a then m else merge_phase_usages m a) b)
      ≡ (if is_empty (a ++ b) then m else merge_phase_usages m (a ++ b))
  unfolding merge_phase_usages
  two_phase_batches = two_batches _ _ _ m a b

module _ (m a b : List ModelUsage) where
  two_model_batches :
      (if is_empty b
        then if is_empty a then m else merge_model_usages m a
        else merge_model_usages (if is_empty a then m else merge_model_usages m a) b)
      ≡ (if is_empty (a ++ b) then m else merge_model_usages m (a ++ b))
  unfolding merge_model_usages
  two_model_batches = two_batches _ _ _ m a b

clear_or_write_twice :
    {A : Type 0} (c d : Bool) (v w old : Option A)
    → clear_or_write d w (clear_or_write c v old)
      ≡ clear_or_write (if is_some w then false else (d || c)) (clear_or_write d w v) old
clear_or_write_twice c d v none old = ground arith
clear_or_write_twice c d v (some x) old = refl

orelse_assoc : {A : Type 0} (u v w : Option A) → (u orelse (v orelse w)) ≡ ((u orelse v) orelse w)
orelse_assoc none v w = refl
orelse_assoc (some x) v w = refl

get_or_old_twice :
    {A : Type 0} (u v : Option A) (old : A)
    → get_or_old u (get_or_old v old) ≡ get_or_old (u orelse v) old
get_or_old_twice none v old = refl
get_or_old_twice (some x) v old = refl

write_plan_twice :
    (u v : Option (List SubTask))
    → write_plan u (write_plan v none) ≡ write_plan (write_plan u v) none
unfolding write_plan
write_plan_twice none none = refl
write_plan_twice none (some []) = refl
write_plan_twice none (some (t ∷ ts)) = refl
write_plan_twice (some []) v = refl
write_plan_twice (some (t ∷ ts)) v = refl

collapsed_delta :
    (c u : StateUpdate)
    → (collapse_one c u).accumulated_delta
      ≡ append_accumulated_delta c.accumulated_delta u.accumulated_delta
unfolding collapse_one
collapsed_delta c u = elim (List-cases u.accumulated_delta) [
  | inl e ↦ rw (e, append_delta-nil c.accumulated_delta)
  | inr (d, ds, e) ↦ rw e
]

replaced_twice :
    (v w : Option Str) (c u old : Str)
    → (v ≡ none) ⊎ (c ≡ [])
    → append_accumulated_delta (get_or_old v (append_accumulated_delta (get_or_old w old) c)) u
      ≡ append_accumulated_delta (get_or_old (v orelse w) old) (append_accumulated_delta c u)
unfolding append_accumulated_delta
replaced_twice none w c u old h = append_delta_assoc (get_or_old w old) c u
replaced_twice (some a) w c u old (inl e) = cc
replaced_twice (some a) w c u old (inr e) = rw e

accumulated_twice :
    (old : Str) (c u : StateUpdate)
    → (u.accumulated ≡ none) ⊎ (c.accumulated_delta ≡ [])
    → next_accumulated u (next_accumulated c old) ≡ next_accumulated (collapse_one c u) old
unfolding next_accumulated
accumulated_twice old c u h = rw (collapsed_delta c u) (by_parts h)
  where
    by_parts :
        (u.accumulated ≡ none) ⊎ (c.accumulated_delta ≡ [])
        → append_accumulated_delta
            (get_or_old u.accumulated
              (append_accumulated_delta (get_or_old c.accumulated old) c.accumulated_delta))
            u.accumulated_delta
          ≡ append_accumulated_delta
              (get_or_old (collapse_one c u).accumulated old)
              (append_accumulated_delta c.accumulated_delta u.accumulated_delta)
    by_parts k =
        unfold collapse_one in
        replaced_twice u.accumulated c.accumulated c.accumulated_delta u.accumulated_delta old k

budget_twice :
    (b : TokenBudget) (c u : StateUpdate)
    → next_budget u (next_budget c b) ≡ next_budget (collapse_one c u) b
unfolding next_budget collapse_one
budget_twice b c u = λ i. record b {
  used_tokens = used i;
  started_at = get_or_old_twice u.budget_started_at c.budget_started_at b.started_at i;
}
  where
    used :
        add_int (add_int b.used_tokens c.token_usage_delta) u.token_usage_delta
        ≡ add_int b.used_tokens (add_int c.token_usage_delta u.token_usage_delta)
    used = omega arith

apply_twice :
    (s : HermesState) (c u : StateUpdate)
    → (u.accumulated ≡ none) ⊎ (c.accumulated_delta ≡ [])
    → apply_update (apply_update s c) u ≡ apply_update s (collapse_one c u)
unfolding apply_update collapse_one
apply_twice s c u h = λ i. record s {
  accumulated = accumulated_twice s.accumulated c u h i;
  artifacts = append_assoc s.artifacts c.artifacts u.artifacts i;
  model_usages = two_model_batches s.model_usages c.model_usages u.model_usages i;
  phase_usages = two_phase_batches s.phase_usages c.phase_usages u.phase_usages i;
  token_budget = budget_twice s.token_budget c u i;
  planner_session_id =
      get_or_old_twice u.planner_session_id c.planner_session_id s.planner_session_id i;
  executor_session_id =
      get_or_old_twice u.executor_session_id c.executor_session_id s.executor_session_id i;
  interrupt =
      clear_or_write_twice c.clear_interrupt u.clear_interrupt c.interrupt u.interrupt s.interrupt
        i;
  errors = append_assoc s.errors c.errors u.errors i;
  replan = clear_or_write_twice c.clear_replan u.clear_replan c.replan u.replan s.replan i;
  walking = clear_or_write_twice c.clear_walking u.clear_walking c.walking u.walking s.walking i;
}

absorb_twice :
    (s : HermesState) (c u : StateUpdate)
    → (u.accumulated ≡ none) ⊎ (c.accumulated_delta ≡ [])
    → absorb (absorb (start s) c) u ≡ absorb (start s) (collapse_one c u)
unfolding absorb collapse_one
absorb_twice s c u h = λ i. record {
  next = apply_twice s c u h i;
  status_write = orelse_assoc u.status c.status none i;
  current_idx_write = orelse_assoc u.current_idx c.current_idx none i;
  plan_write = write_plan_twice u.plan c.plan i;
  github_issue_write = orelse_assoc u.github_issue_number c.github_issue_number none i;
  result_writes = c.sub_task_results ++ u.sub_task_results;
}

pub absorb-no_update :
    (s : HermesState) → s.token_budget.used_tokens < word_mod → absorb (start s) no_update ≡ start s
unfolding absorb
absorb-no_update s h = λ i. record (start s) {
  next = record s {
    accumulated = append_delta-nil s.accumulated i;
    artifacts = append-nil s.artifacts i;
    token_budget = record s.token_budget { used_tokens = same_total i };
    errors = append-nil s.errors i;
  };
}
  where
    same_total : add_int s.token_budget.used_tokens 0 ≡ s.token_budget.used_tokens
    same_total = omega arith

absorb_all-collapse_from :
    (s : HermesState) (c : StateUpdate) (us : List StateUpdate)
    → NoLateReplace c.accumulated_delta us
    → absorb_all (absorb (start s) c) us ≡ absorb (start s) (collapse_from c us)
unfolding absorb_all collapse_from
absorb_all-collapse_from s c [] h = refl
absorb_all-collapse_from s c (u ∷ us) h =
    ap (λ p. absorb_all p us) (absorb_twice s c u h.0)
    ∙ absorb_all-collapse_from s (collapse_one c u) us
        (subst (λ d. NoLateReplace d us) (sym (collapsed_delta c u)) h.1)

-- Where no update of a batch replaces the accumulated text after a delta was appended, applying the
-- one update that the snapshot records gives what applying the whole batch gives: the same state,
-- or the same error. The tokens used before are a 64-bit pattern.
pub apply-collapse :
    (s : HermesState) (us : List StateUpdate)
    → s.token_budget.used_tokens < word_mod
    → NoLateReplace [] us
    → apply_state_updates s (collapse_state_updates us ∷ []) ≡ apply_state_updates s us
unfolding apply_state_updates collapse_state_updates
apply-collapse s us w h = ap finish (
    sym (absorb_all-collapse_from s no_update us h)
    ∙ ap (λ p. absorb_all p us) (absorb-no_update s w))
