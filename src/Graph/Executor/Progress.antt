-- ===== src/Graph/Executor/Progress.antt =====
-- How far one dispatch of engine/graph/executor_node.go moves a task, and what it records.
use alice_core.Prelude.{
  if_cases, trim_space, word_mod, sign_bit, ◌<◌, in_range-lt, get_elem?-in_range, ℕ, ◌≡◌, refl,
  arith, sym, subst, ◌⊎◌, inl, inr, true, false, Bool, ◌||◌, Str, List, [], ◌∷◌, Option, none, some,
  add_int, length, out_of_range, if◌then◌else◌, is_empty, get_elem?, ◌∙◌, codes,
}
use alice_core.Hermes.State.{SubTask}
use alice_core.Hermes.Status.{SubTaskStatus, sub_task_status_eq}
use alice_core.Hermes.Snapshot.{HermesState, StateUpdate, RuntimeStep, WalkingAgentState}
use alice_core.Graph.Node.{
  Handled, NodeError, missing_service, empty_plan, index_out_of_range, fails, Moment, with_usage,
}
use alice_core.Graph.Executor.{
  ExecutorNode, Runner, attempted, token_volume, pause_update, candidate_update, finished_update,
  executor_handle, run_sub_task, after_run, advance_without_running, output_advancing,
  output_for_strict_review, output_for_approval_pause, apply_walking_delta, with_run_usage,
  SubTaskRunResult,
}
use alice_core.Graph.Executor.Routing.{OneUpdate, Moves, moves, TaskWrite, modify-TaskWrite}

abbrev pub Either : Bool → (Handled → Type 0) → (Handled → Type 0) → Handled → Type 0
Either true P Q h = P h
Either false P Q h = Q h

-- The sub-task after an attempt: its status, its text and one attempt more.
abbrev pub Attempted : SubTask → SubTaskStatus → Str → SubTask → Type 0
Attempted t status text x =
    (x.id ≡ t.id) × (x.status ≡ status) × (x.result ≡ text) × (x.attempts ≡ add_int t.attempts 1)

-- The attempt is recorded and the index stays, or it moves on.
abbrev pub Stays :
    HermesState → RuntimeStep → (SubTask → Type 0) → StateUpdate → RuntimeStep → Type 0
Stays s to P u next = TaskWrite s.plan s.current_idx P u.plan × (u.current_idx ≡ none) × (next ≡ to)

abbrev pub Advances :
    ExecutorNode → HermesState → (SubTask → Type 0) → StateUpdate → RuntimeStep → Type 0
Advances n s P u next =
    TaskWrite s.plan s.current_idx P u.plan
    × Moves n.review_mode_is_per_task s.current_idx (length s.plan) u.current_idx next

abbrev pub Passes : ExecutorNode → HermesState → StateUpdate → RuntimeStep → Type 0
Passes n s u next =
    (u.plan ≡ none)
    × Moves n.review_mode_is_per_task s.current_idx (length s.plan) u.current_idx next

-- What the answer of the runner leads to, a text and perhaps an error.
abbrev pub Follows : ExecutorNode → HermesState → SubTask → Str → Option Str → Handled → Type 0
Follows n s t text none =
    Either n.strict_review_enabled
      (OneUpdate (Stays s RuntimeStep.strict_review (Attempted t t.status (trim_space text))))
      (OneUpdate (Advances n s (Attempted t SubTaskStatus.done (trim_space text))))
Follows n s t text (some error) =
    Either n.failure_pause_enabled
      (OneUpdate (Stays s RuntimeStep.approval (Attempted t t.status error)))
      (OneUpdate (Advances n s (Attempted t SubTaskStatus.failed error)))

abbrev pub Dispatched : ExecutorNode → HermesState → SubTask → Str → Option Str → Handled → Type 0
Dispatched n s t text error =
    Either
      (sub_task_status_eq t.status SubTaskStatus.done
        || sub_task_status_eq t.status SubTaskStatus.skipped)
      (OneUpdate (Passes n s)) (Follows n s t text error)

-- The dispatch fails for want of a runner or of a sub-task, or deals with the one at the index.
abbrev pub Stepped : ExecutorNode → Moment → HermesState → Handled → Type 0
Stepped n m s h =
    ((e : NodeError) × (h ≡ fails e)
      × ((n.runner ≡ none) ⊎ (out_of_range s.current_idx (length s.plan) ≡ true)))
    ⊎ ((run : Runner) × (t : SubTask) × (n.runner ≡ some run)
        × (get_elem? s.plan s.current_idx ≡ some t)
        × Dispatched n s t (run m.call s s.current_idx).0.text (run m.call s s.current_idx).1 h)

SameWrites : StateUpdate → StateUpdate → Type 0
SameWrites u v = (v.current_idx ≡ u.current_idx) × (v.plan ≡ u.plan)

with_run_usage_kept : (r : SubTaskRunResult) (u : StateUpdate) → SameWrites u (with_run_usage r u)
unfolding SameWrites with_run_usage with_usage
with_run_usage_kept r u = (ground arith, ground arith)

walking_kept :
    (w : Option WalkingAgentState) (u : StateUpdate) → SameWrites u (apply_walking_delta w u)
unfolding SameWrites apply_walking_delta
walking_kept none u = (refl, refl)
walking_kept (some w) u = (ground arith, ground arith)

either :
    (b : Bool) (P Q : Handled → Type 0) (x y : Handled)
    → P x
    → Q y
    → Either b P Q (if b then x else y)
either true P Q x y p q = p
either false P Q x y p q = q

module _ (n : ExecutorNode) (s : HermesState) (t : SubTask)
    (at : get_elem? s.plan s.current_idx ≡ some t) (inside : s.current_idx < length s.plan)
    (small : length s.plan < sign_bit) where
  stays :
      (to : RuntimeStep) (P : SubTask → Type 0) (u v : StateUpdate)
      → SameWrites u v
      → Stays s to P u to
      → Stays s to P v to
  unfolding SameWrites
  stays to P u v (i, p) (w, c, e) = (subst (TaskWrite s.plan s.current_idx P) (sym p) w, i ∙ c, e)

  advances :
      (P : SubTask → Type 0) (u v : StateUpdate) (next : RuntimeStep)
      → SameWrites u v
      → Advances n s P u next
      → Advances n s P v next
  unfolding SameWrites
  advances P u v next (i, p) (w, (c, e)) =
      (subst (TaskWrite s.plan s.current_idx P) (sym p) w, (i ∙ c, e))

  noted :
      (r : SubTaskRunResult) (u : StateUpdate)
      → SameWrites u (apply_walking_delta r.walking_state (with_run_usage r u))
  unfolding SameWrites
  noted r u =
      let a = with_run_usage_kept r u in
      let b = walking_kept r.walking_state (with_run_usage r u) in (b.0 ∙ a.0, b.1 ∙ a.1)

  pauses :
      (m : Moment) (text : Str) (r : SubTaskRunResult)
      → OneUpdate
          (Stays s RuntimeStep.approval (Attempted t t.status text))
          (output_for_approval_pause m s s.current_idx t text r)
  unfolding output_for_approval_pause
  pauses m text r = (
    _,
    refl,
    stays RuntimeStep.approval (Attempted t t.status text) (pause_update m s s.current_idx t text r)
        _ (with_run_usage_kept r (pause_update m s s.current_idx t text r))
        (
          modify-TaskWrite s.plan s.current_idx (Attempted t t.status text) _ t at
              (refl, refl, refl, refl),
          refl,
          refl,
        ),
  )

  submits :
      (r : SubTaskRunResult)
      → OneUpdate
          (Stays s RuntimeStep.strict_review (Attempted t t.status (trim_space r.text)))
          (output_for_strict_review s s.current_idx r)
  unfolding output_for_strict_review
  submits r = (
    _,
    refl,
    stays RuntimeStep.strict_review (Attempted t t.status (trim_space r.text))
        (candidate_update s s.current_idx r) _ (noted r (candidate_update s s.current_idx r))
        (
          modify-TaskWrite s.plan s.current_idx (Attempted t t.status (trim_space r.text)) _ t at
              (refl, refl, refl, refl),
          refl,
          refl,
        ),
  )

  finishes :
      (status : SubTaskStatus) (text reason : Str) (r : SubTaskRunResult)
      → OneUpdate
          (Advances n s (Attempted t status text))
          (output_advancing n s s.current_idx t status text reason r)
  unfolding output_advancing
  finishes status text reason r =
      let u =
        finished_update s s.current_idx status text
          (record (attempted text (token_volume r) t) { status = status }) in
      (
        _,
        refl,
        advances (Attempted t status text) u _ _ (noted r u) (
          modify-TaskWrite s.plan s.current_idx (Attempted t status text) _ t at
              (refl, refl, refl, refl),
          moves n.review_mode_is_per_task s.current_idx (length s.plan) inside small,
        ),
      )

  passes : OneUpdate (Passes n s) (advance_without_running n s s.current_idx)
  unfolding advance_without_running
  passes =
      (_, refl, (refl, moves n.review_mode_is_per_task s.current_idx (length s.plan) inside small))

  follows :
      (m : Moment) (r : SubTaskRunResult) (error : Option Str)
      → Follows n s t r.text error (after_run n m s s.current_idx t r error)
  unfolding after_run
  follows m r none =
      either n.strict_review_enabled _ _ _ _ (submits r)
        (finishes SubTaskStatus.done (trim_space r.text) (codes "subtask_done") r)
  follows m r (some error) =
      either n.failure_pause_enabled _ _ _ _ (pauses m error r)
        (finishes SubTaskStatus.failed error (codes "subtask_failed") r)

  dispatched :
      (run : Runner) (m : Moment)
      → Dispatched n s t
          (run m.call s s.current_idx).0.text
          (run m.call s s.current_idx).1
          (run_sub_task n run m s (some t))
  unfolding run_sub_task
  dispatched run m =
      either
        (sub_task_status_eq t.status SubTaskStatus.done
          || sub_task_status_eq t.status SubTaskStatus.skipped)
        _ _ _ _ passes (follows m (run m.call s s.current_idx).0 (run m.call s s.current_idx).1)

in_range-Stepped :
    (n : ExecutorNode) (s : HermesState) (run : Runner) (m : Moment)
    → n.runner ≡ some run
    → out_of_range s.current_idx (length s.plan) ≡ false
    → s.current_idx < word_mod
    → length s.plan < sign_bit
    → Stepped n m s (run_sub_task n run m s (get_elem? s.plan s.current_idx))
in_range-Stepped n s run m e h i l =
    let inside = in_range-lt _ _ i l h in
    let (t, at) = get_elem?-in_range s.plan s.current_idx inside in
    inr (
      run,
      t,
      e,
      at,
      subst
          (λ o.
            Dispatched n s t (run m.call s s.current_idx).0.text (run m.call s s.current_idx).1
              (run_sub_task n run m s o))
          (sym at) (dispatched n s t at inside l run m),
    )

empty_range :
    (i : ℕ) (plan : List SubTask) → is_empty plan ≡ true → out_of_range i (length plan) ≡ true
empty_range i [] h = ground arith
empty_range i (t ∷ ts) h = cc

-- A dispatch of the executor node fails without a runner or where the index is outside the plan, and
-- only then; it never panics by itself. Otherwise it makes one update. A sub-task that is done or
-- skipped is passed over with the plan unchanged. Any other is run and one more attempt is recorded
-- in it, with the other sub-tasks unchanged: done with the trimmed text where the runner succeeded,
-- failed with the error where it did not, and with its old status where a success goes to the strict
-- review or a failure to the approval, each where that is enabled. In those two cases the index
-- stays; in the others it moves by one, and the executor is due while there is another sub-task, then
-- the reviewer where the whole task is reviewed, or else the end. The index is a 64-bit pattern and the plan shorter
-- than 2 ^ 63.
pub executor_handle-Stepped :
    (n : ExecutorNode) (m : Moment) (s : HermesState)
    → s.current_idx < word_mod
    → length s.plan < sign_bit
    → Stepped n m s (executor_handle n m s)
unfolding executor_handle
executor_handle-Stepped n m s i l = with_runner n.runner refl
  where
    with_runner :
        (o : Option Runner)
        → n.runner ≡ o
        → Stepped n m s (elim o [
          | none ↦ fails missing_service
          | some run ↦
              if is_empty s.plan
              then fails empty_plan
              else if out_of_range s.current_idx (length s.plan)
              then fails (index_out_of_range s.current_idx (length s.plan))
              else run_sub_task n run m s (get_elem? s.plan s.current_idx)
        ])
    with_runner none e = inl (missing_service, refl, inl e)
    with_runner (some run) e =
        if_cases (Stepped n m s) (is_empty s.plan) _ _
          (λ h. inl (empty_plan, refl, inr (empty_range s.current_idx s.plan h)))
          (λ h.
            if_cases (Stepped n m s) (out_of_range s.current_idx (length s.plan)) _ _
              (λ d. inl (_, refl, inr d)) (λ d. in_range-Stepped n s run m e d i l))
