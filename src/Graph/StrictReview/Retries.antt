-- ===== src/Graph/StrictReview/Retries.antt =====
-- When engine/graph/strict_review_node.go sends a sub-task back to the executor, and what it makes of
-- one that it does not.
use alice_core.Prelude.{
  ℕ, sign_bit, word_mod, ◌<◌, in_range-lt, Bool-cases, subst, sym, ◌∙◌, ◌≡◌, refl, arith, true,
  false, Bool, Str, str_eq, codes, List, [], ◌∷◌, Option, none, some, add_int, length, slt,
  out_of_range, is_empty, get_elem?, ◌⊎◌, inl, inr, modify, if◌then◌else◌,
}
use alice_core.Hermes.Status.{SubTaskStatus}
use alice_core.Hermes.State.{SubTask}
use alice_core.Hermes.Snapshot.{HermesState, StateUpdate, RuntimeStep}
use alice_core.Graph.Node.{Handled, Moment, route}
use alice_core.Graph.Executor.{next_step_after}
use alice_core.Graph.Executor.Routing.{OneUpdate, Moves, moves, TaskWrite, modify-TaskWrite}
use alice_core.Graph.StrictReview.{
  StrictReviewNode, SubTaskReviewResult, Reviewer, strict_review_handle, review_sub_task,
  on_verdict, on_block, on_fail, accept_update, attach_telemetry, retry_update, skipped_task,
  failed_task, move_to, moving_on,
}

-- The verdicts that the node tells apart; an error of the reviewer and any other verdict accept.
pub data Verdict : Type 0 where
  blocks fails_it accepts : Verdict

abbrev pub verdict_text : Str → Verdict
verdict_text v =
    if str_eq v (codes "block")
    then blocks
    else if str_eq v (codes "fail")
    then fails_it
    else accepts

abbrev pub verdict_of : Option SubTaskReviewResult → Verdict
verdict_of none = accepts
verdict_of (some r) = verdict_text r.verdict

abbrev pub feedback_of : Option SubTaskReviewResult → Str
feedback_of none = []
feedback_of (some r) = r.feedback

-- The sub-task goes back with the feedback, its status and attempts kept.
abbrev pub SentBack : SubTask → Str → SubTask → Type 0
SentBack t feedback x =
    (x.status ≡ t.status)
    × (x.attempts ≡ t.attempts)
    × (x.result ≡ t.result)
    × (x.strict_retry_feedback ≡ feedback)

-- The sub-task is left with a status and without feedback for a retry.
abbrev pub LeftAs : SubTaskStatus → SubTask → Type 0
LeftAs status x = (x.status ≡ status) × (x.strict_retry_feedback ≡ [])

module _ (n : StrictReviewNode) (s : HermesState) (t : SubTask) where
  abbrev pub Retries : Str → StateUpdate → RuntimeStep → Type 0
  Retries feedback u next =
      TaskWrite s.plan s.current_idx (SentBack t feedback) u.plan
      × (u.current_idx ≡ none)
      × (next ≡ RuntimeStep.executor)

  abbrev pub Leaves : SubTaskStatus → StateUpdate → RuntimeStep → Type 0
  Leaves status u next =
      TaskWrite s.plan s.current_idx (LeftAs status) u.plan
      × Moves n.review_mode_is_per_task s.current_idx (length s.plan) u.current_idx next

  abbrev pub Blocked : Bool → Str → StateUpdate → RuntimeStep → Type 0
  Blocked true feedback = Retries feedback
  Blocked false feedback = Leaves SubTaskStatus.skipped

  abbrev pub Judged : Verdict → Str → StateUpdate → RuntimeStep → Type 0
  Judged blocks feedback = Blocked (slt t.attempts n.max_retries_per_sub) feedback
  Judged fails_it feedback = Leaves SubTaskStatus.failed
  Judged accepts feedback = Leaves SubTaskStatus.done

  abbrev pub Reviewed : Option SubTaskReviewResult → Handled → Type 0
  Reviewed r = OneUpdate (Judged (verdict_of r) (feedback_of r))

attach_telemetry_kept :
    (r : SubTaskReviewResult) (u : StateUpdate)
    → ((attach_telemetry r u).current_idx ≡ u.current_idx) × ((attach_telemetry r u).plan ≡ u.plan)
unfolding attach_telemetry
attach_telemetry_kept r u = (ground arith, ground arith)

module _ (n : StrictReviewNode) (s : HermesState) (t : SubTask)
    (at : get_elem? s.plan s.current_idx ≡ some t) (inside : s.current_idx < length s.plan)
    (small : length s.plan < sign_bit) where
  left :
      (x : SubTask)
      → x.strict_retry_feedback ≡ []
      → TaskWrite s.plan s.current_idx
          (LeftAs x.status)
          (some (modify s.plan s.current_idx (λ _. x)))
  left x e = modify-TaskWrite s.plan s.current_idx (LeftAs x.status) (λ _. x) t at (refl, e)

  onwards :
      Moves n.review_mode_is_per_task s.current_idx
        (length s.plan)
        (some (add_int s.current_idx 1))
        (next_step_after n.review_mode_is_per_task (add_int s.current_idx 1) (length s.plan))
  onwards = moves n.review_mode_is_per_task s.current_idx (length s.plan) inside small

  leaves :
      (r : SubTaskReviewResult) (x : SubTask) (u : StateUpdate)
      → x.strict_retry_feedback ≡ []
      → u.plan ≡ some (modify s.plan s.current_idx (λ _. x))
      → u.current_idx ≡ some (add_int s.current_idx 1)
      → Leaves n s t x.status
          (attach_telemetry r u)
          (next_step_after n.review_mode_is_per_task (add_int s.current_idx 1) (length s.plan))
  leaves r x u e p i = (
    subst (TaskWrite s.plan s.current_idx (LeftAs x.status))
        (sym ((attach_telemetry_kept r u).1 ∙ p)) (left x e),
    ((attach_telemetry_kept r u).0 ∙ i ∙ onwards.0, onwards.1),
  )

  retries :
      (r : SubTaskReviewResult)
      → Retries n s t r.feedback
          (attach_telemetry r (retry_update s s.current_idx r.feedback))
          RuntimeStep.executor
  retries r =
      let k = attach_telemetry_kept r (retry_update s s.current_idx r.feedback) in
      (
        subst (TaskWrite s.plan s.current_idx (SentBack t r.feedback)) (sym k.1) (
            modify-TaskWrite s.plan s.current_idx (SentBack t r.feedback) _ t at
              (refl, refl, refl, refl)),
        k.0,
        refl,
      )

  block_judged :
      (r : SubTaskReviewResult)
      → OneUpdate
          (Blocked n s t (slt t.attempts n.max_retries_per_sub) r.feedback)
          (on_block n s s.current_idx t r)
  unfolding on_block
  block_judged r = by_budget (slt t.attempts n.max_retries_per_sub)
    where
      by_budget :
          (b : Bool)
          → OneUpdate (Blocked n s t b r.feedback) (
              if b
              then route
                  (attach_telemetry r (retry_update s s.current_idx r.feedback) ∷ [])
                  RuntimeStep.executor
                  (codes "strict_review_block_retry")
              else move_to n s s.current_idx
                  (attach_telemetry r (moving_on s s.current_idx (skipped_task t r.feedback)))
                  (codes "strict_review_block_budget_exhausted"))
      by_budget true = (_, refl, retries r)
      by_budget false = (
        _,
        refl,
        leaves r (skipped_task t r.feedback) (moving_on s s.current_idx (skipped_task t r.feedback))
            refl refl refl,
      )

  fail_judged :
      (r : SubTaskReviewResult)
      → OneUpdate (Leaves n s t SubTaskStatus.failed) (on_fail n s s.current_idx t r)
  unfolding on_fail
  fail_judged r =
      (_, refl, leaves r (failed_task t r.feedback) (moving_on s s.current_idx _) refl refl refl)

  judged :
      (o : Option SubTaskReviewResult)
      → OneUpdate (Judged n s t (verdict_of o) (feedback_of o)) (on_verdict n s s.current_idx t o)
  unfolding on_verdict accept_update
  judged none = (_, refl, (left _ refl, onwards))
  judged (some r) = by_verdict (str_eq r.verdict (codes "block")) (str_eq r.verdict (codes "fail"))
    where
      by_verdict :
          (b f : Bool)
          → OneUpdate
              (Judged n s t (if b then blocks else if f then fails_it else accepts) r.feedback)
              (if b
                then on_block n s s.current_idx t r
                else if f
                then on_fail n s s.current_idx t r
                else move_to n s s.current_idx
                    (attach_telemetry r (accept_update s s.current_idx t))
                    (codes "strict_review_pass"))
      by_verdict true f = block_judged r
      by_verdict false true = fail_judged r
      by_verdict false false =
          (_, refl, leaves r _ (accept_update s s.current_idx t) refl refl refl)

nothing_there :
    (plan : List SubTask) (i : ℕ) (t : SubTask)
    → is_empty plan ≡ true
    → get_elem? plan i ≡ some t
    → ⊥
nothing_there [] i t k e = cc
nothing_there (x ∷ xs) i t k e = cc

-- With a reviewer and a sub-task at the index, the strict review always makes one update, which
-- changes no other sub-task. Exactly for the verdict "block" with attempts below the limit, the
-- sub-task goes back to the executor with the feedback, and the index, its status, text and attempts are kept.
-- Otherwise it is skipped for "block", failed for "fail", and done for any other verdict and for an
-- error of the reviewer; the index moves by one, and the executor is due while there is another
-- sub-task, then the reviewer where the whole task is reviewed, or else the end. The index is a
-- 64-bit pattern and the plan shorter than 2 ^ 63.
pub strict_review_handle-Reviewed :
    (n : StrictReviewNode) (m : Moment) (s : HermesState) (review : Reviewer) (t : SubTask)
    → n.reviewer ≡ some review
    → out_of_range s.current_idx (length s.plan) ≡ false
    → get_elem? s.plan s.current_idx ≡ some t
    → s.current_idx < word_mod
    → length s.plan < sign_bit
    → Reviewed n s t (review m.call s s.current_idx) (strict_review_handle n m s)
unfolding strict_review_handle review_sub_task
strict_review_handle-Reviewed n m s review t h i e w l =
    let answer = review m.call s s.current_idx in
    subst (Reviewed n s t answer) (sym (reaches_verdict (Bool-cases (is_empty s.plan))))
      (judged n s t e (in_range-lt _ _ w l i) l answer)
  where
    reaches_verdict :
        ((is_empty s.plan ≡ true) ⊎ (is_empty s.plan ≡ false))
        → strict_review_handle n m s
          ≡ on_verdict n s s.current_idx t (review m.call s s.current_idx)
    reaches_verdict (inl k) = absurd (nothing_there s.plan s.current_idx t k e)
    reaches_verdict (inr k) = rw (h, k, i, e) refl
