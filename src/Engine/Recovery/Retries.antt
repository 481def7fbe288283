-- ===== src/Engine/Recovery/Retries.antt =====
-- When engine/recovery_policy.go retries.
use alice_core.Prelude.{
  ℕ, ◌<◌, ◌≡◌, refl, ◌⊎◌, inl, inr, arith, Bool, true, false, not, ◌&&◌, codes, str_eq, trim_space,
  is_empty, add_int, slt, sle, sign_bit, if◌then◌else◌, if_cases, Bool-cases,
}
use alice_core.Engine.Review.{Verdict, verdict_eq}
use alice_core.Engine.Recovery.{
  RecoveryAction, nothing, retry, RecoveryRequest, RecoveryDecision, with_defaults, decide,
  decide_recovery, decide_by_mode, decide_by_error, decide_task_review_recovery,
  decide_sub_task_retry_recovery, decide_strict_review_recovery, decide_planner_retry_recovery,
  decide_watchdog_cancel_recovery, is_transient_recovery_error, not_negative,
}

-- The bound on the attempts that the mode of a request goes by.
abbrev pub limit : RecoveryRequest → ℕ
limit req =
    if is_empty (trim_space req.error_text) && str_eq req.mode (codes "task_review")
    then (with_defaults req.task_retry).max_task_retries
    else req.max_attempts

abbrev pub is_retry : RecoveryAction → Bool
is_retry retry = true
is_retry _ = false

-- A decision is a retry of the next attempt below the bound; or it is no retry, is not marked
-- retryable, and names no next attempt and no delay.
abbrev pub Bounded : ℕ → ℕ → RecoveryDecision → Type 0
Bounded attempt bound d =
    ((is_retry d.action ≡ true)
      × (slt attempt bound ≡ true)
      × (d.next_attempt ≡ add_int attempt 1)
      × (d.retryable ≡ true)
      × (d.terminal ≡ false))
    ⊎ ((is_retry d.action ≡ false)
        × (d.retryable ≡ false)
        × (d.next_attempt ≡ 0)
        × (d.retry_after ≡ 0))

not_sle : (a b : ℕ) → sle a b ≡ false → slt b a ≡ true
not_sle a b h = ground arith

below_not_negative : (a b : ℕ) → a < sign_bit → slt a (not_negative b) ≡ true → slt a b ≡ true
below_not_negative a b h k = ground arith

module _ (req : RecoveryRequest) where
  abbrev Stays : (bound : ℕ) (d : RecoveryDecision) → Type 0
  Stays bound d = Bounded req.attempt bound d

  task_review-Bounded :
      Stays (with_defaults req.task_retry).max_task_retries (decide_task_review_recovery req)
  unfolding decide_task_review_recovery
  task_review-Bounded =
      let bound = (with_defaults req.task_retry).max_task_retries in
      let P = Stays bound in
      if_cases P (not req.task_retry.enabled) _ _ (λ _. inr (refl, refl, refl, refl))
        (λ _.
          if_cases P (sle bound req.attempt) _ _ (λ _. inr (refl, refl, refl, refl))
            (λ below.
              if_cases P (verdict_eq req.review.verdict Verdict.unset) _ _
                (λ _. inr (refl, refl, refl, refl))
                (λ _.
                  if_cases P (verdict_eq req.review.verdict Verdict.fail) _ _
                    (λ _. inl (refl, not_sle bound req.attempt below, refl, refl, refl))
                    (λ _.
                      if_cases P
                        (slt req.review.overall_score
                          (with_defaults req.task_retry).score_threshold)
                        _ _ (λ _. inl (refl, not_sle bound req.attempt below, refl, refl, refl))
                        (λ _. inr (refl, refl, refl, refl))))))

  sub_task-Bounded : Stays req.max_attempts (decide_sub_task_retry_recovery req)
  unfolding decide_sub_task_retry_recovery
  sub_task-Bounded =
      if_cases (Stays req.max_attempts) (sle req.max_attempts 0) _ _
        (λ _. inr (refl, refl, refl, refl))
        (λ _.
          if_cases (Stays req.max_attempts) (sle req.max_attempts req.attempt) _ _
            (λ _. inr (refl, refl, refl, refl))
            (λ below. inl (refl, not_sle req.max_attempts req.attempt below, refl, refl, refl)))

  strict-Bounded : Stays req.max_attempts (decide_strict_review_recovery req)
  unfolding decide_strict_review_recovery
  strict-Bounded =
      if_cases (Stays req.max_attempts) (not (verdict_eq req.strict.verdict Verdict.block)) _ _
        (λ _. inr (refl, refl, refl, refl))
        (λ _.
          if_cases (Stays req.max_attempts) (slt req.attempt req.max_attempts) _ _
            (λ h. inl (refl, h, refl, refl, refl)) (λ _. inr (refl, refl, refl, refl)))

  planner-Bounded : Stays req.max_attempts (decide_planner_retry_recovery req)
  unfolding decide_planner_retry_recovery
  planner-Bounded =
      if_cases (Stays req.max_attempts) (sle req.max_attempts 0) _ _
        (λ _. inr (refl, refl, refl, refl))
        (λ _.
          if_cases (Stays req.max_attempts) (slt req.attempt req.max_attempts) _ _
            (λ h. inl (refl, h, refl, refl, refl)) (λ _. inr (refl, refl, refl, refl)))

  error-Bounded : req.attempt < sign_bit → Stays req.max_attempts (decide_by_error req)
  unfolding decide_by_error
  error-Bounded small =
      if_cases (Stays req.max_attempts)
        (is_transient_recovery_error req.error_text
          && slt req.attempt (not_negative req.max_attempts))
        _ _
        (λ h. inl (
          refl,
          below_not_negative req.attempt req.max_attempts small (ground arith),
          refl,
          refl,
          refl,
        ))
        (λ _.
          if_cases (Stays req.max_attempts) (not (is_empty (trim_space req.fallback))) _ _
            (λ _. inr (refl, refl, refl, refl)) (λ _. inr (refl, refl, refl, refl)))

  abbrev mode_limit : Bool → ℕ
  mode_limit b = if b then (with_defaults req.task_retry).max_task_retries else req.max_attempts

  other_mode-Bounded : Stays req.max_attempts (
      if str_eq req.mode (codes "sub_task_retry")
      then decide_sub_task_retry_recovery req
      else if str_eq req.mode (codes "strict_review")
      then decide_strict_review_recovery req
      else if str_eq req.mode (codes "watchdog_cancel")
      then decide_watchdog_cancel_recovery req
      else if str_eq req.mode (codes "planner_retry")
      then decide_planner_retry_recovery req
      else decide nothing false (codes "no_error"))
  other_mode-Bounded =
      let P = Stays req.max_attempts in
      if_cases P (str_eq req.mode (codes "sub_task_retry")) _ _ (λ _. sub_task-Bounded)
        (λ _.
          if_cases P (str_eq req.mode (codes "strict_review")) _ _ (λ _. strict-Bounded)
            (λ _.
              if_cases P (str_eq req.mode (codes "watchdog_cancel")) _ _
                (λ _. inr (refl, refl, refl, refl))
                (λ _.
                  if_cases P (str_eq req.mode (codes "planner_retry")) _ _ (λ _. planner-Bounded)
                    (λ _. inr (refl, refl, refl, refl)))))

  mode-Bounded : Stays (mode_limit (str_eq req.mode (codes "task_review"))) (decide_by_mode req)
  unfolding decide_by_mode
  mode-Bounded = elim (Bool-cases (str_eq req.mode (codes "task_review"))) [
    | inl e ↦ simp e task_review-Bounded
    | inr e ↦ simp e other_mode-Bounded
  ]

-- `DecideRecovery` retries only below the bound of its mode: the configured number of task retries,
-- 1 if that is 0, for the review of a task, and `MaxAttempts` otherwise. Then it names the next
-- attempt and is retryable and not terminal. Every other decision is not retryable and names no
-- next attempt and no delay. The attempt is no negative number.
pub decide_recovery-Bounded :
    (req : RecoveryRequest)
    → req.attempt < sign_bit
    → Bounded req.attempt (limit req) (decide_recovery req)
unfolding decide_recovery
decide_recovery-Bounded req small = elim (Bool-cases (is_empty (trim_space req.error_text))) [
  | inl e ↦ simp e (mode-Bounded req)
  | inr e ↦ simp e (error-Bounded req small)
]
