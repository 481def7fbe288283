-- ===== src/Engine/Recovery.antt =====
-- engine/recovery_policy.go: what follows an error or a review. Logging and the trace events are left
-- out. A duration is a number of nanoseconds, wrapping as an int64 does.
pub mod Retries
use alice_core.Prelude.{
  ℕ, ◌*◌, ◌%◌, ◌==◌, Bool, true, false, not, ◌&&◌, Str, codes, str_eq, trim_space, is_empty,
  add_int, slt, sle, word_mod, if◌then◌else◌, List, [], ◌∷◌,
}
use alice_core.Engine.ErrorClass.{classify_text, is_transient}
use alice_core.Engine.Review.{ReviewResult, StrictReviewDecision, Verdict, verdict_eq}

pub data RecoveryAction : Type 0 where
  nothing retry fallback cancel fail : RecoveryAction

-- engine/task_retry.go
pub record TaskRetryConfig : Type 0 where
  pub enabled : Bool
  pub score_threshold : ℕ
  pub max_task_retries : ℕ

pub record RecoveryRequest : Type 0 where
  pub mode : Str
  pub attempt : ℕ
  pub max_attempts : ℕ
  pub error_text : Str
  pub fallback : Str
  pub review : ReviewResult
  pub strict : StrictReviewDecision
  pub task_retry : TaskRetryConfig

pub record RecoveryDecision : Type 0 where
  pub action : RecoveryAction
  pub retry_after : ℕ
  pub retryable : Bool
  pub terminal : Bool
  pub reason : Str
  pub next_attempt : ℕ

-- `TaskRetryConfig.WithDefaults` of engine/task_retry.go.
unfoldable pub with_defaults : TaskRetryConfig → TaskRetryConfig
with_defaults c = record c {
  score_threshold = if c.score_threshold == 0 then 60 else c.score_threshold;
  max_task_retries = if c.max_task_retries == 0 then 1 else c.max_task_retries;
}

-- `RecoveryDecision{Action: …, Terminal: …, Reason: …}`
abbrev pub decide : RecoveryAction → Bool → Str → RecoveryDecision
decide action terminal reason = record {
  action = action;
  retry_after = 0;
  retryable = false;
  terminal = terminal;
  reason = reason;
  next_attempt = 0;
}

-- A retry of the attempt after `attempt`.
abbrev pub retry_now : ℕ → Str → RecoveryDecision
retry_now attempt reason = record (decide retry false reason) {
  retryable = true;
  next_attempt = add_int attempt 1;
}

unfoldable pub decide_task_review_recovery : RecoveryRequest → RecoveryDecision
unfolding with_defaults
decide_task_review_recovery req =
    let config = with_defaults req.task_retry in
    if not req.task_retry.enabled
    then decide nothing false (codes "task_retry_disabled")
    else if sle config.max_task_retries req.attempt
    then decide nothing false (codes "max_task_retries_reached")
    else if verdict_eq req.review.verdict Verdict.unset
    then decide nothing false (codes "review_skipped")
    else if verdict_eq req.review.verdict Verdict.fail
    then retry_now req.attempt (codes "review_failed")
    else if slt req.review.overall_score config.score_threshold
    then retry_now req.attempt (codes "review_score_below_threshold")
    else decide nothing false (codes "review_passed")

unfoldable pub decide_sub_task_retry_recovery : RecoveryRequest → RecoveryDecision
decide_sub_task_retry_recovery req =
    if sle req.max_attempts 0
    then decide nothing true (codes "sub_task_retry_disabled")
    else if sle req.max_attempts req.attempt
    then decide nothing true (codes "max_sub_task_retries_reached")
    else retry_now req.attempt (codes "sub_task_retry_allowed")

unfoldable pub decide_strict_review_recovery : RecoveryRequest → RecoveryDecision
decide_strict_review_recovery req =
    if not (verdict_eq req.strict.verdict Verdict.block)
    then decide nothing false (codes "strict_review_allowed")
    else if slt req.attempt req.max_attempts
    then retry_now req.attempt (codes "strict_review_blocked")
    else decide nothing true (codes "max_strict_review_retries_reached")

abbrev pub decide_watchdog_cancel_recovery : RecoveryRequest → RecoveryDecision
decide_watchdog_cancel_recovery req = decide cancel true (codes "watchdog_context_done")

unfoldable pub decide_planner_retry_recovery : RecoveryRequest → RecoveryDecision
decide_planner_retry_recovery req =
    if sle req.max_attempts 0
    then decide fail true (codes "planner_retry_disabled")
    else if slt req.attempt req.max_attempts
    then retry_now req.attempt (codes "planner_retry")
    else decide fail true (codes "max_planner_retries_reached")

-- The switch on the mode where there is no error text.
unfoldable pub decide_by_mode : RecoveryRequest → RecoveryDecision
unfolding decide_task_review_recovery decide_sub_task_retry_recovery decide_strict_review_recovery
    decide_planner_retry_recovery
decide_by_mode req =
    if str_eq req.mode (codes "task_review")
    then decide_task_review_recovery req
    else if str_eq req.mode (codes "sub_task_retry")
    then decide_sub_task_retry_recovery req
    else if str_eq req.mode (codes "strict_review")
    then decide_strict_review_recovery req
    else if str_eq req.mode (codes "watchdog_cancel")
    then decide_watchdog_cancel_recovery req
    else if str_eq req.mode (codes "planner_retry")
    then decide_planner_retry_recovery req
    else decide nothing false (codes "no_error")

-- `time.Duration(nextAttempt*15) * time.Second`
abbrev pub back_off : ℕ → ℕ
back_off next_attempt = next_attempt * 15 % word_mod * 1000000000 % word_mod

-- `isTransientRecoveryError`
unfoldable pub is_transient_recovery_error : Str → Bool
unfolding classify_text
is_transient_recovery_error text = is_transient (classify_text text)

-- `MaxAttempts` where it is not negative.
abbrev pub not_negative : ℕ → ℕ
not_negative n = if slt n 0 then 0 else n

-- What follows an error.
unfoldable pub decide_by_error : RecoveryRequest → RecoveryDecision
unfolding is_transient_recovery_error trim_space
decide_by_error req =
    let next_attempt = add_int req.attempt 1 in
    if is_transient_recovery_error req.error_text && slt req.attempt (not_negative req.max_attempts)
    then record (retry_now req.attempt (codes "transient_error")) {
      retry_after = back_off next_attempt;
    }
    else if not (is_empty (trim_space req.fallback))
    then decide fallback false (codes "fallback_available")
    else decide fail true (codes "terminal_error")

-- `DecideRecovery`
unfoldable pub decide_recovery : RecoveryRequest → RecoveryDecision
unfolding decide_by_mode decide_by_error trim_space
decide_recovery req =
    if is_empty (trim_space req.error_text) then decide_by_mode req else decide_by_error req
