-- ===== src/Engine/TaskRetry/Decision.antt =====
-- When engine/task_retry.go runs a task again.
use alice_core.Prelude.{ℕ, ◌≡◌, arith, not, ◌&&◌, ◌||◌, slt}
use alice_core.Engine.Review.{ReviewResult, Verdict, verdict_eq}
use alice_core.Engine.Recovery.{
  TaskRetryConfig, with_defaults, decide_recovery, decide_by_mode, decide_task_review_recovery,
}
use alice_core.Engine.TaskRetry.{should_retry_task}

-- `shouldRetryTask` runs a task again exactly where retries are enabled, the attempt is below the
-- limit of retries, the review has a verdict, and that is a failure or its score is below the
-- threshold; the limit and the threshold are those after the defaults.
should_retry_task_iff :
    (review : ReviewResult) (config : TaskRetryConfig) (attempt : ℕ)
    → should_retry_task review config attempt ≡ (
        config.enabled
        && slt attempt (with_defaults config).max_task_retries
        && not (verdict_eq review.verdict Verdict.unset)
        && (verdict_eq review.verdict Verdict.fail
            || slt review.overall_score (with_defaults config).score_threshold))
unfolding should_retry_task decide_recovery decide_by_mode decide_task_review_recovery
should_retry_task_iff review config attempt = ground arith
