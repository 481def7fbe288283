-- ===== src/Examples/Gates.antt =====
-- The strict gate on concrete reviews.
use alice_core.Prelude.{◌≡◌, true, codes, [], ◌∷◌}
use alice_core.Engine.Review.{
  with_defaults, ReviewResult, StrictModeConfig, BackendKind, Verdict,
  review_decision_from_strict_tags,
}
use alice_core.Engine.Review.Gate.{review_decision_from_strict_tags-Blocks}
use alice_core.Examples.Policies.{review}

abbrev scope_creep : ReviewResult
scope_creep = record review { issue_tags = codes "scope_creep" ∷ [] }

abbrev strict_mode : StrictModeConfig
strict_mode = record {
  enabled = true;
  block_tags = [];
  max_retries_per_sub = 0;
  review_timeout = 0;
  opponent_backend = BackendKind.claude;
}

review_decision_from_strict_tags-Blocks_example :
    ((review_decision_from_strict_tags scope_creep strict_mode).verdict ≡ Verdict.block)
    × ((review_decision_from_strict_tags scope_creep strict_mode).retryable ≡ true)
unfolding with_defaults
review_decision_from_strict_tags-Blocks_example =
    review_decision_from_strict_tags-Blocks scope_creep strict_mode
