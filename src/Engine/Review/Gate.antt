-- ===== src/Engine/Review/Gate.antt =====
-- When the strict gate of engine/review.go blocks.
use alice_core.Prelude.{
  ◌≡◌, refl, ap, ◌∙◌, arith, Bool, true, false, not, ◌&&◌, ◌||◌, str_eq, str_eq→eq, sle, is_empty,
  if◌then◌else◌, if_cases, Bool-cases, ◌⊎◌, inl, inr, List, [], ◌∷◌, ◌++◌,
}
use alice_core.Engine.Review.{
  ReviewResult, ReviewSubTaskResult, StrictModeConfig, IssueTag, Verdict, verdict_eq, with_defaults,
  seen, add_tags, add_sub_task_tags, review_tags, strict_matched_block_tags,
  review_decision_from_strict_tags, sub_task_score_failing_threshold,
}

-- A tag that is not empty and in the set is in the list.
abbrev pub names_blocked : List IssueTag → List IssueTag → Bool
names_blocked block_set [] = false
names_blocked block_set (t ∷ ts) =
    (not (is_empty t) && seen t block_set) || names_blocked block_set ts

abbrev pub results_name_blocked : List IssueTag → List ReviewSubTaskResult → Bool
results_name_blocked block_set [] = false
results_name_blocked block_set (r ∷ rs) =
    names_blocked block_set r.issue_tags || results_name_blocked block_set rs

-- Strict mode is on, the review or a result of a sub-task has a blocking tag, and the reviewer has not
-- passed the work with a score of at least 80.
abbrev pub blocks : ReviewResult → StrictModeConfig → Bool
blocks review config =
    let block_set = (with_defaults config).block_tags in
    config.enabled
    && (names_blocked block_set review.issue_tags
        || results_name_blocked block_set review.sub_task_results)
    && not (
        verdict_eq review.verdict Verdict.pass
        && sle sub_task_score_failing_threshold review.overall_score)

any_in : List IssueTag → List IssueTag → Bool
any_in block_set ts = not (is_empty (strict_matched_block_tags ts block_set))

any_in-cons :
    (block_set : List IssueTag) (t : IssueTag) (ts : List IssueTag)
    → any_in block_set (t ∷ ts) ≡ (seen t block_set || any_in block_set ts)
unfolding any_in strict_matched_block_tags
any_in-cons block_set t ts = ground arith

nothing_in : (block_set : List IssueTag) → any_in block_set [] ≡ false
unfolding any_in strict_matched_block_tags
nothing_in block_set = refl

any_in-append_one :
    (block_set out : List IssueTag) (t : IssueTag)
    → any_in block_set (out ++ t ∷ []) ≡ (any_in block_set out || seen t block_set)
any_in-append_one block_set [] t = ground (arith, any_in-cons block_set t [], nothing_in block_set)
any_in-append_one block_set (u ∷ out) t = ground (
  arith,
  any_in-cons block_set u (out ++ t ∷ []),
  any_in-cons block_set u out,
  any_in-append_one block_set out t,
)

-- A tag that is in the list already adds nothing.
any_in-seen :
    (block_set out : List IssueTag) (t : IssueTag)
    → seen t out ≡ true
    → (any_in block_set out || seen t block_set) ≡ any_in block_set out
any_in-seen block_set [] t h = cc
any_in-seen block_set (u ∷ out) t h = elim (Bool-cases (str_eq u t)) [
  | inl e ↦
      ground (arith, any_in-cons block_set u out, ap (λ x. seen x block_set) (str_eq→eq u t e))
  | inr e ↦ ground (arith, any_in-cons block_set u out, any_in-seen block_set out t (ground arith))
]

any_in-add_tags :
    (block_set out ts : List IssueTag)
    → any_in block_set (add_tags out ts) ≡ (any_in block_set out || names_blocked block_set ts)
unfolding add_tags
any_in-add_tags block_set out [] = ground arith
any_in-add_tags block_set out (t ∷ ts) =
    if_cases
      (λ (o : List IssueTag). any_in block_set (add_tags o ts) ≡ (
        any_in block_set out
        || ((not (is_empty t) && seen t block_set) || names_blocked block_set ts)))
      (is_empty t || seen t out) _ _
      (λ h. any_in-add_tags block_set out ts ∙ dropped (Bool-cases (is_empty t)) h)
      (λ h. any_in-add_tags block_set _ ts ∙ ground (arith, any_in-append_one block_set out t))
  where
    dropped :
        (is_empty t ≡ true) ⊎ (is_empty t ≡ false)
        → (is_empty t || seen t out) ≡ true
        → (any_in block_set out || names_blocked block_set ts) ≡ (
            any_in block_set out
            || ((not (is_empty t) && seen t block_set) || names_blocked block_set ts))
    dropped (inl e) k = ground arith
    dropped (inr e) k = ground (arith, any_in-seen block_set out t (ground arith))

any_in-add_sub_task_tags :
    (block_set out : List IssueTag) (rs : List ReviewSubTaskResult)
    → any_in block_set (add_sub_task_tags out rs)
      ≡ (any_in block_set out || results_name_blocked block_set rs)
unfolding add_sub_task_tags
any_in-add_sub_task_tags block_set out [] = ground arith
any_in-add_sub_task_tags block_set out (r ∷ rs) =
    any_in-add_sub_task_tags block_set (add_tags out r.issue_tags) rs
    ∙ ground (arith, any_in-add_tags block_set out r.issue_tags)

any_in-review_tags :
    (block_set : List IssueTag) (review : ReviewResult)
    → not (is_empty (strict_matched_block_tags (review_tags review) block_set)) ≡ (
        names_blocked block_set review.issue_tags
        || results_name_blocked block_set review.sub_task_results)
unfolding review_tags any_in
any_in-review_tags block_set review =
    any_in-add_sub_task_tags block_set (add_tags [] review.issue_tags) review.sub_task_results
    ∙ ground (arith, any_in-add_tags block_set [] review.issue_tags, nothing_in block_set)

-- The strict gate blocks a review, and asks for a retry, exactly where strict mode is on, some tag of
-- the review or of one of its sub-tasks is a blocking one, and the reviewer has not passed the work
-- with a score of at least 80. Any other review is allowed, or passes where strict mode is off.
pub review_decision_from_strict_tags-Blocks :
    (review : ReviewResult) (config : StrictModeConfig)
    → ((review_decision_from_strict_tags review config).verdict ≡ (
        if blocks review config
        then Verdict.block
        else if config.enabled
        then Verdict.allow
        else Verdict.pass))
      × ((review_decision_from_strict_tags review config).retryable ≡ blocks review config)
unfolding review_decision_from_strict_tags
review_decision_from_strict_tags-Blocks review config =
    let tags = any_in-review_tags (with_defaults config).block_tags review in
    (ground (arith, tags), ground (arith, tags))
