-- ===== src/Engine/Review.antt =====
-- engine/review.go: the reviewer's result, its validation and the strict gate.
pub mod Validation
pub mod Gate
pub mod Backend
use alice_core.Prelude.{
  ℕ, ◌+◌, ◌*◌, str_lt, Bool, true, false, not, ◌&&◌, ◌||◌, Str, codes, str_eq, trim_space, slt, sle,
  ◌==◌, is_empty, if◌then◌else◌, List, [], ◌∷◌, ◌++◌, Option, none, some, length, map,
}
use alice_core.Hermes.Usage.{Cost}
use alice_core.Hermes.State.{SubTask}
use alice_core.Hermes.Status.{SubTaskStatus}

-- `ReviewVerdict`, with "" as `unset`.
pub data Verdict : Type 0 where
  unset allow block pass fail partial : Verdict
  other : Str → Verdict

-- `ReviewIssueTag`: the tags are compared as strings only.
abbrev pub IssueTag : Type 0
IssueTag = Str

pub data BackendKind : Type 0 where
  claude codex auto : BackendKind
  other : ℕ → BackendKind

pub record ReviewSubTaskResult : Type 0 where
  pub sub_task_id : Str
  pub score : ℕ
  pub feedback : Str
  pub issue_tags : List IssueTag

pub record ReviewResult : Type 0 where
  pub reviewer_model : Str
  pub verdict : Verdict
  pub overall_score : ℕ
  pub feedback : Str
  pub issue_tags : List IssueTag
  pub sub_task_results : List ReviewSubTaskResult
  pub input_tokens : ℕ
  pub output_tokens : ℕ
  pub cost_usd : Cost
  pub block_count : ℕ
  pub auto_fixed_count : ℕ

pub record StrictReviewDecision : Type 0 where
  pub verdict : Verdict
  pub matched_tags : List IssueTag
  pub block_tags : List IssueTag
  pub timed_out : Bool
  pub used_backend : BackendKind
  pub retryable : Bool

pub record StrictModeConfig : Type 0 where
  pub enabled : Bool
  pub block_tags : List IssueTag
  pub max_retries_per_sub : ℕ
  pub review_timeout : ℕ
  pub opponent_backend : BackendKind

pub record ReviewSubTaskInput : Type 0 where
  pub id : Str
  pub index : ℕ
  pub description : Str
  pub status : SubTaskStatus
  pub result : Str
  pub tool_hints : List Str

-- The part of `ReviewRequest` that the validation reads.
pub record ReviewRequest : Type 0 where
  pub plan : List SubTask
  pub sub_task_results : List ReviewSubTaskInput

abbrev pub verdict_eq : Verdict → Verdict → Bool
verdict_eq unset unset = true
verdict_eq allow allow = true
verdict_eq block block = true
verdict_eq pass pass = true
verdict_eq fail fail = true
verdict_eq partial partial = true
verdict_eq (other a) (other b) = str_eq a b
verdict_eq _ _ = false

abbrev pub sub_task_score_failing_threshold : ℕ
sub_task_score_failing_threshold = 80

abbrev pub default_strict_block_tags : List IssueTag
default_strict_block_tags =
    codes "missing_validation"
    ∷ codes "missing_runtime_validation"
    ∷ codes "runtime_packaging_not_verified"
    ∷ codes "scope_creep"
    ∷ codes "incomplete_traceability"
    ∷ []

-- 120 seconds.
abbrev pub default_review_timeout : ℕ
default_review_timeout = 120 * 1000000000

abbrev pub opponent_or_auto : BackendKind → BackendKind
opponent_or_auto codex = codex
opponent_or_auto _ = auto

-- `StrictModeConfig.WithDefaults`
unfoldable pub with_defaults : StrictModeConfig → StrictModeConfig
with_defaults c = record c {
  block_tags = if is_empty c.block_tags then default_strict_block_tags else c.block_tags;
  max_retries_per_sub = if sle c.max_retries_per_sub 0 then 2 else c.max_retries_per_sub;
  review_timeout = if sle c.review_timeout 0 then default_review_timeout else c.review_timeout;
  opponent_backend = opponent_or_auto c.opponent_backend;
}

-- Membership in a set of strings that is kept as a list.
abbrev pub seen : Str → List Str → Bool
seen x [] = false
seen x (y ∷ ys) = str_eq y x || seen x ys

-- The closure `add` of `ReviewTags` on `out`, which has the members of `seen`.
unfoldable pub add_tags : List IssueTag → List IssueTag → List IssueTag
add_tags out [] = out
add_tags out (t ∷ ts) = add_tags (if is_empty t || seen t out then out else out ++ t ∷ []) ts

unfoldable pub add_sub_task_tags : List IssueTag → List ReviewSubTaskResult → List IssueTag
unfolding add_tags
add_sub_task_tags out [] = out
add_sub_task_tags out (r ∷ rs) = add_sub_task_tags (add_tags out r.issue_tags) rs

-- `ReviewTags`
unfoldable pub review_tags : ReviewResult → List IssueTag
unfolding add_sub_task_tags
review_tags r = add_sub_task_tags (add_tags [] r.issue_tags) r.sub_task_results

-- `strictMatchedBlockTags`
unfoldable pub strict_matched_block_tags : List IssueTag → List IssueTag → List IssueTag
strict_matched_block_tags [] block_set = []
strict_matched_block_tags (t ∷ ts) block_set =
    let rest = strict_matched_block_tags ts block_set in if seen t block_set then t ∷ rest else rest

-- `ReviewDecisionFromStrictTags`
unfoldable pub review_decision_from_strict_tags :
    ReviewResult → StrictModeConfig → StrictReviewDecision
unfolding review_tags strict_matched_block_tags with_defaults
review_decision_from_strict_tags review config =
    let c = with_defaults config in
    let tags = review_tags review in
    let blocked = strict_matched_block_tags tags c.block_tags in
    let signed_off =
      verdict_eq review.verdict pass && sle sub_task_score_failing_threshold review.overall_score in
    if not c.enabled
    then record {
      verdict = pass;
      matched_tags = [];
      block_tags = [];
      timed_out = false;
      used_backend = claude;
      retryable = false;
    }
    else record {
      verdict = if not (is_empty blocked) && not signed_off then block else allow;
      matched_tags = tags;
      block_tags = blocked;
      timed_out = false;
      used_backend = c.opponent_backend;
      retryable = not (is_empty blocked) && not signed_off;
    }

abbrev pub valid : Verdict → Bool
valid unset = false
valid (other s) = false
valid _ = true

pub data ReviewError : Type 0 where
  invalid_verdict : Verdict → ReviewError
  score_out_of_range pass_needs_score fail_needs_score : ℕ → ReviewError
  sub_task_score_out_of_range : Str → ℕ → ReviewError
  expected_results : ℕ → ReviewError
  wrong_count : ℕ → ℕ → ReviewError
  empty_request_id : ReviewError
  missing_id : ℕ → ReviewError
  unexpected_id : Str → ReviewError
  missing_results : List Str → ReviewError

-- `score < 0 || score > 100`
abbrev pub bad_score : ℕ → Bool
bad_score n = slt n 0 || slt 100 n

-- The loop of `Validate` over the sub-task results.
unfoldable pub bad_sub_task : List ReviewSubTaskResult → Option ReviewError
bad_sub_task [] = none
bad_sub_task (r ∷ rs) =
    let rest = bad_sub_task rs in
    if bad_score r.score then some (sub_task_score_out_of_range r.sub_task_id r.score) else rest

-- `Validate`
unfoldable pub validate : ReviewResult → Option ReviewError
unfolding bad_sub_task
validate r =
    if not (valid r.verdict)
    then some (invalid_verdict r.verdict)
    else if bad_score r.overall_score
    then some (score_out_of_range r.overall_score)
    else if verdict_eq r.verdict pass && slt r.overall_score 70
    then some (pass_needs_score r.overall_score)
    else if verdict_eq r.verdict fail && sle 70 r.overall_score
    then some (fail_needs_score r.overall_score)
    else bad_sub_task r.sub_task_results

-- `requestedReviewSubTasks`, of which the validation reads only the ids.
unfoldable pub requested_review_sub_tasks : ReviewRequest → List Str
unfolding trim_space
requested_review_sub_tasks req =
    if is_empty req.sub_task_results
    then map (λ t. t.id) req.plan
    else map (λ t. trim_space t.id) req.sub_task_results

-- The keys of the map `expectedByID`.
unfoldable pub key_set : List Str → List Str
key_set [] = []
key_set (x ∷ xs) = let rest = key_set xs in if seen x rest then rest else x ∷ rest

-- `delete(expectedByID, id)`
unfoldable pub delete : Str → List Str → List Str
delete x [] = []
delete x (y ∷ ys) = let rest = delete x ys in if str_eq y x then ys else y ∷ rest

-- The loop over the results: the ids that are left over, or an error.
pub data Matched : Type 0 where
  left_over : List Str → Matched
  refused : ReviewError → Matched

unfoldable pub match_results : ℕ → List Str → List ReviewSubTaskResult → Matched
unfolding trim_space delete
match_results i expected [] = left_over expected
match_results i expected (r ∷ rs) =
    let id = trim_space r.sub_task_id in
    let rest = match_results (i + 1) (delete id expected) rs in
    if is_empty id
    then refused (missing_id i)
    else if seen id expected
    then rest
    else refused (unexpected_id id)

-- `sort.Strings`, by insertion.
abbrev insert_id : Str → List Str → List Str
insert_id x [] = x ∷ []
insert_id x (y ∷ ys) = let rest = insert_id x ys in if str_lt y x then y ∷ rest else x ∷ y ∷ ys

abbrev pub sort_ids : List Str → List Str
sort_ids [] = []
sort_ids (x ∷ xs) = insert_id x (sort_ids xs)

abbrev pub all_matched : Matched → Option ReviewError
all_matched (refused e) = some e
all_matched (left_over []) = none
all_matched (left_over (x ∷ xs)) = some (missing_results (sort_ids (x ∷ xs)))

-- `ValidateForRequest` past `Validate`, for the requested ids.
unfoldable pub validate_ids : List Str → List ReviewSubTaskResult → Option ReviewError
unfolding match_results key_set
validate_ids requested results =
    let ids = map trim_space requested in
    if is_empty requested
    then none
    else if is_empty results
    then some (expected_results (length requested))
    else if not (length results == length requested)
    then some (wrong_count (length requested) (length results))
    else if seen [] ids
    then some empty_request_id
    else all_matched (match_results 0 (key_set ids) results)

-- `ValidateForRequest`
unfoldable pub validate_for_request : ReviewResult → ReviewRequest → Option ReviewError
unfolding validate validate_ids requested_review_sub_tasks
validate_for_request r req = elim (validate r) [
  | some e ↦ some e
  | none ↦ validate_ids (requested_review_sub_tasks req) r.sub_task_results
]
