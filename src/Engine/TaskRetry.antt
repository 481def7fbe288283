-- ===== src/Engine/TaskRetry.antt =====
-- engine/task_retry.go: the second attempt of a task, with the part of the plan that it keeps. The
-- configuration and its defaults are with the recovery policy; the prompt texts are left out.
pub mod Decision
pub mod Partition
pub mod Merging
use alice_core.Prelude.{
  ℕ, suc, Bool, true, false, ◌&&◌, ◌||◌, Str, codes, trim_space, sle, is_empty, if◌then◌else◌, List,
  [], ◌∷◌, ◌++◌, Option, none, some, lookup, insert,
}
use alice_core.Hermes.Status.{SubTaskStatus, sub_task_status_eq}
use alice_core.Hermes.State.{SubTask}
use alice_core.Hermes.Accumulated.{append_result}
use alice_core.Graph.Replan.{seen_id, retry_id}
use alice_core.Engine.Review.{ReviewResult, ReviewSubTaskResult, Verdict, BackendKind}
use alice_core.Engine.Recovery.{RecoveryAction, RecoveryRequest, TaskRetryConfig, decide_recovery}

abbrev is_retry : RecoveryAction → Bool
is_retry RecoveryAction.retry = true
is_retry _ = false

-- The request of `shouldRetryTask`; the fields that it leaves out have their zero values.
abbrev pub retry_request : ReviewResult → TaskRetryConfig → ℕ → RecoveryRequest
retry_request review config attempt = record {
  mode = codes "task_review";
  attempt = attempt;
  max_attempts = 0;
  error_text = [];
  fallback = [];
  review = review;
  strict = record {
    verdict = Verdict.unset;
    matched_tags = [];
    block_tags = [];
    timed_out = false;
    used_backend = BackendKind.claude;
    retryable = false;
  };
  task_retry = config;
}

-- `shouldRetryTask`
unfoldable pub should_retry_task : ReviewResult → TaskRetryConfig → ℕ → Bool
unfolding decide_recovery
should_retry_task review config attempt =
    is_retry (decide_recovery (retry_request review config attempt)).action

pub record PartialRetryPlan : Type 0 where
  pub preserved : List SubTask
  pub failed : List SubTask
  pub accumulated : Str

abbrev pub no_plan : PartialRetryPlan
no_plan = record { preserved = []; failed = []; accumulated = [] }

abbrev pub Scores : Type 0
Scores = List (Str × ReviewSubTaskResult)

-- The loop that fills `scores`.
unfoldable pub add_scores : Scores → List ReviewSubTaskResult → Scores
unfolding insert trim_space
add_scores scores [] = scores
add_scores scores (r ∷ rs) =
    add_scores
      (if is_empty (trim_space r.sub_task_id)
        then scores
        else insert (trim_space r.sub_task_id) r scores)
      rs

-- A sub-task that was done and whose score reaches the threshold.
abbrev pub good_enough : ℕ → Option ReviewSubTaskResult → SubTask → Bool
good_enough threshold none st = false
good_enough threshold (some r) st =
    sle threshold r.score && sub_task_status_eq st.status SubTaskStatus.done

-- The loop over the plan.
unfoldable pub sort_plan : Scores → ℕ → ℕ → List SubTask → PartialRetryPlan → PartialRetryPlan
unfolding lookup append_result
sort_plan scores threshold completed [] out = out
sort_plan scores threshold completed (st ∷ plan) out =
    let kept = sort_plan scores threshold (suc completed) plan (record out {
      preserved = out.preserved ++ st ∷ [];
      accumulated = (append_result out.accumulated st.result (suc completed)).0;
    }) in
    let failed =
      sort_plan scores threshold completed plan (record out { failed = out.failed ++ st ∷ [] }) in
    if good_enough threshold (lookup st.id scores) st then kept else failed

-- The last test: a plan that keeps all or nothing is none.
abbrev pub two_sided : PartialRetryPlan → PartialRetryPlan
two_sided out = if is_empty out.preserved || is_empty out.failed then no_plan else out

-- `buildPartialRetryPlan`
unfoldable pub build_partial_retry_plan : ReviewResult → List SubTask → ℕ → PartialRetryPlan
unfolding add_scores sort_plan
build_partial_retry_plan review plan score_threshold =
    let threshold = if sle score_threshold 0 then 60 else score_threshold in
    let scores = add_scores [] review.sub_task_results in
    if is_empty review.sub_task_results || is_empty plan
    then no_plan
    else if is_empty scores
    then no_plan
    else two_sided (sort_plan scores threshold 0 plan no_plan)

abbrev pub or_pending : SubTaskStatus → SubTaskStatus
or_pending SubTaskStatus.unset = SubTaskStatus.pending
or_pending s = s

-- The ids of `preserved`, which the first loop marks as seen.
abbrev pub ids : List SubTask → List Str
ids [] = []
ids (t ∷ ts) = t.id ∷ ids ts

-- The loop over `replanned`, from the index `i`.
unfoldable pub rename_replanned : ℕ → ℕ → List Str → List SubTask → List SubTask
unfolding trim_space
rename_replanned attempt i seen [] = []
rename_replanned attempt i seen (t ∷ ts) =
    let id = if is_empty (trim_space t.id) || seen_id t.id seen then retry_id attempt i else t.id in
    record t { id = id; status = or_pending t.status }
    ∷ rename_replanned attempt (suc i) (id ∷ seen) ts

-- `mergePartialRetryPlan`
unfoldable pub merge_partial_retry_plan : List SubTask → List SubTask → ℕ → List SubTask
unfolding rename_replanned
merge_partial_retry_plan [] replanned attempt = replanned
merge_partial_retry_plan (t ∷ ts) replanned attempt =
    (t ∷ ts) ++ rename_replanned attempt 0 (ids (t ∷ ts)) replanned
