-- ===== src/Engine/TaskRetry/Partition.antt =====
-- Which sub-tasks engine/task_retry.go keeps.
use alice_core.Prelude.{
  ℕ, suc, ◌≤◌, ◌≡◌, refl, sym, ap, ◌∙◌, ◌⊎◌, inl, inr, arith, Bool, true, false, not, ◌&&◌, ◌||◌,
  Str, str_eq, trim_space, sle, is_empty, if◌then◌else◌, if_cases, Bool-cases, List, [], ◌∷◌, ◌++◌,
  append-nil, append_assoc, length, Option, none, some, ◌orelse◌, orelse_none, lookup, insert,
  lookup-insert,
}
use alice_core.Hermes.Status.{SubTaskStatus, sub_task_status_eq}
use alice_core.Hermes.State.{SubTask}
use alice_core.Hermes.Accumulated.{append_result, cheap_path_max_bytes}
use alice_core.Hermes.Accumulated.Bounds.{append_result-le}
use alice_core.Engine.Review.{ReviewResult, ReviewSubTaskResult}
use alice_core.Engine.TaskRetry.{
  PartialRetryPlan, no_plan, Scores, add_scores, good_enough, sort_plan, two_sided,
  build_partial_retry_plan,
}

-- The last result whose trimmed id is `id`, which is not empty.
abbrev pub last_result : Str → List ReviewSubTaskResult → Option ReviewSubTaskResult
last_result id [] = none
last_result id (r ∷ rs) =
    last_result id rs
    orelse (if not (is_empty (trim_space r.sub_task_id)) && str_eq (trim_space r.sub_task_id) id
        then some r
        else none)

-- The elements of a list that pass a test, in order.
abbrev pub select : (SubTask → Bool) → List SubTask → List SubTask
select p [] = []
select p (t ∷ ts) = let rest = select p ts in if p t then t ∷ rest else rest

abbrev pub threshold_of : ℕ → ℕ
threshold_of n = if sle n 0 then 60 else n

abbrev is_done : SubTaskStatus → Bool
is_done SubTaskStatus.done = true
is_done _ = false

is_done-eq : (s : SubTaskStatus) → sub_task_status_eq s SubTaskStatus.done ≡ is_done s
is_done-eq SubTaskStatus.done = refl
is_done-eq _ = refl

-- The result reaches the threshold and the sub-task was done.
abbrev pub passes : ℕ → Option ReviewSubTaskResult → SubTask → Bool
passes threshold none st = false
passes threshold (some r) st = sle threshold r.score && is_done st.status

-- The review's last result for the sub-task is good enough, and the sub-task was done.
abbrev pub is_kept : ReviewResult → ℕ → SubTask → Bool
is_kept review n st = passes (threshold_of n) (last_result st.id review.sub_task_results) st

good_enough-passes :
    (threshold : ℕ) (o : Option ReviewSubTaskResult) (st : SubTask)
    → good_enough threshold o st ≡ passes threshold o st
good_enough-passes threshold none st = refl
good_enough-passes threshold (some r) st =
    ap (λ b. sle threshold r.score && b) (is_done-eq st.status)

orelse_assoc : {A : Type 0} (a b c : Option A) → ((a orelse b) orelse c) ≡ (a orelse (b orelse c))
orelse_assoc none b c = refl
orelse_assoc (some a) b c = refl

-- One result, added to the scores.
lookup-add_score :
    (id key : Str) (r : ReviewSubTaskResult) (scores : Scores)
    → lookup id (if is_empty key then scores else insert key r scores)
      ≡ ((if not (is_empty key) && str_eq key id then some r else none) orelse lookup id scores)
lookup-add_score id key r scores = elim (Bool-cases (is_empty key)) [
  | inl e ↦ rw e refl
  | inr e ↦ rw (e, lookup-insert key id r scores) (found (str_eq key id) (lookup id scores))
]
  where
    found :
        (b : Bool) (o : Option ReviewSubTaskResult)
        → (if b then some r else o) ≡ ((if b then some r else none) orelse o)
    found true o = refl
    found false o = refl

lookup-add_scores :
    (id : Str) (rs : List ReviewSubTaskResult) (scores : Scores)
    → lookup id (add_scores scores rs) ≡ (last_result id rs orelse lookup id scores)
unfolding add_scores
lookup-add_scores id [] scores = refl
lookup-add_scores id (r ∷ rs) scores =
    lookup-add_scores id rs _
    ∙ ap (λ o. last_result id rs orelse o) (lookup-add_score id (trim_space r.sub_task_id) r scores)
    ∙ sym (orelse_assoc (last_result id rs) _ (lookup id scores))

-- What the loop over the plan adds to a partial plan.
record Sorted (p : SubTask → Bool) (plan : List SubTask) (out new : PartialRetryPlan) : Type 0 where
  kept : new.preserved ≡ out.preserved ++ select p plan
  left : new.failed ≡ out.failed ++ select (λ t. not (p t)) plan
  small :
      length out.accumulated ≤ cheap_path_max_bytes → length new.accumulated ≤ cheap_path_max_bytes

sort_plan-Sorted :
    (scores : Scores) (threshold : ℕ) (p : SubTask → Bool)
    → ((st : SubTask) → good_enough threshold (lookup st.id scores) st ≡ p st)
    → (plan : List SubTask) (completed : ℕ) (out : PartialRetryPlan)
    → Sorted p plan out (sort_plan scores threshold completed plan out)
unfolding sort_plan
sort_plan-Sorted scores threshold p same [] completed out = record {
  kept = sym (append-nil out.preserved);
  left = sym (append-nil out.failed);
  small = λ h. h;
}
sort_plan-Sorted scores threshold p same (st ∷ plan) completed out =
    let text = append_result out.accumulated st.result (suc completed) in
    if_cases (Sorted p (st ∷ plan) out) (good_enough threshold (lookup st.id scores) st) _ _
      (λ h.
        let kept : p st ≡ true = sym (same st) ∙ h in
        let later =
          sort_plan-Sorted scores threshold p same plan (suc completed)
            (record out { preserved = out.preserved ++ st ∷ []; accumulated = text.0 }) in
        record {
          kept = rw kept (later.kept ∙ append_assoc out.preserved (st ∷ []) (select p plan));
          left = rw kept later.left;
          small = λ n. later.small (append_result-le out.accumulated st.result (suc completed) n);
        })
      (λ h.
        let left : p st ≡ false = sym (same st) ∙ h in
        let later =
          sort_plan-Sorted scores threshold p same plan completed
            (record out { failed = out.failed ++ st ∷ [] }) in
        record {
          kept = rw left later.kept;
          left =
              rw left
                (later.left ∙ append_assoc out.failed (st ∷ []) (select (λ t. not (p t)) plan));
          small = later.small;
        })

-- A partial retry keeps the sub-tasks that were good enough and has the others planned again, each
-- in the plan's order and neither without members, with a summary within the cheap limit; or one
-- of the two has no members, and there is no partial retry.
abbrev pub Partitioned : (SubTask → Bool) → List SubTask → PartialRetryPlan → Type 0
Partitioned p plan out =
    ((out.preserved ≡ select p plan)
      × (out.failed ≡ select (λ t. not (p t)) plan)
      × (is_empty out.preserved ≡ false)
      × (is_empty out.failed ≡ false)
      × (length out.accumulated ≤ cheap_path_max_bytes))
    ⊎ (((select p plan ≡ []) ⊎ (select (λ t. not (p t)) plan ≡ [])) × (out ≡ no_plan))

empty_nil : {A : Type 0} (xs : List A) → is_empty xs ≡ true → xs ≡ []
empty_nil [] h = refl
empty_nil (x ∷ xs) h = ground arith

two_sided-Partitioned :
    (p : SubTask → Bool) (plan : List SubTask) (out : PartialRetryPlan)
    → Sorted p plan no_plan out
    → Partitioned p plan (two_sided out)
two_sided-Partitioned p plan out sorted =
    if_cases (Partitioned p plan) (is_empty out.preserved || is_empty out.failed) _ _
      (λ h. elim (Bool-cases (is_empty out.preserved)) [
        | inl e ↦ inr (inl (sym sorted.kept ∙ empty_nil out.preserved e), refl)
        | inr e ↦ inr (inr (sym sorted.left ∙ empty_nil out.failed (ground arith)), refl)
      ])
      (λ h. inl (sorted.kept, sorted.left, ground arith, ground arith, sorted.small (omega arith)))

select_none :
    (p : SubTask → Bool)
    → ((t : SubTask) → p t ≡ false)
    → (plan : List SubTask) → select p plan ≡ []
select_none p none_passes [] = refl
select_none p none_passes (t ∷ ts) = rw (none_passes t) (select_none p none_passes ts)

-- `buildPartialRetryPlan` keeps exactly the sub-tasks that were done and whose last result in the
-- review has a score of at least the threshold, 60 if that is not positive. The others are to be
-- planned again, both in the plan's order, and the summary of the results it keeps is within 3072
-- bytes. Where that keeps nothing, or everything, there is no partial retry.
pub build_partial_retry_plan-Partitioned :
    (review : ReviewResult) (plan : List SubTask) (score_threshold : ℕ)
    → Partitioned
        (is_kept review score_threshold)
        plan
        (build_partial_retry_plan review plan score_threshold)
unfolding build_partial_retry_plan lookup
build_partial_retry_plan-Partitioned review plan score_threshold =
    let p = is_kept review score_threshold in
    let P = Partitioned p plan in
    let rs = review.sub_task_results in
    let scores = add_scores [] rs in
    let found : (id : Str) → lookup id scores ≡ last_result id rs =
      λ id. lookup-add_scores id rs [] ∙ orelse_none (last_result id rs) in
    let same : (st : SubTask)
        → good_enough (threshold_of score_threshold) (lookup st.id scores) st ≡ p st =
      λ st.
        ap (λ o. good_enough (threshold_of score_threshold) o st) (found st.id)
        ∙ good_enough-passes (threshold_of score_threshold) (last_result st.id rs) st in
    if_cases P (is_empty rs || is_empty plan) _ _
      (λ h. elim (Bool-cases (is_empty plan)) [
        | inl e ↦ inr (inl (ap (select p) (empty_nil plan e)), refl)
        | inr e ↦ inr (
          inl (
              select_none p
                (λ st.
                  ap (λ r. passes (threshold_of score_threshold) (last_result st.id r) st)
                    (empty_nil rs (ground arith)))
                plan),
          refl,
        )
      ])
      (λ _.
        if_cases P (is_empty scores) _ _
          (λ h. inr (
            inl (
                select_none p
                  (λ st.
                    sym (same st)
                    ∙ ap (λ s. good_enough (threshold_of score_threshold) (lookup st.id s) st)
                        (empty_nil scores h))
                  plan),
            refl,
          ))
          (λ _.
            two_sided-Partitioned p plan _
              (sort_plan-Sorted scores (threshold_of score_threshold) p same plan 0 no_plan)))
