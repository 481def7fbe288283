-- ===== src/IssueOps/Close/Guard.antt =====
-- When issueops/service.go closes an issue.
use alice_core.Prelude.{
  ◌≡◌, refl, subst, ◌∙◌, arith, Bool, true, false, not, ◌&&◌, ◌||◌, Str, codes, str_eq, trim_space,
  to_lower, is_empty, is_some, if◌then◌else◌, if_cases, List, [], ◌∷◌, ◌++◌, Option, none, some,
}
use alice_core.Hermes.IssueState.{can_auto_close}
use alice_core.IssueOps.Checklist.{ChecklistItem, IssueContext}
use alice_core.IssueOps.Close.{
  EqualFold, IssueReconciliation, count_items, reconcile_issue_completion, has_label,
  AssessCloseReadinessRequest, CloseReadinessResult, close_state, build_close_readiness, Fetched,
  fetched, unavailable, Closing, assess_close_readiness, after_assessment, after_closing,
  close_issue,
}

abbrev pub all_checked : List ChecklistItem → Bool
all_checked [] = true
all_checked (c ∷ cs) = c.checked && all_checked cs

-- The issue is open, is not blocked and has all items checked, the review is accepted and the
-- validation passed, and the required label is there if one is required.
abbrev pub may_close : EqualFold → IssueContext → AssessCloseReadinessRequest → Bool
may_close fold issue req =
    not (str_eq (to_lower (trim_space issue.state)) (codes "closed"))
    && not (str_eq (to_lower (trim_space issue.state)) (codes "blocked"))
    && not (has_label fold issue (codes "blocked"))
    && all_checked issue.checklist
    && req.review_accepted
    && req.validation_passed
    && (is_empty req.required_close_label || has_label fold issue req.required_close_label)

abbrev pub fetched_may_close : EqualFold → Fetched → AssessCloseReadinessRequest → Bool
fetched_may_close fold (fetched issue) req = may_close fold issue req
fetched_may_close fold (unavailable e) req = false

abbrev pub fetch_error : Fetched → Option Str
fetch_error (fetched issue) = none
fetch_error (unavailable e) = some e

is_empty-append_one : {A : Type 0} (xs : List A) (x : A) → is_empty (xs ++ x ∷ []) ≡ false
is_empty-append_one [] x = refl
is_empty-append_one (y ∷ xs) x = refl

count_items-unchecked :
    (cs : List ChecklistItem) (r : IssueReconciliation)
    → is_empty (count_items cs r).unchecked ≡ (is_empty r.unchecked && all_checked cs)
unfolding count_items
count_items-unchecked [] r = ground arith
count_items-unchecked (c ∷ cs) r =
    if_cases
      (λ (x : IssueReconciliation).
        is_empty (count_items cs x).unchecked
        ≡ (is_empty r.unchecked && (c.checked && all_checked cs)))
      c.checked _ _ (λ h. count_items-unchecked cs _ ∙ ground arith)
      (λ h. count_items-unchecked cs _ ∙ ground (arith, is_empty-append_one r.unchecked c))

unchecked-all_checked :
    (issue : IssueContext)
    → is_empty (reconcile_issue_completion (some issue)).unchecked ≡ all_checked issue.checklist
unfolding reconcile_issue_completion
unchecked-all_checked issue = count_items-unchecked issue.checklist _

can_auto_close-may_close :
    (fold : EqualFold) (issue : IssueContext) (req : AssessCloseReadinessRequest)
    → (build_close_readiness fold (some issue) req).can_auto_close ≡ may_close fold issue req
unfolding build_close_readiness close_state can_auto_close
can_auto_close-may_close fold issue req = ground (arith, unchecked-all_checked issue)

build_close_readiness-closed :
    (fold : EqualFold) (issue : IssueContext) (req : AssessCloseReadinessRequest)
    → (build_close_readiness fold (some issue) req).closed ≡ false
unfolding build_close_readiness
build_close_readiness-closed fold issue req = refl

-- What a call of `CloseIssue` gives, by whether GitHub was asked.
abbrev pub Closes : Bool → Option Str → Option Str → Closing → Type 0
Closes may answer failure c =
    (c.asked ≡ may)
    × (c.readiness.closed ≡ (may && not (is_some answer)))
    × (c.error ≡ (if may then answer else failure))

after_assessment-Closes :
    (r : CloseReadinessResult) (dry_run : Bool) (answer : Option Str)
    → r.closed ≡ false
    → Closes
        (not dry_run && r.can_auto_close)
        answer
        none
        (after_assessment dry_run answer (r, none))
after_assessment-Closes r dry_run answer h =
    if_cases (Closes (not dry_run && r.can_auto_close) answer none)
      (dry_run || not r.can_auto_close) _ _ (λ e. (ground arith, ground arith, ground arith))
      (λ e. by_answer answer (ground arith))
  where
    by_answer :
        (a : Option Str)
        → (not dry_run && r.can_auto_close) ≡ true
        → Closes (not dry_run && r.can_auto_close) a none (after_closing r a)
    by_answer none e = rw e (refl, refl, refl)
    by_answer (some x) e = rw e (refl, h, refl)

-- `CloseIssue` asks GitHub to close the issue exactly where it is no dry run and the fetched issue is
-- neither closed nor blocked, by state or by label, has every item checked, the review was accepted,
-- the validation passed, and the required label, if there is one, is on the issue. It reports the
-- issue as closed exactly where it asked and got no error, and returns the error of that call, or
-- that of the fetch.
pub close_issue-Closes :
    (fold : EqualFold) (fetch : Fetched) (answer : Option Str) (req : AssessCloseReadinessRequest)
    (dry_run : Bool)
    → Closes
        (not dry_run && fetched_may_close fold fetch req)
        answer
        (fetch_error fetch)
        (close_issue fold fetch answer req dry_run)
unfolding close_issue assess_close_readiness
close_issue-Closes fold (fetched issue) answer req dry_run =
    let r = build_close_readiness fold (some issue) req in
    subst (λ b. Closes (not dry_run && b) answer none (after_assessment dry_run answer (r, none)))
      (can_auto_close-may_close fold issue req)
      (after_assessment-Closes r dry_run answer (build_close_readiness-closed fold issue req))
close_issue-Closes fold (unavailable e) answer req true = (refl, refl, refl)
close_issue-Closes fold (unavailable e) answer req false = (refl, refl, refl)
