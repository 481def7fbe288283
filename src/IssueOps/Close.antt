-- ===== src/IssueOps/Close.antt =====
-- Closing an issue in issueops/service.go. `strings.EqualFold`, which compares labels, and the calls
-- of GitHub are parameters; the notes, which are text for a person, are left out.
pub mod Guard
use alice_core.Prelude.{
  ℕ, suc, ◌+◌, Bool, true, false, not, ◌&&◌, ◌||◌, Str, codes, str_eq, trim_space, to_lower,
  is_empty, is_some, if◌then◌else◌, List, [], ◌∷◌, ◌++◌, Option, none, some, length,
}
use alice_core.Hermes.IssueState.{IssueState, IssueCloseReadiness, can_auto_close, state_eq}
use alice_core.IssueOps.Checklist.{ChecklistItem, IssueContext}
use alice_core.IssueOps.Completion.{recent_successful_hermes_completion}

-- hermes/github.go
pub record IssueReconciliation : Type 0 where
  pub issue_number : ℕ
  pub issue_state : Str
  pub checklist_total : ℕ
  pub checked_count : ℕ
  pub unchecked : List ChecklistItem

abbrev no_reconciliation : IssueReconciliation
no_reconciliation = record {
  issue_number = 0;
  issue_state = [];
  checklist_total = 0;
  checked_count = 0;
  unchecked = [];
}

-- The loop of `ReconcileIssueCompletion`.
unfoldable pub count_items : List ChecklistItem → IssueReconciliation → IssueReconciliation
count_items [] r = r
count_items (c ∷ cs) r = count_items cs (
    if c.checked
    then record r { checked_count = r.checked_count + 1 }
    else record r { unchecked = r.unchecked ++ c ∷ [] })

-- `ReconcileIssueCompletion`, where `none` is the nil issue.
unfoldable pub reconcile_issue_completion : Option IssueContext → IssueReconciliation
unfolding count_items
reconcile_issue_completion none = no_reconciliation
reconcile_issue_completion (some issue) = count_items issue.checklist (record {
  issue_number = issue.number;
  issue_state = issue.state;
  checklist_total = length issue.checklist;
  checked_count = 0;
  unchecked = [];
})

-- `HasUnchecked`
abbrev pub has_unchecked : IssueReconciliation → Bool
has_unchecked r = not (is_empty r.unchecked)

abbrev pub EqualFold : Type 0
EqualFold = Str → Str → Bool

abbrev pub label_among : EqualFold → Str → List Str → Bool
label_among fold label [] = false
label_among fold label (l ∷ ls) = fold l label || label_among fold label ls

-- `HasLabel` of hermes/github.go.
abbrev pub has_label : EqualFold → IssueContext → Str → Bool
has_label fold issue label = label_among fold label issue.labels

pub record IssueOperationRecovery : Type 0 where
  pub state : IssueState
  pub operation : Str
  pub retry_action : Str
  pub retryable : Bool
  pub message : Str
  pub error : Str

-- `blockedRecovery` for an error that is not nil.
unfoldable pub blocked_recovery : Str → Str → Str → IssueOperationRecovery
unfolding trim_space
blocked_recovery operation retry_action error = record {
  state = IssueState.blocked;
  operation = trim_space operation;
  retry_action = trim_space retry_action;
  retryable = true;
  message = trim_space operation ++ codes " failed; issue moved to blocked";
  error = error;
}

pub record AssessCloseReadinessRequest : Type 0 where
  pub project_dir : Str
  pub issue_number : ℕ
  pub required_close_label : Str
  pub review_accepted : Bool
  pub validation_passed : Bool

pub record CloseReadinessResult : Type 0 where
  pub issue : Option IssueContext
  pub reconciliation : IssueReconciliation
  pub state : IssueState
  pub guard : IssueCloseReadiness
  pub required_close_label : Str
  pub has_required_label : Bool
  pub can_auto_close : Bool
  pub closed : Bool
  pub recovery : Option IssueOperationRecovery

abbrev pub no_guard : IssueCloseReadiness
no_guard = record {
  state = IssueState.unset;
  has_blocking_label = false;
  checklist_synced = false;
  review_accepted = false;
  validation_passed = false;
  has_unchecked_required_items = false;
}

-- The switches on the issue: its state, and whether it has the required label.
unfoldable pub close_state :
    EqualFold → IssueContext → AssessCloseReadinessRequest → IssueState × Bool
unfolding reconcile_issue_completion recent_successful_hermes_completion trim_space
close_state fold issue req =
    let raw = to_lower (trim_space issue.state) in
    if str_eq raw (codes "closed")
    then (IssueState.closed, true)
    else if str_eq raw (codes "blocked")
    then (IssueState.blocked, true)
    else if has_label fold issue (codes "blocked")
    then (IssueState.blocked, true)
    else if has_unchecked (reconcile_issue_completion (some issue))
    then (
      if is_some (recent_successful_hermes_completion issue)
          then IssueState.checklist_unsynced
          else IssueState.evidence_collected,
      true,
    )
    else if not req.review_accepted || not req.validation_passed
    then (IssueState.blocked, true)
    else if is_empty req.required_close_label
    then (IssueState.ready_to_close, true)
    else if has_label fold issue req.required_close_label
    then (IssueState.ready_to_close, true)
    else (IssueState.checklist_synced, false)

-- `buildCloseReadiness`
unfoldable pub build_close_readiness :
    EqualFold → Option IssueContext → AssessCloseReadinessRequest → CloseReadinessResult
unfolding close_state reconcile_issue_completion can_auto_close trim_space
build_close_readiness fold none req = record {
  issue = none;
  reconciliation = reconcile_issue_completion none;
  state = IssueState.blocked;
  guard = no_guard;
  required_close_label = trim_space req.required_close_label;
  has_required_label = true;
  can_auto_close = false;
  closed = false;
  recovery = none;
}
build_close_readiness fold (some issue) req =
    let rec = reconcile_issue_completion (some issue) in
    let (state, has_required) = close_state fold issue req in
    let guard : IssueCloseReadiness = record {
      state = state;
      has_blocking_label = has_label fold issue (codes "blocked");
      checklist_synced = not (has_unchecked rec);
      review_accepted = req.review_accepted;
      validation_passed = req.validation_passed;
      has_unchecked_required_items = has_unchecked rec;
    } in
    record {
      issue = some issue;
      reconciliation = rec;
      state = state;
      guard = guard;
      required_close_label = trim_space req.required_close_label;
      has_required_label = has_required;
      can_auto_close =
          if state_eq state IssueState.closed then false else can_auto_close guard && has_required;
      closed = false;
      recovery = none;
    }

-- What `FetchIssue` gives: an issue or the text of an error.
pub data Fetched : Type 0 where
  fetched : IssueContext → Fetched
  unavailable : Str → Fetched

-- A result, the error that is returned with it, and whether GitHub was asked to close the issue.
pub record Closing : Type 0 where
  pub readiness : CloseReadinessResult
  pub error : Option Str
  pub asked : Bool

-- `AssessCloseReadiness`, on what the fetch gave.
unfoldable pub assess_close_readiness :
    EqualFold → Fetched → AssessCloseReadinessRequest → CloseReadinessResult × Option Str
unfolding build_close_readiness blocked_recovery
assess_close_readiness fold (fetched issue) req =
    (build_close_readiness fold (some issue) req, none)
assess_close_readiness fold (unavailable e) req = (
  record {
    issue = none;
    reconciliation = no_reconciliation;
    state = IssueState.blocked;
    guard = no_guard;
    required_close_label = [];
    has_required_label = false;
    can_auto_close = false;
    closed = false;
    recovery = some (blocked_recovery (codes "close") (codes "retry-close") e);
  },
  some e,
)

-- The call of GitHub, which answers with an error or nothing.
abbrev pub after_closing : CloseReadinessResult → Option Str → Closing
after_closing r (some e) = record {
  readiness = record r {
    state = IssueState.blocked;
    can_auto_close = false;
    recovery = some (blocked_recovery (codes "close") (codes "retry-close") e);
  };
  error = some e;
  asked = true;
}
after_closing r none = record {
  readiness = record r { state = IssueState.closed; closed = true };
  error = none;
  asked = true;
}

abbrev pub after_assessment : Bool → Option Str → CloseReadinessResult × Option Str → Closing
after_assessment dry_run answer (r, some e) = record {
  readiness = r;
  error = some e;
  asked = false;
}
after_assessment dry_run answer (r, none) =
    if dry_run || not r.can_auto_close
    then record { readiness = r; error = none; asked = false }
    else after_closing r answer

-- `CloseIssue`, with what the fetch gave and what closing would answer.
unfoldable pub close_issue :
    EqualFold → Fetched → Option Str → AssessCloseReadinessRequest → Bool → Closing
unfolding assess_close_readiness
close_issue fold fetch answer req dry_run =
    after_assessment dry_run answer (assess_close_readiness fold fetch req)
