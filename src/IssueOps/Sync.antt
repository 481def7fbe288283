-- ===== src/IssueOps/Sync.antt =====
-- `SyncChecklist` of issueops/service.go, which writes the ticked checklist to an issue. The notes and
-- reasons, which are text for a person, are left out.
use alice_core.Prelude.{
  ℕ, Bool, true, false, not, ◌&&◌, ◌||◌, Str, codes, sle, is_empty, if◌then◌else◌, List, Option,
  none, some,
}
use alice_core.Hermes.State.{SubTask}
use alice_core.Hermes.IssueState.{IssueState, state_eq, issue_state_from_git_hub}
use alice_core.IssueOps.Checklist.{IssueContext, ChecklistMappingResult}
use alice_core.IssueOps.Body.{TextFolds}
use alice_core.IssueOps.Close.{
  Fetched, fetched, unavailable, IssueOperationRecovery, blocked_recovery, has_label,
}
use alice_core.IssueOps.Preview.{ChecklistSyncPreview, build_checklist_sync_preview}

pub record ChecklistSyncGuard : Type 0 where
  pub issue_state : IssueState
  pub has_blocking_label : Bool
  pub has_completed_items : Bool
  pub has_body_change : Bool
  pub needs_human_confirmation : Bool

-- `CanWrite`
abbrev pub can_write : ChecklistSyncGuard → Bool
can_write g =
    not (state_eq g.issue_state IssueState.closed)
    && not (state_eq g.issue_state IssueState.blocked)
    && not g.has_blocking_label
    && g.has_completed_items
    && g.has_body_change
    && not g.needs_human_confirmation

pub data SyncOutcome : Type 0 where
  unknown wrote dry_run no_match no_change needs_human issue_state failed load_failed : SyncOutcome

pub record SyncChecklistRequest : Type 0 where
  pub issue_number : ℕ
  pub sub_tasks : List SubTask
  pub dry_run : Bool
  pub checklist_mapping : Option ChecklistMappingResult
  pub require_human_decision : Bool

pub record SyncChecklistResult : Type 0 where
  pub issue : Option IssueContext
  pub state : IssueState
  pub dry_run : Bool
  pub guard : Option ChecklistSyncGuard
  pub preview : Option ChecklistSyncPreview
  pub would_write : Bool
  pub wrote : Bool
  pub outcome : SyncOutcome
  pub recovery : Option IssueOperationRecovery

-- A result, the error that is returned with it, and the body that GitHub was asked to write.
pub record Syncing : Type 0 where
  pub result : SyncChecklistResult
  pub error : Option Str
  pub asked : Option Str

abbrev pub no_result : Bool → SyncChecklistResult
no_result dry = record {
  issue = none;
  state = IssueState.unset;
  dry_run = dry;
  guard = none;
  preview = none;
  would_write = false;
  wrote = false;
  outcome = SyncOutcome.unknown;
  recovery = none;
}

abbrev pub confirmation_needed : SyncChecklistRequest → Option ChecklistMappingResult → Bool
confirmation_needed req none = false
confirmation_needed req (some m) = m.needs_human_confirmation || req.require_human_decision

unfoldable pub sync_guard :
    TextFolds → IssueContext → SyncChecklistRequest → ChecklistSyncPreview → ChecklistSyncGuard
unfolding issue_state_from_git_hub
sync_guard f issue req p = record {
  issue_state = issue_state_from_git_hub issue.state;
  has_blocking_label = has_label f.equal_fold issue (codes "blocked");
  has_completed_items = not (is_empty p.completed_descriptions);
  has_body_change = p.changed;
  needs_human_confirmation = confirmation_needed req req.checklist_mapping;
}

-- The switch for a body that may not be written: the state and the outcome.
unfoldable pub refusal : ChecklistSyncGuard → IssueState × SyncOutcome
refusal g =
    if g.needs_human_confirmation
    then (IssueState.blocked, SyncOutcome.needs_human)
    else if state_eq g.issue_state IssueState.closed
    then (g.issue_state, SyncOutcome.issue_state)
    else if state_eq g.issue_state IssueState.blocked || g.has_blocking_label
    then (IssueState.blocked, SyncOutcome.issue_state)
    else if not g.has_body_change
    then (g.issue_state, SyncOutcome.no_change)
    else (g.issue_state, SyncOutcome.unknown)

-- The call of `UpdateIssueBody`, which answers with an error or nothing.
unfoldable pub after_write : SyncChecklistResult → Str → Option Str → Syncing
unfolding blocked_recovery
after_write r body (some e) = record {
  result = record r {
    state = IssueState.blocked;
    outcome = SyncOutcome.failed;
    recovery = some (blocked_recovery (codes "sync-checklist") (codes "retry-sync-checklist") e);
  };
  error = some e;
  asked = some body;
}
after_write r body none = record {
  result = record r {
    state = IssueState.checklist_synced;
    outcome = SyncOutcome.wrote;
    wrote = true;
  };
  error = none;
  asked = some body;
}

abbrev pub settled : SyncChecklistResult → IssueState × SyncOutcome → Syncing
settled r (state, outcome) = record {
  result = record r { state = state; outcome = outcome };
  error = none;
  asked = none;
}

-- The result as it is first built.
abbrev pub loaded_result :
    IssueContext → Bool → ChecklistSyncGuard → ChecklistSyncPreview → SyncChecklistResult
loaded_result issue dry g p = record (no_result dry) {
  issue = some issue;
  state = g.issue_state;
  guard = some g;
  preview = some p;
  would_write = can_write g;
}

-- `SyncChecklist` once the issue is loaded.
unfoldable pub sync_loaded : TextFolds → IssueContext → Option Str → SyncChecklistRequest → Syncing
unfolding build_checklist_sync_preview sync_guard refusal after_write
sync_loaded f issue answer req =
    let p = build_checklist_sync_preview f issue.body req.sub_tasks in
    let g = sync_guard f issue req p in
    let r = loaded_result issue req.dry_run g p in
    if is_empty p.completed_descriptions
    then settled r (g.issue_state, SyncOutcome.no_match)
    else if not (can_write g)
    then settled r (refusal g)
    else if req.dry_run
    then settled r (IssueState.checklist_synced, SyncOutcome.dry_run)
    else after_write r p.body_after answer

-- The results without an issue: its number is not positive, and it cannot be loaded.
abbrev pub unnumbered : Bool → Syncing
unnumbered dry = record { result = no_result dry; error = none; asked = none }

unfoldable pub unloaded : Bool → Str → Syncing
unfolding blocked_recovery
unloaded dry e = record {
  result = record (no_result dry) {
    state = IssueState.blocked;
    outcome = SyncOutcome.load_failed;
    recovery = some (blocked_recovery (codes "sync-checklist") (codes "retry-sync-checklist") e);
  };
  error = some e;
  asked = none;
}

-- `SyncChecklist`, with what the fetch gives and what the write would answer.
unfoldable pub sync_checklist : TextFolds → Fetched → Option Str → SyncChecklistRequest → Syncing
unfolding sync_loaded unloaded
sync_checklist f fetch answer req =
    if sle req.issue_number 0 then unnumbered req.dry_run else elim fetch [
      | unavailable e ↦ unloaded req.dry_run e
      | fetched issue ↦ sync_loaded f issue answer req
    ]
