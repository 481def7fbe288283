-- ===== src/Hermes/IssueState.antt =====
-- hermes/issue_state.go: the lifecycle of a GitHub issue. `unset` is the empty string and `other`
-- a string that is no declared constant.
pub mod Laws
use alice_core.Prelude.{
  Bool, true, false, not, ◌&&◌, ◌||◌, Str, codes, str_eq, trim_space, to_lower, if◌then◌else◌, List,
  [], ◌∷◌,
}

pub data IssueState : Type 0 where
  unset drafted planned in_progress evidence_collected checklist_unsynced checklist_synced
        ready_to_close closed blocked :
      IssueState
  other : Str → IssueState

pub data IssueEvent : Type 0 where
  issue_loaded issue_planned hermes_task_started sub_task_completed review_passed
        review_partial_or_failed evidence_attached checklist_mismatch_detected
        checklist_sync_requested checklist_synced_event close_requested issue_closed
        human_decision_required sync_failed :
      IssueEvent

abbrev pub state_eq : IssueState → IssueState → Bool
state_eq unset unset = true
state_eq drafted drafted = true
state_eq planned planned = true
state_eq in_progress in_progress = true
state_eq evidence_collected evidence_collected = true
state_eq checklist_unsynced checklist_unsynced = true
state_eq checklist_synced checklist_synced = true
state_eq ready_to_close ready_to_close = true
state_eq closed closed = true
state_eq blocked blocked = true
state_eq (other a) (other b) = str_eq a b
state_eq _ _ = false

abbrev pub event_eq : IssueEvent → IssueEvent → Bool
event_eq issue_loaded issue_loaded = true
event_eq issue_planned issue_planned = true
event_eq hermes_task_started hermes_task_started = true
event_eq sub_task_completed sub_task_completed = true
event_eq review_passed review_passed = true
event_eq review_partial_or_failed review_partial_or_failed = true
event_eq evidence_attached evidence_attached = true
event_eq checklist_mismatch_detected checklist_mismatch_detected = true
event_eq checklist_sync_requested checklist_sync_requested = true
event_eq checklist_synced_event checklist_synced_event = true
event_eq close_requested close_requested = true
event_eq issue_closed issue_closed = true
event_eq human_decision_required human_decision_required = true
event_eq sync_failed sync_failed = true
event_eq _ _ = false

pub record IssueTransition : Type 0 where
  pub from : IssueState
  pub event : IssueEvent
  pub to : IssueState

abbrev edge : IssueState → IssueEvent → IssueState → IssueTransition
edge from event to = record { from = from; event = event; to = to }

unfoldable pub issue_transition_table : List IssueTransition
issue_transition_table =
    edge unset issue_loaded drafted
    ∷ edge drafted issue_planned planned
    ∷ edge blocked issue_planned planned
    ∷ edge planned hermes_task_started in_progress
    ∷ edge in_progress sub_task_completed evidence_collected
    ∷ edge in_progress review_passed evidence_collected
    ∷ edge in_progress evidence_attached evidence_collected
    ∷ edge evidence_collected checklist_mismatch_detected checklist_unsynced
    ∷ edge evidence_collected checklist_sync_requested checklist_unsynced
    ∷ edge checklist_unsynced checklist_synced_event checklist_synced
    ∷ edge checklist_synced close_requested ready_to_close
    ∷ edge ready_to_close issue_closed closed
    ∷ edge drafted human_decision_required blocked
    ∷ edge planned human_decision_required blocked
    ∷ edge in_progress human_decision_required blocked
    ∷ edge evidence_collected human_decision_required blocked
    ∷ edge checklist_unsynced human_decision_required blocked
    ∷ edge checklist_synced human_decision_required blocked
    ∷ edge ready_to_close human_decision_required blocked
    ∷ edge drafted review_partial_or_failed blocked
    ∷ edge planned review_partial_or_failed blocked
    ∷ edge in_progress review_partial_or_failed blocked
    ∷ edge evidence_collected review_partial_or_failed blocked
    ∷ edge checklist_unsynced review_partial_or_failed blocked
    ∷ edge checklist_synced review_partial_or_failed blocked
    ∷ edge ready_to_close review_partial_or_failed blocked
    ∷ edge drafted sync_failed blocked
    ∷ edge planned sync_failed blocked
    ∷ edge in_progress sync_failed blocked
    ∷ edge evidence_collected sync_failed blocked
    ∷ edge checklist_unsynced sync_failed blocked
    ∷ edge checklist_synced sync_failed blocked
    ∷ edge ready_to_close sync_failed blocked
    ∷ []

-- The loop of `ValidIssueTransition` over the table.
unfoldable pub listed : List IssueTransition → IssueState → IssueEvent → IssueState → Bool
listed [] from event to = false
listed (c ∷ cs) from event to =
    (state_eq c.from from && event_eq c.event event && state_eq c.to to) || listed cs from event to

unfoldable pub valid_issue_transition : IssueState → IssueEvent → IssueState → Bool
unfolding listed issue_transition_table
valid_issue_transition = listed issue_transition_table

-- `IssueState.IsTerminal`
abbrev pub is_terminal : IssueState → Bool
is_terminal s = state_eq s closed

-- `IssueState.NeedsHumanDecision`
abbrev pub needs_human_decision : IssueState → Bool
needs_human_decision s = state_eq s blocked

pub record IssueCloseReadiness : Type 0 where
  pub state : IssueState
  pub has_blocking_label : Bool
  pub checklist_synced : Bool
  pub review_accepted : Bool
  pub validation_passed : Bool
  pub has_unchecked_required_items : Bool

unfoldable pub can_auto_close : IssueCloseReadiness → Bool
can_auto_close r =
    state_eq r.state ready_to_close
    && not r.has_blocking_label
    && r.checklist_synced
    && r.review_accepted
    && r.validation_passed
    && not r.has_unchecked_required_items

-- `string(state)`
abbrev pub state_text : IssueState → Str
state_text unset = []
state_text drafted = codes "drafted"
state_text planned = codes "planned"
state_text in_progress = codes "in_progress"
state_text evidence_collected = codes "evidence_collected"
state_text checklist_unsynced = codes "checklist_unsynced"
state_text checklist_synced = codes "checklist_synced"
state_text ready_to_close = codes "ready_to_close"
state_text closed = codes "closed"
state_text blocked = codes "blocked"
state_text (other s) = s

-- `IssueStateFromGitHub` with `strings.ToLower(strings.TrimSpace(raw))` already made.
unfoldable pub issue_state_of_label : Str → IssueState
issue_state_of_label s =
    if str_eq s (codes "closed")
    then closed
    else if str_eq s (codes "blocked")
    then blocked
    else if str_eq s (codes "drafted")
    then drafted
    else if str_eq s (codes "planned")
    then planned
    else if str_eq s (codes "in_progress")
    then in_progress
    else if str_eq s (codes "evidence_collected")
    then evidence_collected
    else if str_eq s (codes "checklist_unsynced")
    then checklist_unsynced
    else if str_eq s (codes "checklist_synced")
    then checklist_synced
    else if str_eq s (codes "ready_to_close")
    then ready_to_close
    else drafted

unfoldable pub issue_state_from_git_hub : Str → IssueState
unfolding issue_state_of_label trim_space
issue_state_from_git_hub raw = issue_state_of_label (to_lower (trim_space raw))

unfoldable pub issue_event_for_state : IssueState → IssueEvent
issue_event_for_state closed = issue_closed
issue_event_for_state ready_to_close = close_requested
issue_event_for_state checklist_synced = checklist_synced_event
issue_event_for_state checklist_unsynced = checklist_mismatch_detected
issue_event_for_state blocked = human_decision_required
issue_event_for_state evidence_collected = evidence_attached
issue_event_for_state in_progress = hermes_task_started
issue_event_for_state planned = issue_planned
issue_event_for_state _ = issue_loaded
