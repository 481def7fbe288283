-- ===== src/Hermes/IssueState/Laws.antt =====
-- The issue lifecycle of hermes/issue_state.go as a function of state and event.
use alice_core.Prelude.{
  ◌≡◌, refl, sym, ap, ◌∙◌, inl, inr, ◌||◌, Str, str_eq, str_eq→eq, Bool-cases, trim_space, to_lower,
  arith, Bool, true, false, Option, none, some,
}
use alice_core.Hermes.IssueState.{
  IssueState, unset, drafted, planned, in_progress, evidence_collected, checklist_unsynced,
  checklist_synced, ready_to_close, closed, blocked, other, IssueEvent, issue_loaded, issue_planned,
  hermes_task_started, sub_task_completed, review_passed, review_partial_or_failed,
  evidence_attached, checklist_mismatch_detected, checklist_sync_requested, checklist_synced_event,
  close_requested, issue_closed, human_decision_required, sync_failed, valid_issue_transition,
  state_eq, issue_state_of_label, issue_state_from_git_hub, state_text,
}

-- Work that is under way: drafted and not yet closed or blocked.
abbrev pub under_way : IssueState → Bool
under_way unset = false
under_way closed = false
under_way blocked = false
under_way (other s) = false
under_way _ = true

-- The next state when nothing goes wrong.
abbrev pub progress : IssueState → IssueEvent → Option IssueState
progress unset issue_loaded = some drafted
progress drafted issue_planned = some planned
progress blocked issue_planned = some planned
progress planned hermes_task_started = some in_progress
progress in_progress sub_task_completed = some evidence_collected
progress in_progress review_passed = some evidence_collected
progress in_progress evidence_attached = some evidence_collected
progress evidence_collected checklist_mismatch_detected = some checklist_unsynced
progress evidence_collected checklist_sync_requested = some checklist_unsynced
progress checklist_unsynced checklist_synced_event = some checklist_synced
progress checklist_synced close_requested = some ready_to_close
progress ready_to_close issue_closed = some closed
progress _ _ = none

abbrev pub block : Bool → Option IssueState
block true = some blocked
block false = none

-- The state an event leads to: the events that block do so from all work under way.
abbrev pub successor : IssueState → IssueEvent → Option IssueState
successor s human_decision_required = block (under_way s)
successor s review_partial_or_failed = block (under_way s)
successor s sync_failed = block (under_way s)
successor s e = progress s e

abbrev pub leads_to : Option IssueState → IssueState → Bool
leads_to none t = false
leads_to (some u) t = state_eq u t

-- The transition table is a function of the state and the event: a transition is valid exactly
-- when it goes to the successor. So no pair of a state and an event has two targets, the closed
-- state is left by no event, and it is entered only from `ready_to_close` by `issue_closed`.
valid_issue_transition-successor :
    (s : IssueState) (e : IssueEvent) (t : IssueState)
    → valid_issue_transition s e t ≡ leads_to (successor s e) t
unfolding valid_issue_transition
valid_issue_transition-successor unset issue_loaded t = ground arith
valid_issue_transition-successor drafted issue_loaded t = ground arith
valid_issue_transition-successor planned issue_loaded t = ground arith
valid_issue_transition-successor in_progress issue_loaded t = ground arith
valid_issue_transition-successor evidence_collected issue_loaded t = ground arith
valid_issue_transition-successor checklist_unsynced issue_loaded t = ground arith
valid_issue_transition-successor checklist_synced issue_loaded t = ground arith
valid_issue_transition-successor ready_to_close issue_loaded t = ground arith
valid_issue_transition-successor closed issue_loaded t = ground arith
valid_issue_transition-successor blocked issue_loaded t = ground arith
valid_issue_transition-successor (other a) issue_loaded t = ground arith
valid_issue_transition-successor s e t = ground arith

abbrev pub declared : IssueState → Bool
declared unset = false
declared (other s) = false
declared _ = true

label-declared : (s : Str) → declared (issue_state_of_label s) ≡ true
unfolding issue_state_of_label
label-declared s = ground arith

label_round_trip : (s : IssueState) → declared s ≡ true → issue_state_of_label (state_text s) ≡ s
unfolding issue_state_of_label
label_round_trip unset h = cc
label_round_trip drafted h = refl
label_round_trip planned h = refl
label_round_trip in_progress h = refl
label_round_trip evidence_collected h = refl
label_round_trip checklist_unsynced h = refl
label_round_trip checklist_synced h = refl
label_round_trip ready_to_close h = refl
label_round_trip closed h = refl
label_round_trip blocked h = refl
label_round_trip (other s) h = cc

text_round_trip : (s : IssueState) → declared s ≡ true → issue_state_from_git_hub (state_text s) ≡ s
unfolding issue_state_from_git_hub
text_round_trip unset h = cc
text_round_trip drafted h = refl
text_round_trip planned h = refl
text_round_trip in_progress h = refl
text_round_trip evidence_collected h = refl
text_round_trip checklist_unsynced h = refl
text_round_trip checklist_synced h = refl
text_round_trip ready_to_close h = refl
text_round_trip closed h = refl
text_round_trip blocked h = refl
text_round_trip (other s) h = cc

-- The state has the label, or it is the drafted one, which stands for every other label.
abbrev pub drafted_or : Bool → IssueState → Bool
drafted_or b s = b || state_eq s drafted

state_eq_refl : (s : IssueState) → declared s ≡ true → state_eq s s ≡ true
state_eq_refl s h = ground arith

no_label :
    (l : Str) (s : IssueState)
    → str_eq l (state_text s) ≡ false
    → declared s ≡ true
    → drafted_or (state_eq (issue_state_of_label l) s) s ≡ drafted_or false s
unfolding issue_state_of_label
no_label l unset h d = cc
no_label l drafted h d = ground arith
no_label l planned h d = ground arith
no_label l in_progress h d = ground arith
no_label l evidence_collected h d = ground arith
no_label l checklist_unsynced h d = ground arith
no_label l checklist_synced h d = ground arith
no_label l ready_to_close h d = ground arith
no_label l closed h d = ground arith
no_label l blocked h d = ground arith
no_label l (other s) h d = cc

label-reads :
    (l : Str) (s : IssueState)
    → declared s ≡ true
    → drafted_or (state_eq (issue_state_of_label l) s) s ≡ drafted_or (str_eq l (state_text s)) s
label-reads l s d = elim (Bool-cases (str_eq l (state_text s))) [
  | inl e ↦
      let same : issue_state_of_label l ≡ s =
        ap issue_state_of_label (str_eq→eq l (state_text s) e) ∙ label_round_trip s d in
      ap (λ x. drafted_or (state_eq x s) s) same
      ∙ ap (λ b. drafted_or b s) (state_eq_refl s d ∙ sym e)
  | inr e ↦ no_label l s e d ∙ ap (λ b. drafted_or b s) (sym e)
]

-- The text of each declared state is read as that state. Any text is read as a declared state, and as
-- one other than the drafted state exactly where, without the blanks around it and in small letters,
-- it is that state's text; so every other text is read as the drafted state.
pub issue_state_from_git_hub-text :
    (raw : Str) (s : IssueState)
    → declared s ≡ true
    → (issue_state_from_git_hub (state_text s) ≡ s)
      × (declared (issue_state_from_git_hub raw) ≡ true)
      × (drafted_or (state_eq (issue_state_from_git_hub raw) s) s
          ≡ drafted_or (str_eq (to_lower (trim_space raw)) (state_text s)) s)
unfolding issue_state_from_git_hub
issue_state_from_git_hub-text raw s d = (
  text_round_trip s d,
  label-declared (to_lower (trim_space raw)),
  label-reads (to_lower (trim_space raw)) s d,
)
