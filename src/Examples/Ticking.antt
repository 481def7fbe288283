-- ===== src/Examples/Ticking.antt =====
-- Checklists whose boxes are ticked.
use alice_core.Prelude.{
  decimal, ◌≡◌, refl, false, Str, codes, str_eq, to_lower, trim_space, runes, split_lines, List, [],
  ◌∷◌, none, some,
}
use alice_core.Hermes.Status.{SubTaskStatus}
use alice_core.Hermes.State.{SubTask}
use alice_core.IssueOps.Checklist.{IssueContext}
use alice_core.IssueOps.Body.{
  TextFolds, extract_checklist, extract_from, item_at, update_checklist_in_body, update_lines,
  update_line, read_line, extract_heading_text, checklist_line, is_hermes_plan_section,
  matches_checklist_item,
}
use alice_core.IssueOps.Ticks.{AllTicked}
use alice_core.IssueOps.Bodies.{update_checklist_in_body-Ticks}
use alice_core.IssueOps.Close.{fetched}
use alice_core.IssueOps.Preview.{
  build_checklist_sync_preview, completed_of, declared_of, apply_matching_ticks, matched_items,
}
use alice_core.IssueOps.Sync.{SyncChecklistRequest, sync_checklist}
use alice_core.IssueOps.Writing.{Syncs, written, sync_checklist-Syncs}
use alice_core.Engine.ChecklistDrift.{drifted_of, compute_checklist_declaration_drift}
use alice_core.Engine.ChecklistDrift.Synced.{build_checklist_sync_preview-drift}
use alice_core.Examples.Data.{sub_task}

abbrev folds : TextFolds
folds = record { equal_fold = str_eq; to_lower = to_lower }

-- One item to tick, and one in the section of the plan.
abbrev body : Str
body = codes "# Work ##\n- [ ] code\n- [x] plan"

abbrev ticked_body : Str
ticked_body = codes "# Work ##\n- [x] code\n- [x] plan"

ticked_test : update_checklist_in_body folds body (codes "code" ∷ []) ≡ ticked_body
unfolding update_checklist_in_body update_lines update_line read_line extract_heading_text
    checklist_line is_hermes_plan_section matches_checklist_item trim_space runes
ticked_test = refl

update_checklist_in_body-Ticks_example :
    AllTicked folds []
      (split_lines body)
      (split_lines (update_checklist_in_body folds body (codes "code" ∷ [])))
    × (update_checklist_in_body folds
          (update_checklist_in_body folds body (codes "code" ∷ []))
          (codes "code" ∷ [])
        ≡ update_checklist_in_body folds body (codes "code" ∷ []))
update_checklist_in_body-Ticks_example =
    update_checklist_in_body-Ticks folds body (codes "code" ∷ [])

abbrev coded_issue : IssueContext
coded_issue = record {
  number = 3;
  title = codes "Build it";
  body = body;
  state = codes "OPEN";
  labels = [];
  checklist = [];
  comments = [];
}

abbrev sync_request : SyncChecklistRequest
sync_request = record {
  issue_number = 3;
  sub_tasks = record (sub_task (codes "a") SubTaskStatus.done) { description = codes "code" } ∷ [];
  dry_run = false;
  checklist_mapping = none;
  require_human_decision = false;
}

written_test : written folds (fetched coded_issue) sync_request ≡ some ticked_body
unfolding build_checklist_sync_preview completed_of declared_of apply_matching_ticks matched_items
    update_checklist_in_body update_lines update_line read_line extract_heading_text checklist_line
    is_hermes_plan_section matches_checklist_item trim_space runes
written_test = refl

sync_checklist-Syncs_example :
    Syncs
      (written folds (fetched coded_issue) sync_request)
      none
      none
      (sync_checklist folds (fetched coded_issue) none sync_request)
sync_checklist-Syncs_example = sync_checklist-Syncs folds (fetched coded_issue) none sync_request

abbrev declaring_plan : List SubTask
declaring_plan =
    record (sub_task (codes "a") SubTaskStatus.done) { checklist_item_ids = codes "item-1" ∷ [] }
    ∷ []

-- Before the synchronisation the declared item drifts.
drift_test :
    compute_checklist_declaration_drift declaring_plan (extract_checklist folds body)
    ≡ codes "item-1" ∷ []
unfolding compute_checklist_declaration_drift drifted_of declared_of extract_checklist extract_from
    item_at read_line extract_heading_text checklist_line is_hermes_plan_section trim_space decimal
drift_test = refl

build_checklist_sync_preview-drift_example :
    compute_checklist_declaration_drift declaring_plan
      (extract_checklist folds (build_checklist_sync_preview folds body declaring_plan).body_after)
    ≡ []
build_checklist_sync_preview-drift_example =
    build_checklist_sync_preview-drift folds body declaring_plan
