-- ===== src/Examples/Issues.antt =====
-- Mappings of a plan to the checklist of an issue.
use alice_core.Prelude.{
  Bool, ◌≡◌, refl, true, false, Str, codes, str_eq, in_range, ◌||◌, to_lower, trim_space, runes,
  rune_width, List, [], ◌∷◌, some, none,
}
use alice_core.Hermes.Status.{SubTaskStatus}
use alice_core.Hermes.State.{SubTask}
use alice_core.IssueOps.Checklist.{ChecklistItem, IssueContext}
use alice_core.IssueOps.Scoring.{
  UnicodeTables, spaced_words, fields, normalize_mapping_text, token_set, score_normalized,
  score_checklist_mapping,
}
use alice_core.IssueOps.Mapping.{
  build_checklist_mapping, map_issue, map_sub_tasks, map_sub_task, best_from, finish, unused_items,
  has_checklist_declarations, item_by_id, build_declared_checklist_mapping, declare_sub_tasks,
  declare_ids, declare_id,
}
use alice_core.IssueOps.Mapping.Coverage.{
  Covers, Settled, build_checklist_mapping-Covers, build_checklist_mapping-Settled,
}
use alice_core.IssueOps.Close.{fetched, AssessCloseReadinessRequest, close_issue}
use alice_core.IssueOps.Close.Guard.{Closes, close_issue-Closes}
use alice_core.Examples.Data.{sub_task}

-- The letters and digits of ASCII.
abbrev ascii_word : Str → Bool
ascii_word (c ∷ []) = in_range b'a' b'z' c || in_range b'0' b'9' c
ascii_word s = false

abbrev tables : UnicodeTables
tables = record { to_lower = to_lower; is_word = ascii_word }

abbrev item : Str → Str → ChecklistItem
item id text = record { id = id; text = text; checked = false; line_number = 4; section = [] }

abbrev two_items : IssueContext
two_items = record {
  number = 3;
  title = codes "Build it";
  body = [];
  state = codes "OPEN";
  labels = [];
  checklist =
      item (codes "item-4") (codes "Write the **code**")
      ∷ item (codes "item-5") (codes "add tests")
      ∷ [];
  comments = [];
}

abbrev one_item : IssueContext
one_item = record two_items { checklist = item (codes "item-4") (codes "Write the **code**") ∷ [] }

abbrev writing : List SubTask
writing = sub_task (codes "a") SubTaskStatus.done ∷ []

-- Two sub-tasks declare one item.
abbrev declaring : List SubTask
declaring =
    record (sub_task (codes "a") SubTaskStatus.done) { checklist_item_ids = codes " item-4" ∷ [] }
    ∷ record (sub_task (codes "b") SubTaskStatus.done) { checklist_item_ids = codes "item-4" ∷ [] }
    ∷ []

build_checklist_mapping-Covers_example :
    Covers two_items.checklist (build_checklist_mapping tables (some two_items) declaring)
build_checklist_mapping-Covers_example = build_checklist_mapping-Covers tables two_items declaring

writing_synced : (build_checklist_mapping tables (some one_item) writing).checklist_synced ≡ true
unfolding build_checklist_mapping map_issue map_sub_tasks map_sub_task best_from finish unused_items
    has_checklist_declarations score_checklist_mapping score_normalized normalize_mapping_text
    token_set fields spaced_words trim_space runes rune_width
writing_synced = refl

build_checklist_mapping-Settled_example :
    Settled (some one_item) writing (build_checklist_mapping tables (some one_item) writing)
build_checklist_mapping-Settled_example =
    build_checklist_mapping-Settled tables (some one_item) writing writing_synced

-- A repeated declaration asks for a person.
declared_test :
    (build_checklist_mapping tables (some two_items) declaring).needs_human_confirmation ≡ true
unfolding build_checklist_mapping map_issue has_checklist_declarations
    build_declared_checklist_mapping declare_sub_tasks declare_ids declare_id item_by_id finish
    unused_items trim_space
declared_test = refl

abbrev checked_issue : IssueContext
checked_issue = record two_items {
  labels = codes "verified" ∷ [];
  checklist = record (item (codes "item-4") (codes "done")) { checked = true } ∷ [];
}

abbrev close_request : AssessCloseReadinessRequest
close_request = record {
  project_dir = codes "/work";
  issue_number = 3;
  required_close_label = codes "verified";
  review_accepted = true;
  validation_passed = true;
}

close_issue-Closes_example :
    Closes true none none (close_issue str_eq (fetched checked_issue) none close_request false)
unfolding trim_space
close_issue-Closes_example =
    close_issue-Closes str_eq (fetched checked_issue) none close_request false
