-- ===== src/IssueOps/Preview.antt =====
-- `BuildChecklistSyncPreview` of hermes/github.go: what completed sub-tasks tick in a body.
use alice_core.Prelude.{
  ℕ, ◌+◌, ◌==◌, Bool, false, not, ◌&&◌, ◌||◌, Str, codes, str_eq, trim_space, is_empty, split_lines,
  join, if◌then◌else◌, List, [], ◌∷◌, ◌++◌, Option, none, some,
}
use alice_core.Hermes.Status.{SubTaskStatus, sub_task_status_eq}
use alice_core.Hermes.State.{SubTask}
use alice_core.IssueOps.Checklist.{ChecklistItem}
use alice_core.IssueOps.Body.{
  TextFolds, Line, item, read_line, section_after, checklist_line, is_checked, ticked, any_matches,
  extract_checklist, update_checklist_in_body, prepend,
}

pub record ChecklistSyncPreview : Type 0 where
  pub completed_descriptions : List Str
  pub updated_checklist_items : List Str
  pub body_before : Str
  pub body_after : Str
  pub changed : Bool

abbrev pub is_done : SubTask → Bool
is_done t = sub_task_status_eq t.status SubTaskStatus.done

-- The loop of `BuildChecklistSyncPreview` over the sub-tasks.
unfoldable pub completed_of : List SubTask → List Str
completed_of [] = []
completed_of (t ∷ ts) =
    let rest = completed_of ts in if is_done t then t.description ∷ rest else rest

abbrev pub non_blank : List Str → List Str
unfolding trim_space
non_blank [] = []
non_blank (id ∷ ids) =
    let rest = non_blank ids in if is_empty (trim_space id) then rest else trim_space id ∷ rest

unfoldable pub declared_of : List SubTask → List Str
unfolding non_blank
declared_of [] = []
declared_of (t ∷ ts) =
    let rest = declared_of ts in if is_done t then non_blank t.checklist_item_ids ++ rest else rest

abbrev pub among : Str → List Str → Bool
among s [] = false
among s (t ∷ ts) = str_eq t s || among s ts

-- `targetByLine`: the lines and texts of the items to tick.
unfoldable pub target_lines : List Str → List ChecklistItem → List (ℕ × Str)
target_lines ids [] = []
target_lines ids (c ∷ cs) =
    let rest = target_lines ids cs in
    if not c.checked && among c.id ids then (c.line_number, c.text) ∷ rest else rest

abbrev pub text_at : ℕ → List (ℕ × Str) → Option Str
text_at i [] = none
text_at i ((j, text) ∷ rest) = if i == j then some text else text_at i rest

-- The body of the loop of `applyDeclaredChecklistTicks`: the line, and the text of a ticked item.
abbrev pub tick_item : Str → Str → Option (ℕ × Str) → Str × Option Str
tick_item line text none = (line, none)
tick_item line text (some (mark, rest)) =
    if is_checked mark then (line, none) else (ticked rest, some text)

unfoldable pub tick_line : Option Str → Str → Str × Option Str
unfolding checklist_line
tick_line none line = (line, none)
tick_line (some text) line = tick_item line text (checklist_line line)

unfoldable pub tick_lines : List (ℕ × Str) → ℕ → List Str → List Str × List Str
unfolding tick_line
tick_lines targets idx [] = ([], [])
tick_lines targets idx (line ∷ rest) =
    let (new, text) = tick_line (text_at idx targets) line in
    let (lines, texts) = tick_lines targets (idx + 1) rest in (new ∷ lines, prepend text texts)

-- `applyDeclaredChecklistTicks`; without a target the body is returned as it is.
unfoldable pub apply_declared_checklist_ticks : TextFolds → Str → List Str → Str × List Str
unfolding extract_checklist target_lines tick_lines
apply_declared_checklist_ticks f body ids =
    let targets = target_lines ids (extract_checklist f body) in
    let (lines, texts) = tick_lines targets 0 (split_lines body) in
    if is_empty targets then (body, []) else (join (codes "\n") lines, texts)

-- The second loop of the other way, which collects the items that the descriptions match.
abbrev pub matched_text : TextFolds → List Str → Line → Option Str
unfolding trim_space
matched_text f descs (item mark text) =
    if not (is_checked mark) && any_matches f text descs then some (trim_space text) else none
matched_text f descs _ = none

unfoldable pub matched_items : TextFolds → List Str → Str → List Str → List Str
unfolding read_line matched_text
matched_items f descs section [] = []
matched_items f descs section (line ∷ rest) =
    let l = read_line f section line in
    prepend (matched_text f descs l) (matched_items f descs (section_after section l) rest)

unfoldable pub apply_matching_ticks : TextFolds → Str → List Str → Str × List Str
unfolding update_checklist_in_body matched_items
apply_matching_ticks f body descs =
    let updated = update_checklist_in_body f body descs in
    (updated, if str_eq updated body then [] else matched_items f descs [] (split_lines body))

abbrev pub preview_of : List Str → Str → Str × List Str → ChecklistSyncPreview
preview_of completed body (updated, items) = record {
  completed_descriptions = completed;
  updated_checklist_items = items;
  body_before = body;
  body_after = updated;
  changed = not (str_eq updated body);
}

unfoldable pub build_checklist_sync_preview : TextFolds → Str → List SubTask → ChecklistSyncPreview
unfolding completed_of declared_of apply_declared_checklist_ticks apply_matching_ticks
build_checklist_sync_preview f body sub_tasks =
    let completed = completed_of sub_tasks in
    if is_empty completed
    then preview_of completed body (body, [])
    else if is_empty (declared_of sub_tasks)
    then preview_of completed body (apply_matching_ticks f body completed)
    else preview_of completed body (apply_declared_checklist_ticks f body (declared_of sub_tasks))
