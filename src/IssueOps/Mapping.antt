-- ===== src/IssueOps/Mapping.antt =====
-- issueops/checklist_mapping.go: buildChecklistMapping, by scores or by declared ids.
pub mod Counting
pub mod Greedy
pub mod Declared
pub mod Coverage
use alice_core.Prelude.{
  ℕ, suc, ◌+◌, ◌-◌, ◌==◌, ltb, leb, Bool, true, false, not, ◌&&◌, ◌||◌, Str, codes, str_eq,
  trim_space, is_empty, if◌then◌else◌, List, [], ◌∷◌, ◌++◌, Option, none, some, ◌orelse◌, length,
  get_elem?, modify,
}
use alice_core.Hermes.State.{SubTask}
use alice_core.Hermes.IssueState.{IssueState}
use alice_core.IssueOps.Checklist.{
  ChecklistItem, IssueContext, ChecklistMapping, ChecklistMappingConfidence, ChecklistMappingResult,
  high, low,
}
use alice_core.IssueOps.Scoring.{UnicodeTables, score_checklist_mapping, member}

-- The variables of the search for the best item; `idx` is `none` for -1.
pub record Best : Type 0 where
  pub idx : Option ℕ
  pub score : ℕ
  pub second : ℕ
  pub reason : Str

abbrev pub no_best : Best
no_best = record { idx = none; score = 0; second = 0; reason = [] }

-- One item of the search.
abbrev pub consider : ℕ → ℕ × Str → Best → Best
consider i (score, reason) b =
    if ltb b.score score
    then record { idx = some i; score = score; second = b.score; reason = reason }
    else if ltb b.second score
    then record b { second = score }
    else b

-- The search from the index `i` on, past the used items.
unfoldable pub best_from : UnicodeTables → Str → ℕ → List Bool → List ChecklistItem → Best → Best
unfolding score_checklist_mapping
best_from u desc i used [] b = b
best_from u desc i [] (c ∷ cs) b = b
best_from u desc i (true ∷ used) (c ∷ cs) b = best_from u desc (suc i) used cs b
best_from u desc i (false ∷ used) (c ∷ cs) b =
    best_from u desc (suc i) used cs (consider i (score_checklist_mapping u desc c.text) b)

-- `bestScore >= 80 && bestScore-secondScore >= 10`; the second score is never above the best.
abbrev pub is_certain : Best → Bool
is_certain b = leb 80 b.score && leb 10 (b.score - b.second)

-- The item at an index of the checklist, where it is used only at indices in range.
abbrev item_at : List ChecklistItem → ℕ → ChecklistItem
item_at items k = elim (get_elem? items k) [
  | none ↦ record { id = []; text = []; checked = false; line_number = 0; section = [] }
  | some c ↦ c
]

abbrev pub mapping_to : List ChecklistItem → ℕ → SubTask → ℕ → ℕ → Bool → Str → ChecklistMapping
mapping_to items idx st k score certain reason = record {
  sub_task_index = idx;
  sub_task_id = st.id;
  sub_task_description = st.description;
  checklist_index = k;
  checklist_text = (item_at items k).text;
  checklist_line_number = (item_at items k).line_number;
  score = score;
  confidence = if certain then high else low;
  reason = reason;
  requires_human_confirmation = not certain;
}

abbrev pub mark : List Bool → ℕ → List Bool
mark used k = modify used k (λ _. true)

abbrev pub add_mapping : ChecklistMapping → ChecklistMappingResult → ChecklistMappingResult
add_mapping m r = record r {
  mappings = r.mappings ++ m ∷ [];
  needs_human_confirmation = r.needs_human_confirmation || m.requires_human_confirmation;
}

-- The index of the best item where there is one and its score is not 0.
abbrev pub found : Best → Option ℕ
found b = if b.score == 0 then none else b.idx

abbrev pub skip_sub_task : SubTask → ChecklistMappingResult → ChecklistMappingResult
skip_sub_task st r = record r { unmapped_sub_tasks = r.unmapped_sub_tasks ++ st ∷ [] }

-- A round of the loop over the sub-tasks past the search, on the result and on `usedChecklist`.
abbrev pub place :
    List ChecklistItem
    → ℕ
    → SubTask
    → Best
    → Option ℕ
    → ChecklistMappingResult × List Bool
    → ChecklistMappingResult × List Bool
place items idx st b none (r, used) = (skip_sub_task st r, used)
place items idx st b (some k) (r, used) =
    (add_mapping (mapping_to items idx st k b.score (is_certain b) b.reason) r, mark used k)

-- One round.
unfoldable pub map_sub_task :
    UnicodeTables
    → List ChecklistItem
    → ℕ
    → SubTask
    → ChecklistMappingResult × List Bool
    → ChecklistMappingResult × List Bool
unfolding best_from
map_sub_task u items idx st s =
    let b = best_from u st.description 0 s.1 items no_best in place items idx st b (found b) s

unfoldable pub map_sub_tasks :
    UnicodeTables
    → List ChecklistItem
    → ℕ
    → List SubTask
    → ChecklistMappingResult × List Bool
    → ChecklistMappingResult × List Bool
unfolding map_sub_task
map_sub_tasks u items idx [] s = s
map_sub_tasks u items idx (st ∷ sts) s =
    map_sub_tasks u items (suc idx) sts (map_sub_task u items idx st s)

-- The items that are not used.
unfoldable pub unused_items : List Bool → List ChecklistItem → List ChecklistItem
unused_items used [] = []
unused_items [] (c ∷ cs) = c ∷ cs
unused_items (b ∷ used) (c ∷ cs) = let rest = unused_items used cs in if b then rest else c ∷ rest

-- The last switch.
abbrev pub conclude : ChecklistMappingResult → ChecklistMappingResult
conclude r =
    if r.needs_human_confirmation
    then record r { state = IssueState.blocked }
    else if not (is_empty r.unmapped_sub_tasks) || not (is_empty r.unmapped_checklist_items)
    then record r { state = IssueState.checklist_unsynced }
    else record r { state = IssueState.checklist_synced; checklist_synced = true }

unfoldable pub finish :
    List ChecklistItem → ChecklistMappingResult × List Bool → ChecklistMappingResult
unfolding unused_items
finish items (r, used) =
    conclude (record r {
      unmapped_checklist_items = r.unmapped_checklist_items ++ unused_items used items;
    })

abbrev pub all_unused : List ChecklistItem → List Bool
all_unused [] = []
all_unused (c ∷ cs) = false ∷ all_unused cs

unfoldable pub has_checklist_declarations : List SubTask → Bool
has_checklist_declarations [] = false
has_checklist_declarations (st ∷ sts) =
    not (is_empty st.checklist_item_ids) || has_checklist_declarations sts

-- `itemByID[id]`: the last item with the id, from the index `i` on.
unfoldable pub item_by_id : Str → ℕ → List ChecklistItem → Option ℕ
item_by_id id i [] = none
item_by_id id i (c ∷ cs) = item_by_id id (suc i) cs orelse (if str_eq c.id id then some i else none)

-- The result, `usedChecklist` and `seenIDs`.
pub record Declaring : Type 0 where
  pub result : ChecklistMappingResult
  pub used : List Bool
  pub seen_ids : List Str

abbrev pub needs_human : Declaring → Declaring
needs_human s = record s { result = record s.result { needs_human_confirmation = true } }

-- A declared id that is not empty, with the index of its item.
abbrev pub declare_at : List ChecklistItem → ℕ → SubTask → Str → Option ℕ → Declaring → Declaring
declare_at items idx st id none s = needs_human s
declare_at items idx st id (some k) s = if member id s.seen_ids then needs_human s else record {
  result =
      add_mapping
        (mapping_to items idx st k 100 true (codes "declared checklist_item_ids match " ++ id))
        s.result;
  used = mark s.used k;
  seen_ids = id ∷ s.seen_ids;
}

-- One declared id of a sub-task.
unfoldable pub declare_id : List ChecklistItem → ℕ → SubTask → Str → Declaring → Declaring
unfolding item_by_id trim_space
declare_id items idx st raw s =
    let id = trim_space raw in
    if is_empty id then s else declare_at items idx st id (item_by_id id 0 items) s

unfoldable pub declare_ids : List ChecklistItem → ℕ → SubTask → List Str → Declaring → Declaring
unfolding declare_id
declare_ids items idx st [] s = s
declare_ids items idx st (raw ∷ raws) s =
    declare_ids items idx st raws (declare_id items idx st raw s)

unfoldable pub declare_sub_tasks : List ChecklistItem → ℕ → List SubTask → Declaring → Declaring
unfolding declare_ids
declare_sub_tasks items idx [] s = s
declare_sub_tasks items idx (st ∷ sts) s =
    declare_sub_tasks items (suc idx) sts (declare_ids items idx st st.checklist_item_ids s)

-- `buildDeclaredChecklistMapping`, whose result has no unmapped sub-tasks.
unfoldable pub build_declared_checklist_mapping :
    ChecklistMappingResult → List ChecklistItem → List SubTask → ChecklistMappingResult
unfolding declare_sub_tasks finish
build_declared_checklist_mapping r items sub_tasks =
    let s =
      declare_sub_tasks items 0 sub_tasks
        (record { result = r; used = all_unused items; seen_ids = [] }) in
    finish items (s.result, s.used)

abbrev pub empty_result : Option IssueContext → ℕ → List SubTask → ChecklistMappingResult
empty_result issue items sub_tasks = record {
  issue = issue;
  state = IssueState.unset;
  needs_human_confirmation = false;
  checklist_synced = false;
  total_checklist_items = items;
  total_sub_tasks = length sub_tasks;
  mappings = [];
  unmapped_sub_tasks = [];
  unmapped_checklist_items = [];
}

-- `buildChecklistMapping` for an issue that is there.
unfoldable pub map_issue : UnicodeTables → IssueContext → List SubTask → ChecklistMappingResult
unfolding map_sub_tasks finish has_checklist_declarations build_declared_checklist_mapping
map_issue u issue sub_tasks =
    let r = empty_result (some issue) (length issue.checklist) sub_tasks in
    if is_empty issue.checklist
    then record r { state = IssueState.drafted }
    else if is_empty sub_tasks
    then record r { state = IssueState.planned; unmapped_checklist_items = issue.checklist }
    else if has_checklist_declarations sub_tasks
    then build_declared_checklist_mapping r issue.checklist sub_tasks
    else finish issue.checklist
        (map_sub_tasks u issue.checklist 0 sub_tasks (r, all_unused issue.checklist))

-- `buildChecklistMapping`
unfoldable pub build_checklist_mapping :
    UnicodeTables → Option IssueContext → List SubTask → ChecklistMappingResult
unfolding map_issue
build_checklist_mapping u none sub_tasks = record (empty_result none 0 sub_tasks) {
  state = IssueState.blocked;
  needs_human_confirmation = true;
}
build_checklist_mapping u (some issue) sub_tasks = map_issue u issue sub_tasks
