-- ===== src/Engine/ChecklistDrift.antt =====
-- engine/plan_execute.go: the check that the checklist items that completed sub-tasks declare are
-- ticked in the issue.
pub mod Steady
pub mod Synced
use alice_core.Prelude.{
  ◌==◌, ltb, Bool, true, false, not, ◌&&◌, Str, is_empty, if◌then◌else◌, List, [], ◌∷◌,
}
use alice_core.Hermes.State.{SubTask}
use alice_core.IssueOps.Checklist.{ChecklistItem}
use alice_core.IssueOps.Preview.{declared_of, among}

-- Go's order of strings, by their bytes.
abbrev comes_before : Str → Str → Bool
comes_before s [] = false
comes_before [] (d ∷ ds) = true
comes_before (c ∷ cs) (d ∷ ds) = let rest = comes_before cs ds in if c == d then rest else ltb c d

abbrev insert_string : Str → List Str → List Str
insert_string s [] = s ∷ []
insert_string s (t ∷ ts) =
    let rest = insert_string s ts in if comes_before t s then t ∷ rest else s ∷ t ∷ ts

-- `sort.Strings`
abbrev pub sort_strings : List Str → List Str
sort_strings [] = []
sort_strings (s ∷ ss) = insert_string s (sort_strings ss)

abbrev pub drifts : List Str → ChecklistItem → Bool
drifts ids item = among item.id ids && not item.checked

unfoldable pub drifted_of : List Str → List ChecklistItem → List Str
drifted_of ids [] = []
drifted_of ids (item ∷ items) =
    let rest = drifted_of ids items in if drifts ids item then item.id ∷ rest else rest

unfoldable pub compute_checklist_declaration_drift : List SubTask → List ChecklistItem → List Str
unfolding declared_of drifted_of
compute_checklist_declaration_drift plan items =
    if is_empty (declared_of plan) then [] else sort_strings (drifted_of (declared_of plan) items)
