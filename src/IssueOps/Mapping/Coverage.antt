-- ===== src/IssueOps/Mapping/Coverage.antt =====
-- What the mapping of issueops/checklist_mapping.go says of the checklist.
use alice_core.Prelude.{
  ℕ, zero, suc, ◌+◌, ◌<◌, ◌≡◌, refl, ap, subst, ◌∙◌, arith, Bool, true, false, not, ◌||◌, ◌==◌,
  is_empty, if_cases, List, [], ◌∷◌, ◌++◌, Option, none, some, length, All, get_elem?,
}
use alice_core.Hermes.State.{SubTask}
use alice_core.Hermes.IssueState.{IssueState}
use alice_core.IssueOps.Checklist.{ChecklistItem, IssueContext, ChecklistMappingResult}
use alice_core.IssueOps.Scoring.{UnicodeTables}
use alice_core.IssueOps.Mapping.{
  all_unused, unused_items, finish, conclude, has_checklist_declarations,
  build_declared_checklist_mapping, empty_result, map_issue, Declaring, build_checklist_mapping,
}
use alice_core.IssueOps.Mapping.Counting.{
  Apart, Consistent, All-map, length-unused_items, length-all_unused, free-all_unused,
}
use alice_core.IssueOps.Mapping.Greedy.{map_sub_tasks-Consistent, placed, placed-map_sub_tasks}
use alice_core.IssueOps.Mapping.Declared.{declare_sub_tasks-Steady, unused-Steady}

-- The mappings are to items of the checklist, no two to one item, and with the unmapped items they
-- are as many as the checklist.
pub record Covers (items : List ChecklistItem) (r : ChecklistMappingResult) : Type 0 where
  pub total : length r.mappings + length r.unmapped_checklist_items ≡ length items
  pub apart : Apart r.mappings
  pub inside : All (λ m. m.checklist_index < length items) r.mappings

abbrev pub items_of : Option IssueContext → List ChecklistItem
items_of none = []
items_of (some issue) = issue.checklist

-- A result that is synced has no open question: each item has a mapping, no mapping needs a person,
-- and where no sub-task declares an item, there are as many mappings as sub-tasks.
pub record Settled (issue : Option IssueContext) (sub_tasks : List SubTask)
    (r : ChecklistMappingResult) : Type 0 where
  pub state : r.state ≡ IssueState.checklist_synced
  pub no_question : r.needs_human_confirmation ≡ false
  pub no_items : r.unmapped_checklist_items ≡ []
  pub every_item : length r.mappings ≡ length (items_of issue)
  pub every_sub_task :
      (has_checklist_declarations sub_tasks || length r.mappings == length sub_tasks) ≡ true
  pub certain : All (λ m. m.requires_human_confirmation ≡ false) r.mappings

below_length : (used : List Bool) (k : ℕ) → get_elem? used k ≡ some true → k < length used
below_length [] k h = ground arith
below_length (b ∷ used) zero h = omega arith
below_length (b ∷ used) (suc k) h = omega (arith, below_length used k h)

-- The result before the last switch.
abbrev collected : List ChecklistItem → ChecklistMappingResult × List Bool → ChecklistMappingResult
collected items (r, used) = record r {
  unmapped_checklist_items = r.unmapped_checklist_items ++ unused_items used items;
}

collected-Covers :
    (items : List ChecklistItem) (s : ChecklistMappingResult × List Bool)
    → Consistent items s.0 s.1
    → Covers items (collected items s)
collected-Covers items s c = record {
  total =
      ap (λ l. length s.0.mappings + length (l ++ unused_items s.1 items)) c.nothing_left
      ∙ ap (λ n. length s.0.mappings + n) (length-unused_items s.1 items c.size)
      ∙ c.total;
  apart = c.apart;
  inside =
      All-map (λ m. get_elem? s.1 m.checklist_index ≡ some true)
        (λ m. m.checklist_index < length items)
        (λ m t. subst (λ n. m.checklist_index < n) c.size (below_length s.1 m.checklist_index t))
        s.0.mappings c.marked;
}

conclude-Covers :
    (items : List ChecklistItem) (r : ChecklistMappingResult)
    → Covers items r
    → Covers items (conclude r)
conclude-Covers items r c =
    if_cases (Covers items) r.needs_human_confirmation _ _
      (λ _. record { total = c.total; apart = c.apart; inside = c.inside })
      (λ _.
        if_cases (Covers items)
          (not (is_empty r.unmapped_sub_tasks) || not (is_empty r.unmapped_checklist_items)) _ _
          (λ _. record { total = c.total; apart = c.apart; inside = c.inside })
          (λ _. record { total = c.total; apart = c.apart; inside = c.inside }))

empty_nil : {A : Type 0} (xs : List A) → is_empty xs ≡ true → xs ≡ []
empty_nil [] h = refl
empty_nil (x ∷ xs) h = ground arith

tallied : (b : Bool) {m n : ℕ} → (b ≡ false → m ≡ n) → (b || m == n) ≡ true
tallied true h = refl
tallied false h = ground (arith, h refl)

conclude-Settled :
    (issue : IssueContext) (sts : List SubTask) (r : ChecklistMappingResult)
    → r.checklist_synced ≡ false
    → Covers issue.checklist r
    → (has_checklist_declarations sts ≡ false → placed r ≡ length sts)
    → (r.needs_human_confirmation ≡ false
        → All (λ m. m.requires_human_confirmation ≡ false) r.mappings)
    → (conclude r).checklist_synced ≡ true
    → Settled (some issue) sts (conclude r)
conclude-Settled issue sts r unsynced covers counted certain =
    let Answer : ChecklistMappingResult → Type 0 =
      λ x. x.checklist_synced ≡ true → Settled (some issue) sts x in
    if_cases Answer r.needs_human_confirmation _ _ (λ _ h. cc)
      (λ asked.
        if_cases Answer
          (not (is_empty r.unmapped_sub_tasks) || not (is_empty r.unmapped_checklist_items)) _ _
          (λ _ h. cc)
          (λ done h.
            let no_items = empty_nil r.unmapped_checklist_items (ground arith) in
            let no_sub_tasks = empty_nil r.unmapped_sub_tasks (ground arith) in
            record {
              state = refl;
              no_question = asked;
              no_items = no_items;
              every_item = omega (arith, covers.total, ap length no_items);
              every_sub_task =
                  tallied (has_checklist_declarations sts)
                    (λ d. omega (arith, counted d, ap length no_sub_tasks));
              certain = certain asked;
            }))

start-Consistent :
    (issue : IssueContext) (sts : List SubTask)
    → Consistent issue.checklist
        (empty_result (some issue) (length issue.checklist) sts)
        (all_unused issue.checklist)
start-Consistent issue sts = record {
  size = length-all_unused issue.checklist;
  total = omega (arith, free-all_unused issue.checklist);
  marked = tt;
  apart = tt;
  unsynced = refl;
  nothing_left = refl;
  certain = λ _. tt;
}

-- The four results for an issue: two at once, and two that end a loop.
map_issue-cases :
    (P : ChecklistMappingResult → Type 0) (u : UnicodeTables) (issue : IssueContext)
    (sts : List SubTask)
    → (is_empty issue.checklist ≡ true
        → P (record (empty_result (some issue) (length issue.checklist) sts) {
          state = IssueState.drafted;
        }))
    → P (record (empty_result (some issue) (length issue.checklist) sts) {
      state = IssueState.planned;
      unmapped_checklist_items = issue.checklist;
    })
    → ((s : ChecklistMappingResult × List Bool)
        → Consistent issue.checklist s.0 s.1
        → (has_checklist_declarations sts ≡ false → placed s.0 ≡ length sts)
        → P (conclude (collected issue.checklist s)))
    → P (map_issue u issue sts)
unfolding map_issue finish build_declared_checklist_mapping
map_issue-cases P u issue sts drafted planned ended =
    let items = issue.checklist in
    let r = empty_result (some issue) (length items) sts in
    let start = start-Consistent issue sts in
    if_cases P (is_empty items) _ _ drafted (λ _.
      if_cases P (is_empty sts) _ _ (λ _. planned)
        (λ _.
          if_cases P (has_checklist_declarations sts) _ _
            (λ declared.
              let s : Declaring = record { result = r; used = all_unused items; seen_ids = [] } in
              ended _
                (declare_sub_tasks-Steady items 0 sts s (unused-Steady items r start)).consistent
                (λ none. absurd (ground arith)))
            (λ _.
              ended _ (map_sub_tasks-Consistent u items 0 sts (r, all_unused items) start)
                (λ _. omega (arith, placed-map_sub_tasks u items 0 sts (r, all_unused items))))))

-- `buildChecklistMapping` for an issue, by scores or by declared ids: every mapping is to an item of
-- the checklist, no two mappings are to one item, and the mappings and the unmapped items together
-- are as many as the items.
pub build_checklist_mapping-Covers :
    (u : UnicodeTables) (issue : IssueContext) (sub_tasks : List SubTask)
    → Covers issue.checklist (build_checklist_mapping u (some issue) sub_tasks)
unfolding build_checklist_mapping
build_checklist_mapping-Covers u issue sub_tasks =
    map_issue-cases (Covers issue.checklist) u issue sub_tasks
      (λ e. record {
        total = omega (arith, ap length (empty_nil issue.checklist e));
        apart = tt;
        inside = tt;
      })
      (record { total = omega arith; apart = tt; inside = tt })
      (λ s c _. conclude-Covers issue.checklist _ (collected-Covers issue.checklist s c))

-- A checklist that `buildChecklistMapping` calls synced is in the state of a synced one and asks for
-- no person. It has as many mappings as the checklist has items, none left unmapped, and none of them
-- needs a person. Where no sub-task declares an id, there are also as many mappings as sub-tasks.
pub build_checklist_mapping-Settled :
    (u : UnicodeTables) (issue : Option IssueContext) (sub_tasks : List SubTask)
    → (build_checklist_mapping u issue sub_tasks).checklist_synced ≡ true
    → Settled issue sub_tasks (build_checklist_mapping u issue sub_tasks)
unfolding build_checklist_mapping
build_checklist_mapping-Settled u none sub_tasks h = cc
build_checklist_mapping-Settled u (some issue) sub_tasks h =
    map_issue-cases (λ r. r.checklist_synced ≡ true → Settled (some issue) sub_tasks r) u issue
      sub_tasks (λ _ k. cc) (λ k. cc)
      (λ s c counted.
        conclude-Settled issue sub_tasks (collected issue.checklist s) c.unsynced
          (collected-Covers issue.checklist s c) counted c.certain)
      h
