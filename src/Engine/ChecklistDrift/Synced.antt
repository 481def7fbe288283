-- ===== src/Engine/ChecklistDrift/Synced.antt =====
-- No declared item drifts in the body that hermes/github.go computes for a plan.
use alice_core.Prelude.{
  ℕ, ◌+◌, ◌≡◌, refl, ap, ◌∙◌, arith, true, false, not, ◌&&◌, Str, codes, is_empty, split_lines,
  join, if_cases, if_of_true, List, [], ◌∷◌, Option, none, some,
}
use alice_core.Hermes.State.{SubTask}
use alice_core.IssueOps.Checklist.{ChecklistItem}
use alice_core.IssueOps.Body.{
  TextFolds, boxed, checklist_line, is_checked, extract_from, extract_checklist,
}
use alice_core.IssueOps.Preview.{
  declared_of, completed_of, among, target_lines, text_at, tick_item, tick_line, tick_lines,
  apply_declared_checklist_ticks, build_checklist_sync_preview, ChecklistSyncPreview,
}
use alice_core.IssueOps.Bodies.{
  one_line, one_lines, item-one_line, split_lines-one_lines, split_lines-join, split_lines-cons,
}
use alice_core.Engine.ChecklistDrift.{sort_strings, drifted_of, compute_checklist_declaration_drift}
use alice_core.Engine.ChecklistDrift.Steady.{covered, tick_lines-steady}

covered-more :
    (ids : List Str) (target : ℕ × Str) (targets : List (ℕ × Str)) (xs : List ChecklistItem)
    → covered ids targets xs ≡ true
    → covered ids (target ∷ targets) xs ≡ true
covered-more ids (n, t) targets [] h = refl
covered-more ids (n, t) targets (x ∷ xs) h = ground (arith, covered-more ids (n, t) targets xs)

target_lines-covered :
    (ids : List Str) (xs : List ChecklistItem) → covered ids (target_lines ids xs) xs ≡ true
unfolding target_lines
target_lines-covered ids [] = refl
target_lines-covered ids (x ∷ xs) =
    if_cases (λ t. covered ids t (x ∷ xs) ≡ true) (not x.checked && among x.id ids) _ _
      (λ h. ground (
        arith,
        covered-more ids (x.line_number, x.text) (target_lines ids xs) xs
            (target_lines-covered ids xs),
      ))
      (λ h. ground (arith, target_lines-covered ids xs))

untargeted_all :
    (ids : List Str) (targets : List (ℕ × Str)) (xs : List ChecklistItem)
    → is_empty targets ≡ true
    → covered ids targets xs ≡ true
    → drifted_of ids xs ≡ []
unfolding drifted_of
untargeted_all ids (t ∷ ts) xs e h = absurd (ground arith)
untargeted_all ids [] [] e h = refl
untargeted_all ids [] (x ∷ xs) e h = ground (arith, untargeted_all ids [] xs)

tick_item-one_line :
    (line text : Str) (o : Option (ℕ × Str))
    → checklist_line line ≡ o
    → one_line line ≡ true
    → one_line (tick_item line text o).0 ≡ true
tick_item-one_line line text none e h = h
tick_item-one_line line text (some (mark, rest)) e h =
    if_cases (λ (r : Str × Option Str). one_line r.0 ≡ true) (is_checked mark) _ _ (λ y. h)
      (λ n. item-one_line line mark rest (ap boxed e) h)

tick_line-one_line :
    (t : Option Str) (line : Str) → one_line line ≡ true → one_line (tick_line t line).0 ≡ true
unfolding tick_line
tick_line-one_line none line h = h
tick_line-one_line (some text) line h = tick_item-one_line line text (checklist_line line) refl h

tick_lines-one_lines :
    (targets : List (ℕ × Str)) (idx : ℕ) (ls : List Str)
    → one_lines ls ≡ true
    → one_lines (tick_lines targets idx ls).0 ≡ true
unfolding tick_lines
tick_lines-one_lines targets idx [] h = refl
tick_lines-one_lines targets idx (l ∷ ls) h =
    ground
      (arith, tick_line-one_line (text_at idx targets) l, tick_lines-one_lines targets (idx + 1) ls)

tick_lines-joined :
    (targets : List (ℕ × Str)) (ls : List Str)
    → is_empty ls ≡ false
    → one_lines ls ≡ true
    → split_lines (join (codes "\n") (tick_lines targets 0 ls).0) ≡ (tick_lines targets 0 ls).0
unfolding tick_lines
tick_lines-joined targets [] e h = absurd (ground arith)
tick_lines-joined targets (l ∷ ls) e h =
    split_lines-join _ _ (tick_lines-one_lines targets 0 (l ∷ ls) h)

pub apply_declared-drift :
    (f : TextFolds) (body : Str) (ids : List Str)
    → drifted_of ids (extract_checklist f (apply_declared_checklist_ticks f body ids).0) ≡ []
unfolding apply_declared_checklist_ticks extract_checklist
apply_declared-drift f body ids =
    let targets = target_lines ids (extract_checklist f body) in
    let c = target_lines-covered ids (extract_checklist f body) in
    if_cases (λ (r : Str × List Str). drifted_of ids (extract_from f 0 [] (split_lines r.0)) ≡ [])
      (is_empty targets) _ _ (λ h. untargeted_all ids targets _ h c)
      (λ h.
        ap (λ ls. drifted_of ids (extract_from f 0 [] ls))
          (tick_lines-joined targets (split_lines body) (split_lines-cons body)
            (split_lines-one_lines body))
        ∙ tick_lines-steady f ids targets 0 [] (split_lines body) c)

declared_of-completed :
    (ts : List SubTask) → is_empty (completed_of ts) ≡ true → declared_of ts ≡ []
unfolding completed_of declared_of
declared_of-completed [] h = refl
declared_of-completed (t ∷ ts) h = ground (arith, declared_of-completed ts)

drift-of_none :
    (ts : List SubTask) (items : List ChecklistItem)
    → is_empty (declared_of ts) ≡ true
    → compute_checklist_declaration_drift ts items ≡ []
unfolding compute_checklist_declaration_drift
drift-of_none ts items h = if_of_true _ _ _ h

drift-of_steady :
    (ts : List SubTask) (items : List ChecklistItem)
    → drifted_of (declared_of ts) items ≡ []
    → compute_checklist_declaration_drift ts items ≡ []
unfolding compute_checklist_declaration_drift
drift-of_steady ts items h =
    if_cases (λ x. x ≡ []) (is_empty (declared_of ts)) _ _ (λ e. refl) (λ e. ap sort_strings h)

-- In the body that the preview of a plan gives, no checklist item that a done sub-task of the plan
-- declares is left unchecked, so that the check after a completed synchronisation finds no drift.
pub build_checklist_sync_preview-drift :
    (f : TextFolds) (body : Str) (plan : List SubTask)
    → compute_checklist_declaration_drift plan
        (extract_checklist f (build_checklist_sync_preview f body plan).body_after)
      ≡ []
unfolding build_checklist_sync_preview
build_checklist_sync_preview-drift f body plan =
    if_cases P (is_empty (completed_of plan)) _ _
      (λ e. drift-of_none plan _ (ap is_empty (declared_of-completed plan e)))
      (λ n.
        if_cases P (is_empty (declared_of plan)) _ _ (λ e. drift-of_none plan _ e)
          (λ m. drift-of_steady plan _ (apply_declared-drift f body (declared_of plan))))
  where
    P : ChecklistSyncPreview → Type 0
    P p = compute_checklist_declaration_drift plan (extract_checklist f p.body_after) ≡ []
