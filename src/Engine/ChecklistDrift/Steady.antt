-- ===== src/Engine/ChecklistDrift/Steady.antt =====
-- Ticking a line that a declared item stands on, in hermes/github.go, keeps the sections.
use alice_core.Prelude.{
  ℕ, ◌+◌, ◌≡◌, refl, sym, ap, ◌∙◌, arith, Bool, true, false, not, ◌&&◌, ◌||◌, Str, is_empty,
  is_some, if_cases, if_of_false, if◌then◌else◌, List, [], ◌∷◌, Option, none, some,
}
use alice_core.IssueOps.Checklist.{ChecklistItem}
use alice_core.IssueOps.Body.{
  TextFolds, Line, item, plain, heading, boxed, in_section, checklist_line, extract_heading_text,
  is_hermes_plan_section, read_line, section_after, item_at, is_checked, ticked, extract_from,
  prepend,
}
use alice_core.IssueOps.Preview.{text_at, tick_item, tick_line, tick_lines}
use alice_core.IssueOps.Ticks.{item-text}
use alice_core.Engine.ChecklistDrift.{drifts, drifted_of}

heading-of_item :
    (line : Str) (x : ℕ × Str) → checklist_line line ≡ some x → extract_heading_text line ≡ []
unfolding checklist_line extract_heading_text
heading-of_item (a ∷ b ∷ c ∷ rest) x h = ground arith
heading-of_item [] x h = absurd (ground arith)
heading-of_item (m ∷ []) x h = absurd (ground arith)
heading-of_item (m ∷ n ∷ []) x h = absurd (ground arith)

read_line-boxed :
    (f : TextFolds) (section line : Str) (x : ℕ × Str)
    → checklist_line line ≡ some x
    → read_line f section line ≡ in_section (is_hermes_plan_section f section) (boxed (some x))
unfolding read_line
read_line-boxed f section line x h =
    by_heading (extract_heading_text line) (checklist_line line) (heading-of_item line x h) h
  where
    by_heading :
        (t : Str) (o : Option (ℕ × Str))
        → t ≡ []
        → o ≡ some x
        → (if is_empty t
            then in_section (is_hermes_plan_section f section) (boxed o)
            else heading t)
          ≡ in_section (is_hermes_plan_section f section) (boxed (some x))
    by_heading t o p q = ground (arith)

abbrev drift_at : List Str → Option ChecklistItem → Bool
drift_at ids none = false
drift_at ids (some x) = drifts ids x

no_drift_in :
    (f : TextFolds) (idx : ℕ) (section : Str) (ids : List Str) (p : Bool) (mark : ℕ) (text : Str)
    → is_checked mark ≡ true
    → drift_at ids (item_at idx section (in_section p (item mark text))) ≡ false
unfolding item_at
no_drift_in f idx section ids true mark text h = refl
no_drift_in f idx section ids false mark text h = ground arith

no_item_at :
    (f : TextFolds) (idx : ℕ) (section line : Str)
    → checklist_line line ≡ none
    → item_at idx section (read_line f section line) ≡ none
unfolding read_line item_at
no_item_at f idx section line h =
    by_heading (extract_heading_text line) (checklist_line line) (is_hermes_plan_section f section)
      h
  where
    by_heading :
        (t : Str) (o : Option (ℕ × Str)) (p : Bool)
        → o ≡ none
        → item_at idx section (if is_empty t then in_section p (boxed o) else heading t) ≡ none
    by_heading [] none true q = refl
    by_heading [] none false q = refl
    by_heading (c ∷ cs) o p q = refl
    by_heading [] (some x) p q = absurd (ground arith)

section_in :
    (section : Str) (p : Bool) (mark : ℕ) (text : Str)
    → section_after section (in_section p (item mark text)) ≡ section
section_in section true mark text = refl
section_in section false mark text = refl

-- An item that would drift is a target.
abbrev pub covered_at : List Str → List (ℕ × Str) → Option ChecklistItem → Bool
covered_at ids targets none = true
covered_at ids targets (some x) = not (drifts ids x) || is_some (text_at x.line_number targets)

abbrev pub covered : List Str → List (ℕ × Str) → List ChecklistItem → Bool
covered ids targets [] = true
covered ids targets (x ∷ xs) = covered_at ids targets (some x) && covered ids targets xs

untargeted :
    (ids : List Str) (targets : List (ℕ × Str)) (idx : ℕ) (section : Str) (l : Line)
    → text_at idx targets ≡ none
    → covered_at ids targets (item_at idx section l) ≡ true
    → drift_at ids (item_at idx section l) ≡ false
unfolding item_at
untargeted ids targets idx section (heading h) e c = refl
untargeted ids targets idx section plain e c = refl
untargeted ids targets idx section (item mark text) e c = ground (arith)

nonempty_text :
    (line : Str) (mark : ℕ) (text : Str)
    → checklist_line line ≡ some (mark, text)
    → checklist_line (ticked text) ≡ some (b'x', text)
unfolding checklist_line
nonempty_text line mark [] h = absurd (ground (arith, item-text line mark [] (ap boxed h)))
nonempty_text line mark (c ∷ cs) h = refl

-- What a line becomes keeps the section and has no item that drifts.
abbrev Steady : TextFolds → List Str → ℕ → Str → Str → Str → Type 0
Steady f ids idx section line new =
    (section_after section (read_line f section new)
      ≡ section_after section (read_line f section line))
    × (drift_at ids (item_at idx section (read_line f section new)) ≡ false)

tick_item-Steady :
    (f : TextFolds) (ids : List Str) (idx : ℕ) (section line text : Str) (o : Option (ℕ × Str))
    → checklist_line line ≡ o
    → Steady f ids idx section line (tick_item line text o).0
tick_item-Steady f ids idx section line text none h =
    (refl, ap (drift_at ids) (no_item_at f idx section line h))
tick_item-Steady f ids idx section line text (some (mark, rest)) h =
    if_cases (λ (r : Str × Option Str). Steady f ids idx section line r.0) (is_checked mark) _ _
      (λ y. (
        refl,
        ap (λ l. drift_at ids (item_at idx section l)) e
            ∙ no_drift_in f idx section ids p mark rest y,
      ))
      (λ n. (
        ap (section_after section) e2
            ∙ section_in section p b'x' rest
            ∙ sym (ap (section_after section) e ∙ section_in section p mark rest),
        ap (λ l. drift_at ids (item_at idx section l)) e2
            ∙ no_drift_in f idx section ids p b'x' rest refl,
      ))
  where
    p : Bool
    p = is_hermes_plan_section f section

    e : read_line f section line ≡ in_section p (item mark rest)
    e = read_line-boxed f section line (mark, rest) h

    e2 : read_line f section (ticked rest) ≡ in_section p (item b'x' rest)
    e2 = read_line-boxed f section (ticked rest) (b'x', rest) (nonempty_text line mark rest h)

tick_line-Steady :
    (f : TextFolds) (ids : List Str) (targets : List (ℕ × Str)) (idx : ℕ) (section line : Str)
    (t : Option Str)
    → text_at idx targets ≡ t
    → covered_at ids targets (item_at idx section (read_line f section line)) ≡ true
    → Steady f ids idx section line (tick_line t line).0
unfolding tick_line
tick_line-Steady f ids targets idx section line none e c =
    (refl, untargeted ids targets idx section (read_line f section line) e c)
tick_line-Steady f ids targets idx section line (some text) e c =
    tick_item-Steady f ids idx section line text (checklist_line line) refl

covered-prepend :
    (ids : List Str) (targets : List (ℕ × Str)) (o : Option ChecklistItem) (xs : List ChecklistItem)
    → covered ids targets (prepend o xs) ≡ true
    → (covered_at ids targets o ≡ true) × (covered ids targets xs ≡ true)
covered-prepend ids targets none xs h = (refl, h)
covered-prepend ids targets (some x) xs h = (ground arith, ground arith)

drifted_of-prepend :
    (ids : List Str) (o : Option ChecklistItem) (xs : List ChecklistItem)
    → drift_at ids o ≡ false
    → drifted_of ids (prepend o xs) ≡ drifted_of ids xs
unfolding drifted_of
drifted_of-prepend ids none xs h = refl
drifted_of-prepend ids (some x) xs h = if_of_false (drifts ids x) _ _ h

pub tick_lines-steady :
    (f : TextFolds) (ids : List Str) (targets : List (ℕ × Str)) (idx : ℕ) (section : Str)
    (ls : List Str)
    → covered ids targets (extract_from f idx section ls) ≡ true
    → drifted_of ids (extract_from f idx section (tick_lines targets idx ls).0) ≡ []
unfolding tick_lines extract_from drifted_of
tick_lines-steady f ids targets idx section [] h = refl
tick_lines-steady f ids targets idx section (line ∷ rest) h =
    let c =
      covered-prepend ids targets (item_at idx section (read_line f section line))
        (extract_from f (idx + 1) (section_after section (read_line f section line)) rest) h in
    let s = tick_line-Steady f ids targets idx section line (text_at idx targets) refl c.0 in
    drifted_of-prepend ids _ _ s.1
    ∙ ap (λ t. drifted_of ids (extract_from f (idx + 1) t (tick_lines targets (idx + 1) rest).0))
        s.0
    ∙ tick_lines-steady f ids targets (idx + 1) (section_after section (read_line f section line))
        rest c.1
