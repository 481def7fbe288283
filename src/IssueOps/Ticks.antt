-- ===== src/IssueOps/Ticks.antt =====
-- What ticking the checklist of hermes/github.go may change in a body.
use alice_core.Prelude.{
  ℕ, ◌≡◌, refl, ap, ◌∙◌, arith, Bool, true, false, Str, trim_space, is_empty, if_cases, if_of_true,
  if_of_false, if◌then◌else◌, List, [], ◌∷◌,
}
use alice_core.IssueOps.Body.{
  TextFolds, Line, heading, item, plain, in_section, boxed, box, after_bracket, read_line,
  section_after, checklist_line, is_checked, is_hermes_plan_section, extract_heading_text, ticked,
  any_matches, update_line, update_lines,
}

-- The line stays, or it is an unchecked item outside the plan's section and its box is ticked.
pub data Ticked (f : TextFolds) (section : Str) (line : Str) : Str → Type 0 where
  kept : Ticked f section line line
  ticks :
      (mark : ℕ) (text : Str)
      → read_line f section line ≡ item mark text
      → is_checked mark ≡ false
      → Ticked f section line (ticked text)

-- As many lines, each kept or ticked in its section.
pub data AllTicked (f : TextFolds) : Str → List Str → List Str → Type 0 where
  nil : (section : Str) → AllTicked f section [] []
  cons :
      (section line new : Str) (rest news : List Str)
      → Ticked f section line new
      → AllTicked f (section_after section (read_line f section line)) rest news
      → AllTicked f section (line ∷ rest) (new ∷ news)

in_section-item :
    (b : Bool) (l : Line) (mark : ℕ) (text : Str)
    → in_section b l ≡ item mark text
    → (b ≡ false) × (l ≡ item mark text)
in_section-item true l mark text h = absurd (ground arith)
in_section-item false l mark text h = (refl, h)

unheaded :
    (b p : Bool) (l : Line) (h : Str) (mark : ℕ) (text : Str)
    → (if b then in_section p l else heading h) ≡ item mark text
    → (p ≡ false) × (l ≡ item mark text)
unheaded true p l h mark text e = in_section-item p l mark text e
unheaded false p l h mark text e = absurd (ground arith)

box-text :
    (m : ℕ) (s : Str) (mark : ℕ) (text : Str)
    → boxed (box m s) ≡ item mark text
    → is_empty text ≡ false
box-text m [] mark text h = absurd (ground arith)
box-text m (c ∷ cs) mark [] h = absurd (ground arith)
box-text m (c ∷ cs) mark (d ∷ ds) h = refl

after_bracket-text :
    (s : Str) (mark : ℕ) (text : Str)
    → boxed (after_bracket s) ≡ item mark text
    → is_empty text ≡ false
after_bracket-text (m ∷ close ∷ space ∷ t) mark text h = ground (arith, box-text m t mark text)
after_bracket-text [] mark text h = absurd (ground arith)
after_bracket-text (m ∷ []) mark text h = absurd (ground arith)
after_bracket-text (m ∷ n ∷ []) mark text h = absurd (ground arith)

pub item-text :
    (line : Str) (mark : ℕ) (text : Str)
    → boxed (checklist_line line) ≡ item mark text
    → is_empty text ≡ false
unfolding checklist_line
item-text (a ∷ b ∷ c ∷ rest) mark text h = ground (arith, after_bracket-text rest mark text)
item-text [] mark text h = absurd (ground arith)
item-text (m ∷ []) mark text h = absurd (ground arith)
item-text (m ∷ n ∷ []) mark text h = absurd (ground arith)

pub read_item :
    (f : TextFolds) (section line : Str) (mark : ℕ) (text : Str)
    → read_line f section line ≡ item mark text
    → (is_hermes_plan_section f section ≡ false) × (boxed (checklist_line line) ≡ item mark text)
unfolding read_line
read_item f section line mark text h =
    unheaded (is_empty (extract_heading_text line)) (is_hermes_plan_section f section)
      (boxed (checklist_line line)) (extract_heading_text line) mark text h

read-ticked :
    (f : TextFolds) (section line : Str) (mark : ℕ) (text : Str)
    → read_line f section line ≡ item mark text
    → read_line f section (ticked text) ≡ item b'x' text
unfolding read_line extract_heading_text checklist_line
read-ticked f section line mark [] h =
    absurd (ground (arith, item-text line mark [] (read_item f section line mark [] h).1))
read-ticked f section line mark (c ∷ cs) h =
    ap (λ b. in_section b (item b'x' (c ∷ cs))) (read_item f section line mark (c ∷ cs) h).0

update_line-Ticked :
    (f : TextFolds) (descs : List Str) (section line : Str) (l : Line)
    → read_line f section line ≡ l
    → Ticked f section line (update_line f descs l line)
unfolding update_line
update_line-Ticked f descs section line (heading h) e = kept
update_line-Ticked f descs section line plain e = kept
update_line-Ticked f descs section line (item mark text) e =
    if_cases (Ticked f section line) (is_checked mark) _ _ (λ y. kept)
      (λ n.
        if_cases (Ticked f section line) (any_matches f (trim_space text) descs) _ _
          (λ y. ticks mark text e n) (λ m. kept))

pub update_lines-AllTicked :
    (f : TextFolds) (descs : List Str) (lines : List Str) (section : Str)
    → AllTicked f section lines (update_lines f descs section lines)
unfolding update_lines
update_lines-AllTicked f descs [] section = nil section
update_lines-AllTicked f descs (line ∷ rest) section =
    cons section line _ rest _
      (update_line-Ticked f descs section line (read_line f section line) refl)
      (update_lines-AllTicked f descs rest (section_after section (read_line f section line)))

-- The line keeps its section, and ticking it again leaves it.
abbrev Stays : TextFolds → List Str → Str → Str → Str → Type 0
Stays f descs section next new =
    (section_after section (read_line f section new) ≡ next)
    × (update_line f descs (read_line f section new) new ≡ new)

Stays-as :
    (f : TextFolds) (descs : List Str) (section next new : Str) (l : Line)
    → read_line f section new ≡ l
    → section_after section l ≡ next
    → update_line f descs l new ≡ new
    → Stays f descs section next new
Stays-as f descs section next new l e p q =
    (ap (section_after section) e ∙ p, ap (λ k. update_line f descs k new) e ∙ q)

update_line-Stays :
    (f : TextFolds) (descs : List Str) (section line : Str) (l : Line)
    → read_line f section line ≡ l
    → Stays f descs section (section_after section l) (update_line f descs l line)
unfolding update_line
update_line-Stays f descs section line (heading h) e =
    Stays-as f descs section h line (heading h) e refl refl
update_line-Stays f descs section line plain e =
    Stays-as f descs section section line plain e refl refl
update_line-Stays f descs section line (item mark text) e =
    if_cases (Stays f descs section section) (is_checked mark) _ _
      (λ y. kept_item (if_of_true (is_checked mark) _ _ y))
      (λ n.
        if_cases (Stays f descs section section) (any_matches f (trim_space text) descs) _ _
          (λ y.
            Stays-as f descs section section (ticked text) (item b'x' text)
              (read-ticked f section line mark text e) refl refl)
          (λ m. kept_item (if_of_false (is_checked mark) _ _ n ∙ if_of_false _ _ _ m)))
  where
    kept_item :
        update_line f descs (item mark text) line ≡ line → Stays f descs section section line
    kept_item q = Stays-as f descs section section line (item mark text) e refl q

pub update_lines-again :
    (f : TextFolds) (descs : List Str) (lines : List Str) (section : Str)
    → update_lines f descs section (update_lines f descs section lines)
      ≡ update_lines f descs section lines
unfolding update_lines
update_lines-again f descs [] section = refl
update_lines-again f descs (line ∷ rest) section =
    let stays = update_line-Stays f descs section line (read_line f section line) refl in
    λ i.
      stays.1 i
      ∷ (ap
              (λ s.
                update_lines f descs s
                  (update_lines f descs (section_after section (read_line f section line)) rest))
              stays.0
            ∙ update_lines-again f descs rest (section_after section (read_line f section line)))
          i
