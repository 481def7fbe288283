-- ===== src/IssueOps/Bodies.antt =====
-- The lines of a body whose checklist hermes/github.go ticks, and ticking twice.
use alice_core.Prelude.{
  ℕ, ◌≡◌, refl, sym, ap, subst, ◌∙◌, arith, Bool, true, false, not, ◌&&◌, ◌==◌, Str, codes,
  is_empty, split_lines, cons_head, join, if_cases, List, [], ◌∷◌, ◌++◌,
}
use alice_core.IssueOps.Body.{
  TextFolds, boxed, box, after_bracket, checklist_line, item, read_line, section_after,
  update_lines, update_checklist_in_body,
}
use alice_core.IssueOps.Ticks.{
  read_item, Ticked, AllTicked, kept, ticks, nil, cons, update_lines-AllTicked, update_lines-again,
}

abbrev pub one_line : Str → Bool
one_line [] = true
one_line (c ∷ cs) = not (c == 10) && one_line cs

abbrev pub one_lines : List Str → Bool
one_lines [] = true
one_lines (l ∷ ls) = one_line l && one_lines ls

cons_head-one_lines :
    (c : ℕ) (ls : List Str)
    → (c == 10) ≡ false
    → one_lines ls ≡ true
    → one_lines (cons_head c ls) ≡ true
cons_head-one_lines c [] h e = ground arith
cons_head-one_lines c (l ∷ ls) h e = ground arith

pub split_lines-one_lines : (s : Str) → one_lines (split_lines s) ≡ true
split_lines-one_lines [] = refl
split_lines-one_lines (c ∷ cs) =
    if_cases (λ x. one_lines x ≡ true) (c == 10) _ _ (λ h. split_lines-one_lines cs)
      (λ h. cons_head-one_lines c (split_lines cs) h (split_lines-one_lines cs))

split_lines-line : (l : Str) → one_line l ≡ true → split_lines l ≡ l ∷ []
split_lines-line [] h = refl
split_lines-line (c ∷ cs) h = ground (arith, split_lines-line cs)

split_lines-lines :
    (l rest : Str)
    → one_line l ≡ true
    → split_lines (l ++ codes "\n" ++ rest) ≡ l ∷ split_lines rest
split_lines-lines [] rest h = refl
split_lines-lines (c ∷ cs) rest h = ground (arith, split_lines-lines cs rest)

pub split_lines-join :
    (l : Str) (ls : List Str)
    → one_lines (l ∷ ls) ≡ true
    → split_lines (join (codes "\n") (l ∷ ls)) ≡ l ∷ ls
split_lines-join l [] h = split_lines-line l (ground arith)
split_lines-join l (k ∷ ls) h =
    split_lines-lines l (join (codes "\n") (k ∷ ls)) (ground arith)
    ∙ ap (λ x. l ∷ x) (split_lines-join k ls (ground arith))

box-one_line :
    (m : ℕ) (s : Str) (mark : ℕ) (text : Str)
    → boxed (box m s) ≡ item mark text
    → one_line s ≡ true
    → one_line text ≡ true
box-one_line m [] mark text h e = absurd (ground arith)
box-one_line m (c ∷ cs) mark text h e = ground arith

after_bracket-one_line :
    (s : Str) (mark : ℕ) (text : Str)
    → boxed (after_bracket s) ≡ item mark text
    → one_line s ≡ true
    → one_line text ≡ true
after_bracket-one_line (m ∷ close ∷ space ∷ t) mark text h e =
    ground (arith, box-one_line m t mark text)
after_bracket-one_line [] mark text h e = absurd (ground arith)
after_bracket-one_line (m ∷ []) mark text h e = absurd (ground arith)
after_bracket-one_line (m ∷ n ∷ []) mark text h e = absurd (ground arith)

pub item-one_line :
    (line : Str) (mark : ℕ) (text : Str)
    → boxed (checklist_line line) ≡ item mark text
    → one_line line ≡ true
    → one_line text ≡ true
unfolding checklist_line
item-one_line (a ∷ b ∷ c ∷ rest) mark text h e =
    ground (arith, after_bracket-one_line rest mark text)
item-one_line [] mark text h e = absurd (ground arith)
item-one_line (m ∷ []) mark text h e = absurd (ground arith)
item-one_line (m ∷ n ∷ []) mark text h e = absurd (ground arith)

update_line-one_line :
    (f : TextFolds) (section line new : Str)
    → Ticked f section line new
    → one_line line ≡ true
    → one_line new ≡ true
update_line-one_line f section line _ kept h = h
update_line-one_line f section line _ (ticks mark text e n) h =
    item-one_line line mark text (read_item f section line mark text e).1 h

update_lines-one_lines :
    (f : TextFolds) (section : Str) (ls news : List Str)
    → AllTicked f section ls news
    → one_lines ls ≡ true
    → one_lines news ≡ true
update_lines-one_lines f _ _ _ (nil section) h = refl
update_lines-one_lines f _ _ _ (cons section line new rest news t ts) h = ground (
  arith,
  update_line-one_line f section line new t,
  update_lines-one_lines f (section_after section (read_line f section line)) rest news ts,
)

pub split_lines-cons : (s : Str) → is_empty (split_lines s) ≡ false
split_lines-cons [] = refl
split_lines-cons (c ∷ cs) =
    if_cases (λ x. is_empty x ≡ false) (c == 10) _ _ (λ h. refl)
      (λ h. cons_head-cons c (split_lines cs))
  where
    cons_head-cons : (c : ℕ) (ls : List Str) → is_empty (cons_head c ls) ≡ false
    cons_head-cons c [] = refl
    cons_head-cons c (l ∷ ls) = refl

rejoined :
    (f : TextFolds) (section : Str) (ls news : List Str)
    → AllTicked f section ls news
    → is_empty ls ≡ false
    → one_lines ls ≡ true
    → split_lines (join (codes "\n") news) ≡ news
rejoined f _ _ _ (nil section) e h = absurd (ground arith)
rejoined f _ _ _ (cons section line new rest news t ts) e h = split_lines-join new news (
    update_lines-one_lines f section (line ∷ rest) (new ∷ news)
      (cons section line new rest news t ts) h)

split_lines-updated :
    (f : TextFolds) (body : Str) (descs : List Str)
    → split_lines (update_checklist_in_body f body descs)
      ≡ update_lines f descs [] (split_lines body)
unfolding update_checklist_in_body
split_lines-updated f body descs =
    rejoined f [] (split_lines body) _ (update_lines-AllTicked f descs (split_lines body) [])
      (split_lines-cons body) (split_lines-one_lines body)

-- The text keeps its number of lines, and each is kept or is ticked: an item that was not checked,
-- outside the section of the plan, gets a box with `x` and keeps its text. With the same
-- descriptions a second call changes nothing.
pub update_checklist_in_body-Ticks :
    (f : TextFolds) (body : Str) (descs : List Str)
    → AllTicked f [] (split_lines body) (split_lines (update_checklist_in_body f body descs))
      × (update_checklist_in_body f (update_checklist_in_body f body descs) descs
          ≡ update_checklist_in_body f body descs)
unfolding update_checklist_in_body
update_checklist_in_body-Ticks f body descs = (
  subst (AllTicked f [] (split_lines body)) (sym (split_lines-updated f body descs))
      (update_lines-AllTicked f descs (split_lines body) []),
  ap (λ ls. join (codes "\n") (update_lines f descs [] ls)) (split_lines-updated f body descs)
      ∙ ap (join (codes "\n")) (update_lines-again f descs (split_lines body) []),
)
