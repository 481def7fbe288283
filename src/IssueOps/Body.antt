-- ===== src/IssueOps/Body.antt =====
-- hermes/github.go: the checklist in the body of an issue, and the boxes that completed sub-tasks
-- tick. The regular expressions are matched by hand on one line, which has no newline.
use alice_core.Prelude.{
  ℕ, suc, zero, ◌+◌, ◌==◌, ltb, Bool, true, false, ◌&&◌, ◌||◌, Str, codes, decimal, has_prefix,
  trim_space, is_empty, runes, of_runes, split_lines, join, if◌then◌else◌, List, [], ◌∷◌, ◌++◌,
  Option, none, some, length, take,
}
use alice_core.Hermes.Accumulated.{is_re_space, skip_re_space}
use alice_core.IssueOps.Checklist.{ChecklistItem}

-- `strings.EqualFold` and `strings.ToLower`, which read Go's tables of Unicode.
pub record TextFolds : Type 0 where
  pub equal_fold : Str → Str → Bool
  pub to_lower : Str → Str

abbrev skip_hashes : Str → Str
skip_hashes [] = []
skip_hashes (c ∷ cs) = if c == b'#' then skip_hashes cs else c ∷ cs

-- `\s*#*\s*$` at the head.
abbrev closes_line : Str → Bool
closes_line s = is_empty (skip_re_space (skip_hashes (skip_re_space s)))

-- `(.+?)`: the shortest text that is not empty and that the end of the heading follows.
abbrev heading_text : Str → Str
heading_text [] = []
heading_text (c ∷ cs) = let rest = heading_text cs in if closes_line cs then c ∷ [] else c ∷ rest

-- `\s+(.+?)\s*#*\s*$` after the hashes of a heading. Where white space alone follows them the match
-- is blank, as the text that is trimmed.
abbrev after_hashes : Str → Str
after_hashes [] = []
after_hashes (c ∷ cs) = if is_re_space c then heading_text (skip_re_space cs) else []

-- `^#{1,6}`: at most six hashes, none of them left for what follows.
abbrev hashes_then : ℕ → Str → Str
hashes_then left [] = []
hashes_then zero (c ∷ cs) = after_hashes (c ∷ cs)
hashes_then (suc left) (c ∷ cs) = if c == b'#' then hashes_then left cs else after_hashes (c ∷ cs)

-- `extractHeadingText`
unfoldable pub extract_heading_text : Str → Str
unfolding trim_space
extract_heading_text [] = []
extract_heading_text (c ∷ cs) = if c == b'#' then trim_space (hashes_then 5 cs) else []

-- `checklistRe` on a line: the mark in the box and the text.
abbrev pub box : ℕ → Str → Option (ℕ × Str)
box mark [] = none
box mark (c ∷ cs) =
    if mark == b' ' || mark == b'x' || mark == b'X' then some (mark, c ∷ cs) else none

abbrev pub after_bracket : Str → Option (ℕ × Str)
after_bracket (mark ∷ close ∷ space ∷ text) =
    if close == b']' && space == b' ' then box mark text else none
after_bracket _ = none

unfoldable pub checklist_line : Str → Option (ℕ × Str)
checklist_line (dash ∷ space ∷ open_bracket ∷ rest) =
    if dash == b'-' && space == b' ' && open_bracket == b'[' then after_bracket rest else none
checklist_line _ = none

-- `strings.ToLower(m[1]) == "x"`
abbrev pub is_checked : ℕ → Bool
is_checked mark = mark == b'x' || mark == b'X'

-- The title that the plans of the program have in the body: "Hermes" and four Chinese characters.
abbrev pub plan_title : Str
plan_title =
    codes "Hermes "
    ++ 0xE5 ∷ 0x9F ∷ 0xB7 ∷ 0xE8 ∷ 0xA1 ∷ 0x8C ∷ 0xE8 ∷ 0xA8 ∷ 0x88 ∷ 0xE5 ∷ 0x8A ∷ 0x83 ∷ []

unfoldable pub is_hermes_plan_section : TextFolds → Str → Bool
unfolding trim_space
is_hermes_plan_section f section = f.equal_fold (trim_space section) plan_title

-- What the loops over the lines see in one of them.
pub data Line : Type 0 where
  heading : Str → Line
  item : ℕ → Str → Line
  plain : Line

abbrev pub boxed : Option (ℕ × Str) → Line
boxed none = plain
boxed (some (mark, text)) = item mark text

abbrev pub in_section : Bool → Line → Line
in_section true l = plain
in_section false l = l

-- The tests that open the body of each loop.
unfoldable pub read_line : TextFolds → Str → Str → Line
read_line f section line =
    if is_empty (extract_heading_text line)
    then in_section (is_hermes_plan_section f section) (boxed (checklist_line line))
    else heading (extract_heading_text line)

-- `currentSection` after a line.
abbrev pub section_after : Str → Line → Str
section_after section (heading h) = h
section_after section _ = section

unfoldable pub item_at : ℕ → Str → Line → Option ChecklistItem
unfolding trim_space
item_at idx section (item mark text) = some (record {
  id = codes "item-" ++ decimal idx;
  text = trim_space text;
  checked = is_checked mark;
  line_number = idx;
  section = section;
})
item_at idx section _ = none

abbrev pub prepend {ℓ} : {A : Type ℓ} → Option A → List A → List A
prepend none xs = xs
prepend (some x) xs = x ∷ xs

unfoldable pub extract_from : TextFolds → ℕ → Str → List Str → List ChecklistItem
unfolding read_line
extract_from f idx section [] = []
extract_from f idx section (line ∷ rest) =
    let l = read_line f section line in
    prepend (item_at idx section l) (extract_from f (idx + 1) (section_after section l) rest)

unfoldable pub extract_checklist : TextFolds → Str → List ChecklistItem
unfolding extract_from
extract_checklist f body = extract_from f 0 [] (split_lines body)

-- The first 16 runes.
abbrev pub shortened : Str → Str
shortened desc = if ltb 16 (length (runes desc)) then of_runes (take 16 (runes desc)) else desc

unfoldable pub matches_checklist_item : TextFolds → Str → Str → Bool
unfolding runes trim_space
matches_checklist_item f item_text desc =
    let t = trim_space item_text in
    let d = trim_space desc in
    if is_empty t || is_empty d
    then false
    else if f.equal_fold t d
    then true
    else has_prefix (f.to_lower (shortened d)) (f.to_lower t)

abbrev pub any_matches : TextFolds → Str → List Str → Bool
any_matches f text [] = false
any_matches f text (d ∷ ds) = matches_checklist_item f text d || any_matches f text ds

-- `"- [x] " + m[2]`
abbrev pub ticked : Str → Str
ticked text = codes "- [x] " ++ text

-- The body of the loop of `UpdateChecklistInBody`.
unfoldable pub update_line : TextFolds → List Str → Line → Str → Str
unfolding matches_checklist_item trim_space
update_line f descs (item mark text) line =
    if is_checked mark
    then line
    else if any_matches f (trim_space text) descs
    then ticked text
    else line
update_line f descs _ line = line

unfoldable pub update_lines : TextFolds → List Str → Str → List Str → List Str
unfolding read_line update_line
update_lines f descs section [] = []
update_lines f descs section (line ∷ rest) =
    let l = read_line f section line in
    update_line f descs l line ∷ update_lines f descs (section_after section l) rest

unfoldable pub update_checklist_in_body : TextFolds → Str → List Str → Str
unfolding update_lines
update_checklist_in_body f body descs =
    join (codes "\n") (update_lines f descs [] (split_lines body))
