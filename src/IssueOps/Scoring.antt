-- ===== src/IssueOps/Scoring.antt =====
-- How issueops/checklist_mapping.go scores two texts against each other. What Go's tables of Unicode
-- say about letters, numbers and small letters is a parameter.
use alice_core.Prelude.{
  ℕ, ◌+◌, ◌*◌, ◌/◌, ◌==◌, ltb, Bool, true, false, ◌||◌, Str, codes, str_eq, contains, decimal, join,
  runes, trim_space, is_empty, if◌then◌else◌, List, [], ◌∷◌, ◌++◌, length,
}

-- `strings.ToLower`, and `unicode.IsLetter(r) || unicode.IsNumber(r)` on the encoding of a rune.
pub record UnicodeTables : Type 0 where
  pub to_lower : Str → Str
  pub is_word : Str → Bool

-- The loop of `normalizeMappingText`; both of its other cases write the same space.
unfoldable pub spaced_words : UnicodeTables → Bool → List Str → Str
spaced_words u last_space [] = []
spaced_words u last_space (r ∷ rs) =
    let word = spaced_words u false rs in
    let space = spaced_words u true rs in
    if u.is_word r then r ++ word else if last_space then space else 32 ∷ space

-- The first word of the runes, with what follows it.
abbrev cons_rune : Str → List Str → List Str
cons_rune r [] = r ∷ []
cons_rune r (w ∷ ws) = (r ++ w) ∷ ws

-- `strings.Fields`: the words between runs of white space. The head of the list is the word that
-- the text starts with, which may be empty.
abbrev words : List Str → List Str
unfolding trim_space
words [] = [] ∷ []
words (r ∷ rs) =
    let rest = words rs in if is_empty (trim_space r) then [] ∷ rest else cons_rune r rest

abbrev non_empty_words : List Str → List Str
non_empty_words [] = []
non_empty_words (w ∷ ws) = let rest = non_empty_words ws in if is_empty w then rest else w ∷ rest

unfoldable pub fields : Str → List Str
unfolding runes words
fields s = non_empty_words (words (runes s))

unfoldable pub normalize_mapping_text : UnicodeTables → Str → Str
unfolding spaced_words fields trim_space
normalize_mapping_text u text =
    join (codes " ") (fields (spaced_words u false (runes (u.to_lower (trim_space text)))))

abbrev pub member : Str → List Str → Bool
member x [] = false
member x (y ∷ ys) = str_eq y x || member x ys

abbrev distinct : List Str → List Str
distinct [] = []
distinct (x ∷ xs) = let rest = distinct xs in if member x rest then rest else x ∷ rest

-- `tokenSet`: a set of words, as the list of its members.
unfoldable pub token_set : Str → List Str
unfolding fields
token_set text = distinct (fields text)

-- The loop that counts the words of the intersection.
abbrev pub count_common : List Str → List Str → ℕ
count_common [] right = 0
count_common (x ∷ xs) right = (if member x right then 1 else 0) + count_common xs right

abbrev larger : ℕ → ℕ → ℕ
larger m n = if ltb m n then n else m

-- `scoreChecklistMapping` on normalized texts.
unfoldable pub score_normalized : Str → Str → ℕ × Str
unfolding token_set
score_normalized left right =
    let left_set = token_set left in
    let right_set = token_set right in
    let common = count_common left_set right_set in
    if is_empty left || is_empty right
    then (0, codes "empty normalized text")
    else if str_eq left right
    then (100, codes "exact normalized match")
    else if contains right left || contains left right
    then (95, codes "substring match")
    else if is_empty left_set || is_empty right_set
    then (0, codes "no tokens")
    else if common == 0
    then (0, codes "no token overlap")
    else (
      common * 100 / larger (length left_set) (length right_set),
      decimal common ++ codes " shared token(s)",
    )

-- `scoreChecklistMapping`
unfoldable pub score_checklist_mapping : UnicodeTables → Str → Str → ℕ × Str
unfolding score_normalized normalize_mapping_text
score_checklist_mapping u sub_task_desc checklist_text =
    score_normalized (normalize_mapping_text u sub_task_desc)
      (normalize_mapping_text u checklist_text)
