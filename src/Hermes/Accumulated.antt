-- ===== src/Hermes/Accumulated.antt =====
-- hermes/accumulated.go: the rolling summary of finished sub-tasks. The two regular expressions are
-- matched by hand as the leftmost-first matcher of `regexp` does on text that `TrimSpace` has
-- trimmed, the only text they are given.
pub mod Bounds
use alice_core.Prelude.{
  ℕ, zero, suc, ◌+◌, ◌-◌, ◌*◌, Bool, true, false, not, ◌&&◌, ◌||◌, Str, codes, ltb, leb, ◌==◌, sle,
  is_empty, if◌then◌else◌, List, [], ◌∷◌, ◌++◌, Option, none, some, length, take, drop, has_prefix,
  runes, of_runes, trim_space, split_lines, join, after_newline,
}

abbrev pub cheap_path_max_bytes : ℕ
cheap_path_max_bytes = 3 * 1024

abbrev pub expensive_path_trigger_bytes : ℕ
expensive_path_trigger_bytes = 6 * 1024

abbrev pub expensive_path_trigger_count : ℕ
expensive_path_trigger_count = 5

abbrev pub per_subtask_conclusion_max_bytes : ℕ
per_subtask_conclusion_max_bytes = 600

-- The UTF-8 bytes of the Chinese words for conclusion and evidence, and of the full-width colon.
abbrev conclusion_word : Str
conclusion_word = 0xE7 ∷ 0xB5 ∷ 0x90 ∷ 0xE8 ∷ 0xAB ∷ 0x96 ∷ []

abbrev evidence_word : Str
evidence_word = 0xE8 ∷ 0xAD ∷ 0x89 ∷ 0xE6 ∷ 0x93 ∷ 0x9A ∷ []

abbrev wide_colon : Str
wide_colon = 0xEF ∷ 0xBC ∷ 0x9A ∷ []

-- `\s` of `regexp`.
abbrev pub is_re_space : ℕ → Bool
is_re_space c = c == 9 || c == 10 || c == 12 || c == 13 || c == 32

abbrev pub skip_re_space : Str → Str
skip_re_space [] = []
skip_re_space (c ∷ cs) = if is_re_space c then skip_re_space cs else c ∷ cs

-- A heading `**word**` and either colon at the head of the text: what follows it.
abbrev after_heading : Str → Str → Option Str
after_heading word s =
    let mark = codes "**" ++ word ++ codes "**" in
    if has_prefix (mark ++ wide_colon) s
    then some (drop (length mark + 3) s)
    else if has_prefix (mark ++ codes ":") s
    then some (drop (length mark + 1) s)
    else none

abbrev line_of : Str → Str
line_of [] = []
line_of (c ∷ cs) = if c == 10 then [] else c ∷ line_of cs

abbrev non_empty : Str → Option Str
non_empty [] = none
non_empty (c ∷ cs) = some (c ∷ cs)

-- `\*\*word\*\*[：:]\s*([^\n]+)`: the group of the leftmost match.
unfoldable pub find_conclusion : Str → Option Str
find_conclusion [] = none
find_conclusion (c ∷ cs) =
    let later = find_conclusion cs in
    elim (after_heading conclusion_word (c ∷ cs)) [
      | none ↦ later
      | some rest ↦ elim (non_empty (line_of (skip_re_space rest))) [
        | none ↦ later
        | some line ↦ some line
      ]
    ]

-- One or more bytes other than `*`, and then `**`.
abbrev closes_heading : Bool → Str → Bool
closes_heading seen [] = false
closes_heading seen (c ∷ cs) =
    if c == b'*' then seen && has_prefix (codes "*") cs else closes_heading true cs

abbrev at_next_heading : Str → Bool
at_next_heading s = has_prefix (10 ∷ codes "**") s && closes_heading false (drop 3 s)

-- `(.*?)(?:\n\*\*[^*]+\*\*|$)`
abbrev until_next_heading : Str → Str
until_next_heading [] = []
until_next_heading (c ∷ cs) =
    let rest = until_next_heading cs in if at_next_heading (c ∷ cs) then [] else c ∷ rest

unfoldable pub find_evidence : Str → Option Str
find_evidence [] = none
find_evidence (c ∷ cs) =
    let later = find_evidence cs in
    elim (after_heading evidence_word (c ∷ cs)) [
      | none ↦ later
      | some rest ↦ some (until_next_heading (skip_re_space rest))
    ]

-- `strings.TrimLeft(line, "-* ")`
abbrev trim_bullet : Str → Str
trim_bullet [] = []
trim_bullet (c ∷ cs) = if c == b'-' || c == b'*' || c == 32 then trim_bullet cs else c ∷ cs

-- The loop of `pickFirstEvidenceBullets`, with the number of bullets still wanted.
unfoldable pub pick_bullets : ℕ → List Str → List Str
unfolding trim_space
pick_bullets n [] = []
pick_bullets zero (raw ∷ lines) = []
pick_bullets (suc n) (raw ∷ lines) =
    let line = trim_space raw in
    let bullet = trim_space (trim_bullet line) in
    let skipped = pick_bullets (suc n) lines in
    let more = pick_bullets n lines in
    if is_empty line
    then skipped
    else if not (has_prefix (codes "-") line) && not (has_prefix (codes "*") line)
    then []
    else if is_empty bullet
    then skipped
    else bullet ∷ more

unfoldable pub pick_first_evidence_bullets : Str → ℕ → Str
unfolding pick_bullets
pick_first_evidence_bullets body n = join (codes "; ") (pick_bullets n (split_lines body))

unfoldable pub truncate_runes_accumulated : Str → ℕ → Str
unfolding runes
truncate_runes_accumulated s max =
    if leb (length (runes s)) max
    then s
    else of_runes (take max (runes s)) ++ 0xE2 ∷ 0x80 ∷ 0xA6 ∷ []

-- The first line with text, where the structured markers are missing.
unfoldable pub first_line : List Str → Str
unfolding trim_space
first_line [] = []
first_line (l ∷ ls) =
    let rest = first_line ls in if is_empty (trim_space l) then rest else trim_space l

abbrev or_empty : Option Str → Str
or_empty none = []
or_empty (some s) = s

unfoldable pub conclusion_part : Str → Str
unfolding find_conclusion trim_space
conclusion_part s = trim_space (or_empty (find_conclusion s))

unfoldable pub evidence_part : Str → Str
unfolding find_evidence pick_first_evidence_bullets
evidence_part s = elim (find_evidence s) [
  | none ↦ []
  | some body ↦ pick_first_evidence_bullets body 2
]

-- The builder's text: the parts that are there, a newline between them.
abbrev labelled : Str → Str → Str
labelled [] [] = []
labelled [] (e ∷ es) = evidence_word ++ wide_colon ++ e ∷ es
labelled (c ∷ cs) [] = conclusion_word ++ wide_colon ++ c ∷ cs
labelled (c ∷ cs) (e ∷ es) =
    conclusion_word ++ wide_colon ++ (c ∷ cs) ++ 10 ∷ evidence_word ++ wide_colon ++ e ∷ es

unfoldable pub extract_conclusion : Str → Str
unfolding conclusion_part evidence_part first_line truncate_runes_accumulated trim_space
extract_conclusion text =
    let s = trim_space text in
    let conclusion = conclusion_part s in
    let evidence = evidence_part s in
    if is_empty s
    then []
    else if is_empty conclusion && is_empty evidence
    then truncate_runes_accumulated (first_line (split_lines s)) per_subtask_conclusion_max_bytes
    else truncate_runes_accumulated (labelled conclusion evidence) per_subtask_conclusion_max_bytes

-- The FIFO cut: the last bytes, from the next line on if there is one.
unfoldable pub fifo_truncate : Str → Str
fifo_truncate s =
    if ltb cheap_path_max_bytes (length s)
    then after_newline (drop (length s - cheap_path_max_bytes) s)
        (drop (length s - cheap_path_max_bytes) s)
    else s

abbrev pub with_line : Str → Str → Str
with_line [] line = line
with_line (c ∷ cs) line = (c ∷ cs) ++ 10 ∷ line

unfoldable pub append_result : Str → Str → ℕ → Str × Bool
append_result accumulated result completed =
    let conclusion = extract_conclusion result in
    let updated = fifo_truncate (with_line accumulated conclusion) in
    if is_empty conclusion then (accumulated, false) else (
      updated,
      ltb expensive_path_trigger_bytes (length updated)
          || sle expensive_path_trigger_count completed,
    )
