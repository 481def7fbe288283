-- ===== src/Prelude/Strings.antt =====
-- What the code uses of Go's `strings` and of its conversions between strings and runes.
use Prim.Native.Nat.{ℕ, zero, suc, ◌-◌, ◌+◌}
use mathlib.Core.Path.{◌≡◌, refl}
use mathlib.Core.Bool.{Bool, true, false, ◌&&◌, ◌||◌}
use mathlib.Core.List.{List, [], ◌∷◌, ◌++◌}
use alice_core.Prelude.Tests.{leb, ltb, ◌==◌, if◌then◌else◌}
use alice_core.Prelude.Lists.{take}
use alice_core.Prelude.Text.{Str, codes}

abbrev pub has_prefix : Str → Str → Bool
has_prefix [] s = true
has_prefix (p ∷ ps) [] = false
has_prefix (p ∷ ps) (c ∷ cs) = (p == c) && has_prefix ps cs

abbrev pub contains : Str → Str → Bool
contains p [] = has_prefix p []
contains p (c ∷ cs) = has_prefix p (c ∷ cs) || contains p cs

abbrev pub in_range : ℕ → ℕ → ℕ → Bool
in_range lo hi b = leb lo b && leb b hi

abbrev continuation : ℕ → Bool
continuation = in_range 0x80 0xBF

-- The width of the valid UTF-8 sequence at the head, 0 if there is none.
unfoldable pub rune_width : Str → ℕ
rune_width [] = 0
rune_width (a ∷ []) = if ltb a 0x80 then 1 else 0
rune_width (a ∷ b ∷ []) =
    if ltb a 0x80 then 1 else if in_range 0xC2 0xDF a && continuation b then 2 else 0
rune_width (a ∷ b ∷ c ∷ []) =
    if ltb a 0x80
    then 1
    else if in_range 0xC2 0xDF a && continuation b
    then 2
    else if three a b c
    then 3
    else 0
  where
    three : ℕ → ℕ → ℕ → Bool
    three a b c =
        in_range 0xE0 0xEF a
        && in_range (if a == 0xE0 then 0xA0 else 0x80) (if a == 0xED then 0x9F else 0xBF) b
        && continuation c
rune_width (a ∷ b ∷ c ∷ d ∷ s) =
    if ltb a 0x80
    then 1
    else if in_range 0xC2 0xDF a && continuation b
    then 2
    else if three a b c
    then 3
    else if four a b c d
    then 4
    else 0
  where
    three : ℕ → ℕ → ℕ → Bool
    three a b c =
        in_range 0xE0 0xEF a
        && in_range (if a == 0xE0 then 0xA0 else 0x80) (if a == 0xED then 0x9F else 0xBF) b
        && continuation c

    four : ℕ → ℕ → ℕ → ℕ → Bool
    four a b c d =
        in_range 0xF0 0xF4 a
        && in_range (if a == 0xF0 then 0x90 else 0x80) (if a == 0xF4 then 0x8F else 0xBF) b
        && continuation c
        && continuation d

-- One rune as its own encoding; a byte that starts no sequence reads as U+FFFD.
abbrev rune_at : Str → ℕ → Str
rune_at s zero = 0xEF ∷ 0xBF ∷ 0xBD ∷ []
rune_at s (suc n) = take (suc n) s

-- `[]rune(s)`, with the number of bytes of the last rune still to pass.
abbrev runes_from : ℕ → Str → List Str
unfolding rune_width
runes_from skip [] = []
runes_from (suc skip) (c ∷ cs) = runes_from skip cs
runes_from zero (c ∷ cs) =
    rune_at (c ∷ cs) (rune_width (c ∷ cs)) ∷ runes_from (rune_width (c ∷ cs) - 1) cs

unfoldable pub runes : Str → List Str
unfolding runes_from rune_width
runes s = runes_from 0 s

-- `string(rs)`
abbrev pub of_runes : List Str → Str
of_runes [] = []
of_runes (r ∷ rs) = r ++ of_runes rs

-- The encodings of `unicode.IsSpace`: the width of the one at the head, 0 if there is none.
abbrev space_at : Str → ℕ
space_at [] = 0
space_at (a ∷ s) =
    if in_range 9 13 a || a == 32
    then 1
    else if a == 0xC2
    then two s
    else if a == 0xE1
    then three (has_prefix (0x9A ∷ 0x80 ∷ []) s)
    else if a == 0xE2
    then three (general s)
    else if a == 0xE3
    then three (has_prefix (0x80 ∷ 0x80 ∷ []) s)
    else 0
  where
    two : Str → ℕ
    two [] = 0
    two (b ∷ t) = if b == 0x85 || b == 0xA0 then 2 else 0

    three : Bool → ℕ
    three true = 3
    three false = 0

    general : Str → Bool
    general [] = false
    general (b ∷ []) = false
    general (b ∷ c ∷ t) =
        (b == 0x80 && (in_range 0x80 0x8A c || c == 0xA8 || c == 0xA9 || c == 0xAF))
        || (b == 0x81 && c == 0x9F)

abbrev trim_left_from : ℕ → Str → Str
trim_left_from skip [] = []
trim_left_from (suc skip) (c ∷ cs) = trim_left_from skip cs
trim_left_from zero (c ∷ cs) = elim (space_at (c ∷ cs)) [
  | zero ↦ c ∷ cs
  | suc n ↦ trim_left_from n cs
]

-- Whether all of the text is white space.
abbrev blank_from : ℕ → Str → Bool
blank_from skip [] = true
blank_from (suc skip) (c ∷ cs) = blank_from skip cs
blank_from zero (c ∷ cs) = elim (space_at (c ∷ cs)) [ zero ↦ false | suc n ↦ blank_from n cs ]

-- A space is trimmed from the right where only spaces follow it.
abbrev trim_right : Str → Str
trim_right [] = []
trim_right (c ∷ cs) = let rest = trim_right cs in if blank_from 0 (c ∷ cs) then [] else c ∷ rest

-- `strings.TrimSpace`
unfoldable pub trim_space : Str → Str
trim_space s = trim_right (trim_left_from 0 s)

trim_test : trim_space (codes "  a b \n") ≡ codes "a b"
unfolding trim_space
trim_test = refl

-- `strings.Split(s, "\n")`
abbrev pub cons_head : ℕ → List Str → List Str
cons_head c [] = (c ∷ []) ∷ []
cons_head c (l ∷ ls) = (c ∷ l) ∷ ls

abbrev pub split_lines : Str → List Str
split_lines [] = [] ∷ []
split_lines (c ∷ cs) = let rest = split_lines cs in if c == 10 then [] ∷ rest else cons_head c rest

-- `strings.Join(ls, sep)`
abbrev pub join : Str → List Str → Str
join sep [] = []
join sep (l ∷ []) = l
join sep (l ∷ k ∷ ls) = l ++ sep ++ join sep (k ∷ ls)

-- What follows the first newline; the text itself if there is none.
abbrev pub after_newline : Str → Str → Str
after_newline whole [] = whole
after_newline whole (c ∷ cs) = if c == 10 then cs else after_newline whole cs

-- `strings.ToLower`, as far as a comparison or a search for text whose letters are ASCII can tell:
-- the capitals of ASCII, and the two other capitals whose small letters are ASCII (U+0130 and
-- U+212A). Every other letter keeps its bytes here.
abbrev lower_from : ℕ → Str → Str
lower_from skip [] = []
lower_from (suc skip) (c ∷ cs) = lower_from skip cs
lower_from zero (c ∷ cs) =
    let two = b'i' ∷ lower_from 1 cs in
    let three = b'k' ∷ lower_from 2 cs in
    let one = (if in_range b'A' b'Z' c then c + 32 else c) ∷ lower_from 0 cs in
    if has_prefix (0xC4 ∷ 0xB0 ∷ []) (c ∷ cs)
    then two
    else if has_prefix (0xE2 ∷ 0x84 ∷ 0xAA ∷ []) (c ∷ cs)
    then three
    else one

abbrev pub to_lower : Str → Str
to_lower s = lower_from 0 s
