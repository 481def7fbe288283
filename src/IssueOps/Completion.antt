-- ===== src/IssueOps/Completion.antt =====
-- The completion comments of an issue, in hermes/github.go. The regular expression is matched by
-- hand: its parts exclude each other's first bytes, so the longest run of each is the match.
use alice_core.Prelude.{
  ℕ, ◌+◌, ◌-◌, ◌*◌, ◌==◌, ltb, Bool, true, false, not, ◌&&◌, ◌||◌, Str, codes, contains, has_prefix,
  in_range, trim_space, is_empty, sign_bit, if◌then◌else◌, List, [], ◌∷◌, ◌++◌, Option, none, some,
  length, drop,
}
use alice_core.Hermes.Accumulated.{is_re_space, skip_re_space}
use alice_core.IssueOps.Checklist.{IssueComment, IssueContext}

pub record HermesCompletionSignal : Type 0 where
  pub done : ℕ
  pub total : ℕ
  pub author : Str
  pub created_at : ℕ

-- The UTF-8 bytes of the Chinese words for completed, failed and exhausted in the comments.
abbrev pub complete_text : Str
complete_text = codes "Hermes " ++ 0xE5 ∷ 0xAE ∷ 0x8C ∷ 0xE6 ∷ 0x88 ∷ 0x90 ∷ []

abbrev pub failed_text : Str
failed_text =
    codes "Hermes "
    ++ 0xE5 ∷ 0x9F ∷ 0xB7 ∷ 0xE8 ∷ 0xA1 ∷ 0x8C ∷ 0xE5 ∷ 0xA4 ∷ 0xB1 ∷ 0xE6 ∷ 0x95 ∷ 0x97 ∷ []

abbrev pub exhausted_text : Str
exhausted_text = codes "Hermes Budget " ++ 0xE8 ∷ 0x80 ∷ 0x97 ∷ 0xE7 ∷ 0x9B ∷ 0xA1 ∷ []

abbrev is_digit : ℕ → Bool
is_digit = in_range b'0' b'9'

-- `(\d+)` and what follows: the digits at the head.
abbrev digits : Str → Str
digits [] = []
digits (c ∷ cs) = let rest = digits cs in if is_digit c then c ∷ rest else []

-- `\s+` and `text` at the head.
abbrev spaces_then : Str → Str → Bool
spaces_then text [] = false
spaces_then text (c ∷ cs) = is_re_space c && has_prefix text (skip_re_space cs)

-- `(\d+)/(\d+)\s+SubTasks` at the head.
abbrev counts_at : Str → Option (Str × Str)
counts_at s =
    let first = digits s in
    let after_first = drop (length first) s in
    let second = digits (drop 1 after_first) in
    if not (is_empty first)
      && has_prefix (codes "/") after_first
      && not (is_empty second)
      && spaces_then (codes "SubTasks") (drop (length second) (drop 1 after_first))
    then some (first, second)
    else none

-- The whole expression at the head.
abbrev complete_at : Str → Option (Str × Str)
complete_at s =
    let rest = drop (length (complete_text ++ codes "**")) s in
    if has_prefix (complete_text ++ codes "**") s && spaces_then [] rest
    then counts_at (skip_re_space rest)
    else none

-- The leftmost match of `hermesCompleteRe`.
unfoldable pub find_complete : Str → Option (Str × Str)
find_complete [] = none
find_complete (c ∷ cs) =
    let later = find_complete cs in elim (complete_at (c ∷ cs)) [ none ↦ later | some m ↦ some m ]

abbrev digits_value : ℕ → Str → ℕ
digits_value n [] = n
digits_value n (c ∷ cs) = digits_value (n * 10 + (c - 48)) cs

-- `strconv.Atoi` on digits; a value that is no `int` is an error.
abbrev pub atoi : Str → Option ℕ
atoi s = let n = digits_value 0 s in if ltb n sign_bit then some n else none

abbrev both : Option ℕ → Option ℕ → Option (ℕ × ℕ)
both (some m) (some n) = some (m, n)
both _ _ = none

-- `parseHermesCompleteCounts`
unfoldable pub parse_hermes_complete_counts : Str → Option (ℕ × ℕ)
unfolding find_complete
parse_hermes_complete_counts body = elim (find_complete body) [
  | none ↦ none
  | some (done, total) ↦ both (atoi done) (atoi total)
]

-- The variables of `RecentSuccessfulHermesCompletion`; `latest` is `none` where `hasLatest` is false.
pub record Latest : Type 0 where
  pub latest : Option HermesCompletionSignal
  pub latest_failed : Bool

abbrev on_counts : IssueComment → Option (ℕ × ℕ) → Latest
on_counts c none = record { latest = none; latest_failed = false }
on_counts c (some (done, total)) =
    if total == 0 || not (done == total)
    then record { latest = none; latest_failed = false }
    else record {
      latest =
          some
            (record { done = done; total = total; author = c.author; created_at = c.created_at });
      latest_failed = false;
    }

-- The loop over the comments.
unfoldable pub read_comments : List IssueComment → Latest → Latest
unfolding parse_hermes_complete_counts trim_space
read_comments [] l = l
read_comments (c ∷ cs) l =
    let body = trim_space c.body in
    read_comments cs (
      if is_empty body
      then l
      else if contains failed_text body || contains exhausted_text body
      then record { latest = none; latest_failed = true }
      else if contains complete_text body
      then on_counts c (parse_hermes_complete_counts body)
      else l)

-- `RecentSuccessfulHermesCompletion`
unfoldable pub recent_successful_hermes_completion : IssueContext → Option HermesCompletionSignal
unfolding read_comments
recent_successful_hermes_completion issue =
    let l = read_comments issue.comments (record { latest = none; latest_failed = false }) in
    if l.latest_failed then none else l.latest
