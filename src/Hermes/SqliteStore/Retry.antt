-- ===== src/Hermes/SqliteStore/Retry.antt =====
-- hermes/store.go: `execWithRetry`. An attempt is a function of its number, since what it meets of the
-- other connections differs from one to the next, and of the state; it may leave a changed state.
pub mod Attempts
use alice_core.Prelude.{
  ℕ, zero, suc, ◌+◌, Bool, true, false, ◌&&◌, ◌||◌, ltb, Str, codes, contains, if◌then◌else◌,
  Option, none, some,
}

abbrev pub max_retries : ℕ
max_retries = 5

-- The test of the text of an error, which `is_busy` below stands for where errors are their texts.
unfoldable pub is_busy_text : Str → Bool
is_busy_text text =
    contains (codes "database is locked") text || contains (codes "SQLITE_BUSY") text

-- The result `some none` is the error "operation failed after 5 retries".
module _ {ℓ κ} {S : Type ℓ} {E : Type κ} (is_busy : E → Bool) (op : ℕ → S → Option E × S) where
  -- What the loop does with the outcome of attempt `i`, where `again` is the rest of it.
  unfoldable pub after_attempt :
      (S → Option (Option E) × S) → ℕ → Option E × S → Option (Option E) × S
  after_attempt again i (none, s) = (none, s)
  after_attempt again i (some e, s) = elim (is_busy e && ltb i 4) [
    | true ↦ again s
    | false ↦ (some (some e), s)
  ]

  -- The loop from attempt `i` on, with `left` rounds to go.
  unfoldable pub retry_from : ℕ → ℕ → S → Option (Option E) × S
  unfolding after_attempt
  retry_from zero i s = (some none, s)
  retry_from (suc left) i s = after_attempt (retry_from left (i + 1)) i (op i s)

  unfoldable pub exec_with_retry : S → Option (Option E) × S
  unfolding retry_from
  exec_with_retry s = retry_from max_retries 0 s
