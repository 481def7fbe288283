-- ===== src/Hermes/SqliteStore/Retry/Attempts.antt =====
-- How many attempts `execWithRetry` of hermes/store.go makes, and which one it returns.
use alice_core.Prelude.{
  ℕ, zero, suc, ◌+◌, ◌<◌, ◌≤◌, ◌≡◌, refl, sym, ap, ◌⊎◌, inl, inr, arith, Bool, true, false, ◌&&◌,
  ltb, Bool-cases, Option, none, some,
}
use alice_core.Hermes.SqliteStore.Retry.{after_attempt, retry_from, exec_with_retry}

module _ {S E : Type 0} (is_busy : E → Bool) (op : ℕ → S → Option E × S) where
  -- The attempts before number `i` have each found the database busy, and led from `s` to `s'`.
  pub data BusyRun (s : S) : ℕ → S → Type 0 where
    start : BusyRun s 0 s
    tried_again :
        (i : ℕ) (t t' : S) (e : E)
        → BusyRun s i t
        → op i t ≡ (some e, t')
        → is_busy e ≡ true
        → BusyRun s (i + 1) t'

  -- What is returned is what attempt `k` did, the first that does not call for another.
  pub record Ended (s : S) (p : Option (Option E) × S) : Type 0 where
    pub k : ℕ
    pub bounded : k < 5
    pub before : S
    pub busy : BusyRun s k before
    pub left_state : p.1 ≡ (op k before).1
    pub returned :
        (((op k before).0 ≡ none) × (p.0 ≡ none))
        ⊎ ((e : E) × ((op k before).0 ≡ some e)
            × (p.0 ≡ some (some e))
            × ((is_busy e ≡ false) ⊎ (k ≡ 4)))

  after_attempt-Ended :
      (again : S → Option (Option E) × S) (i : ℕ) (s t : S) (p : Option E × S)
      → i < 5
      → BusyRun s i t
      → op i t ≡ p
      → ((e : E) → p.0 ≡ some e → is_busy e ≡ true → i < 4 → Ended s (again p.1))
      → Ended s (after_attempt is_busy op again i p)
  unfolding after_attempt
  after_attempt-Ended again i s t (none, t') bound run e go = record {
    k = i;
    bounded = bound;
    before = t;
    busy = run;
    left_state = sym (ap (λ p. p.1) e);
    returned = inl (ap (λ p. p.0) e, refl);
  }
  after_attempt-Ended again i s t (some x, t') bound run e go =
      elim (Bool-cases (is_busy x && ltb i 4)) [
        | inl y ↦ rw (after_attempt, y) (go x refl (ground arith) (ground arith))
        | inr n ↦
            rw (after_attempt, n)
              (record {
                k = i;
                bounded = bound;
                before = t;
                busy = run;
                left_state = sym (ap (λ p. p.1) e);
                returned = inr (x, ap (λ p. p.0) e, refl, last (ground arith));
              })
      ]
    where
      last : (is_busy x ≡ false) ⊎ (4 ≤ i) → (is_busy x ≡ false) ⊎ (i ≡ 4)
      last (inl b) = inl b
      last (inr h) = inr (omega arith)

  retry_from-Ended :
      (left i : ℕ) (s t : S)
      → suc left + i ≡ 5
      → BusyRun s i t
      → Ended s (retry_from is_busy op (suc left) i t)
  unfolding retry_from
  retry_from-Ended zero i s t five run =
      after_attempt-Ended (retry_from is_busy op zero (i + 1)) i s t (op i t) (omega arith) run refl
        (λ e p b low. absurd (omega arith))
  retry_from-Ended (suc left) i s t five run =
      after_attempt-Ended (retry_from is_busy op (suc left) (i + 1)) i s t (op i t) (omega arith)
        run refl
        (λ e p b low.
          retry_from-Ended left (i + 1) s (op i t).1 (omega arith)
            (tried_again i t (op i t).1 e run (λ j. (p j, (op i t).1)) b))

  -- A write is tried at most five times, each time from the state that the one before it left, and
  -- again only after an attempt that found the database busy. The result and the state are those of
  -- the last attempt: it succeeded, or failed otherwise, or was the fifth. That the retries are used
  -- up is never reported as such.
  pub exec_with_retry-Ended : (s : S) → Ended s (exec_with_retry is_busy op s)
  unfolding exec_with_retry
  exec_with_retry-Ended s = retry_from-Ended 4 0 s s refl start
