-- ===== src/Hermes/Reducer/Usages.antt =====
-- The usage merges of hermes/reducer.go: batches, totals, distinct keys, and the agreement with the
-- store's own `AddUsageBreakdown`.
use alice_core.Prelude.{
  ℕ, ◌≡◌, refl, ap, ◌∙◌, inl, inr, arith, Bool, true, false, not, ◌||◌, List, [], ◌∷◌, ◌++◌,
  add_int, word_mod, ◌<◌, Bool-cases, Str, str_eq, str_eq_iff,
}
use alice_core.Hermes.Usage.{ModelUsage, TokenUsageBreakdown, add_usage_breakdown, first_call}
use alice_core.Hermes.Reducer.Merge.{
  has_key, merge_one, merge_all, merge_model_usages, same_model, at_least_one,
}

-- The sum of a counter over a list, wrapping as the code's sums do.
unfoldable pub total : {U : Type 0} → (U → ℕ) → List U → ℕ
total f [] = 0
total f (u ∷ us) = add_int (f u) (total f us)

pub total-lt : {U : Type 0} (f : U → ℕ) (us : List U) → total f us < word_mod
unfolding total
total-lt f [] = omega arith
total-lt f (u ∷ us) = omega arith

module _ {U : Type 0} (same : U → U → Bool) (combine : U → U → U) (entry : U → U) where
  pub merge_all-append :
      (current xs ys : List U)
      → merge_all same combine entry current (xs ++ ys)
        ≡ merge_all same combine entry (merge_all same combine entry current xs) ys
  unfolding merge_all
  merge_all-append current [] ys = refl
  merge_all-append current (x ∷ xs) ys =
      merge_all-append (merge_one same combine entry x current) xs ys

  module _ (f : U → ℕ) (f-combine : (u d : U) → f (combine u d) ≡ add_int (f u) (f (entry d))) where
    total-merge_one :
        (d : U) (us : List U)
        → total f (merge_one same combine entry d us) ≡ add_int (total f us) (f (entry d))
    unfolding merge_one total
    total-merge_one d [] = omega arith
    total-merge_one d (u ∷ us) = elim (Bool-cases (has_key same d us || not (same u d))) [
      | inl e ↦ rw e (omega (arith, total-merge_one d us))
      | inr e ↦ rw e (omega (arith, f-combine u d))
    ]

    total-add_nil : (us : List U) → total f us ≡ add_int (total f us) (total (λ d. f (entry d)) [])
    unfolding total
    total-add_nil us = omega (arith, total-lt f us)

    regroup :
        (current : List U) (d : U) (ds : List U)
        → add_int (add_int (total f current) (f (entry d))) (total (λ x. f (entry x)) ds)
          ≡ add_int (total f current) (total (λ x. f (entry x)) (d ∷ ds))
    regroup current d ds = unfold total in omega arith

    total-step :
        (current : List U) (d : U) (ds : List U) {n : ℕ}
        → n
          ≡ add_int (total f (merge_one same combine entry d current)) (total (λ x. f (entry x)) ds)
        → n ≡ add_int (total f current) (total (λ x. f (entry x)) (d ∷ ds))
    total-step current d ds e =
        e
        ∙ ap (λ k. add_int k (total (λ x. f (entry x)) ds)) (total-merge_one d current)
        ∙ regroup current d ds

    pub total-merge_all :
        (current incoming : List U)
        → total f (merge_all same combine entry current incoming)
          ≡ add_int (total f current) (total (λ d. f (entry d)) incoming)
    unfolding merge_all
    total-merge_all current [] = total-add_nil current
    total-merge_all current (d ∷ ds) =
        total-step current d ds (total-merge_all (merge_one same combine entry d current) ds)

-- The merged list has the sum of the two lists in a counter.
abbrev pub Adds : (ModelUsage → ℕ) → List ModelUsage → List ModelUsage → Type 0
Adds f current incoming =
    total f (merge_model_usages current incoming) ≡ add_int (total f current) (total f incoming)

-- Each of the five counts of tokens that a batch of model usages reports, the input, the uncached
-- input, the reads and the writes of the cache and the output, is added once over all models, modulo
-- 2 ^ 64, and the number of calls grows by the calls reported, where an entry with no positive count
-- is one call.
pub total-merge_model_usages :
    (current incoming : List ModelUsage)
    → Adds (λ m. m.counters.input_tokens) current incoming
      × Adds (λ m. m.counters.uncached_input_tokens) current incoming
      × Adds (λ m. m.counters.cache_read_input_tokens) current incoming
      × Adds (λ m. m.counters.cache_creation_input_tokens) current incoming
      × Adds (λ m. m.counters.output_tokens) current incoming
      × (total (λ m. m.counters.call_count) (merge_model_usages current incoming)
          ≡ add_int
              (total (λ m. m.counters.call_count) current)
              (total (λ m. at_least_one m.counters.call_count) incoming))
unfolding merge_model_usages
total-merge_model_usages current incoming = (
  total-merge_all same_model _ _ (λ m. m.counters.input_tokens) (λ u d. refl) current incoming,
  total-merge_all same_model _ _ (λ m. m.counters.uncached_input_tokens) (λ u d. refl) current
      incoming,
  total-merge_all same_model _ _ (λ m. m.counters.cache_read_input_tokens) (λ u d. refl) current
      incoming,
  total-merge_all same_model _ _ (λ m. m.counters.cache_creation_input_tokens) (λ u d. refl) current
      incoming,
  total-merge_all same_model _ _ (λ m. m.counters.output_tokens) (λ u d. refl) current incoming,
  total-merge_all same_model _ _ (λ m. m.counters.call_count) (λ u d. refl) current incoming,
)

-- No two entries of the list have one key.
abbrev pub Distinct : {U : Type 0} → (U → U → Bool) → List U → Type 0
Distinct same [] = Unit
Distinct same (u ∷ us) = (has_key same u us ≡ false) × Distinct same us

-- The one-call entry that the reducer is given where the store calls `AddUsageBreakdown`.
abbrev pub one_call : Str → TokenUsageBreakdown → ModelUsage
one_call model usage = record { model = model; counters = first_call usage }

no_match :
    (m : Str) (usage : TokenUsageBreakdown) (u : ModelUsage) (us : List ModelUsage)
    → str_eq u.model m ≡ true
    → has_key same_model u us ≡ false
    → has_key same_model (one_call m usage) us ≡ false
unfolding has_key
no_match m usage u [] e h = refl
no_match m usage u (v ∷ us) e h = ground (arith, str_eq_iff u.model m, no_match m usage u us e)

-- On a list with one entry for each model, the store's `AddUsageBreakdown` and the reducer's merge
-- of the same call give the same list.
add_usage_breakdown-eq-merge :
    (model : Str) (usage : TokenUsageBreakdown) (ms : List ModelUsage)
    → Distinct same_model ms
    → add_usage_breakdown model usage ms ≡ merge_model_usages ms (one_call model usage ∷ [])
unfolding add_usage_breakdown merge_model_usages
add_usage_breakdown-eq-merge model usage [] h = refl
add_usage_breakdown-eq-merge model usage (u ∷ us) h = elim (Bool-cases (str_eq u.model model)) [
  | inl e ↦ rw (e, no_match model usage u us e h.0) refl
  | inr e ↦ elim (Bool-cases (has_key same_model (one_call model usage) us)) [
    | inl k ↦ rw (e, k) (ap (λ x. u ∷ x) (add_usage_breakdown-eq-merge model usage us h.1))
    | inr k ↦ rw (e, k) (ap (λ x. u ∷ x) (add_usage_breakdown-eq-merge model usage us h.1))
  ]
]
