-- ===== src/Engine/TaskRetry/Merging.antt =====
-- The ids of a merged plan of engine/task_retry.go.
use alice_core.Prelude.{
  ℕ, suc, ◌+◌, ◌^◌, ◌≤◌, ◌<◌, ◌≡◌, refl, sym, ap, subst, arith, false, ◌||◌, Str, codes, str_eq,
  str_eq_iff, str_ne, decimal, decimal-inj, has_prefix, trim_space, is_empty, if◌then◌else◌,
  if_cases, List, [], ◌∷◌, ◌++◌, length, All,
}
use alice_core.Hermes.State.{SubTask}
use alice_core.Graph.Replan.{seen_id, retry_id}
use alice_core.Engine.TaskRetry.{ids, rename_replanned, merge_partial_retry_plan}

-- No id stands in the list twice.
abbrev pub Distinct : List Str → Type 0
Distinct [] = Unit
Distinct (x ∷ xs) = (seen_id x xs ≡ false) × Distinct xs

-- The id is none that the merge makes up.
abbrev pub Plain : SubTask → Type 0
Plain t = has_prefix (codes "retry") t.id ≡ false

append_cancel : (p s t : Str) → p ++ s ≡ p ++ t → s ≡ t
append_cancel [] s t e = e
append_cancel (c ∷ p) s t e = append_cancel p s t (ap tail e)
  where
    tail : Str → Str
    tail [] = []
    tail (x ∷ xs) = xs

retry_id-inj :
    (attempt i j : ℕ) → i < 2 ^ 62 → j < 2 ^ 62 → retry_id attempt i ≡ retry_id attempt j → i ≡ j
retry_id-inj attempt i j hi hj e =
    let same : i + 1 ≡ j + 1 = decimal-inj (i + 1) (j + 1) (omega (arith, hi)) (omega (arith, hj)) (
      append_cancel (codes "retry" ++ decimal attempt ++ codes "-s") (decimal (i + 1))
        (decimal (j + 1)) e) in
    omega (arith, same)

-- The ids that are still to be made up are not in the list.
abbrev Open : ℕ → ℕ → List Str → Type 0
Open attempt i seen = (j : ℕ) → i ≤ j → j < 2 ^ 62 → seen_id (retry_id attempt j) seen ≡ false

Plain-ne :
    (attempt : ℕ) (t : SubTask) → Plain t → (j : ℕ) → str_eq t.id (retry_id attempt j) ≡ false
Plain-ne attempt t p j = str_ne t.id (retry_id attempt j) (λ e.
    let clash : has_prefix (codes "retry") (retry_id attempt j) ≡ false =
      subst (λ s. has_prefix (codes "retry") s ≡ false) e p in
    cc)

Plain-Open : (attempt i : ℕ) (ts : List SubTask) → All Plain ts → Open attempt i (ids ts)
Plain-Open attempt i [] h j le small = refl
Plain-Open attempt i (t ∷ ts) h j le small =
    ground (arith, Plain-ne attempt t h.0 j, Plain-Open attempt i ts h.1 j le small)

-- An id that the merge gives out: a made-up one, or a plain one that was not seen.
record Fresh (attempt i : ℕ) (seen : List Str) (id : Str) : Type 0 where
  new : seen_id id seen ≡ false
  later : Open attempt (suc i) (id ∷ seen)

retry_id-Fresh :
    (attempt i : ℕ) (seen : List Str)
    → i < 2 ^ 62
    → Open attempt i seen
    → Fresh attempt i seen (retry_id attempt i)
retry_id-Fresh attempt i seen small free = record {
  new = free i (omega arith) small;
  later = λ j le below.
      let other : str_eq (retry_id attempt i) (retry_id attempt j) ≡ false =
        str_ne (retry_id attempt i) (retry_id attempt j) (λ e.
          let same : i ≡ j = retry_id-inj attempt i j small below e in
          absurd (omega (arith, same, le))) in
      ground (arith, other, free j (omega (arith, le)) below);
}

Plain-Fresh :
    (attempt i : ℕ) (seen : List Str) (t : SubTask)
    → Plain t
    → seen_id t.id seen ≡ false
    → Open attempt i seen
    → Fresh attempt i seen t.id
Plain-Fresh attempt i seen t p new free = record {
  new = new;
  later = λ j le below. ground (arith, Plain-ne attempt t p j, free j (omega (arith, le)) below);
}

-- The ids of the list are none of `seen`.
abbrev Apart : List Str → List Str → Type 0
Apart seen xs = All (λ x. seen_id x seen ≡ false) xs

Apart-tail : (id : Str) (seen xs : List Str) → Apart (id ∷ seen) xs → Apart seen xs
Apart-tail id seen [] h = tt
Apart-tail id seen (x ∷ xs) h = (ground (arith, h.0), Apart-tail id seen xs h.1)

Apart-head : (id : Str) (seen xs : List Str) → Apart (id ∷ seen) xs → seen_id id xs ≡ false
Apart-head id seen [] h = refl
Apart-head id seen (x ∷ xs) h =
    ground (arith, h.0, str_eq_iff x id, str_eq_iff id x, Apart-head id seen xs h.1)

rename_replanned-Apart :
    (attempt i : ℕ) (seen : List Str) (ts : List SubTask)
    → length ts + i < 2 ^ 62
    → All Plain ts
    → Open attempt i seen
    → Apart seen (ids (rename_replanned attempt i seen ts))
      × Distinct (ids (rename_replanned attempt i seen ts))
unfolding rename_replanned
rename_replanned-Apart attempt i seen [] small p free = (tt, tt)
rename_replanned-Apart attempt i seen (t ∷ ts) small p free =
    let id = if is_empty (trim_space t.id) || seen_id t.id seen then retry_id attempt i else t.id in
    let fresh : Fresh attempt i seen id =
      if_cases (Fresh attempt i seen) (is_empty (trim_space t.id) || seen_id t.id seen) _ _
        (λ _. retry_id-Fresh attempt i seen (omega (arith, small)) free)
        (λ h. Plain-Fresh attempt i seen t p.0 (ground arith) free) in
    let (apart, distinct) =
      rename_replanned-Apart attempt (suc i) (id ∷ seen) ts (omega (arith, small)) p.1
        fresh.later in
    ((fresh.new, Apart-tail id seen _ apart), (Apart-head id seen _ apart, distinct))

seen_id-append :
    (x : Str) (xs ys : List Str) → seen_id x (xs ++ ys) ≡ (seen_id x xs || seen_id x ys)
seen_id-append x [] ys = ground arith
seen_id-append x (z ∷ xs) ys = ground (arith, seen_id-append x xs ys)

Distinct-append : (xs ys : List Str) → Distinct xs → Apart xs ys → Distinct ys → Distinct (xs ++ ys)
Distinct-append [] ys h a k = k
Distinct-append (x ∷ xs) ys h a k = (
  ground (arith, seen_id-append x xs ys, h.0, Apart-head x xs ys a),
  Distinct-append xs ys h.1 (Apart-tail x xs ys a) k,
)

ids-append : (xs ys : List SubTask) → ids (xs ++ ys) ≡ ids xs ++ ids ys
ids-append [] ys = refl
ids-append (x ∷ xs) ys = ap (λ l. x.id ∷ l) (ids-append xs ys)

-- Where the preserved sub-tasks have distinct ids, there is one of them at least, and no id of either
-- part starts with "retry", the ids of the merged plan are distinct, whatever ids the planner gave:
-- a blank or a repeated one is replaced by a made-up one. The plan has fewer than 2 ^ 62 sub-tasks.
pub merge_partial_retry_plan-Distinct :
    (preserved replanned : List SubTask) (attempt : ℕ)
    → is_empty preserved ≡ false
    → Distinct (ids preserved)
    → All Plain preserved
    → All Plain replanned
    → length replanned < 2 ^ 62
    → Distinct (ids (merge_partial_retry_plan preserved replanned attempt))
unfolding merge_partial_retry_plan
merge_partial_retry_plan-Distinct [] replanned attempt some_kept distinct p q small = cc
merge_partial_retry_plan-Distinct (t ∷ ts) replanned attempt some_kept distinct p q small =
    let seen = ids (t ∷ ts) in
    let (apart, others) =
      rename_replanned-Apart attempt 0 seen replanned (omega (arith, small)) q
        (Plain-Open attempt 0 (t ∷ ts) p) in
    subst Distinct (sym (ids-append (t ∷ ts) (rename_replanned attempt 0 seen replanned)))
      (Distinct-append seen _ distinct apart others)
