-- ===== src/Engine/Review/Validation.antt =====
-- What an accepted review of engine/review.go holds for the requested sub-tasks.
use mathlib.Core.List.{Permᴰ}
use alice_core.Prelude.{
  ℕ, suc, ◌+◌, ◌≤◌, ◌≡◌, refl, sym, ap, ◌∙◌, arith, subst, true, false, Str, str_eq, str_eq_iff,
  trim_space, is_empty, map, List, [], ◌∷◌, Option, none, some, length, inl, inr, Bool-cases,
}
use alice_core.Engine.Review.{
  ReviewResult, ReviewRequest, ReviewSubTaskResult, ReviewError, seen, key_set, delete, Matched,
  left_over, refused, match_results, all_matched, validate, validate_ids, validate_for_request,
  requested_review_sub_tasks,
}

length-Perm : {A : Type 0} {xs ys : List A} → Permᴰ xs ys → length xs ≡ length ys
length-Perm Permᴰ.nil = refl
length-Perm (Permᴰ.cons e p) = ap suc (length-Perm p)
length-Perm (Permᴰ.swap e f) = refl
length-Perm (Permᴰ.trans p q) = length-Perm p ∙ length-Perm q

refl-Perm : {A : Type 0} (xs : List A) → Permᴰ xs xs
refl-Perm [] = Permᴰ.nil
refl-Perm (x ∷ xs) = Permᴰ.cons refl (refl-Perm xs)

-- An id that is there can be taken to the front.
delete-Perm : (x : Str) (s : List Str) → seen x s ≡ true → Permᴰ s (x ∷ delete x s)
unfolding delete
delete-Perm x [] h = cc
delete-Perm x (y ∷ ys) h = elim (Bool-cases (str_eq y x)) [
  | inl e ↦ rw e (Permᴰ.cons ((str_eq_iff y x).0 e) (refl-Perm ys))
  | inr e ↦
      rw e (Permᴰ.trans (Permᴰ.cons refl (delete-Perm x ys (ground arith))) (Permᴰ.swap refl refl))
]

length-key_set : (xs : List Str) → length (key_set xs) ≤ length xs
unfolding key_set
length-key_set [] = omega arith
length-key_set (x ∷ xs) = ground (arith, length-key_set xs)

-- A set with as many members as the list has elements is the list.
key_set-all : (xs : List Str) → length (key_set xs) ≡ length xs → key_set xs ≡ xs
unfolding key_set
key_set-all [] h = refl
key_set-all (x ∷ xs) h = elim (Bool-cases (seen x (key_set xs))) [
  | inl e ↦ absurd (ground (arith, length-key_set xs))
  | inr e ↦ rw e (ap (λ r. x ∷ r) (key_set-all xs (ground arith)))
]

abbrev pub result_ids : List ReviewSubTaskResult → List Str
result_ids rs = map (λ r. trim_space r.sub_task_id) rs

match_results-Perm :
    (i : ℕ) (expected : List Str) (rs : List ReviewSubTaskResult)
    → match_results i expected rs ≡ left_over []
    → Permᴰ expected (result_ids rs)
unfolding match_results
match_results-Perm i [] [] h = Permᴰ.nil
match_results-Perm i (x ∷ xs) [] h = cc
match_results-Perm i expected (r ∷ rs) h = elim (Bool-cases (is_empty (trim_space r.sub_task_id))) [
  | inl e ↦ absurd (ground arith)
  | inr e ↦ elim (Bool-cases (seen (trim_space r.sub_task_id) expected)) [
    | inl k ↦ Permᴰ.trans (delete-Perm (trim_space r.sub_task_id) expected k) (
        Permᴰ.cons refl (
          match_results-Perm (i + 1) (delete (trim_space r.sub_task_id) expected) rs
            (ground arith)))
    | inr k ↦ absurd (ground arith)
  ]
]

all_matched-none : (m : Matched) → all_matched m ≡ none → m ≡ left_over []
all_matched-none (left_over []) h = refl
all_matched-none (left_over (x ∷ xs)) h = cc
all_matched-none (refused e) h = cc

length-map : {A B : Type 0} (f : A → B) (xs : List A) → length (map f xs) ≡ length xs
length-map f [] = refl
length-map f (x ∷ xs) = ap suc (length-map f xs)

-- The tests that an accepted list of results has passed.
accepted_ids :
    (requested : List Str) (results : List ReviewSubTaskResult)
    → validate_ids requested results ≡ none
    → is_empty requested ≡ false
    → (length results ≡ length requested)
      × (all_matched (match_results 0 (key_set (map trim_space requested)) results) ≡ none)
unfolding validate_ids
accepted_ids requested results h e = (ground arith, ground arith)

validate_ids-Perm :
    (requested : List Str) (results : List ReviewSubTaskResult)
    → validate_ids requested results ≡ none
    → is_empty requested ≡ false
    → Permᴰ (map trim_space requested) (result_ids results)
validate_ids-Perm requested results h e =
    let (same, found) = accepted_ids requested results h e in
    let p : Permᴰ (key_set (map trim_space requested)) (result_ids results) =
      match_results-Perm 0 (key_set (map trim_space requested)) results
        (all_matched-none _ found) in
    let every : length (key_set (map trim_space requested)) ≡ length (map trim_space requested) =
      length-Perm p
      ∙ length-map (λ r. trim_space r.sub_task_id) results
      ∙ same
      ∙ sym (length-map trim_space requested) in
    subst (λ l. Permᴰ l (result_ids results)) (key_set-all (map trim_space requested) every) p

-- A review that `ValidateForRequest` accepts for a request with sub-tasks passes `Validate`, and the
-- trimmed ids of its results are those of the requested sub-tasks, each as often, in some order.
pub validate_for_request-Perm :
    (r : ReviewResult) (req : ReviewRequest)
    → validate_for_request r req ≡ none
    → is_empty (requested_review_sub_tasks req) ≡ false
    → (validate r ≡ none)
      × Permᴰ (map trim_space (requested_review_sub_tasks req)) (result_ids r.sub_task_results)
unfolding validate_for_request
validate_for_request-Perm r req h asked = by_result (validate r) refl h
  where
    by_result :
        (o : Option ReviewError)
        → validate r ≡ o
        → (elim o [
          | some e ↦ some e
          | none ↦ validate_ids (requested_review_sub_tasks req) r.sub_task_results
        ])
          ≡ none
        → (validate r ≡ none)
          × Permᴰ (map trim_space (requested_review_sub_tasks req)) (result_ids r.sub_task_results)
    by_result none e k =
        (e, validate_ids-Perm (requested_review_sub_tasks req) r.sub_task_results k asked)
    by_result (some x) e k = cc
