-- ===== src/IssueOps/Mapping/Greedy.antt =====
-- The mapping by scores of issueops/checklist_mapping.go: its search finds only free items.
use alice_core.Prelude.{
  ℕ, suc, ◌+◌, ◌==◌, ltb, ◌≡◌, refl, subst, arith, Bool, true, false, Str, if_cases, List, [], ◌∷◌,
  Option, none, some, length, length-append, get_elem?,
}
use alice_core.Hermes.State.{SubTask}
use alice_core.IssueOps.Checklist.{ChecklistItem, ChecklistMappingResult}
use alice_core.IssueOps.Scoring.{UnicodeTables, score_checklist_mapping}
use alice_core.IssueOps.Mapping.{
  Best, no_best, consider, best_from, found, is_certain, mapping_to, place, map_sub_task,
  map_sub_tasks,
}
use alice_core.IssueOps.Mapping.Counting.{Consistent, add_mapping-Consistent}

-- The best item, if there is one, has the property.
abbrev Has : (ℕ → Type 0) → Option ℕ → Type 0
Has P none = Unit
Has P (some k) = P k

consider-Has :
    (P : ℕ → Type 0) (i score : ℕ) (reason : Str) (b : Best)
    → P i
    → Has P b.idx
    → Has P (consider i (score, reason) b).idx
consider-Has P i score reason b p h =
    if_cases (λ (x : Best). Has P x.idx) (ltb b.score score) _ _ (λ _. p)
      (λ _. if_cases (λ (x : Best). Has P x.idx) (ltb b.second score) _ _ (λ _. h) (λ _. h))

-- What holds of every free index holds of the best one.
best_from-Has :
    (P : ℕ → Type 0) (u : UnicodeTables) (desc : Str) (i : ℕ) (used : List Bool)
    (items : List ChecklistItem) (b : Best)
    → ((j : ℕ) → get_elem? used j ≡ some false → P (j + i))
    → Has P b.idx
    → Has P (best_from u desc i used items b).idx
unfolding best_from
best_from-Has P u desc i used [] b p h = h
best_from-Has P u desc i [] (c ∷ cs) b p h = h
best_from-Has P u desc i (true ∷ used) (c ∷ cs) b p h =
    best_from-Has P u desc (suc i) used cs b
      (λ j e. subst P {x = suc j + i} {y = j + suc i} (omega arith) (p (suc j) e)) h
best_from-Has P u desc i (false ∷ used) (c ∷ cs) b p h =
    let (score, reason) = score_checklist_mapping u desc c.text in
    best_from-Has P u desc (suc i) used cs _
      (λ j e. subst P {x = suc j + i} {y = j + suc i} (omega arith) (p (suc j) e))
      (consider-Has P i _ _ b (subst P {x = 0 + i} {y = i} (omega arith) (p 0 refl)) h)

-- The best item is free.
best_from-free :
    (u : UnicodeTables) (desc : Str) (used : List Bool) (items : List ChecklistItem)
    → Has (λ k. get_elem? used k ≡ some false) (found (best_from u desc 0 used items no_best))
best_from-free u desc used items =
    let b = best_from u desc 0 used items no_best in
    let P : ℕ → Type 0 = λ k. get_elem? used k ≡ some false in
    if_cases (Has P) (b.score == 0) none b.idx (λ _. tt)
      (λ _.
        best_from-Has P u desc 0 used items no_best
          (λ j e. subst P {x = j} {y = j + 0} (omega arith) e) tt)

place-Consistent :
    (items : List ChecklistItem) (idx : ℕ) (st : SubTask) (b : Best) (o : Option ℕ)
    (s : ChecklistMappingResult × List Bool)
    → Has (λ k. get_elem? s.1 k ≡ some false) o
    → Consistent items s.0 s.1
    → Consistent items (place items idx st b o s).0 (place items idx st b o s).1
place-Consistent items idx st b none s h c = record {
  size = c.size;
  total = c.total;
  marked = c.marked;
  apart = c.apart;
  unsynced = c.unsynced;
  nothing_left = c.nothing_left;
  certain = c.certain;
}
place-Consistent items idx st b (some k) s h c =
    add_mapping-Consistent items s.0 s.1 (mapping_to items idx st k b.score (is_certain b) b.reason)
      h c

pub map_sub_tasks-Consistent :
    (u : UnicodeTables) (items : List ChecklistItem) (idx : ℕ) (sts : List SubTask)
    (s : ChecklistMappingResult × List Bool)
    → Consistent items s.0 s.1
    → Consistent items (map_sub_tasks u items idx sts s).0 (map_sub_tasks u items idx sts s).1
unfolding map_sub_tasks map_sub_task
map_sub_tasks-Consistent u items idx [] s c = c
map_sub_tasks-Consistent u items idx (st ∷ sts) s c =
    let b = best_from u st.description 0 s.1 items no_best in
    map_sub_tasks-Consistent u items (suc idx) sts (place items idx st b (found b) s)
      (place-Consistent items idx st b (found b) s (best_from-free u st.description s.1 items) c)

-- The sub-tasks that have a mapping or are listed as unmapped.
abbrev pub placed : ChecklistMappingResult → ℕ
placed r = length r.mappings + length r.unmapped_sub_tasks

placed-place :
    (items : List ChecklistItem) (idx : ℕ) (st : SubTask) (b : Best) (o : Option ℕ)
    (s : ChecklistMappingResult × List Bool)
    → placed (place items idx st b o s).0 ≡ suc (placed s.0)
placed-place items idx st b none s = omega (arith, length-append s.0.unmapped_sub_tasks (st ∷ []))
placed-place items idx st b (some k) s = omega (
  arith,
  length-append s.0.mappings (mapping_to items idx st k b.score (is_certain b) b.reason ∷ []),
)

pub placed-map_sub_tasks :
    (u : UnicodeTables) (items : List ChecklistItem) (idx : ℕ) (sts : List SubTask)
    (s : ChecklistMappingResult × List Bool)
    → placed (map_sub_tasks u items idx sts s).0 ≡ placed s.0 + length sts
unfolding map_sub_tasks map_sub_task
placed-map_sub_tasks u items idx [] s = omega arith
placed-map_sub_tasks u items idx (st ∷ sts) s =
    let b = best_from u st.description 0 s.1 items no_best in
    omega (
      arith,
      placed-map_sub_tasks u items (suc idx) sts (place items idx st b (found b) s),
      placed-place items idx st b (found b) s,
    )
