-- ===== src/IssueOps/Mapping/Counting.antt =====
-- The items that a mapping of issueops/checklist_mapping.go has used, counted.
use alice_core.Prelude.{
  ℕ, zero, suc, ◌+◌, ◌≡◌, ◌≢◌, refl, sym, ap, ◌∙◌, arith, Bool, true, false, List, [], ◌∷◌, ◌++◌,
  some, length, length-append, length-modify, get_elem?, get_elem?-modify_self, get_elem?-modify_ne,
  All, All-append,
}
use alice_core.IssueOps.Checklist.{ChecklistItem, ChecklistMapping, ChecklistMappingResult}
use alice_core.IssueOps.Mapping.{mark, add_mapping, unused_items, all_unused}

-- The number of items that are not used.
abbrev pub free : List Bool → ℕ
free [] = 0
free (true ∷ used) = free used
free (false ∷ used) = suc (free used)

-- No two mappings have the same item.
abbrev pub Apart : List ChecklistMapping → Type 0
Apart [] = Unit
Apart (m ∷ ms) = All (λ n. n.checklist_index ≢ m.checklist_index) ms × Apart ms

-- What the loops keep: the used items are those of the mappings, each of one mapping, and the sum
-- of both kinds is the checklist. The result is not synced yet. Where no person is asked, no mapping needs one.
pub record Consistent (items : List ChecklistItem) (r : ChecklistMappingResult) (used : List Bool)
    : Type 0 where
  pub size : length used ≡ length items
  pub total : length r.mappings + free used ≡ length items
  pub marked : All (λ m. get_elem? used m.checklist_index ≡ some true) r.mappings
  pub apart : Apart r.mappings
  pub unsynced : r.checklist_synced ≡ false
  pub nothing_left : r.unmapped_checklist_items ≡ []
  pub certain :
      r.needs_human_confirmation ≡ false
      → All (λ m. m.requires_human_confirmation ≡ false) r.mappings

free-mark :
    (used : List Bool) (k : ℕ)
    → get_elem? used k ≡ some false
    → free used ≡ suc (free (mark used k))
free-mark [] k h = ground arith
free-mark (true ∷ used) zero h = ground arith
free-mark (false ∷ used) zero h = refl
free-mark (true ∷ used) (suc k) h = free-mark used k h
free-mark (false ∷ used) (suc k) h = ap suc (free-mark used k h)

pub length-unused_items :
    (used : List Bool) (items : List ChecklistItem)
    → length used ≡ length items
    → length (unused_items used items) ≡ free used
unfolding unused_items
length-unused_items [] [] h = refl
length-unused_items [] (c ∷ cs) h = ground arith
length-unused_items (b ∷ used) [] h = ground arith
length-unused_items (true ∷ used) (c ∷ cs) h = length-unused_items used cs (omega (arith, h))
length-unused_items (false ∷ used) (c ∷ cs) h =
    ap suc (length-unused_items used cs (omega (arith, h)))

pub length-all_unused : (items : List ChecklistItem) → length (all_unused items) ≡ length items
length-all_unused [] = refl
length-all_unused (c ∷ cs) = ap suc (length-all_unused cs)

pub free-all_unused : (items : List ChecklistItem) → free (all_unused items) ≡ length items
free-all_unused [] = refl
free-all_unused (c ∷ cs) = ap suc (free-all_unused cs)

Apart-append :
    (ms : List ChecklistMapping) (m : ChecklistMapping)
    → All (λ n. n.checklist_index ≢ m.checklist_index) ms
    → Apart ms
    → Apart (ms ++ m ∷ [])
Apart-append [] m h a = (tt, tt)
Apart-append (n ∷ ms) m h a = (
  All-append (λ x. x.checklist_index ≢ n.checklist_index) ms (m ∷ []) a.0 (λ e. h.0 (sym e), tt),
  Apart-append ms m h.1 a.1,
)

pub All-map {ℓ κ λ'} :
    {A : Type ℓ} (P : A → Type κ) (Q : A → Type λ')
    → ((a : A) → P a → Q a)
    → (xs : List A) → All P xs
    → All Q xs
All-map P Q f [] h = tt
All-map P Q f (x ∷ xs) h = (f x h.0, All-map P Q f xs h.1)

not_marked :
    (used : List Bool) (k j : ℕ)
    → get_elem? used k ≡ some false
    → get_elem? used j ≡ some true
    → j ≢ k
not_marked used k j h t e =
    let same : some true ≡ some false = sym t ∙ ap (get_elem? used) e ∙ h in cc

-- A mapping to a free item keeps the counts.
pub add_mapping-Consistent :
    (items : List ChecklistItem) (r : ChecklistMappingResult) (used : List Bool)
    (m : ChecklistMapping)
    → get_elem? used m.checklist_index ≡ some false
    → Consistent items r used
    → Consistent items (add_mapping m r) (mark used m.checklist_index)
add_mapping-Consistent items r used m h c =
    let k = m.checklist_index in
    record {
      size = length-modify used k (λ _. true) ∙ c.size;
      total = omega (arith, c.total, free-mark used k h, length-append r.mappings (m ∷ []));
      marked =
          All-append (λ n. get_elem? (mark used k) n.checklist_index ≡ some true) r.mappings
            (m ∷ [])
            (All-map (λ n. get_elem? used n.checklist_index ≡ some true)
              (λ n. get_elem? (mark used k) n.checklist_index ≡ some true)
              (λ n t.
                get_elem?-modify_ne used k n.checklist_index (λ _. true)
                  (λ e. not_marked used k n.checklist_index h t (sym e))
                ∙ t)
              r.mappings c.marked)
            (get_elem?-modify_self used k (λ _. true) false h, tt);
      apart =
          Apart-append r.mappings m
            (All-map (λ n. get_elem? used n.checklist_index ≡ some true)
              (λ n. n.checklist_index ≢ k) (λ n t. not_marked used k n.checklist_index h t)
              r.mappings c.marked)
            c.apart;
      unsynced = c.unsynced;
      nothing_left = c.nothing_left;
      certain = λ e.
          All-append (λ n. n.requires_human_confirmation ≡ false) r.mappings (m ∷ [])
            (c.certain (ground arith)) (ground arith, tt);
    }
