-- ===== src/IssueOps/Mapping/Declared.antt =====
-- The mapping by declared ids of issueops/checklist_mapping.go: an id that is new names a free item.
use alice_core.Prelude.{
  ℕ, zero, suc, ◌+◌, ◌≡◌, ◌≢◌, refl, sym, ap, subst, ◌∙◌, inl, inr, arith, true, false, Str, str_eq,
  str_eq→eq, str_eq_refl, trim_space, is_empty, if_cases, Bool-cases, Option-cases, List, [], ◌∷◌,
  ◌++◌, Option, none, some, ◌orelse◌, if◌then◌else◌, codes, get_elem?, get_elem?-modify_ne,
}
use alice_core.Hermes.State.{SubTask}
use alice_core.IssueOps.Checklist.{ChecklistItem, ChecklistMappingResult}
use alice_core.IssueOps.Scoring.{member}
use alice_core.IssueOps.Mapping.{
  Declaring, needs_human, item_by_id, declare_at, declare_id, declare_ids, declare_sub_tasks,
  mapping_to, all_unused,
}
use alice_core.IssueOps.Mapping.Counting.{Consistent, add_mapping-Consistent}

-- The item that an id names, from the index `i` on.
abbrev Names : Str → ℕ → List ChecklistItem → ℕ → Type 0
Names id i items k =
    (j : ℕ) × (k ≡ j + i) × (c : ChecklistItem) × (get_elem? items j ≡ some c) × (c.id ≡ id)

item_by_id-Names :
    (id : Str) (i : ℕ) (items : List ChecklistItem) (k : ℕ)
    → item_by_id id i items ≡ some k
    → Names id i items k
unfolding item_by_id
item_by_id-Names id i [] k h = ground arith
item_by_id-Names id i (c ∷ cs) k h = elim (Option-cases (item_by_id id (suc i) cs)) [
  | inl e ↦ here (subst (λ o. (o orelse (if str_eq c.id id then some i else none)) ≡ some k) e h)
  | inr (l, e) ↦ later (
      item_by_id-Names id (suc i) cs k
        (e ∙ subst (λ o. (o orelse (if str_eq c.id id then some i else none)) ≡ some k) e h))
]
  where
    here : (if str_eq c.id id then some i else none) ≡ some k → Names id i (c ∷ cs) k
    here e = elim (Bool-cases (str_eq c.id id)) [
      | inl s ↦ (0, ground arith, c, refl, str_eq→eq c.id id s)
      | inr s ↦ ground arith
    ]

    later : Names id (suc i) cs k → Names id i (c ∷ cs) k
    later (j, e, d, g, s) = (suc j, omega (arith, e), d, g, s)

abbrev id_of : Option ChecklistItem → Str
id_of none = []
id_of (some c) = c.id

-- Two ids that name one item are equal.
item_by_id-inj :
    (a b : Str) (items : List ChecklistItem) (k : ℕ)
    → item_by_id a 0 items ≡ some k
    → item_by_id b 0 items ≡ some k
    → a ≡ b
item_by_id-inj a b items k p q =
    let (j, e, c, g, s) = item_by_id-Names a 0 items k p in
    let (l, f, d, h, t) = item_by_id-Names b 0 items k q in
    let one : j ≡ l = omega (arith, e, f) in
    sym s ∙ ap id_of (sym g ∙ ap (get_elem? items) one ∙ h) ∙ t

all_unused-free :
    (items : List ChecklistItem) (j : ℕ) (c : ChecklistItem)
    → get_elem? items j ≡ some c
    → get_elem? (all_unused items) j ≡ some false
all_unused-free [] j c h = ground arith
all_unused-free (d ∷ ds) zero c h = refl
all_unused-free (d ∷ ds) (suc j) c h = all_unused-free ds j c h

-- What the loop keeps: an id that was not seen names a free item.
pub record Steady (items : List ChecklistItem) (s : Declaring) : Type 0 where
  pub consistent : Consistent items s.result s.used
  pub unseen :
      (id : Str) (k : ℕ)
      → item_by_id id 0 items ≡ some k
      → member id s.seen_ids ≡ false
      → get_elem? s.used k ≡ some false

needs_human-Steady :
    (items : List ChecklistItem) (s : Declaring) → Steady items s → Steady items (needs_human s)
needs_human-Steady items s w = record {
  consistent = record {
    size = w.consistent.size;
    total = w.consistent.total;
    marked = w.consistent.marked;
    apart = w.consistent.apart;
    unsynced = w.consistent.unsynced;
    nothing_left = w.consistent.nothing_left;
    certain = λ e. cc;
  };
  unseen = w.unseen;
}

declare_at-Steady :
    (items : List ChecklistItem) (idx : ℕ) (st : SubTask) (id : Str) (o : Option ℕ) (s : Declaring)
    → item_by_id id 0 items ≡ o
    → Steady items s
    → Steady items (declare_at items idx st id o s)
declare_at-Steady items idx st id none s e w = needs_human-Steady items s w
declare_at-Steady items idx st id (some k) s e w =
    if_cases (Steady items) (member id s.seen_ids) _ _ (λ _. needs_human-Steady items s w)
      (λ new. record {
        consistent =
            add_mapping-Consistent items s.result s.used
              (mapping_to items idx st k 100 true
                (codes "declared checklist_item_ids match " ++ id))
              (w.unseen id k e new) w.consistent;
        unseen = λ a j p unseen.
            get_elem?-modify_ne s.used k j (λ _. true) (other a j p unseen)
            ∙ w.unseen a j p (ground arith);
      })
  where
    other :
        (a : Str) (j : ℕ)
        → item_by_id a 0 items ≡ some j
        → member a (id ∷ s.seen_ids) ≡ false
        → k ≢ j
    other a j p unseen same =
        let equal : id ≡ a = item_by_id-inj id a items j (e ∙ ap some same) p in
        let found : str_eq id a ≡ true = rw equal (str_eq_refl a) in ground arith

declare_id-Steady :
    (items : List ChecklistItem) (idx : ℕ) (st : SubTask) (raw : Str) (s : Declaring)
    → Steady items s
    → Steady items (declare_id items idx st raw s)
unfolding declare_id
declare_id-Steady items idx st raw s w =
    if_cases (Steady items) (is_empty (trim_space raw)) _ _ (λ _. w)
      (λ _.
        declare_at-Steady items idx st (trim_space raw) (item_by_id (trim_space raw) 0 items) s refl
          w)

declare_ids-Steady :
    (items : List ChecklistItem) (idx : ℕ) (st : SubTask) (raws : List Str) (s : Declaring)
    → Steady items s
    → Steady items (declare_ids items idx st raws s)
unfolding declare_ids
declare_ids-Steady items idx st [] s w = w
declare_ids-Steady items idx st (raw ∷ raws) s w =
    declare_ids-Steady items idx st raws (declare_id items idx st raw s)
      (declare_id-Steady items idx st raw s w)

pub declare_sub_tasks-Steady :
    (items : List ChecklistItem) (idx : ℕ) (sts : List SubTask) (s : Declaring)
    → Steady items s
    → Steady items (declare_sub_tasks items idx sts s)
unfolding declare_sub_tasks
declare_sub_tasks-Steady items idx [] s w = w
declare_sub_tasks-Steady items idx (st ∷ sts) s w =
    declare_sub_tasks-Steady items (suc idx) sts (declare_ids items idx st st.checklist_item_ids s)
      (declare_ids-Steady items idx st st.checklist_item_ids s w)

-- The start of the loop.
pub unused-Steady :
    (items : List ChecklistItem) (r : ChecklistMappingResult)
    → Consistent items r (all_unused items)
    → Steady items (record { result = r; used = all_unused items; seen_ids = [] })
unused-Steady items r c = record {
  consistent = c;
  unseen = λ id k e _.
      let (j, f, d, g, _) = item_by_id-Names id 0 items k e in
      subst (λ i. get_elem? (all_unused items) i ≡ some false) {x = j} {y = k} (omega (arith, f))
        (all_unused-free items j d g);
}
