-- ===== src/Hermes/SqliteStore/Sweeping.antt =====
-- What `SweepZombieTasks` of hermes/store.go does to every task.
use alice_core.Prelude.{
  ℕ, ◌+◌, ◌≡◌, refl, sym, ap, subst, ◌∙◌, ◌⊎◌, inl, inr, arith, true, false, Bool-cases, Str,
  str_ne, if_of_true, if_of_false, List, [], ◌∷◌, ◌++◌, append_assoc, append-nil, length, All,
}
use alice_core.Hermes.Snapshot.{Snapshot}
use alice_core.Hermes.SqliteStore.Tables.{TaskRow, Db, Result, latest}
use alice_core.Hermes.SqliteStore.Reads.{get_task, current_status}
use alice_core.Hermes.SqliteStore.Resolution.{
  is_running, interrupted, is_zombie, zombies, count_ok, fail_all, sweep_zombie_tasks,
}
use alice_core.Hermes.SqliteStore.Failing.{Fails, Apart, mark_failed-FailedOr}

abbrev pub Has : {A : Type 0} → A → List A → Type 0
Has a [] = ⊥
Has a (x ∷ xs) = (x ≡ a) ⊎ Has a xs

-- What the loop has done for the tasks `ids`, from the count `n`.
record Looped (ids : List Str) (n : ℕ) (db : Db) (p : ℕ × Db) : Type 0 where
  added : List Snapshot
  grown : p.1.snapshots ≡ db.snapshots ++ added
  counted : p.0 ≡ n + length added
  each : All (λ (x : Snapshot). Fails x × Has x.task_id ids) added
  spared :
      (k : Str) → (Has k ids → ⊥) → (get_task k p.1 ≡ get_task k db) × (latest k p.1 ≡ latest k db)

All-later :
    (id : Str) (ids : List Str) (xs : List Snapshot)
    → All (λ (x : Snapshot). Fails x × Has x.task_id ids) xs
    → All (λ (x : Snapshot). Fails x × Has x.task_id (id ∷ ids)) xs
All-later id ids [] h = tt
All-later id ids (x ∷ xs) h = ((h.0.0, inr h.0.1), All-later id ids xs h.1)

Looped-none :
    (id : Str) (ids : List Str) (n : ℕ) (db : Db) (p : ℕ × Db)
    → Looped ids n db p
    → Looped (id ∷ ids) n db p
Looped-none id ids n db p r = record {
  added = r.added;
  grown = r.grown;
  counted = r.counted;
  each = All-later id ids r.added r.each;
  spared = λ k not. r.spared k (λ h. not (inr h));
}

Looped-one :
    (id : Str) (ids : List Str) (n : ℕ) (db db' : Db) (x : Snapshot) (p : ℕ × Db)
    → x.task_id ≡ id
    → Fails x
    → db'.snapshots ≡ db.snapshots ++ x ∷ []
    → Apart id db db'
    → Looped ids (n + 1) db' p
    → Looped (id ∷ ids) n db p
Looped-one id ids n db db' x p own fails one apart r = record {
  added = x ∷ r.added;
  grown = r.grown ∙ ap (λ l. l ++ r.added) one ∙ append_assoc db.snapshots (x ∷ []) r.added;
  counted = omega (arith, r.counted);
  each = ((fails, inl (sym own)), All-later id ids r.added r.each);
  spared = λ k not.
      let ne = str_ne id k (λ e. not (inl e)) in
      let rest = r.spared k (λ h. not (inr h)) in
      (rest.0 ∙ apart.tasks k ne, rest.1 ∙ apart.snapshots k ne);
}

fail_all-Looped :
    (new_id : Str → Str) (now : ℕ) (reason : Str) (ids : List Str) (n : ℕ) (db : Db)
    → Looped ids n db (fail_all new_id now reason ids n db)
unfolding fail_all
fail_all-Looped new_id now reason [] n db = record {
  added = [];
  grown = sym (append-nil db.snapshots);
  counted = omega arith;
  each = tt;
  spared = λ k not. (refl, refl);
}
fail_all-Looped new_id now reason (id ∷ ids) n db =
    elim (mark_failed-FailedOr (new_id id) now id reason db) [
      | inl (e, q) ↦
          subst Goal (sym q)
            (Looped-none id ids n db _ (fail_all-Looped new_id now reason ids n db))
      | inr (db', x, q, own, fails, one, apart) ↦ subst Goal (sym q) (
          Looped-one id ids n db db' x _ own fails one apart
            (fail_all-Looped new_id now reason ids (n + 1) db'))
    ]
  where
    Goal : Result (Unit {0}) × Db → Type 0
    Goal p = Looped (id ∷ ids) n db (fail_all new_id now reason ids (count_ok p.0 n) p.1)

-- The task is in a status of running, and no interrupt waits for its operator.
pub record IsZombie (db : Db) (id : Str) : Type 0 where
  pub row : TaskRow
  pub has_row : Has (id, row) db.task_states
  pub running : is_running (current_status db id row) ≡ true
  pub waiting : interrupted (latest id db) ≡ false

zombie_row :
    (db : Db) (id : Str) (r : TaskRow)
    → is_zombie db id r ≡ true
    → (is_running (current_status db id r) ≡ true) × (interrupted (latest id db) ≡ false)
unfolding is_zombie
zombie_row db id r h = (ground arith, ground arith)

-- A row of the list makes a zombie of the task.
abbrev Found : Db → Str → List (Str × TaskRow) → Type 0
Found db id rows = (q : TaskRow) × Has (id, q) rows × (is_zombie db id q ≡ true)

Found-later :
    (db : Db) (id : Str) (x : Str × TaskRow) (rest : List (Str × TaskRow))
    → Found db id rest
    → Found db id (x ∷ rest)
Found-later db id x rest (q, has, y) = (q, inr has, y)

Found-here :
    (db : Db) (id k : Str) (r : TaskRow) (rest : List (Str × TaskRow)) (ids : List Str)
    → (Has id ids → Found db id ((k, r) ∷ rest))
    → is_zombie db k r ≡ true
    → Has id (k ∷ ids)
    → Found db id ((k, r) ∷ rest)
Found-here db id k r rest ids later y (inl e) =
    (r, inl (λ i. (e i, r)), subst (λ j. is_zombie db j r ≡ true) e y)
Found-here db id k r rest ids later y (inr g) = later g

zombies-Found :
    (db : Db) (id : Str) (rows : List (Str × TaskRow)) → Has id (zombies db rows) → Found db id rows
unfolding zombies
zombies-Found db id [] h = elim h [ ]
zombies-Found db id ((k, r) ∷ rest) h =
    let later : Has id (zombies db rest) → Found db id ((k, r) ∷ rest) =
      λ g. Found-later db id (k, r) rest (zombies-Found db id rest g) in
    elim (Bool-cases (is_zombie db k r)) [
      | inl y ↦
          Found-here db id k r rest (zombies db rest) later y
            (subst (Has id) (if_of_true (is_zombie db k r) _ _ y) h)
      | inr n ↦ later (subst (Has id) (if_of_false (is_zombie db k r) _ _ n) h)
    ]

zombies-IsZombie : (db : Db) (id : Str) → Has id (zombies db db.task_states) → IsZombie db id
zombies-IsZombie db id h =
    let (r, has, y) = zombies-Found db id db.task_states h in
    let z = zombie_row db id r y in record { row = r; has_row = has; running = z.0; waiting = z.1 }

-- What a sweep has done, from the tables `db` to the count and the tables `p`.
pub record Swept (db : Db) (p : ℕ × Db) : Type 0 where
  pub added : List Snapshot
  pub grown : p.1.snapshots ≡ db.snapshots ++ added
  pub counted : p.0 ≡ length added
  pub each : All (λ (x : Snapshot). Fails x × IsZombie db x.task_id) added
  pub spared :
      (id : Str)
      → (IsZombie db id → ⊥)
      → (get_task id p.1 ≡ get_task id db) × (latest id p.1 ≡ latest id db)

each-IsZombie :
    (db : Db) (xs : List Snapshot)
    → All (λ (x : Snapshot). Fails x × Has x.task_id (zombies db db.task_states)) xs
    → All (λ (x : Snapshot). Fails x × IsZombie db x.task_id) xs
each-IsZombie db [] h = tt
each-IsZombie db (x ∷ xs) h =
    ((h.0.0, zombies-IsZombie db x.task_id h.0.1), each-IsZombie db xs h.1)

-- A sweep adds as many snapshots as it counts, and each fails a task that was running before it with
-- no interrupt waiting. Every other task, one that waits for its operator among them, is read as
-- before.
pub sweep-Swept :
    (new_id : Str → Str) (now : ℕ) (reason : Str) (db : Db)
    → Swept db (sweep_zombie_tasks new_id now reason db)
unfolding sweep_zombie_tasks
sweep-Swept new_id now reason db =
    let r = fail_all-Looped new_id now reason (zombies db db.task_states) 0 db in
    record {
      added = r.added;
      grown = r.grown;
      counted = omega (arith, r.counted);
      each = each-IsZombie db r.added r.each;
      spared = λ id not. r.spared id (λ h. not (zombies-IsZombie db id h));
    }
