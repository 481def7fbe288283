-- ===== src/Hermes/SqliteStore/Deciding.antt =====
-- On what state `ApplyInterruptResolution` of hermes/store.go takes its decision.
use alice_core.Prelude.{
  ℕ, ◌≡◌, refl, subst, inl, inr, arith, Bool-cases, Str, is_empty, trim_space, if_of_false, Option,
  none, some,
}
use alice_core.Hermes.Snapshot.{HermesInterrupt, Snapshot}
use alice_core.Hermes.SqliteStore.Tables.{Db, Action, ok, query, ◌>>=◌, or_raise, no_task, latest}
use alice_core.Hermes.SqliteStore.Reads.{get_latest_snapshot}
use alice_core.Hermes.SqliteStore.Resolution.{
  InterruptResolution, resolve, resolve_pending, apply_interrupt_resolution,
}

-- What the decision is taken on.
abbrev pub Decided : Str → ℕ → Str → InterruptResolution → Db → Db → Type 0
Decided new_id now id decision db db' =
    (x : Snapshot) × (i : HermesInterrupt) × (latest id db ≡ some x)
    × (x.state.interrupt ≡ some i)
    × (resolve new_id now id decision x.state i db ≡ (ok tt, db'))

pending-Decided :
    (new_id : Str) (now : ℕ) (id : Str) (decision : InterruptResolution) (x : Snapshot)
    (o : Option HermesInterrupt) (db db' : Db)
    → latest id db ≡ some x
    → x.state.interrupt ≡ o
    → resolve_pending new_id now id decision x o db ≡ (ok tt, db')
    → Decided new_id now id decision db db'
unfolding resolve_pending
pending-Decided new_id now id decision x none db db' e pending h = absurd (ground arith)
pending-Decided new_id now id decision x (some i) db db' e pending h = (x, i, e, pending, h)

named-Decided :
    (new_id : Str) (now : ℕ) (id : Str) (decision : InterruptResolution) (o : Option Snapshot)
    (db db' : Db)
    → latest id db ≡ o
    → (query (λ (d : Db). or_raise no_task o) >>= λ (x : Snapshot).
          resolve_pending new_id now id decision x x.state.interrupt)
        db
      ≡ (ok tt, db')
    → Decided new_id now id decision db db'
named-Decided new_id now id decision none db db' e h = absurd (ground arith)
named-Decided new_id now id decision (some x) db db' e h =
    pending-Decided new_id now id decision x x.state.interrupt db db' e refl h

pub resolution-Decided :
    (new_id : Str) (now : ℕ) (id : Str) (decision : InterruptResolution) (db db' : Db)
    → apply_interrupt_resolution new_id now id decision db ≡ (ok tt, db')
    → Decided new_id now id decision db db'
unfolding apply_interrupt_resolution get_latest_snapshot
resolution-Decided new_id now id decision db db' h = elim (Bool-cases (is_empty (trim_space id))) [
  | inl blank ↦ absurd (ground arith)
  | inr named ↦ named-Decided new_id now id decision (latest id db) db db' refl (
      subst (λ (m : Action (Unit {0})). m db ≡ (ok tt, db'))
        (if_of_false (is_empty (trim_space id)) _ _ named) h)
]
