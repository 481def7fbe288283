-- ===== src/Prelude/Dict.antt =====
-- Go maps with string keys, as association lists. Go gives no order of iteration; the list's order
-- is one that it may take.
use mathlib.Core.Path.{◌≡◌, refl}
use mathlib.Core.Option.{Option, none, some}
use mathlib.Core.List.{List, [], ◌∷◌}
use native.Mathlib.Omega.{arith}
use alice_core.Prelude.Tests.{if◌then◌else◌}
use alice_core.Prelude.Text.{Str, str_eq, str_eq_refl, str_eq_iff}

module _ {ℓ} {V : Type ℓ} where
  -- `v, ok := m[k]`
  unfoldable pub lookup : Str → List (Str × V) → Option V
  lookup k [] = none
  lookup k ((j, v) ∷ m) = if str_eq j k then some v else lookup k m

  -- `m[k] = v`
  unfoldable pub insert : Str → V → List (Str × V) → List (Str × V)
  insert k v [] = (k, v) ∷ []
  insert k v ((j, w) ∷ m) = if str_eq j k then (j, v) ∷ m else (j, w) ∷ insert k v m

  pub lookup-insert :
      (k j : Str) (v : V) (m : List (Str × V))
      → lookup j (insert k v m) ≡ (if str_eq k j then some v else lookup j m)
  unfolding lookup insert
  lookup-insert k j v [] = refl
  lookup-insert k j v ((i, w) ∷ m) =
      ground (
        arith,
        str_eq_iff k j,
        str_eq_iff i k,
        str_eq_iff i j,
        str_eq_refl k,
        lookup-insert k j v m,
      )

  pub lookup-insert_self : (k : Str) (v : V) (m : List (Str × V)) → lookup k (insert k v m) ≡ some v
  lookup-insert_self k v m = rw (lookup-insert, str_eq_refl k)
