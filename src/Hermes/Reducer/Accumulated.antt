-- ===== src/Hermes/Reducer/Accumulated.antt =====
-- The accumulated text of hermes/reducer.go: appended deltas form a monoid.
use alice_core.Prelude.{
  ℕ, ◌≡◌, refl, inl, inr, Str, [], ◌∷◌, ◌++◌, last_or, ◌==◌, Bool-cases, append_assoc,
}
use alice_core.Hermes.Reducer.Merge.{append_accumulated_delta, newline}

pub append_delta-nil : (a : Str) → append_accumulated_delta a [] ≡ a
unfolding append_accumulated_delta
append_delta-nil [] = refl
append_delta-nil (c ∷ cs) = refl

last_or-append_cons : (a d : ℕ) (xs ds : Str) → last_or a (xs ++ d ∷ ds) ≡ last_or d ds
last_or-append_cons a d [] ds = refl
last_or-append_cons a d (x ∷ xs) ds = last_or-append_cons x d xs ds

-- Appending two deltas in turn is appending their own joined text once.
pub append_delta_assoc :
    (a b c : Str)
    → append_accumulated_delta (append_accumulated_delta a b) c
      ≡ append_accumulated_delta a (append_accumulated_delta b c)
unfolding append_accumulated_delta
append_delta_assoc [] b c = refl
append_delta_assoc (x ∷ xs) [] [] = refl
append_delta_assoc (x ∷ xs) [] (z ∷ zs) = refl
append_delta_assoc (x ∷ xs) (y ∷ ys) [] = append_delta-nil _
append_delta_assoc (x ∷ xs) (y ∷ ys) (z ∷ zs) = elim (Bool-cases (last_or x xs == newline)) [
  | inl e ↦ elim (Bool-cases (last_or y ys == newline)) [
    | inl f ↦ rw (e, f) (simp (last_or-append_cons, f, e, append_assoc))
    | inr f ↦ rw (e, f) (simp (last_or-append_cons, f, e, append_assoc))
  ]
  | inr e ↦ elim (Bool-cases (last_or y ys == newline)) [
    | inl f ↦ rw (e, f) (simp (last_or-append_cons, f, e, append_assoc))
    | inr f ↦ rw (e, f) (simp (last_or-append_cons, f, e, append_assoc))
  ]
]
