-- ===== src/Engine/ErrorClass/Matching.antt =====
-- What a class of engine/errorclass/classifier.go says about the text.
use alice_core.Prelude.{
  ◌≡◌, refl, ap, ◌⊎◌, inl, inr, true, false, Str, trim_space, to_lower, is_empty, List, [], ◌∷◌,
  ◌++◌, All, if_cases,
}
use alice_core.Engine.ErrorClass.{
  Class, unknown, ClassPatterns, class_patterns, any_contained, first_class, classify_text,
}

-- The group that decides: one of the text's patterns is in it, and none in a group before it.
pub record Decides (groups : List ClassPatterns) (s : Str) (c : Class) : Type 0 where
  pub before : List ClassPatterns
  pub at : ClassPatterns
  pub after : List ClassPatterns
  pub split : groups ≡ before ++ at ∷ after
  pub of_class : at.class ≡ c
  pub matches : any_contained at.patterns s ≡ true
  pub first : All (λ g. any_contained g.patterns s ≡ false) before

-- No group matches.
abbrev pub NoneMatch : List ClassPatterns → Str → Type 0
NoneMatch groups s = All (λ g. any_contained g.patterns s ≡ false) groups

abbrev pub Outcome : List ClassPatterns → Str → Class → Type 0
Outcome groups s c = Decides groups s c ⊎ ((c ≡ unknown) × NoneMatch groups s)

later :
    (g : ClassPatterns) (gs : List ClassPatterns) (s : Str) (c : Class)
    → any_contained g.patterns s ≡ false
    → Outcome gs s c
    → Outcome (g ∷ gs) s c
later g gs s c e (inl d) = inl (record {
  before = g ∷ d.before;
  at = d.at;
  after = d.after;
  split = ap (λ x. g ∷ x) d.split;
  of_class = d.of_class;
  matches = d.matches;
  first = (e, d.first);
})
later g gs s c e (inr (u, all)) = inr (u, (e, all))

first_class-Decides :
    (groups : List ClassPatterns) (s : Str) → Outcome groups s (first_class groups s)
unfolding first_class
first_class-Decides [] s = inr (refl, tt)
first_class-Decides (g ∷ gs) s =
    if_cases (Outcome (g ∷ gs) s) (any_contained g.patterns s) _ _
      (λ e. inl (record {
        before = [];
        at = g;
        after = gs;
        split = refl;
        of_class = refl;
        matches = e;
        first = tt;
      }))
      (λ e. later g gs s (first_class gs s) e (first_class-Decides gs s))

-- The class of a text that is not blank is decided by the first group of the table that has a
-- pattern in the trimmed text in small letters. It is unknown exactly when no group has one.
classify_text-Decides :
    (text : Str)
    → is_empty (to_lower (trim_space text)) ≡ false
    → Outcome class_patterns (to_lower (trim_space text)) (classify_text text)
unfolding classify_text
classify_text-Decides text h =
    rw h (first_class-Decides class_patterns (to_lower (trim_space text)))
