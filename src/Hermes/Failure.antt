-- ===== src/Hermes/Failure.antt =====
-- hermes/accumulated.go: whether a failure comes from the environment or from the work itself.
use alice_core.Prelude.{◌≡◌, refl, Str, codes, trim_space, is_empty, if◌then◌else◌}
use alice_core.Engine.ErrorClass.{classify_text, is_env, first_class, class_patterns, any_contained}

pub data FailureKind : Type 0 where
  unknown env content : FailureKind

-- `ClassifyFailure`
unfoldable pub classify_failure : Str → FailureKind
unfolding classify_text trim_space
classify_failure err_text =
    if is_empty (trim_space err_text)
    then unknown
    else if is_env (classify_text err_text)
    then env
    else content

killed_test : classify_failure (codes "Signal: KILLED") ≡ env
unfolding classify_failure classify_text first_class class_patterns any_contained trim_space
killed_test = refl

-- A pattern is found inside other words too.
typeof_test : classify_failure (codes "typeof x is wrong") ≡ env
unfolding classify_failure classify_text first_class class_patterns any_contained trim_space
typeof_test = refl
