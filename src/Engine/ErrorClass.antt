-- ===== src/Engine/ErrorClass.antt =====
-- engine/errorclass/classifier.go: the class of an error by the first pattern that its text has.
-- The string type of the classes has no other values here, since only its constants are returned.
pub mod Matching
use alice_core.Prelude.{
  Bool, true, false, ◌||◌, Str, codes, contains, trim_space, to_lower, is_empty, if◌then◌else◌,
  List, [], ◌∷◌, Option, none, some,
}

pub data Class : Type 0 where
  unknown rate_limit server_overload network_reset timeout eof context_too_long killed : Class

pub record ClassPatterns : Type 0 where
  pub patterns : List Str
  pub class : Class

abbrev group : List Str → Class → ClassPatterns
group patterns class = record { patterns = patterns; class = class }

unfoldable pub class_patterns : List ClassPatterns
class_patterns =
    group (codes "rate limit" ∷ codes "too many requests" ∷ codes "429" ∷ []) rate_limit
    ∷ group
        (codes "overloaded"
          ∷ codes "529"
          ∷ codes "503 service unavailable"
          ∷ codes "504 gateway timeout"
          ∷ codes "upstream connect error"
          ∷ [])
        server_overload
    ∷ group
        (codes "connection reset"
          ∷ codes "connection refused"
          ∷ codes "no such host"
          ∷ codes "tls handshake"
          ∷ [])
        network_reset
    ∷ group
        (codes "deadline exceeded"
          ∷ codes "context deadline"
          ∷ codes "i/o timeout"
          ∷ codes "connection timed out"
          ∷ [])
        timeout
    ∷ group (codes "eof" ∷ codes "temporary" ∷ []) eof
    ∷ group
        (codes "prompt is too long"
          ∷ codes "context length"
          ∷ codes "request entity too large"
          ∷ codes "context_length_exceeded"
          ∷ [])
        context_too_long
    ∷ group (codes "signal: killed" ∷ []) killed
    ∷ []

-- The loop over the patterns of one group.
unfoldable pub any_contained : List Str → Str → Bool
any_contained [] s = false
any_contained (p ∷ ps) s = contains p s || any_contained ps s

-- The loop over the groups.
unfoldable pub first_class : List ClassPatterns → Str → Class
unfolding any_contained
first_class [] s = unknown
first_class (g ∷ gs) s =
    let rest = first_class gs s in if any_contained g.patterns s then g.class else rest

-- `ClassifyText`
unfoldable pub classify_text : Str → Class
unfolding first_class class_patterns trim_space
classify_text text =
    let s = to_lower (trim_space text) in
    if is_empty s then unknown else first_class class_patterns s

-- `Classify`, where `none` is the nil error.
unfoldable pub classify : Option Str → Class
unfolding classify_text
classify none = unknown
classify (some text) = classify_text text

-- `IsTransient`, and `IsRetryable`, which calls it.
abbrev pub is_transient : Class → Bool
is_transient rate_limit = true
is_transient server_overload = true
is_transient network_reset = true
is_transient timeout = true
is_transient eof = true
is_transient _ = false

-- `IsEnv`
abbrev pub is_env : Class → Bool
is_env context_too_long = true
is_env killed = true
is_env c = is_transient c
