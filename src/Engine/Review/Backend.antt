-- ===== src/Engine/Review/Backend.antt =====
-- engine/review.go: the backend that a strict review runs on.
use alice_core.Prelude.{
  ◌≡◌, refl, sym, subst, if_cases, arith, Bool, true, false, not, ◌&&◌, ◌||◌, is_empty,
  if◌then◌else◌, List, [], ◌∷◌,
}
use alice_core.Engine.Review.{BackendKind, StrictModeConfig, with_defaults, opponent_or_auto}
use alice_core.Engine.ChatContext.{backend_eq}

-- `oppositeBackend`
unfoldable pub opposite_backend : BackendKind → BackendKind
opposite_backend BackendKind.claude = BackendKind.codex
opposite_backend BackendKind.codex = BackendKind.claude
opposite_backend _ = BackendKind.claude

abbrev among : BackendKind → List BackendKind → Bool
among b [] = false
among b (c ∷ cs) = backend_eq c b || among b cs

-- `backendAvailable`
unfoldable pub backend_available : BackendKind → List BackendKind → Bool
backend_available b available = is_empty available || among b available

abbrev is_concrete : BackendKind → Bool
is_concrete b = backend_eq b BackendKind.claude || backend_eq b BackendKind.codex

abbrev pub preferred_backend : BackendKind → BackendKind → BackendKind
preferred_backend BackendKind.auto executor = opposite_backend executor
preferred_backend b executor = b

-- `ResolveStrictReviewBackend`
unfoldable pub resolve_strict_review_backend :
    BackendKind → StrictModeConfig → List BackendKind → BackendKind
unfolding backend_available opposite_backend with_defaults
resolve_strict_review_backend executor config available =
    let c = with_defaults config in
    let preferred = preferred_backend c.opponent_backend executor in
    if not c.enabled
    then executor
    else if is_concrete preferred && backend_available preferred available
    then preferred
    else if backend_available executor available
    then executor
    else if is_concrete preferred
    then preferred
    else executor

-- The defaults leave only `auto` and `codex`, so the preferred backend is a concrete one.
is_concrete-preferred :
    (config : StrictModeConfig) (executor : BackendKind)
    → is_concrete (preferred_backend (with_defaults config).opponent_backend executor) ≡ true
unfolding with_defaults opposite_backend
is_concrete-preferred config executor = by_opponent config.opponent_backend executor
  where
    by_opponent :
        (o e : BackendKind) → is_concrete (preferred_backend (opponent_or_auto o) e) ≡ true
    by_opponent BackendKind.codex e = refl
    by_opponent BackendKind.claude BackendKind.claude = refl
    by_opponent BackendKind.claude BackendKind.codex = refl
    by_opponent BackendKind.claude _ = refl
    by_opponent BackendKind.auto BackendKind.claude = refl
    by_opponent BackendKind.auto BackendKind.codex = refl
    by_opponent BackendKind.auto _ = refl
    by_opponent (BackendKind.other n) BackendKind.claude = refl
    by_opponent (BackendKind.other n) BackendKind.codex = refl
    by_opponent (BackendKind.other n) _ = refl

prefers :
    (executor : BackendKind) (config : StrictModeConfig) (available : List BackendKind)
    → resolve_strict_review_backend executor config available ≡ (
        if config.enabled
          && (backend_available
                (preferred_backend (with_defaults config).opponent_backend executor)
                available
              || not (backend_available executor available))
        then preferred_backend (with_defaults config).opponent_backend executor
        else executor)
unfolding resolve_strict_review_backend
prefers executor config available = ground (arith, is_concrete-preferred config executor)

-- A strict review runs on the preferred backend, which is the opposite of the executor's unless the
-- configuration names Codex, where it is available or the executor's is not; otherwise, and where
-- strict mode is off, it runs on the executor's. So with an available executor's backend it runs on
-- an available one.
resolve_strict_review_backend-Prefers :
    (executor : BackendKind) (config : StrictModeConfig) (available : List BackendKind)
    → (resolve_strict_review_backend executor config available ≡ (
        if config.enabled
          && (backend_available
                (preferred_backend (with_defaults config).opponent_backend executor)
                available
              || not (backend_available executor available))
        then preferred_backend (with_defaults config).opponent_backend executor
        else executor))
      × ((not (backend_available executor available)
            || backend_available
                (resolve_strict_review_backend executor config available)
                available)
          ≡ true)
resolve_strict_review_backend-Prefers executor config available =
    let p = preferred_backend (with_defaults config).opponent_backend executor in
    (
      prefers executor config available,
      subst
          (λ b.
            (not (backend_available executor available) || backend_available b available) ≡ true)
          (sym (prefers executor config available))
          (if_cases
            (λ b.
              (not (backend_available executor available) || backend_available b available) ≡ true)
            (config.enabled
              && (backend_available p available || not (backend_available executor available)))
            p executor (λ h. ground arith) (λ h. ground arith)),
    )
