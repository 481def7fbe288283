-- ===== src/Engine/Execution/Streaming.antt =====
-- What every sequence of transitions of engine/execution_state.go passes through.
use alice_core.Prelude.{
  ℕ, ◌≡◌, refl, sym, ap, subst, ◌∙◌, ◌⊎◌, inl, inr, arith, true, List, [], ◌∷◌, ◌++◌, Str,
  Bool-cases,
}
use alice_core.Engine.Execution.{
  ExecutionState, streaming, succeeded, execution_state_eq, ExecutionLifecycle,
  new_execution_lifecycle, TransitionCall, transitions, transition_of,
  valid_execution_state_transition, or_idle,
}

kept_or_moved :
    (now : ℕ) (to : ExecutionState) (reason : Str) (l : ExecutionLifecycle)
    → ((transition_of now to reason l).0.state ≡ l.state)
      ⊎ (((transition_of now to reason l).0.state ≡ to)
          × (valid_execution_state_transition (or_idle l.state) to ≡ true))
unfolding transition_of
kept_or_moved now to reason l =
    elim (Bool-cases (valid_execution_state_transition (or_idle l.state) to)) [
      | inl v ↦ elim (Bool-cases (execution_state_eq l.state to)) [
        | inl e ↦ inl (ground arith)
        | inr e ↦ inr (ground arith, v)
      ]
      | inr v ↦ inl (ground arith)
    ]

only_streaming :
    (s : ExecutionState)
    → valid_execution_state_transition (or_idle s) succeeded ≡ true
    → (s ≡ succeeded) ⊎ (s ≡ streaming)
unfolding valid_execution_state_transition
only_streaming streaming v = inr refl
only_streaming succeeded v = inl refl
only_streaming _ v = cc

-- A call that makes the state `succeeded` finds it so, or finds it streaming.
into_succeeded :
    (now : ℕ) (to : ExecutionState) (reason : Str) (l : ExecutionLifecycle)
    → (transition_of now to reason l).0.state ≡ succeeded
    → (l.state ≡ succeeded) ⊎ (l.state ≡ streaming)
into_succeeded now to reason l k = elim (kept_or_moved now to reason l) [
  | inl e ↦ inl (sym e ∙ k)
  | inr (e, v) ↦
      only_streaming l.state
        (subst (λ x. valid_execution_state_transition (or_idle l.state) x ≡ true) (sym e ∙ k) v)
]

-- The calls have a first part after which the execution is streaming.
abbrev pub PassesStreaming : List TransitionCall → ExecutionLifecycle → Type 0
PassesStreaming calls l =
    (before : List TransitionCall) × (after : List TransitionCall) × (calls ≡ before ++ after)
    × ((transitions before l).state ≡ streaming)

succeeded_from :
    (calls : List TransitionCall) (l : ExecutionLifecycle)
    → (transitions calls l).state ≡ succeeded
    → (l.state ≡ succeeded) ⊎ PassesStreaming calls l
unfolding transitions
succeeded_from [] l h = inl h
succeeded_from (c ∷ cs) l h = by_rest (succeeded_from cs (transition_of c.now c.to c.reason l).0 h)
  where
    by_first :
        ((l.state ≡ succeeded) ⊎ (l.state ≡ streaming))
        → (l.state ≡ succeeded) ⊎ PassesStreaming (c ∷ cs) l
    by_first (inl e) = inl e
    by_first (inr e) = inr ([], c ∷ cs, refl, e)

    by_rest :
        (((transition_of c.now c.to c.reason l).0.state ≡ succeeded)
          ⊎ PassesStreaming cs (transition_of c.now c.to c.reason l).0)
        → (l.state ≡ succeeded) ⊎ PassesStreaming (c ∷ cs) l
    by_rest (inl e) = by_first (into_succeeded c.now c.to c.reason l e)
    by_rest (inr (before, after, e, s)) = inr (c ∷ before, after, ap (λ x. c ∷ x) e, s)

-- An execution that has succeeded has been streaming before: of every sequence of transitions from
-- a new lifecycle that ends in `succeeded`, rejected calls included, a first part ends in
-- `streaming`.
pub succeeded-PassesStreaming :
    (now : ℕ) (calls : List TransitionCall)
    → (transitions calls (new_execution_lifecycle now)).state ≡ succeeded
    → PassesStreaming calls (new_execution_lifecycle now)
succeeded-PassesStreaming now calls h =
    elim (succeeded_from calls (new_execution_lifecycle now) h) [ inl e ↦ cc | inr p ↦ p ]
