-- ===== src/Engine/ChatContext/Sessions.antt =====
-- The sessions of engine/chat_context.go as a function of the backend.
use alice_core.Prelude.{
  ==_iff, ◌≡◌, refl, ap, ◌∙◌, ◌↔◌, arith, Bool, true, false, not, ◌&&◌, Str, is_empty,
  if◌then◌else◌, Option, if_cases, if_of_false, List, [], ◌∷◌,
}
use alice_core.Engine.Review.{BackendKind}
use alice_core.Engine.ChatContext.{
  ChatContext, InvalidChatTransition, ChatCall, transitioning, setting, clearing, adding, exec,
  session, session_in, delete_in, set_session, clear_session, transition_state,
  valid_chat_state_transition, or_idle, chat_state_eq, backend_eq,
}

-- What a call makes of the session of backend `b`.
abbrev pub session_after : ChatCall → BackendKind → Str → Str
session_after (setting now k id) b old = if not (is_empty id) && backend_eq k b then id else old
session_after (clearing k) b old = if backend_eq k b then [] else old
session_after _ b old = old

backend_eq→eq : (a b : BackendKind) → backend_eq a b ≡ true → a ≡ b
backend_eq→eq BackendKind.claude BackendKind.claude h = refl
backend_eq→eq BackendKind.codex BackendKind.codex h = refl
backend_eq→eq BackendKind.auto BackendKind.auto h = refl
backend_eq→eq (BackendKind.other m) (BackendKind.other n) h =
    ap BackendKind.other ((==_iff m n).0 h)
backend_eq→eq _ _ h = cc

backend_eq_refl : (a : BackendKind) → backend_eq a a ≡ true
backend_eq_refl (BackendKind.other n) = ground arith
backend_eq_refl _ = refl

backend_eq_iff : (a b : BackendKind) → (backend_eq a b ≡ true) ↔ (a ≡ b)
backend_eq_iff a b = (backend_eq→eq a b, λ e. rw e (backend_eq_refl b))

session_in-delete_in :
    (k b : BackendKind) (m : List (BackendKind × Str))
    → session_in b (delete_in k m) ≡ (if backend_eq k b then [] else session_in b m)
unfolding session_in delete_in
session_in-delete_in k b [] = if_cases (λ s. [] ≡ s) (backend_eq k b) [] [] (λ _. refl) (λ _. refl)
session_in-delete_in k b ((j, id) ∷ m) = ground (
  arith,
  backend_eq_iff j k,
  backend_eq_iff j b,
  backend_eq_iff k b,
  backend_eq_refl k,
  session_in-delete_in k b m,
)

-- The sessions are a map from backends to ids: setting an id that is not empty changes the session
-- of its backend alone, clearing makes that of its backend empty, and every other call keeps them.
pub session-exec :
    (call : ChatCall) (c : ChatContext) (b : BackendKind)
    → session b (exec call c) ≡ session_after call b (session b c)
unfolding session exec transition_state set_session clear_session session_in
session-exec (transitioning now to reason) c b =
    if_cases
      (λ (r : ChatContext × Option InvalidChatTransition).
        session_in b r.0.sessions ≡ session_in b c.sessions)
      (not (valid_chat_state_transition (or_idle c.current_state) to)) _ _ (λ _. refl)
      (λ _.
        if_cases
          (λ (r : ChatContext × Option InvalidChatTransition).
            session_in b r.0.sessions ≡ session_in b c.sessions)
          (not (chat_state_eq c.current_state to)) _ _ (λ _. refl) (λ _. refl))
session-exec (setting now k id) c b =
    if_cases
      (λ (d : ChatContext).
        session_in b d.sessions ≡ session_after (setting now k id) b (session_in b c.sessions))
      (is_empty id) _ _ (λ e. rw e refl) (λ e. rw e (replaced (backend_eq k b) refl))
  where
    replaced :
        (same : Bool)
        → backend_eq k b ≡ same
        → (if same then id else session_in b (delete_in k c.sessions))
          ≡ (if same then id else session_in b c.sessions)
    replaced true e = refl
    replaced false e = session_in-delete_in k b c.sessions ∙ if_of_false (backend_eq k b) _ _ e
session-exec (clearing k) c b = session_in-delete_in k b c.sessions
session-exec (adding now user assistant) c b = refl
