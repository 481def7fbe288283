-- ===== src/Engine/ChatContext/WellFormed.antt =====
-- What stays true of a conversation of engine/chat_context.go.
use alice_core.Prelude.{
  ℕ, suc, ◌+◌, ◌-◌, ◌≤◌, ◌≡◌, refl, sym, subst, arith, Bool, true, false, not, Str, codes, is_empty,
  ltb, if_cases, List, [], ◌∷◌, ◌++◌, length, length-append, drop, All, Option,
}
use alice_core.Engine.Review.{BackendKind}
use alice_core.Engine.ChatContext.{
  ChatState, InvalidChatTransition, chat_state_eq, ContextMessage, ChatContext, new_chat_context,
  valid_chat_state_transition, or_idle, transition_state, backend_eq, delete_in, set_session,
  clear_session, truncate_message, last_ten, add_recent_message, ChatCall, transitioning, setting,
  clearing, adding, exec, exec_all,
}

-- One of the declared states.
abbrev pub is_declared : ChatState → Bool
is_declared ChatState.unset = false
is_declared (ChatState.other s) = false
is_declared _ = true

-- The messages are turns of the user, each with the assistant's answer.
abbrev pub Turns : List ContextMessage → Type 0
Turns [] = Unit
Turns (m ∷ []) = true ≡ false
Turns (u ∷ a ∷ ms) = (u.role ≡ codes "user") × (a.role ≡ codes "assistant") × Turns ms

pub record WellFormed (c : ChatContext) : Type 0 where
  pub declared : is_declared c.current_state ≡ true
  pub turns : Turns c.recent_msgs
  pub bounded : length c.recent_msgs ≤ 10
  pub named : All (λ e. is_empty e.1 ≡ false) c.sessions

Turns-append : (xs ys : List ContextMessage) → Turns xs → Turns ys → Turns (xs ++ ys)
Turns-append [] ys h k = k
Turns-append (m ∷ []) ys h k = cc
Turns-append (u ∷ a ∷ ms) ys h k = (h.0, h.1, Turns-append ms ys h.2 k)

Turns-even : (xs : List ContextMessage) → Turns xs → (n : ℕ) × (length xs ≡ n + n)
Turns-even [] h = (0, refl)
Turns-even (m ∷ []) h = cc
Turns-even (u ∷ a ∷ ms) h = let (n, e) = Turns-even ms h.2 in (suc n, omega (arith, e))

Turns-drop : (xs : List ContextMessage) → Turns xs → Turns (drop 2 xs)
Turns-drop [] h = tt
Turns-drop (m ∷ []) h = tt
Turns-drop (u ∷ a ∷ ms) h = h.2

length-drop_two : (xs : List ContextMessage) → length xs ≤ 12 → length (drop 2 xs) ≤ 10
length-drop_two [] h = omega arith
length-drop_two (m ∷ []) h = omega arith
length-drop_two (u ∷ a ∷ ms) h = omega (arith, h)

-- Cutting to ten messages keeps whole turns, since it drops none or two.
last_ten-Turns :
    (xs : List ContextMessage)
    → Turns xs
    → length xs ≤ 12
    → Turns (last_ten xs) × (length (last_ten xs) ≤ 10)
last_ten-Turns xs h len =
    if_cases (λ ms. Turns ms × (length ms ≤ 10)) (ltb 10 (length xs)) _ _
      (λ long.
        let (n, e) = Turns-even xs h in
        let two : length xs - 10 ≡ 2 = ground arith in
        subst (λ k. Turns (drop k xs) × (length (drop k xs) ≤ 10)) (sym two)
          (Turns-drop xs h, length-drop_two xs len))
      (λ short. (h, ground arith))

valid-declared :
    (from to : ChatState)
    → is_declared from ≡ true
    → valid_chat_state_transition from to ≡ true
    → is_declared to ≡ true
unfolding valid_chat_state_transition
valid-declared from ChatState.unset h v = cc
valid-declared ChatState.unset (ChatState.other s) h v = cc
valid-declared (ChatState.other t) (ChatState.other s) h v = cc
valid-declared _ (ChatState.other s) h v = cc
valid-declared from _ h v = refl

or_idle-declared : (s : ChatState) → is_declared s ≡ true → is_declared (or_idle s) ≡ true
or_idle-declared ChatState.unset h = refl
or_idle-declared _ h = h

delete_in-named :
    (b : BackendKind) (m : List (BackendKind × Str))
    → All (λ e. is_empty e.1 ≡ false) m
    → All (λ e. is_empty e.1 ≡ false) (delete_in b m)
unfolding delete_in
delete_in-named b [] h = tt
delete_in-named b ((k, id) ∷ m) h =
    if_cases (All (λ (e : BackendKind × Str). is_empty e.1 ≡ false)) (backend_eq k b) _ _
      (λ _. delete_in-named b m h.1) (λ _. (h.0, delete_in-named b m h.1))

exec-WellFormed : (call : ChatCall) (c : ChatContext) → WellFormed c → WellFormed (exec call c)
unfolding exec transition_state set_session clear_session add_recent_message
exec-WellFormed (transitioning now to reason) c w =
    if_cases (λ (r : ChatContext × Option InvalidChatTransition). WellFormed r.0)
      (not (valid_chat_state_transition (or_idle c.current_state) to)) _ _ (λ _. w)
      (λ v.
        if_cases (λ (r : ChatContext × Option InvalidChatTransition). WellFormed r.0)
          (not (chat_state_eq c.current_state to)) _ _
          (λ _. record {
            declared =
                valid-declared (or_idle c.current_state) to
                  (or_idle-declared c.current_state w.declared) (ground arith);
            turns = w.turns;
            bounded = w.bounded;
            named = w.named;
          })
          (λ _. record {
            declared = w.declared;
            turns = w.turns;
            bounded = w.bounded;
            named = w.named;
          }))
exec-WellFormed (setting now b id) c w =
    if_cases WellFormed (is_empty id) _ _ (λ _. w)
      (λ e. record {
        declared = w.declared;
        turns = w.turns;
        bounded = w.bounded;
        named = (e, delete_in-named b c.sessions w.named);
      })
exec-WellFormed (clearing b) c w = record {
  declared = w.declared;
  turns = w.turns;
  bounded = w.bounded;
  named = delete_in-named b c.sessions w.named;
}
exec-WellFormed (adding now user assistant) c w =
    let cut =
      last_ten-Turns
        (c.recent_msgs
          ++ record { role = codes "user"; content = truncate_message user }
            ∷ record { role = codes "assistant"; content = truncate_message assistant }
            ∷ [])
        (Turns-append c.recent_msgs _ w.turns (refl, refl, tt))
        (omega (
          arith,
          w.bounded,
          length-append c.recent_msgs (
              record { role = codes "user"; content = truncate_message user }
              ∷ record { role = codes "assistant"; content = truncate_message assistant }
              ∷ []),
        )) in
    record { declared = w.declared; turns = cut.0; bounded = cut.1; named = w.named }

exec_all-WellFormed_from :
    (calls : List ChatCall) (c : ChatContext) → WellFormed c → WellFormed (exec_all calls c)
unfolding exec_all
exec_all-WellFormed_from [] c w = w
exec_all-WellFormed_from (k ∷ ks) c w =
    exec_all-WellFormed_from ks (exec k c) (exec-WellFormed k c w)

-- After any calls on a new conversation its state is one of the seven declared ones, its messages are
-- at most ten and are turns of the user each with the assistant's answer, and no backend has an
-- empty session id.
pub exec_all-WellFormed :
    (chat_id thread_id now : ℕ) (project_dir : Str) (calls : List ChatCall)
    → WellFormed (exec_all calls (new_chat_context chat_id thread_id project_dir now))
exec_all-WellFormed chat_id thread_id now project_dir calls =
    exec_all-WellFormed_from calls (new_chat_context chat_id thread_id project_dir now)
      (record { declared = refl; turns = tt; bounded = omega arith; named = tt })
