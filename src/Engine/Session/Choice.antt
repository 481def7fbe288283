-- ===== src/Engine/Session/Choice.antt =====
-- Which model and session engine/session_policy.go runs with after calls on a conversation.
use alice_core.Prelude.{
  ◌≡◌, refl, ap, ◌∙◌, arith, false, not, Str, is_empty, if◌then◌else◌, List, [], ◌∷◌,
}
use alice_core.Engine.ChatContext.{
  ChatContext, ChatCall, exec, session, session_in, backend_kind_for_model,
}
use alice_core.Engine.ChatContext.Sessions.{session_after, session-exec}
use alice_core.Engine.Session.{SessionRunRequest, choose_model, or_default, decide_session_run}

-- The first text that is not empty.
abbrev pub first_text : List Str → Str → Str
first_text [] d = d
first_text (s ∷ ss) d = if is_empty s then first_text ss d else s

-- The models by priority.
abbrev pub candidates : SessionRunRequest → List Str
candidates req =
    req.override_model ∷ req.sticky_model ∷ req.continuation_model ∷ req.routed_model ∷ []

choose_model-first :
    (req : SessionRunRequest)
    → (choose_model req).model ≡ first_text (candidates req) req.default_model
unfolding choose_model
choose_model-first req = ground arith

or_default-text : (s : Str) → is_empty (or_default s) ≡ false
or_default-text [] = refl
or_default-text (c ∷ cs) = refl

-- A run takes the first model that is given, of the override, the sticky model, that of the
-- continuation and the routed one, or else the default; it always has a reason. Where the sessions
-- are those of a conversation after a call, the session is what the call left for the model's
-- backend, and it is native exactly where that is not empty.
decide_session_run-Chooses :
    (req : SessionRunRequest) (call : ChatCall) (c : ChatContext)
    → req.backend_sessions ≡ (exec call c).sessions
    → ((decide_session_run req).model ≡ first_text (candidates req) req.default_model)
      × (is_empty (decide_session_run req).routing_reason ≡ false)
      × ((decide_session_run req).backend
          ≡ backend_kind_for_model (first_text (candidates req) req.default_model))
      × ((decide_session_run req).session_id
          ≡ session_after call
              (decide_session_run req).backend
              (session (decide_session_run req).backend c))
      × ((decide_session_run req).has_native_session
          ≡ not (is_empty (decide_session_run req).session_id))
unfolding decide_session_run session
decide_session_run-Chooses req call c h = (
  choose_model-first req,
  or_default-text (choose_model req).reason,
  ap backend_kind_for_model (choose_model-first req),
  ap (session_in _) h ∙ session-exec call c _,
  refl,
)
