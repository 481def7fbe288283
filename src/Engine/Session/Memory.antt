-- ===== src/Engine/Session/Memory.antt =====
-- What memory engine/session_policy.go allows.
use alice_core.Prelude.{◌≡◌, arith, Bool, not, ◌&&◌, ◌||◌, codes, str_eq}
use alice_core.Engine.Session.{SessionPolicyRequest, decide_session_policy}

-- The modes of a direct run that bridges from one session to another.
abbrev pub is_bridge : SessionPolicyRequest → Bool
is_bridge req =
    str_eq req.mode (codes "direct_resume_fallback")
    || str_eq req.mode (codes "direct_model_switch")
    || str_eq req.mode (codes "direct_continuation")

-- A call for an issue never uses the recent messages, and every other call may. The native session
-- is used only where there is one, for an issue, outside the bridges. General memory and static
-- hints are allowed exactly outside the bridges.
decide_session_policy-memory :
    (req : SessionPolicyRequest)
    → ((decide_session_policy req).allow_recent_memory ≡ not req.has_issue_scope)
      × ((decide_session_policy req).use_native_session
          ≡ (not (is_bridge req) && req.has_issue_scope && req.has_native_session))
      × ((decide_session_policy req).allow_general_memory ≡ not (is_bridge req))
      × ((decide_session_policy req).allow_static_hints ≡ not (is_bridge req))
unfolding decide_session_policy
decide_session_policy-memory req = (ground arith, ground arith, ground arith, ground arith)
