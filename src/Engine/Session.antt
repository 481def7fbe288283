-- ===== src/Engine/Session.antt =====
-- engine/session_policy.go: the model and session of a run, and the memory that a call may use.
pub mod Choice
pub mod Memory
use alice_core.Prelude.{
  ℕ, Bool, true, false, not, ◌||◌, Str, codes, str_eq, is_empty, if◌then◌else◌, List, [], ◌∷◌,
}
use alice_core.Engine.Review.{BackendKind}
use alice_core.Engine.ChatContext.{backend_kind_for_model, session_in}

pub data SessionPolicy : Type 0 where
  native_only memory_only hybrid_issue_only fresh : SessionPolicy

pub record SessionPolicyRequest : Type 0 where
  pub mode : Str
  pub has_native_session : Bool
  pub has_issue_scope : Bool

pub record SessionPolicyDecision : Type 0 where
  pub policy : SessionPolicy
  pub use_native_session : Bool
  pub allow_recent_memory : Bool
  pub allow_general_memory : Bool
  pub allow_static_hints : Bool
  pub reason : Str

pub record SessionRunDecision : Type 0 where
  pub model : Str
  pub routing_reason : Str
  pub latency_ms : ℕ
  pub backend : BackendKind
  pub previous_backend : BackendKind
  pub session_id : Str
  pub has_native_session : Bool

-- A nil map of sessions is the empty one.
pub record SessionRunRequest : Type 0 where
  pub override_model : Str
  pub sticky_model : Str
  pub continuation_model : Str
  pub routed_model : Str
  pub routed_reason : Str
  pub routed_latency_ms : ℕ
  pub default_model : Str
  pub previous_backend : BackendKind
  pub backend_sessions : List (BackendKind × Str)

-- A model with the reason of its choice and a latency.
pub record Routing : Type 0 where
  pub model : Str
  pub reason : Str
  pub latency_ms : ℕ

abbrev pub routed : Str → Str → ℕ → Routing
routed model reason latency_ms = record { model = model; reason = reason; latency_ms = latency_ms }

-- The switch of `DecideSessionRun`.
unfoldable pub choose_model : SessionRunRequest → Routing
choose_model req =
    if not (is_empty req.override_model)
    then routed req.override_model (codes "user_command") 0
    else if not (is_empty req.sticky_model)
    then routed req.sticky_model (codes "sticky_session") 0
    else if not (is_empty req.continuation_model)
    then routed req.continuation_model (codes "follow_up") 0
    else if not (is_empty req.routed_model)
    then routed req.routed_model req.routed_reason req.routed_latency_ms
    else routed req.default_model (codes "default") 0

abbrev pub or_default : Str → Str
or_default [] = codes "default"
or_default (c ∷ cs) = c ∷ cs

-- `DecideSessionRun`
unfoldable pub decide_session_run : SessionRunRequest → SessionRunDecision
unfolding choose_model backend_kind_for_model session_in
decide_session_run req =
    let r = choose_model req in
    let backend = backend_kind_for_model r.model in
    let session_id = session_in backend req.backend_sessions in
    record {
      model = r.model;
      routing_reason = or_default r.reason;
      latency_ms = r.latency_ms;
      backend = backend;
      previous_backend = req.previous_backend;
      session_id = session_id;
      has_native_session = not (is_empty session_id);
    }

abbrev pub bridge : SessionPolicyRequest → Str → SessionPolicyDecision
bridge req reason = record {
  policy = memory_only;
  use_native_session = false;
  allow_recent_memory = not req.has_issue_scope;
  allow_general_memory = false;
  allow_static_hints = false;
  reason = reason;
}

-- `DecideSessionPolicy`
unfoldable pub decide_session_policy : SessionPolicyRequest → SessionPolicyDecision
decide_session_policy req =
    if str_eq req.mode (codes "direct_resume_fallback")
    then bridge req (codes "native_resume_unavailable")
    else if str_eq req.mode (codes "direct_model_switch")
        || str_eq req.mode (codes "direct_continuation")
    then bridge req (codes "trusted_recent_bridge")
    else if req.has_issue_scope
    then record {
      policy = hybrid_issue_only;
      use_native_session = req.has_native_session;
      allow_recent_memory = false;
      allow_general_memory = true;
      allow_static_hints = true;
      reason = codes "explicit_issue_scope";
    }
    else record {
      policy = memory_only;
      use_native_session = false;
      allow_recent_memory = true;
      allow_general_memory = true;
      allow_static_hints = true;
      reason = codes "memory_bundle";
    }
