-- ===== src/Engine/ChatContext.antt =====
-- engine/chat_context.go: the conversation of one chat. A nil receiver, on which every method does
-- nothing, is left out, and a nil map of sessions is the empty one.
pub mod WellFormed
pub mod Sessions
use alice_core.Prelude.{
  ℕ, ◌-◌, ◌==◌, ltb, leb, Bool, true, false, not, ◌&&◌, ◌||◌, Str, codes, str_eq, contains,
  to_lower, runes, of_runes, is_empty, if◌then◌else◌, List, [], ◌∷◌, ◌++◌, Option, none, some,
  length, take, drop,
}
use alice_core.Engine.Review.{BackendKind}

pub data ChatState : Type 0 where
  unset idle receiving routing dispatching busy awaiting_input interrupting : ChatState
  other : Str → ChatState

-- `a == b` on the state strings.
abbrev pub chat_state_eq : ChatState → ChatState → Bool
chat_state_eq ChatState.unset ChatState.unset = true
chat_state_eq idle idle = true
chat_state_eq receiving receiving = true
chat_state_eq routing routing = true
chat_state_eq dispatching dispatching = true
chat_state_eq busy busy = true
chat_state_eq awaiting_input awaiting_input = true
chat_state_eq interrupting interrupting = true
chat_state_eq (ChatState.other a) (ChatState.other b) = str_eq a b
chat_state_eq _ _ = false

pub record ContextMessage : Type 0 where
  pub role : Str
  pub content : Str

pub record ChatContext : Type 0 where
  pub chat_id : ℕ
  pub thread_id : ℕ
  pub project_dir : Str
  pub recent_msgs : List ContextMessage
  pub sessions : List (BackendKind × Str)
  pub last_backend : BackendKind
  pub pref : Str
  pub current_state : ChatState
  pub state_since : ℕ
  pub state_reason : Str
  pub created_at : ℕ
  pub last_activity : ℕ

-- `NewChatContext` at the time `now`.
abbrev pub new_chat_context : ℕ → ℕ → Str → ℕ → ChatContext
new_chat_context chat_id thread_id project_dir now = record {
  chat_id = chat_id;
  thread_id = thread_id;
  project_dir = project_dir;
  recent_msgs = [];
  sessions = [];
  last_backend = BackendKind.claude;
  pref = [];
  current_state = idle;
  state_since = now;
  state_reason = [];
  created_at = now;
  last_activity = now;
}

-- Whether the state is one of the list.
abbrev among : ChatState → List ChatState → Bool
among s [] = false
among s (t ∷ ts) = chat_state_eq s t || among s ts

-- The switch of `ValidChatStateTransition`.
abbrev pub chat_step_allowed : ChatState → ChatState → Bool
chat_step_allowed idle to =
    among to (receiving ∷ routing ∷ dispatching ∷ busy ∷ awaiting_input ∷ [])
chat_step_allowed receiving to = among to (routing ∷ idle ∷ [])
chat_step_allowed routing to = among to (dispatching ∷ awaiting_input ∷ idle ∷ [])
chat_step_allowed dispatching to = among to (busy ∷ awaiting_input ∷ idle ∷ [])
chat_step_allowed busy to = among to (interrupting ∷ awaiting_input ∷ idle ∷ [])
chat_step_allowed awaiting_input to =
    among to (receiving ∷ routing ∷ dispatching ∷ busy ∷ idle ∷ [])
chat_step_allowed interrupting to = among to (busy ∷ idle ∷ [])
chat_step_allowed _ to = false

unfoldable pub valid_chat_state_transition : ChatState → ChatState → Bool
valid_chat_state_transition from to =
    if chat_state_eq to ChatState.unset
    then false
    else if chat_state_eq from ChatState.unset || chat_state_eq from to
    then true
    else chat_step_allowed from to

abbrev pub or_idle : ChatState → ChatState
or_idle ChatState.unset = idle
or_idle s = s

-- The error of `TransitionState` names the two states.
pub record InvalidChatTransition : Type 0 where
  pub from : ChatState
  pub to : ChatState

-- `TransitionState`
unfoldable pub transition_state :
    ℕ → ChatState → Str → ChatContext → ChatContext × Option InvalidChatTransition
unfolding valid_chat_state_transition
transition_state now to reason c =
    if not (valid_chat_state_transition (or_idle c.current_state) to)
    then (c, some (record { from = or_idle c.current_state; to = to }))
    else if not (chat_state_eq c.current_state to)
    then (record c { current_state = to; state_since = now; state_reason = reason }, none)
    else (record c { state_reason = reason }, none)

pub record StateSnapshot : Type 0 where
  pub agent : Str
  pub state : ChatState
  pub since : ℕ
  pub terminal : Bool
  pub reason : Str

-- `StateSnapshot`, and `State`, which calls it.
unfoldable pub state_snapshot : ChatContext → StateSnapshot
state_snapshot c = record {
  agent = codes "chat";
  state = or_idle c.current_state;
  since = if c.state_since == 0 then c.created_at else c.state_since;
  terminal = false;
  reason = c.state_reason;
}

abbrev pub backend_eq : BackendKind → BackendKind → Bool
backend_eq BackendKind.claude BackendKind.claude = true
backend_eq BackendKind.codex BackendKind.codex = true
backend_eq BackendKind.auto BackendKind.auto = true
backend_eq (BackendKind.other m) (BackendKind.other n) = m == n
backend_eq _ _ = false

-- `BackendKindForModel`
unfoldable pub backend_kind_for_model : Str → BackendKind
backend_kind_for_model model =
    let lower = to_lower model in
    if contains (codes "gpt") lower || contains (codes "codex") lower
    then BackendKind.codex
    else BackendKind.claude

-- `m[b]`, "" where it is missing.
unfoldable pub session_in : BackendKind → List (BackendKind × Str) → Str
session_in b [] = []
session_in b ((k, id) ∷ m) = if backend_eq k b then id else session_in b m

-- `delete(m, b)`
unfoldable pub delete_in : BackendKind → List (BackendKind × Str) → List (BackendKind × Str)
delete_in b [] = []
delete_in b ((k, id) ∷ m) =
    let rest = delete_in b m in if backend_eq k b then rest else (k, id) ∷ rest

-- `Session`
unfoldable pub session : BackendKind → ChatContext → Str
unfolding session_in
session b c = session_in b c.sessions

-- `SetSession`; the new entry stands in place of the old one.
unfoldable pub set_session : ℕ → BackendKind → Str → ChatContext → ChatContext
unfolding delete_in
set_session now b id c = if is_empty id then c else record c {
  sessions = (b, id) ∷ delete_in b c.sessions;
  last_backend = b;
  last_activity = now;
}

-- `ClearSession`
unfoldable pub clear_session : BackendKind → ChatContext → ChatContext
unfolding delete_in
clear_session b c = record c { sessions = delete_in b c.sessions }

abbrev omission : Str
omission = 10 ∷ codes "...[middle omitted for continuity]..." ++ 10 ∷ []

-- The closure `truncate` of `AddRecentMessage`.
unfoldable pub truncate_message : Str → Str
unfolding runes
truncate_message s =
    let rs = runes s in
    if leb (length rs) 900
    then s
    else of_runes (take 430 rs) ++ omission ++ of_runes (drop (length rs - 430) rs)

-- The last ten messages.
abbrev pub last_ten : List ContextMessage → List ContextMessage
last_ten msgs = if ltb 10 (length msgs) then drop (length msgs - 10) msgs else msgs

-- `AddRecentMessage`
unfoldable pub add_recent_message : ℕ → Str → Str → ChatContext → ChatContext
unfolding truncate_message
add_recent_message now user assistant c = record c {
  recent_msgs = last_ten (
      c.recent_msgs
      ++ record { role = codes "user"; content = truncate_message user }
        ∷ record { role = codes "assistant"; content = truncate_message assistant }
        ∷ []);
  last_activity = now;
}

-- A call of a method that changes the conversation.
pub data ChatCall : Type 0 where
  transitioning : ℕ → ChatState → Str → ChatCall
  setting : ℕ → BackendKind → Str → ChatCall
  clearing : BackendKind → ChatCall
  adding : ℕ → Str → Str → ChatCall

-- The conversation after a call whose error is dropped.
unfoldable pub exec : ChatCall → ChatContext → ChatContext
unfolding transition_state set_session clear_session add_recent_message
exec (transitioning now to reason) c = (transition_state now to reason c).0
exec (setting now b id) c = set_session now b id c
exec (clearing b) c = clear_session b c
exec (adding now user assistant) c = add_recent_message now user assistant c

unfoldable pub exec_all : List ChatCall → ChatContext → ChatContext
unfolding exec
exec_all [] c = c
exec_all (k ∷ ks) c = exec_all ks (exec k c)
