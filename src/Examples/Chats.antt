-- ===== src/Examples/Chats.antt =====
-- A conversation and its calls.
use alice_core.Prelude.{◌≡◌, codes, List, [], ◌∷◌}
use alice_core.Engine.Review.{BackendKind}
use alice_core.Engine.ChatContext.{
  ChatState, ChatCall, transitioning, setting, adding, ChatContext, new_chat_context, exec,
  exec_all, session,
}
use alice_core.Engine.ChatContext.WellFormed.{WellFormed, exec_all-WellFormed}
use alice_core.Engine.ChatContext.Sessions.{session-exec}

abbrev fresh_chat : ChatContext
fresh_chat = new_chat_context 7 1 (codes "/work") 5

abbrev chat_calls : List ChatCall
chat_calls =
    adding 6 (codes "hello") (codes "what shall I do?")
    ∷ transitioning 7 ChatState.interrupting []
    ∷ transitioning 8 ChatState.busy (codes "run")
    ∷ setting 9 BackendKind.codex (codes "s-1")
    ∷ []

exec_all-WellFormed_example : WellFormed (exec_all chat_calls fresh_chat)
exec_all-WellFormed_example = exec_all-WellFormed 7 1 5 (codes "/work") chat_calls

abbrev starting_session : ChatCall
starting_session = setting 9 BackendKind.codex (codes "s-1")

session-exec_example : session BackendKind.codex (exec starting_session fresh_chat) ≡ codes "s-1"
session-exec_example = session-exec starting_session fresh_chat BackendKind.codex
