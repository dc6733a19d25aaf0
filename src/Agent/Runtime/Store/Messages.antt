-- ===== src/Agent/Runtime/Store/Messages.antt =====
-- The message and tool snapshot operations of `MemoryStore` (runtime/store.go).
use liaison.Base.{
  ◌+◌, ◌%◌, ◌^◌, String, Bool, not, ◌||◌, Option, none, some, List, [], ◌∷◌, ◌++◌, if◌then◌else◌,
  nat_beq, ltb,
}
use liaison.Base.Eq.{◌==◌, string_eq}
use liaison.Base.Exec.{pure, gets, or_fail, fail_if, modify, ◌>>=◌, ◌>>◌}
use liaison.Base.Lists.{keep, any, length}
use liaison.Base.Sort.{sort_by, str_ltb}
use liaison.Base.Table.{get, put, values}
use liaison.Agent.Tool.Types.{Time, ToolSetSnapshot}
use liaison.Agent.Runtime.Types
use liaison.Agent.Runtime.Types.{CtxError, Message, is_some}
use liaison.Agent.Runtime.Store.{Store, Action, check_ctx}

-- The list of a turn; Go reads `nil` at a missing key.
abbrev pub or_empty : Option (List Message) → List Message
or_empty none = []
or_empty (some messages) = messages

abbrev pub turn_messages : String → Store → List Message
turn_messages turn_id s = or_empty (get turn_id s.messages)

abbrev pub numbered_message : Time → List Message → Message → Message
numbered_message now messages message = record message {
  sequence = (length messages + 1) % 2 ^ 32;
  created_at = now;
}

unfoldable pub append_message : Option CtxError → Time → Message → Action Message
unfolding any
append_message ctx now message = do
  check_ctx ctx
  fail_if (message.id == "" || message.agent_session_id == "" || message.turn_id == "")
      Types.missing_id
  store ← gets (λ s. s)
  let messages = turn_messages message.turn_id store
  fail_if (any (λ current. current.id == message.id) messages) Types.already_exists
  let message' = numbered_message now messages message
  modify (λ s. record s { messages = put message.turn_id (messages ++ message' ∷ []) s.messages })
  pure message'

unfoldable pub list_messages : Option CtxError → String → Action (List Message)
list_messages ctx turn_id = do
  check_ctx ctx
  store ← gets (λ s. s)
  pure (turn_messages turn_id store)

-- The `less` of `ListSessionMessages`: by time, then by turn, then by sequence.
abbrev pub earlier_message : Message → Message → Bool
earlier_message a b =
    if nat_beq a.created_at b.created_at
    then (if a.turn_id == b.turn_id then ltb a.sequence b.sequence else str_ltb a.turn_id b.turn_id)
    else ltb a.created_at b.created_at

abbrev pub concat : List (List Message) → List Message
concat [] = []
concat (l ∷ ls) = l ++ concat ls

unfoldable pub list_session_messages : Option CtxError → String → Action (List Message)
list_session_messages ctx session_id = do
  check_ctx ctx
  store ← gets (λ s. s)
  fail_if (not (is_some (get session_id store.sessions))) Types.session_not_found
  pure (
      sort_by earlier_message
        (keep (λ m. m.agent_session_id == session_id) (concat (values store.messages))))

unfoldable pub save_tool_snapshot :
    Option CtxError → String → String → ToolSetSnapshot → Action (Unit {0})
save_tool_snapshot ctx turn_id model_step_id snapshot = do
  check_ctx ctx
  fail_if (turn_id == "" || model_step_id == "" || snapshot.id == "") Types.missing_id
  store ← gets (λ s. s)
  fail_if (is_some (get snapshot.id store.snapshots)) Types.already_exists
  modify (λ s. record s { snapshots = put snapshot.id snapshot s.snapshots })
  pure tt

unfoldable pub get_tool_snapshot : Option CtxError → String → Action ToolSetSnapshot
get_tool_snapshot ctx snapshot_id = do
  check_ctx ctx
  store ← gets (λ s. s)
  or_fail (get snapshot_id store.snapshots) Types.snapshot_not_found
