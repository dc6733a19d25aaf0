-- ===== src/Agent/Runtime/Store/Turns.antt =====
-- The turn operations of `MemoryStore` (runtime/store.go).
use liaison.Base.{ℕ, String, Bool, not, ◌&&◌, Option, none, some, List, if◌then◌else◌, nat_beq, ltb}
use liaison.Base.Eq.{◌==◌, string_eq, nat_eq}
use liaison.Base.Exec.{pure, gets, or_fail, fail_if, modify, ◌>>=◌, ◌>>◌}
use liaison.Base.Lists.{keep}
use liaison.Base.Sort.{sort_by, str_ltb}
use liaison.Base.Table.{get, put, values}
use liaison.Base.Words.{inc64}
use liaison.Agent.Tool.Types.{Time, SessionKind}
use liaison.Agent.Runtime.Status.{TurnStatus, is_terminal, same_turn_status, valid_turn_transition}
use liaison.Agent.Runtime.Types
use liaison.Agent.Runtime.Types.{CtxError, Session, Turn, is_archived, is_some}
use liaison.Agent.Runtime.Store.{Store, Action, check_ctx}

abbrev pub put_turn : String → Turn → Store → Store
put_turn k v s = record s { turns = put k v s.turns }

-- The turn that `StartTurn` stores, and the session that it leaves.
abbrev pub queued_turn : Time → String → Turn → Turn
queued_turn now session_id turn = record turn {
  agent_session_id = session_id;
  status = TurnStatus.queued;
  version = 1;
  created_at = now;
  updated_at = now;
}

abbrev pub busy_session : Time → String → Session → Session
busy_session now turn_id session = record session {
  active_turn_id = turn_id;
  version = inc64 session.version;
  updated_at = now;
}

unfoldable pub start_turn : Option CtxError → Time → String → Turn → Action (Session × Turn)
start_turn ctx now session_id turn = do
  check_ctx ctx
  fail_if (turn.id == "") Types.missing_id
  store ← gets (λ s. s)
  session ← or_fail (get session_id store.sessions) Types.session_not_found
  fail_if (is_archived session.status) Types.session_archived
  fail_if (not (session.active_turn_id == "")) Types.turn_already_active
  fail_if (is_some (get turn.id store.turns)) Types.already_exists
  let turn' = queued_turn now session_id turn
  let session' = busy_session now turn.id session
  modify (put_turn turn.id turn')
  modify (λ s. record s { sessions = put session_id session' s.sessions })
  pure (session', turn')

unfoldable pub get_turn : Option CtxError → String → Action Turn
get_turn ctx turn_id = do
  check_ctx ctx
  store ← gets (λ s. s)
  or_fail (get turn_id store.turns) Types.turn_not_found

-- The `less` of `ListTurns`: oldest first, then by ID.
abbrev pub older_turn : Turn → Turn → Bool
older_turn a b =
    if nat_beq a.created_at b.created_at then str_ltb a.id b.id else ltb a.created_at b.created_at

unfoldable pub list_turns : Option CtxError → String → Action (List Turn)
list_turns ctx session_id = do
  check_ctx ctx
  store ← gets (λ s. s)
  fail_if (not (is_some (get session_id store.sessions))) Types.session_not_found
  pure (sort_by older_turn (keep (λ t. t.agent_session_id == session_id) (values store.turns)))

-- What Go reads from a map at a missing key.
abbrev pub zero_session : Session
zero_session = record {
  kind = SessionKind.unset;
  id = "";
  organization_id = 0;
  created_by = 0;
  title = "";
  status = Types.SessionStatus.active;
  active_turn_id = "";
  active_attachment_id = "";
  summary = "";
  version = 0;
  created_at = 0;
  updated_at = 0;
}

abbrev pub session_or_zero : Option Session → Session
session_or_zero none = zero_session
session_or_zero (some session) = session

-- The turn after `TransitionTurn`.
unfoldable pub moved_turn : Time → TurnStatus → String → String → Turn → Turn
unfolding is_terminal
moved_turn now to code message turn = record turn {
  status = to;
  error_code = code;
  error_message = message;
  version = inc64 turn.version;
  updated_at = now;
  started_at =
      if same_turn_status to TurnStatus.running && nat_beq turn.started_at 0
      then now
      else turn.started_at;
  completed_at = if is_terminal to then some now else turn.completed_at;
}

abbrev pub idle_session : Time → Session → Session
idle_session now session = record session {
  active_turn_id = "";
  version = inc64 session.version;
  updated_at = now;
}

-- A turn that ends frees its session, if it is the session's active turn.
unfoldable pub free_session : Time → TurnStatus → Turn → Store → Store
unfolding is_terminal
free_session now to turn s =
    let session = session_or_zero (get turn.agent_session_id s.sessions) in
    if is_terminal to && session.active_turn_id == turn.id
    then record s { sessions = put session.id (idle_session now session) s.sessions }
    else s

unfoldable pub transition_turn :
    Option CtxError → Time → String → ℕ → TurnStatus → String → String → Action Turn
unfolding valid_turn_transition
transition_turn ctx now turn_id expected_version to code message = do
  check_ctx ctx
  store ← gets (λ s. s)
  turn ← or_fail (get turn_id store.turns) Types.turn_not_found
  fail_if (not (turn.version == expected_version)) Types.version_conflict
  fail_if (not (valid_turn_transition turn.status to)) Types.invalid_transition
  modify (free_session now to turn)
  modify (put_turn turn_id (moved_turn now to code message turn))
  pure (moved_turn now to code message turn)
