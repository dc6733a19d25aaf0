-- ===== src/Examples/Remembering.antt =====
-- The phases of a session (runtime/store.go) and the history of a completed turn
-- (agent/runtime/context.go) at small inputs.
use liaison.Base.{false, ◌≡◌, refl, some, none, List, [], ◌∷◌}
use liaison.Base.Eq.{string_eq}
use liaison.Base.Exec.{ok}
use liaison.Base.Lists.{any, keep}
use liaison.Base.Sort.{sort_by, insert_by}
use liaison.Base.Table.{get, put}
use liaison.Agent.Tool.Types.{is_valid_kind}
use liaison.Agent.Runtime.Status.{TurnStatus, is_terminal, valid_turn_transition}
use liaison.Agent.Runtime.Types.{Turn, Message, ModelMessage, validate_session}
use liaison.Agent.Runtime.Store.{Store}
use liaison.Agent.Runtime.Store.Sessions.{create_session}
use liaison.Agent.Runtime.Store.Turns.{
  start_turn, transition_turn, moved_turn, free_session, list_turns,
}
use liaison.Agent.Runtime.Store.Messages.{append_message, list_session_messages}
use liaison.Agent.Runtime.Calls.{perform, sends}
use liaison.Agent.Runtime.Calls.Lifecycle.{
  appears, begins, ends, retires, phase, after, log, after-log,
}
use liaison.Agent.Runtime.Context.{
  is_completed, append_to_last, regroup, regroup_all, input_size, group_size, nth, go_back, drop,
  recent, completed_history,
}
use liaison.Agent.Runtime.Context.Window.{IsRecent, completed_history-IsRecent}
use liaison.Agent.Runtime.Context.Grouping.{history_returned}
use liaison.Examples.Runtime.{completed, running, running_history}

-- A session that runs its first turn.
running_log : log "s" running_history ≡ begins "t" ∷ appears false ∷ []
unfolding log perform create_session start_turn transition_turn free_session moved_turn is_terminal
    validate_session is_valid_kind valid_turn_transition get put
running_log = refl

-- No turn begins beside another one, and none in an archived session.
two_turns : after (begins "u" ∷ begins "t" ∷ appears false ∷ []) ≡ none
unfolding after
two_turns = refl

turn_in_archive : after (begins "u" ∷ retires ∷ ends "t" ∷ begins "t" ∷ appears false ∷ []) ≡ none
unfolding after
turn_in_archive = refl

after-log_example : after (log "s" running_history) ≡ some (phase (get "s" running.sessions))
after-log_example = after-log "s" running_history

abbrev said : ModelMessage
said = record {
  references = [];
  role = "user";
  content = "hello";
  tool_calls = [];
  tool_call_id = "";
  tool_name = "";
}

abbrev a_message : Message
a_message = record {
  id = "m";
  agent_session_id = "s";
  turn_id = "t";
  sequence = 0;
  value = said;
  created_at = 0;
}

abbrev talked : Store
talked = (perform none 5 (sends a_message) completed).1

-- The turn that runs now is another one.
talked_lem : completed_history none "s" "u" talked talked ≡ ok (said ∷ [])
unfolding perform create_session start_turn transition_turn free_session moved_turn is_terminal
    validate_session is_valid_kind valid_turn_transition get put any keep sort_by insert_by
    append_message list_turns list_session_messages is_completed append_to_last regroup regroup_all
    input_size group_size nth go_back drop recent completed_history
talked_lem = refl

completed_history-IsRecent_example :
    IsRecent "u"
      (list_turns none "s" talked).0
      (list_session_messages none "s" talked).0
      (said ∷ [])
completed_history-IsRecent_example =
    completed_history-IsRecent none "s" "u" talked talked (said ∷ []) talked_lem

abbrev ended_turn : Turn
ended_turn = record {
  id = "t";
  agent_session_id = "s";
  status = TurnStatus.completed;
  active_step_id = "";
  error_code = "";
  error_message = "";
  version = 3;
  created_at = 2;
  updated_at = 4;
  started_at = 3;
  completed_at = some 4;
}

abbrev stored_message : Message
stored_message = record a_message { sequence = 1; created_at = 5 }

history_returned_example :
    (history : List ModelMessage) × (completed_history none "s" "u" talked talked ≡ ok history)
unfolding perform create_session start_turn transition_turn free_session moved_turn is_terminal
    validate_session is_valid_kind valid_turn_transition get put any keep sort_by insert_by
    append_message list_turns list_session_messages is_completed
history_returned_example =
    history_returned none "s" "u" talked talked (ended_turn ∷ []) (stored_message ∷ []) refl refl
      refl
