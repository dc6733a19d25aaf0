-- ===== src/Examples/Runtime.antt =====
-- A session with a turn and a step in the store of runtime/store.go.
use liaison.Base.{String, ◌≡◌, refl, true, none, some, [], arith}
use liaison.Base.Exec.{err}
use liaison.Base.Eq.{string_eq, nat_eq}
use liaison.Base.Table.{get, put}
use liaison.Agent.Tool.Types.{SessionKind, is_valid_kind}
use liaison.Agent.Runtime.Status.{
  TurnStatus, StepStatus, StepKind, is_terminal, valid_turn_transition,
}
use liaison.Agent.Runtime.Types.{
  Session, Turn, Step, SessionStatus, session_not_found, validate_session, version_conflict,
  turn_already_active,
}
use liaison.Agent.Runtime.Store.{Store, new_memory_store}
use liaison.Agent.Runtime.Store.Sessions.{create_session}
use liaison.Agent.Runtime.Store.Turns.{start_turn, transition_turn, free_session, moved_turn}
use liaison.Agent.Runtime.Store.Steps.{append_step}
use liaison.Agent.Runtime.Consistency.{IsConsistent}
use liaison.Agent.Runtime.Calls.{
  creates, starts, moves, appends, perform, Reach, start, call, error_of,
}
use liaison.Agent.Runtime.Calls.Progress.{turn_follows, perform_turn}
use liaison.Agent.Runtime.Calls.Errors.{error_unchanged}
use liaison.Agent.Runtime.Calls.Ended.{same, after, status_of, ended_for_ever}
use liaison.Agent.Runtime.Calls.History.{Reach-IsConsistent, one_running_turn}
use liaison.Agent.Runtime.Calls.Locking.{second_writer_loses, session_freed}

abbrev a_session : Session
a_session = record {
  kind = SessionKind.access;
  id = "s";
  organization_id = 1;
  created_by = 2;
  title = "";
  status = SessionStatus.active;
  active_turn_id = "";
  active_attachment_id = "";
  summary = "";
  version = 0;
  created_at = 0;
  updated_at = 0;
}

abbrev a_turn : String → Turn
a_turn id = record {
  id = id;
  agent_session_id = "";
  status = TurnStatus.queued;
  active_step_id = "";
  error_code = "";
  error_message = "";
  version = 0;
  started_at = 0;
  completed_at = none;
  created_at = 0;
  updated_at = 0;
}

abbrev a_step : Step
a_step = record {
  id = "p";
  turn_id = "";
  sequence = 0;
  kind = StepKind.model;
  status = StepStatus.pending;
  tool_id = none;
  tool_snapshot_id = "";
  input = [];
  output = [];
  error_code = "";
  error_message = "";
  version = 0;
  started_at = none;
  completed_at = none;
  created_at = 0;
  updated_at = 0;
}

abbrev created : Store
created = (perform none 1 (creates a_session) new_memory_store).1

abbrev started : Store
started = (perform none 2 (starts "s" (a_turn "t")) created).1

abbrev pub running : Store
running = (perform none 3 (moves "t" 1 TurnStatus.running "" "") started).1

abbrev pub completed : Store
completed = (perform none 4 (moves "t" 2 TurnStatus.completed "" "") running).1

abbrev pub running_history : Reach running
running_history =
    call
      (call (call start none 1 (creates a_session) (refl, refl)) none 2 (starts "s" (a_turn "t"))
        tt)
      none 3 (moves "t" 1 TurnStatus.running "" "") tt

abbrev running_turn : Turn
running_turn = record {
  id = "t";
  agent_session_id = "s";
  status = TurnStatus.running;
  active_step_id = "";
  error_code = "";
  error_message = "";
  version = 2;
  started_at = 3;
  completed_at = none;
  created_at = 2;
  updated_at = 3;
}

running_lem : get "t" running.turns ≡ some running_turn
unfolding perform create_session start_turn transition_turn free_session moved_turn is_terminal
    validate_session is_valid_kind valid_turn_transition get put
running_lem = refl

Reach-IsConsistent_example : IsConsistent running
Reach-IsConsistent_example = Reach-IsConsistent running_history

one_running_turn_example : ◌≡◌ {A = String} "t" "t"
unfolding is_terminal
one_running_turn_example =
    one_running_turn "t" "t" running_turn running_turn running_history running_lem running_lem refl
      refl refl

error_unchanged_example : (perform none 5 (starts "nowhere" (a_turn "u")) running).1 ≡ running
unfolding perform create_session start_turn transition_turn free_session moved_turn is_terminal
    validate_session is_valid_kind valid_turn_transition get put
error_unchanged_example =
    error_unchanged running session_not_found none 5 (starts "nowhere" (a_turn "u")) refl

ended_for_ever_example :
    status_of (get "t" (perform none 6 (moves "t" 3 TurnStatus.running "" "") completed).1.turns)
    ≡ some TurnStatus.completed
unfolding perform create_session start_turn transition_turn free_session moved_turn is_terminal
    validate_session is_valid_kind valid_turn_transition get put
ended_for_ever_example =
    ended_for_ever {s = completed} "t" TurnStatus.completed
      (after same none 6 (moves "t" 3 TurnStatus.running "" "")) refl refl

perform_turn_example :
    turn_follows
      (get "t" running.turns)
      (get "t" (perform none 4 (moves "t" 2 TurnStatus.completed "" "") running).1.turns)
    ≡ true
perform_turn_example = perform_turn "t" running none 4 (moves "t" 2 TurnStatus.completed "" "")

abbrev stepped : Store
stepped = (perform none 4 (appends "t" 2 a_step) running).1

second_writer_loses_example :
    ((transition_turn none 5 "t" 2 TurnStatus.failed "late" "" completed).0 ≡ err version_conflict)
    × ((append_step none 5 "t" 2 a_step completed).0 ≡ err version_conflict)
unfolding perform create_session start_turn transition_turn free_session moved_turn is_terminal
    validate_session is_valid_kind valid_turn_transition get put
second_writer_loses_example =
    second_writer_loses none 4 5 running "t" 2 TurnStatus.completed TurnStatus.failed "" "" "late"
      "" a_step (moved_turn 4 TurnStatus.completed "" "" running_turn) (ground arith) refl refl

session_freed_example :
    ((start_turn none 5 "s" (a_turn "u") running).0 ≡ err turn_already_active)
    × (error_of (transition_turn none 4 "t" 2 TurnStatus.completed "" "" running).0 ≡ none)
    × (error_of
          (start_turn none 5 "s"
            (a_turn "u")
            (transition_turn none 4 "t" 2 TurnStatus.completed "" "" running).1).0
        ≡ none)
unfolding perform create_session start_turn transition_turn free_session moved_turn is_terminal
    validate_session is_valid_kind valid_turn_transition get put
session_freed_example =
    session_freed (Reach-IsConsistent running_history) 4 "t" running_turn TurnStatus.completed "" ""
      running_lem refl refl refl 5 (a_turn "u") refl refl
