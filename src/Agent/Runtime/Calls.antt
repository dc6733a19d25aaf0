-- ===== src/Agent/Runtime/Calls.antt =====
-- Every call that changes the store (runtime/store.go), as one type, and histories of calls.
-- `CancelStep` and `FailStep` release the store's lock in between: they are two calls here, so that
-- other calls may come between the two.
pub mod Errors
pub mod History
pub mod Progress
pub mod Locking
pub mod Ended
pub mod Lifecycle
use liaison.Base.{ℕ, String, ◌≡◌, Option, none, some, List, [], ◌∷◌}
use liaison.Base.Exec.{Result, ok, err}
use liaison.Agent.Tool.Types.{Time, Bytes, ToolSetSnapshot}
use liaison.Agent.Runtime.Status.{TurnStatus, StepStatus}
use liaison.Agent.Runtime.Types.{CtxError, Error, Session, Attachment, Turn, Step, Message}
use liaison.Agent.Runtime.Store.{Store, Action, new_memory_store}
use liaison.Agent.Runtime.Store.Sessions.{
  create_session, create_session_with_attachment, archive_session, set_active_attachment,
}
use liaison.Agent.Runtime.Store.Attachments.{create_attachment, update_attachment}
use liaison.Agent.Runtime.Store.Turns.{start_turn, transition_turn}
use liaison.Agent.Runtime.Store.Steps.{append_step, transition_step, write_step_error}
use liaison.Agent.Runtime.Store.Messages.{append_message, save_tool_snapshot}

pub data Call : Type 0 where
  creates : Session → Call
  creates_with : Session → Attachment → Call
  archives : String → ℕ → Call
  activates : String → String → ℕ → Call
  attaches : Attachment → Call
  updates : Attachment → ℕ → Call
  starts : String → Turn → Call
  moves : String → ℕ → TurnStatus → String → String → Call
  appends : String → ℕ → Step → Call
  moves_step : String → StepStatus → Bytes → Call
  writes_error : String → String → String → Call
  sends : Message → Call
  saves : String → String → ToolSetSnapshot → Call

-- The error of a result, if it is one.
abbrev pub error_of : {A : Type 0} → Result Error A → Option Error
error_of (ok a) = none
error_of (err e) = some e

abbrev pub outcome : {A : Type 0} → Result Error A × Store → Option Error × Store
outcome (r, s) = (error_of r, s)

-- One call: its error, if any, and the store that it leaves.
unfoldable pub perform : Option CtxError → Time → Call → Store → Option Error × Store
perform ctx now (creates session) s = outcome (create_session ctx now session s)
perform ctx now (creates_with session attachment) s =
    outcome (create_session_with_attachment ctx now session attachment s)
perform ctx now (archives id version) s = outcome (archive_session ctx now id version s)
perform ctx now (activates id attachment_id version) s =
    outcome (set_active_attachment ctx now id attachment_id version s)
perform ctx now (attaches attachment) s = outcome (create_attachment ctx now attachment s)
perform ctx now (updates attachment generation) s =
    outcome (update_attachment ctx now attachment generation s)
perform ctx now (starts id turn) s = outcome (start_turn ctx now id turn s)
perform ctx now (moves id version to code message) s =
    outcome (transition_turn ctx now id version to code message s)
perform ctx now (appends id version step) s = outcome (append_step ctx now id version step s)
perform ctx now (moves_step id to output) s = outcome (transition_step ctx now id to output s)
perform ctx now (writes_error id code message) s = outcome (write_step_error id code message s)
perform ctx now (sends message) s = outcome (append_message ctx now message s)
perform ctx now (saves turn_id step_id snapshot) s =
    outcome (save_tool_snapshot ctx turn_id step_id snapshot s)

-- What a caller must keep to: a session is created without an active turn or attachment.
abbrev pub IsAdmissible : Call → Type 0
IsAdmissible (creates session) = (session.active_turn_id ≡ "") × (session.active_attachment_id ≡ "")
IsAdmissible (creates_with session attachment) = session.active_turn_id ≡ ""
IsAdmissible _ = Unit

-- The stores that a history of calls reaches, each call with its context and time.
pub data Reach : Store → Type 0 where
  start : Reach new_memory_store
  call :
      {s : Store}
      → Reach s
      → (ctx : Option CtxError) (now : Time) (c : Call) → IsAdmissible c
      → Reach (perform ctx now c s).1
