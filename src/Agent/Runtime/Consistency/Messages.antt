-- ===== src/Agent/Runtime/Consistency/Messages.antt =====
-- Messages and tool snapshots are no part of the references of the store.
use liaison.Base.{String, Option, List}
use liaison.Base.Table.{Table}
use liaison.Agent.Tool.Types.{Time, ToolSetSnapshot}
use liaison.Agent.Runtime.Types.{CtxError, Message}
use liaison.Agent.Runtime.Store.{Store}
use liaison.Agent.Runtime.Store.Messages.{append_message, save_tool_snapshot}
use liaison.Agent.Runtime.Cases.Messages.{append_message_cases, save_tool_snapshot_cases}
use liaison.Agent.Runtime.Consistency.{IsConsistent}

module _ {s : Store} (c : IsConsistent s) where
  texts-IsConsistent :
      (messages : Table String (List Message)) (snapshots : Table String ToolSetSnapshot)
      → IsConsistent (record s { messages = messages; snapshots = snapshots })
  texts-IsConsistent messages snapshots = record {
    session_key = c.session_key;
    turn_key = c.turn_key;
    attachment_key = c.attachment_key;
    step_key = c.step_key;
    running_active = c.running_active;
    active_runs = c.active_runs;
    archived_idle = c.archived_idle;
    attachment_owner = c.attachment_owner;
    active_attached = c.active_attached;
    step_turn = c.step_turn;
  }

  pub append_message-IsConsistent :
      (ctx : Option CtxError) (now : Time) (message : Message)
      → IsConsistent (append_message ctx now message s).1
  append_message-IsConsistent ctx now message =
      append_message_cases ctx s (λ r. IsConsistent r.1) now message (λ _. c)
        λ fresh. texts-IsConsistent _ s.snapshots

  pub save_tool_snapshot-IsConsistent :
      (ctx : Option CtxError) (turn_id model_step_id : String) (snapshot : ToolSetSnapshot)
      → IsConsistent (save_tool_snapshot ctx turn_id model_step_id snapshot s).1
  save_tool_snapshot-IsConsistent ctx turn_id model_step_id snapshot =
      save_tool_snapshot_cases ctx s (λ r. IsConsistent r.1) turn_id model_step_id snapshot (λ _. c)
        λ fresh. texts-IsConsistent s.messages _
