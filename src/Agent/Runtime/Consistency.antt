-- ===== src/Agent/Runtime/Consistency.antt =====
-- What holds of the store (runtime/store.go) between two operations: the references between
-- sessions, turns, steps and attachments.
pub mod Sessions
pub mod Attachments
pub mod Turns
pub mod Steps
pub mod Messages
use liaison.Base.{String, ◌≡◌, ◌≢◌, Bool, true, false, not, ◌&&◌, Option, none, some}
use liaison.Base.Eq.{◌==◌, string_eq}
use liaison.Base.Table.{get}
use liaison.Agent.Tool.Types.{is_management}
use liaison.Agent.Runtime.Status.{is_terminal}
use liaison.Agent.Runtime.Types.{Session, Turn, Step, Attachment, is_archived, is_some}
use liaison.Agent.Runtime.Store.{Store}

-- The active turn of the session that was read from the map, if any.
abbrev pub active_turn_of : Option Session → String
active_turn_of none = ""
active_turn_of (some session) = session.active_turn_id

-- The turn is there, belongs to the session and has not ended.
abbrev pub runs_for : String → Option Turn → Bool
runs_for session_id none = false
runs_for session_id (some turn) =
    turn.agent_session_id == session_id && not (is_terminal turn.status)

-- The attachment is there and belongs to the session.
abbrev pub attached_to : String → Option Attachment → Bool
attached_to session_id none = false
attached_to session_id (some attachment) = attachment.agent_session_id == session_id

-- The session is there, and may have attachments.
abbrev pub takes_attachments : Option Session → Bool
takes_attachments none = false
takes_attachments (some session) = not (is_management session.kind)

pub record IsConsistent (s : Store) : Type 0 where
  -- Each map is keyed by the ID of what it holds.
  pub session_key : (k : String) (x : Session) → get k s.sessions ≡ some x → x.id ≡ k
  pub turn_key : (k : String) (t : Turn) → get k s.turns ≡ some t → (t.id ≡ k) × (k ≢ "")
  pub attachment_key :
      (k : String) (a : Attachment) → get k s.attachments ≡ some a → (a.id ≡ k) × (k ≢ "")
  pub step_key : (k : String) (p : Step) → get k s.steps ≡ some p → p.id ≡ k
  -- A turn that has not ended is the active turn of its session.
  pub running_active :
      (k : String) (t : Turn)
      → get k s.turns ≡ some t
      → is_terminal t.status ≡ false
      → active_turn_of (get t.agent_session_id s.sessions) ≡ k
  -- The active turn of a session is one of its turns that has not ended.
  pub active_runs :
      (k : String) (x : Session)
      → get k s.sessions ≡ some x
      → (x.active_turn_id == "") ≡ false
      → runs_for k (get x.active_turn_id s.turns) ≡ true
  pub archived_idle :
      (k : String) (x : Session)
      → get k s.sessions ≡ some x
      → is_archived x.status ≡ true
      → x.active_turn_id ≡ ""
  -- Attachments belong to sessions that may have them, and so does the active one.
  pub attachment_owner :
      (k : String) (a : Attachment)
      → get k s.attachments ≡ some a
      → takes_attachments (get a.agent_session_id s.sessions) ≡ true
  pub active_attached :
      (k : String) (x : Session)
      → get k s.sessions ≡ some x
      → (x.active_attachment_id == "") ≡ false
      → attached_to k (get x.active_attachment_id s.attachments) ≡ true
  pub step_turn :
      (k : String) (p : Step) → get k s.steps ≡ some p → is_some (get p.turn_id s.turns) ≡ true
