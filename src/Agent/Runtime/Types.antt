-- ===== src/Agent/Runtime/Types.antt =====
-- The records of runtime/types.go and runtime/model.go, and the two validators.
use liaison.Base.{
  ℕ, String, Bool, true, false, not, ◌&&◌, ◌||◌, Option, none, some, List, if◌then◌else◌,
}
use liaison.Base.Eq.{◌==◌, string_eq, nat_eq}
use liaison.Base.Lists.{is_empty}
use liaison.Agent.Tool.Types.{
  Bytes, Time, Protocol, Capability, SessionKind, is_management, is_valid_kind, ToolId,
}
use liaison.Agent.Runtime.Status.{TurnStatus, StepStatus, StepKind}

-- The error values; the texts that the source formats around them are left out.
-- `context` is what `ctx.Err()` returns.
pub data CtxError : Type 0 where
  canceled deadline_exceeded : CtxError

pub data Error : Type 0 where
  context : CtxError → Error
  session_not_found turn_not_found step_not_found attachment_not_found : Error
  session_archived turn_already_active invalid_transition version_conflict : Error
  already_exists immutable_binding : Error
  management_attachment attachment_mismatch : Error
  invalid_kind missing_session_ids unknown_session_status : Error
  missing_attachment_ids missing_attachment_protocol unknown_attachment_state : Error
  missing_id snapshot_not_found : Error

-- `unknown` holds the values of the `uint8` beyond the constants, which the validators refuse.
pub data SessionStatus : Type 0 where
  active archived : SessionStatus
  unknown : ℕ → SessionStatus

pub data AttachmentState : Type 0 where
  connected disconnected removed : AttachmentState
  unknown : ℕ → AttachmentState

-- Whether a map has the key.
abbrev pub is_some {ℓ} : {A : Type ℓ} → Option A → Bool
is_some none = false
is_some (some a) = true

abbrev pub is_archived : SessionStatus → Bool
is_archived archived = true
is_archived _ = false

abbrev pub is_removed : AttachmentState → Bool
is_removed removed = true
is_removed _ = false

pub record Session : Type 0 where
  pub kind : SessionKind
  pub id : String
  pub organization_id : ℕ
  pub created_by : ℕ
  pub title : String
  pub status : SessionStatus
  pub active_turn_id : String
  pub active_attachment_id : String
  pub summary : String
  pub version : ℕ
  pub created_at : Time
  pub updated_at : Time

pub record Attachment : Type 0 where
  pub access_handle_id : String
  pub id : String
  pub agent_session_id : String
  pub access_id : ℕ
  pub application_id : ℕ
  pub protocol : Protocol
  pub capabilities : List Capability
  pub generation : ℕ
  pub state : AttachmentState
  pub created_at : Time
  pub updated_at : Time

-- `Attachment.HandleID`.
unfoldable pub handle_id : Attachment → String
handle_id a = if not (a.access_handle_id == "") then a.access_handle_id else a.id

-- The zero time of Go is 0.
pub record Turn : Type 0 where
  pub id : String
  pub agent_session_id : String
  pub status : TurnStatus
  pub active_step_id : String
  pub error_code : String
  pub error_message : String
  pub version : ℕ
  pub started_at : Time
  pub completed_at : Option Time
  pub created_at : Time
  pub updated_at : Time

pub record Step : Type 0 where
  pub id : String
  pub turn_id : String
  pub sequence : ℕ
  pub kind : StepKind
  pub status : StepStatus
  pub tool_id : Option ToolId
  pub tool_snapshot_id : String
  pub input : Bytes
  pub output : Bytes
  pub error_code : String
  pub error_message : String
  pub version : ℕ
  pub started_at : Option Time
  pub completed_at : Option Time
  pub created_at : Time
  pub updated_at : Time

pub record ResourceReference : Type 0 where
  pub kind : String
  pub id : String
  pub name : String

pub record ModelToolCall : Type 0 where
  pub id : String
  pub name : String
  pub input : Bytes

pub record ModelMessage : Type 0 where
  pub references : List ResourceReference
  pub role : String
  pub content : String
  pub tool_calls : List ModelToolCall
  pub tool_call_id : String
  pub tool_name : String

pub record Message : Type 0 where
  pub id : String
  pub agent_session_id : String
  pub turn_id : String
  pub sequence : ℕ
  pub value : ModelMessage
  pub created_at : Time

abbrev is_known_state : AttachmentState → Bool
is_known_state (AttachmentState.unknown n) = false
is_known_state _ = true

abbrev is_known_status : SessionStatus → Bool
is_known_status (SessionStatus.unknown n) = false
is_known_status _ = true

-- `none` is the source's `nil` error.
unfoldable pub validate_attachment : Attachment → Option Error
validate_attachment a =
    if a.id == "" || a.agent_session_id == "" || a.access_id == 0 || a.application_id == 0
    then some missing_attachment_ids
    else if a.protocol == "" || is_empty a.capabilities
    then some missing_attachment_protocol
    else if not (is_known_state a.state)
    then some unknown_attachment_state
    else none

unfoldable pub validate_session : Session → Option Error
unfolding is_valid_kind
validate_session s =
    if not (is_valid_kind s.kind)
    then some invalid_kind
    else if is_management s.kind && not (s.active_attachment_id == "")
    then some management_attachment
    else if s.id == "" || s.organization_id == 0 || s.created_by == 0
    then some missing_session_ids
    else if not (is_known_status s.status)
    then some unknown_session_status
    else none
