-- ===== src/Agent/Tool/Types.antt =====
-- The data of tool/types.go and tool/session_kind.go. `uint` and `uint64` fields are numbers,
-- `time.Time` and `time.Duration` are nanoseconds, and `json.RawMessage` is a list of bytes.
-- A slice is copied by the source so that it is not shared; a list here is a value already.
use text.Mathlib.TextEquality.{eq_iff}
use liaison.Base.{ℕ, String, ◌≡◌, ◌↔◌, Bool, true, false, ◌&&◌, Option, List, arith}
use liaison.Base.Eq.{Comparable, ◌==◌, string_eq}
use liaison.Base.Lists.{find}
use liaison.Base.Table.{Table}

abbrev pub Bytes : Type 0
Bytes = List ℕ

abbrev pub Time : Type 0
Time = ℕ

-- `Protocol`, `Capability` and `OutputKind` are Go string types.
abbrev pub Protocol : Type 0
Protocol = String

abbrev pub Capability : Type 0
Capability = String

abbrev pub protocol_any : Protocol
protocol_any = "any"

pub data RiskLevel : Type 0 where
  read_only low medium high critical : RiskLevel

-- The order of the `iota` constants.
abbrev pub risk_rank : RiskLevel → ℕ
risk_rank read_only = 0
risk_rank low = 1
risk_rank medium = 2
risk_rank high = 3
risk_rank critical = 4

pub data ApprovalMode : Type 0 where
  never by_policy always : ApprovalMode

pub data DisclosureMode : Type 0 where
  deferred on_attachment always_shown : DisclosureMode

pub data ToolStatus : Type 0 where
  active disabled draining failed unloaded : ToolStatus

-- `SessionKind` is a Go string; `unset` is the empty text, `other` any text but these four.
pub data SessionKind : Type 0 where
  unset access management shell : SessionKind
  other : String → SessionKind

unfoldable pub is_valid_kind : SessionKind → Bool
is_valid_kind (other s) = false
is_valid_kind _ = true

unfoldable pub effective_kind : SessionKind → SessionKind
effective_kind unset = access
effective_kind k = k

abbrev pub is_management : SessionKind → Bool
is_management management = true
is_management _ = false

pub record ToolId : Type 0 where
  pub namespace : String
  pub name : String
  pub version : String

unfoldable pub tool_id_beq : ToolId → ToolId → Bool
tool_id_beq a b = a.namespace == b.namespace && a.name == b.name && a.version == b.version

pub tool_id_beq_iff : (a b : ToolId) → (tool_id_beq a b ≡ true) ↔ (a ≡ b)
unfolding tool_id_beq
tool_id_beq_iff a b =
    ground (arith, eq_iff a.namespace b.namespace, eq_iff a.name b.name, eq_iff a.version b.version)

instance abbrev pub tool_id_eq : Comparable ToolId
tool_id_eq = record { is_same = tool_id_beq; same_iff = tool_id_beq_iff }

pub record ToolSourceRef : Type 0 where
  pub id : String
  pub kind : String

pub record ResourcePermission : Type 0 where
  pub resource : String
  pub action : String

pub record ToolDescriptor : Type 0 where
  pub session_kinds : List SessionKind
  pub permission : Option ResourcePermission
  pub id : ToolId
  pub display_name : String
  pub description : String
  pub when_to_use : String
  pub input_schema : Bytes
  pub protocols : List Protocol
  pub capabilities : List Capability
  pub tags : List String
  pub risk : RiskLevel
  pub approval : ApprovalMode
  pub disclosure : DisclosureMode
  pub default_timeout : ℕ
  pub source : ToolSourceRef

pub record Principal : Type 0 where
  pub user_id : ℕ
  pub organization_id : ℕ

pub record AttachmentSnapshot : Type 0 where
  pub id : String
  pub access_id : ℕ
  pub application_id : ℕ
  pub protocol : Protocol
  pub capabilities : List Capability
  pub generation : ℕ
  pub access_handle_id : String

pub record ToolBinding : Type 0 where
  pub session_kind : SessionKind
  pub principal : Principal
  pub attachment : AttachmentSnapshot
  pub tool_snapshot_id : String

pub record ToolCall : Type 0 where
  pub id : ToolId
  pub input : Bytes

pub record ToolInvocation : Type 0 where
  pub id : String
  pub call : ToolCall
  pub binding : ToolBinding
  pub registration_generation : ℕ

pub record ExposedTool : Type 0 where
  pub descriptor : ToolDescriptor
  pub registration_generation : ℕ
  pub estimated_tokens : ℕ

pub record ToolSetSnapshot : Type 0 where
  pub id : String
  pub catalog_generation : ℕ
  pub policy_revision : String
  pub attachment_generation : Table String ℕ
  pub tools : List ExposedTool
  pub created_at : Time

-- `ToolSetSnapshot.Find`.
unfoldable pub find_tool : ToolSetSnapshot → ToolId → Option ExposedTool
unfolding find
find_tool snapshot id = find (λ exposed. exposed.descriptor.id == id) snapshot.tools
