-- ===== src/Agent/Tool/Disclosure.antt =====
-- tool/disclosure.go: which tools of the catalog a model is shown, and which a search finds. Here are
-- the requests and budgets of tool/types.go, and how a tool and an attachment fit.
pub mod Scoring
pub mod Candidates
pub mod Snapshot
pub mod Search
pub mod Gathering
pub mod Loop
pub mod Limits
pub mod Shown
pub mod Found
use Prim.Native.String.{◌++◌}
use liaison.Base.{
  ℕ, zero, suc, String, Bool, true, false, not, ◌&&◌, ◌||◌, Option, none, some, List, [], ◌∷◌,
  if◌then◌else◌,
}
use liaison.Base.Exec.{Result, ok, err}
use liaison.Base.Int.{ℤ, pos, negsuc}
use liaison.Base.Eq.{◌==◌, string_eq}
use liaison.Base.Lists.{is_empty, any, all, find}
use liaison.Agent.Tool.Types.{
  Bytes, Protocol, protocol_any, Capability, RiskLevel, SessionKind, ToolId, ToolDescriptor,
  Principal, AttachmentSnapshot,
}

-- `DisclosureBudget`, whose fields are of type `int`.
pub record DisclosureBudget : Type 0 where
  pub max_always_visible : ℤ
  pub max_candidates : ℤ
  pub max_schemas : ℤ
  pub max_tokens : ℤ

-- A budget as `normalizeBudget` leaves it: no field is negative or zero.
pub record Budget : Type 0 where
  pub max_always_visible : ℕ
  pub max_candidates : ℕ
  pub max_schemas : ℕ
  pub max_tokens : ℕ

abbrev pub default_budget : Budget
default_budget = record {
  max_always_visible = 8;
  max_candidates = 12;
  max_schemas = 16;
  max_tokens = 6000;
}

-- A limit that is not positive is the default.
abbrev pub limit_or : ℕ → ℤ → ℕ
limit_or default (pos zero) = default
limit_or default (pos (suc n)) = suc n
limit_or default (negsuc n) = default

unfoldable pub normalize_budget : DisclosureBudget → Budget
normalize_budget b = record {
  max_always_visible = limit_or default_budget.max_always_visible b.max_always_visible;
  max_candidates = limit_or default_budget.max_candidates b.max_candidates;
  max_schemas = limit_or default_budget.max_schemas b.max_schemas;
  max_tokens = limit_or default_budget.max_tokens b.max_tokens;
}

pub record DisclosureRequest : Type 0 where
  pub session_kind : SessionKind
  pub principal : Principal
  pub attachments : List AttachmentSnapshot
  pub primary : String
  pub query : String
  pub promoted : List ToolId
  pub recently_used : List ToolId
  pub policy_revision : String
  pub budget : DisclosureBudget

pub record ToolSummary : Type 0 where
  pub id : ToolId
  pub display_name : String
  pub description : String
  pub protocols : List Protocol
  pub risk : RiskLevel
  pub tags : List String

-- A filter's error is a number here; the ID is that of the tool that it was asked about.
pub data DisclosureError : Type 0 where
  visibility_failed : ToolId → ℕ → DisclosureError
  no_snapshot_id : ℕ → DisclosureError

unfoldable pub contains_protocol : List Protocol → Protocol → Bool
contains_protocol protocols target = any (λ protocol. protocol == target) protocols

-- An attachment that is missing is `nil`.
abbrev pub has_all : Option AttachmentSnapshot → List Capability → Bool
has_all none required = false
has_all (some a) required =
    all (λ capability. any (λ have. have == capability) a.capabilities) required

unfoldable pub attachment_has_capabilities : Option AttachmentSnapshot → List Capability → Bool
attachment_has_capabilities attachment required =
    if is_empty required then true else has_all attachment required

abbrev pub speaks : List Protocol → Option AttachmentSnapshot → Bool
speaks protocols none = false
speaks protocols (some a) = contains_protocol protocols a.protocol

unfoldable pub descriptor_matches_attachment : ToolDescriptor → Option AttachmentSnapshot → Bool
descriptor_matches_attachment descriptor attachment =
    if is_empty descriptor.protocols || contains_protocol descriptor.protocols protocol_any
    then is_empty descriptor.capabilities
      || attachment_has_capabilities attachment descriptor.capabilities
    else if not (speaks descriptor.protocols attachment)
    then false
    else attachment_has_capabilities attachment descriptor.capabilities

abbrev pub fits : ToolDescriptor → AttachmentSnapshot → Bool
fits descriptor a = descriptor_matches_attachment descriptor (some a)

abbrev pub fitting : ToolDescriptor → Option AttachmentSnapshot → Bool
fitting descriptor none = false
fitting descriptor (some a) = fits descriptor a

unfoldable pub matching_attachment :
    List AttachmentSnapshot → Option AttachmentSnapshot → ToolDescriptor → Option AttachmentSnapshot
matching_attachment attachments primary descriptor =
    if fitting descriptor primary then primary else find (fits descriptor) attachments

abbrev pub first : {A : Type 0} → List A → Option A
first [] = none
first (x ∷ xs) = some x

abbrev pub or_first :
    List AttachmentSnapshot → Option AttachmentSnapshot → Option AttachmentSnapshot
or_first attachments none = first attachments
or_first attachments found = found

unfoldable pub find_primary_attachment :
    List AttachmentSnapshot → String → Option AttachmentSnapshot
find_primary_attachment attachments primary_id =
    or_first attachments
      (if primary_id == "" then none else find (λ a. a.id == primary_id) attachments)

-- `newSnapshotID`.
abbrev pub new_snapshot_id : (Bytes → String) → Result ℕ Bytes → Result DisclosureError String
new_snapshot_id hex (ok bytes) = ok ("tls_" ++ hex bytes)
new_snapshot_id hex (err x) = err (no_snapshot_id x)
