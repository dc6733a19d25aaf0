-- ===== src/Agent/Tool/Gate.antt =====
-- `Engine.execute` (tool/engine.go), the grants of tool/types.go, tool/session_kind.go, and
-- agent/policy/authorization.go. Go's JSON, hash and clock, the tools themselves and the middleware
-- with its timeouts are parameters.
pub mod Approval
pub mod Stopping
pub mod Running
use liaison.Base.{
  ℕ, String, Bool, true, false, not, ◌&&◌, ◌||◌, Option, none, some, List, [], ◌∷◌, if◌then◌else◌,
  ltb, leb,
}
use liaison.Base.Eq.{◌==◌, string_eq, nat_eq}
use liaison.Base.Exec.{
  Result, ok, err, Exec, pure, fail, lift, gets, or_fail, fail_if, modify, ◌>>=◌, ◌>>◌,
}
use liaison.Base.Lists.{is_empty, any}
use liaison.Base.Table.{get}
use liaison.Agent.Tool.Types
use liaison.Agent.Tool.Types.{
  Bytes, Time, RiskLevel, risk_rank, SessionKind, is_valid_kind, effective_kind, ApprovalMode,
  ToolId, tool_id_eq, ToolDescriptor, ResourcePermission, Principal, AttachmentSnapshot,
  ToolInvocation, ToolBinding, ExposedTool, ToolSetSnapshot, find_tool,
}
use liaison.Agent.Tool.Registry.{
  ToolError, stale_snapshot, not_exposed, policy_denied, missing_invocation_id,
  invalid_normalized_input, policy_failed, bind_failed, nil_executor, Registry, ToolRegistration,
  ToolLease, acquire, release,
}

-- `unknown` holds the values of the `uint8` beyond the constants.
pub data DecisionEffect : Type 0 where
  allow deny require_approval : DecisionEffect
  unknown : ℕ → DecisionEffect

pub record Decision : Type 0 where
  pub effect : DecisionEffect
  pub reason : String
  pub risk : RiskLevel
  pub approval_policy : String
  pub normalized_input : Bytes

pub record ApprovalGrant : Type 0 where
  pub approval_id : String
  pub invocation_id : String
  pub tool_id : ToolId
  pub tool_snapshot_id : String
  pub input_sha256 : String
  pub attachment_generation : ℕ
  pub expires_at : Time

-- What is used of encoding/json and crypto/sha256. `compact` is `none` where `json.Compact` fails.
pub record Encodings : Type 0 where
  pub json_valid : Bytes → Bool
  pub compact : Bytes → Option Bytes
  pub html_escape : Bytes → Bytes
  pub hex_sha256 : Bytes → String

abbrev pub escaped_digest : Encodings → Option Bytes → String
escaped_digest go none = ""
escaped_digest go (some bytes) = go.hex_sha256 (go.html_escape bytes)

-- `InputDigest`.
abbrev pub input_digest : Encodings → Bytes → String
input_digest go input = escaped_digest go (go.compact input)

unfoldable pub validates :
    Encodings → ApprovalGrant → ToolInvocation → ToolSetSnapshot → Time → Bool
validates go grant invocation snapshot now =
    if grant.approval_id == ""
      || not (grant.invocation_id == invocation.id)
      || not (grant.tool_id == invocation.call.id)
      || not (grant.tool_snapshot_id == snapshot.id)
    then false
    else if not (ltb now grant.expires_at)
        || not (grant.attachment_generation == invocation.binding.attachment.generation)
    then false
    else let digest = input_digest go invocation.call.input in
      not (digest == "") && grant.input_sha256 == digest

abbrev pub same_kind : SessionKind → SessionKind → Bool
same_kind SessionKind.unset SessionKind.unset = true
same_kind SessionKind.access SessionKind.access = true
same_kind SessionKind.management SessionKind.management = true
same_kind SessionKind.shell SessionKind.shell = true
same_kind (SessionKind.other a) (SessionKind.other b) = a == b
same_kind _ _ = false

-- `descriptorMatchesSession` for any kind but the shell's.
abbrev pub matches_kind : ToolDescriptor → SessionKind → Bool
unfolding is_valid_kind effective_kind any
matches_kind descriptor kind =
    if not (is_valid_kind kind)
    then false
    else if is_empty descriptor.session_kinds
    then same_kind (effective_kind kind) SessionKind.access
    else any (λ allowed. same_kind allowed (effective_kind kind)) descriptor.session_kinds

-- The tools that a shell session may use.
abbrev pub is_shell_tool : ToolId → Bool
is_shell_tool id =
    (id.namespace == "terminal" && (id.name == "read" || id.name == "execute"))
    || (id.namespace == "core" && (id.name == "tool_search" || id.name == "tool_describe"))

unfoldable pub descriptor_matches_session : ToolDescriptor → SessionKind → Bool
descriptor_matches_session descriptor SessionKind.shell =
    is_shell_tool descriptor.id && matches_kind descriptor SessionKind.access
descriptor_matches_session descriptor kind = matches_kind descriptor kind

-- The errors of `execute`: those of the engine, an approval that is missing, and the tool's own.
pub data Refusal : Type 0 where
  refused : ToolError → Refusal
  needs_approval : ToolInvocation → Decision → Refusal
  tool_failed : ℕ → Refusal

-- An authorizer tells whether it lets the principal act; `none` is its `nil` error.
abbrev pub Authorize : Type 0
Authorize = Principal → String → String → Option Refusal

abbrev pub Policy : Type 0
Policy = ToolInvocation → ToolDescriptor → Result Refusal Decision

abbrev pub denied : String → Decision
denied reason = record {
  effect = deny;
  reason = reason;
  risk = RiskLevel.read_only;
  approval_policy = "";
  normalized_input = [];
}

abbrev pub wants : ApprovalMode → RiskLevel → Bool
wants ApprovalMode.always risk = true
wants ApprovalMode.by_policy risk = leb (risk_rank RiskLevel.medium) (risk_rank risk)
wants ApprovalMode.never risk = false

abbrev pub wants_approval : ToolDescriptor → Bool
wants_approval descriptor = wants descriptor.approval descriptor.risk

abbrev pub allowed : ToolInvocation → ToolDescriptor → Decision
allowed invocation descriptor =
    if wants_approval descriptor
    then record {
      effect = require_approval;
      reason = "operation requires explicit approval";
      risk = descriptor.risk;
      approval_policy = "agent-medium-risk-v1";
      normalized_input = invocation.call.input;
    }
    else record {
      effect = allow;
      reason = "";
      risk = descriptor.risk;
      approval_policy = "";
      normalized_input = invocation.call.input;
    }

-- A decision, unless the authorizer has refused.
abbrev pub unless : Option Refusal → Result Refusal Decision → Result Refusal Decision
unless none decision = decision
unless (some refusal) decision = err refusal

abbrev pub permitted :
    Authorize → Principal → Option ResourcePermission → Decision → Result Refusal Decision
permitted authorize principal none decision = ok decision
permitted authorize principal (some permission) decision =
    if permission.resource == "" || permission.action == ""
    then ok (denied "invalid resource permission")
    else unless (authorize principal permission.resource permission.action) (ok decision)

-- `AuthorizationPolicy.Evaluate`.
unfoldable pub evaluate : Authorize → Policy
evaluate authorize invocation descriptor =
    let principal = invocation.binding.principal in
    let resource =
      if same_kind invocation.binding.session_kind SessionKind.management
      then "management_agent_sessions"
      else "agent_sessions" in
    if principal.user_id == 0 || principal.organization_id == 0
    then ok (denied "missing principal binding")
    else unless (authorize principal resource "use")
        (permitted authorize principal descriptor.permission (allowed invocation descriptor))

abbrev pub is_generation : Option ℕ → ℕ → Bool
is_generation none generation = false
is_generation (some g) generation = g == generation

-- `validateAttachmentGeneration`: whether it returns no error.
unfoldable pub valid_attachment : ToolSetSnapshot → AttachmentSnapshot → Bool
valid_attachment snapshot attachment =
    if attachment.id == ""
    then true
    else is_generation (get attachment.id snapshot.attachment_generation) attachment.generation
