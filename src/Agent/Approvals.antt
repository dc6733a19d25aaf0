-- ===== src/Agent/Approvals.antt =====
-- agent/runtime/durable_approval.go over the approvals of repo/dao/dao_agent_runtime.go: the rows of
-- the table `agent_approvals` by their ID. One query of the database is one step. A call and a
-- snapshot are kept as values, not as their JSON, and a database error other than a missing or a
-- taken ID is not modelled.
pub mod Once
pub mod Consuming
use liaison.Base.{
  ℕ, suc, String, Bool, true, false, not, ◌&&◌, ◌||◌, Option, none, some, [], if◌then◌else◌, ltb,
}
use liaison.Base.Eq.{◌==◌, string_eq, nat_eq}
use liaison.Base.Exec.{Result, ok, err, Exec, pure, gets, or_fail, fail_if, modify, ◌>>=◌, ◌>>◌}
use liaison.Base.Lists.{any}
use liaison.Base.Table.{Table, get, put, values}
use liaison.Agent.Tool.Types.{Time, RiskLevel, Principal, ToolInvocation, ToolSetSnapshot}
use liaison.Agent.Runtime.Types.{is_some}

pub data ApprovalStatus : Type 0 where
  pending approved denied expired consumed : ApprovalStatus

pub record Approval : Type 0 where
  pub id : String
  pub agent_session_id : String
  pub turn_id : String
  pub step_id : String
  pub requested_by : ℕ
  pub decided_by : Option ℕ
  pub status : ApprovalStatus
  pub risk : RiskLevel
  pub input_sha256 : String
  pub attachment_generation : ℕ
  pub reason : String
  pub decision_note : String
  pub expires_at : Time
  pub decided_at : Option Time
  pub invocation : ToolInvocation
  pub snapshot : ToolSetSnapshot
  pub created_at : Time
  pub updated_at : Time

pub record ApprovalRequest : Type 0 where
  pub id : String
  pub session_id : String
  pub turn_id : String
  pub step_id : String
  pub requested_by : ℕ
  pub invocation : ToolInvocation
  pub snapshot : ToolSetSnapshot
  pub input_sha256 : String
  pub reason : String
  pub risk : RiskLevel
  pub expires_at : Time
  pub attachment_epoch : ℕ

abbrev pub Approvals : Type 0
Approvals = Table String Approval

pub data ApprovalError : Type 0 where
  missing_ids already_exists approval_not_found approval_conflict approval_expired : ApprovalError
  foreign_approval binding_changed : ApprovalError

abbrev pub Query : Type 0 → Type 0
Query A = Exec Approvals ApprovalError A

abbrev pub same_status : ApprovalStatus → ApprovalStatus → Bool
same_status pending pending = true
same_status approved approved = true
same_status denied denied = true
same_status expired expired = true
same_status consumed consumed = true
same_status _ _ = false

abbrev pub new_approval : Time → ApprovalRequest → Approval
new_approval now request = record {
  id = request.id;
  agent_session_id = request.session_id;
  turn_id = request.turn_id;
  step_id = request.step_id;
  requested_by = request.requested_by;
  decided_by = none;
  status = pending;
  risk = request.risk;
  input_sha256 = request.input_sha256;
  attachment_generation = request.attachment_epoch;
  reason = request.reason;
  decision_note = "";
  expires_at = request.expires_at;
  decided_at = none;
  invocation = request.invocation;
  snapshot = request.snapshot;
  created_at = now;
  updated_at = now;
}

-- The unique index on the step.
abbrev pub is_step_taken : String → Approvals → Bool
is_step_taken step_id rows = any (λ row. row.step_id == step_id) (values rows)

-- `Request`; the ID is the table's primary key, and a step has one approval.
unfoldable pub request_approval : Time → ApprovalRequest → Query (Unit {0})
request_approval now request = do
  fail_if
      (request.id == ""
        || request.session_id == ""
        || request.turn_id == ""
        || request.step_id == ""
        || request.requested_by == 0)
      missing_ids
  rows ← gets (λ rows. rows)
  fail_if (is_some (get request.id rows) || is_step_taken request.step_id rows) already_exists
  modify (put request.id (new_approval now request))

-- The columns that an update writes.
abbrev pub overwritten : Approval → Approval → Approval
overwritten written row = record row {
  status = written.status;
  decided_by = written.decided_by;
  decision_note = written.decision_note;
  decided_at = written.decided_at;
  updated_at = written.updated_at;
}

abbrev pub swap : Approval → ApprovalStatus → Option Approval → Approvals → Bool × Approvals
swap written expected none rows = (false, rows)
swap written expected (some row) rows =
    if same_status row.status expected
    then (true, put written.id (overwritten written row) rows)
    else (false, rows)

-- `UpdateAgentApprovalCAS`: whether a row had the ID and the expected status.
unfoldable pub update_cas : Approval → ApprovalStatus → Approvals → Bool × Approvals
update_cas written expected rows = swap written expected (get written.id rows) rows

abbrev pub cas_or_conflict : Approval → ApprovalStatus → Query (Unit {0})
cas_or_conflict written expected rows =
    let (updated, rows') = update_cas written expected rows in
    fail_if (not updated) approval_conflict rows'

-- The status that a decision at this time gives.
unfoldable pub decision_status : Time → Bool → Approval → ApprovalStatus
decision_status now approve row =
    if not (ltb now row.expires_at) then expired else if approve then approved else denied

abbrev pub decided : Time → ℕ → Bool → String → Approval → Approval
decided now decided_by approve note row = record row {
  status = decision_status now approve row;
  decided_by = some decided_by;
  decision_note = note;
  decided_at = some now;
  updated_at = now;
}

-- What `Decide` does with the row that it has read.
unfoldable pub decide_write : Time → ℕ → Bool → String → Approval → Query (Unit {0})
decide_write now decided_by approve note row = do
  cas_or_conflict (decided now decided_by approve note row) pending
  fail_if (same_status (decision_status now approve row) expired) approval_expired

-- `Decide`.
unfoldable pub decide : Time → String → ℕ → Bool → String → Query (Unit {0})
decide now approval_id decided_by approve note = do
  fail_if (approval_id == "" || decided_by == 0) missing_ids
  rows ← gets (λ rows. rows)
  row ← or_fail (get approval_id rows) approval_not_found
  fail_if (not (same_status row.status pending)) approval_conflict
  decide_write now decided_by approve note row

abbrev pub same_principal : Principal → Principal → Bool
same_principal a b = a.user_id == b.user_id && a.organization_id == b.organization_id

-- `GetApproved`.
unfoldable pub get_approved : Time → String → Principal → Query Approval
get_approved now approval_id principal = do
  rows ← gets (λ rows. rows)
  row ← or_fail (get approval_id rows) approval_not_found
  fail_if (not (same_status row.status approved)) approval_conflict
  fail_if (not (ltb now row.expires_at)) approval_expired
  fail_if (not (row.requested_by == principal.user_id)) foreign_approval
  fail_if (not (same_principal row.invocation.binding.principal principal)) binding_changed
  pure row

abbrev pub consumed_row : Time → Approval → Approval
consumed_row now row = record row { status = consumed; updated_at = now }

-- What `Consume` does with the row that it has read last.
unfoldable pub consume_write : Time → Approval → Query (Unit {0})
consume_write now row = cas_or_conflict (consumed_row now row) approved

-- `Consume`, which returns what `GetApproved` has read.
unfoldable pub consume : Time → Time → String → Principal → Query Approval
consume now later approval_id principal = do
  request ← get_approved now approval_id principal
  rows ← gets (λ rows. rows)
  row ← or_fail (get approval_id rows) approval_not_found
  consume_write later row
  pure request
