-- ===== src/Examples/Approving.antt =====
-- An approval that is asked for, given and consumed (agent/runtime/durable_approval.go).
use liaison.Base.{◌+◌, ◌≤◌, ◌≡◌, refl, true, some, [], ◌∷◌}
use liaison.Base.Eq.{nat_eq, string_eq}
use liaison.Base.Exec.{err}
use liaison.Base.Table.{get, put}
use liaison.Agent.Tool.Types.{RiskLevel, Principal}
use liaison.Agent.Approvals.{
  ApprovalStatus, Approval, ApprovalRequest, approval_conflict, request_approval, decide_write,
  consume_write, consume, new_approval, update_cas, get_approved,
}
use liaison.Agent.Approvals.Once.{
  opened, asks, decides, consumes, counted, is_success, consumed_at_most_once,
}
use liaison.Agent.Approvals.Consuming.{may_consume, consumed_iff, consumed_twice_conflicts}
use liaison.Examples.Tools.{invocation, snapshot}

abbrev a_request : ApprovalRequest
a_request = record {
  id = "a";
  session_id = "s";
  turn_id = "t";
  step_id = "p";
  requested_by = 1;
  invocation = invocation;
  snapshot = snapshot;
  input_sha256 = "0";
  reason = "";
  risk = RiskLevel.high;
  expires_at = 10;
  attachment_epoch = 4;
}

abbrev waiting : Approval
waiting = new_approval 1 a_request

abbrev given : Approval
given = record waiting {
  status = ApprovalStatus.approved;
  decided_by = some 2;
  decided_at = some 3;
  updated_at = 3;
}

-- Two calls have read the approved row before either consumes it.
consumed_at_most_once_example :
    0
      + counted "a" given
          (consume_write 4 given
            (decide_write 3 2 true "" waiting (request_approval 1 a_request []).1).1).0
      + counted "a" given
          (consume_write 5 given
            (consume_write 4 given
              (decide_write 3 2 true "" waiting (request_approval 1 a_request []).1).1).1).0
    ≤ 1
consumed_at_most_once_example =
    consumed_at_most_once {id = "a"}
      (consumes (consumes (decides (asks opened 1 a_request) 3 2 true "" waiting) 4 given) 5 given)

abbrev principal : Principal
principal = record { user_id = 1; organization_id = 1 }

consumed_iff_example :
    is_success (consume 4 5 "a" principal (("a", given) ∷ [])).0 ≡ may_consume 4 principal given
unfolding get
consumed_iff_example = consumed_iff given (("a", given) ∷ []) refl 4 5 principal

consumed_twice_conflicts_example :
    (consume 6 7 "a" principal (consume 4 5 "a" principal (("a", given) ∷ [])).1).0
    ≡ err approval_conflict
unfolding get consume get_approved consume_write update_cas put
consumed_twice_conflicts_example =
    consumed_twice_conflicts given (("a", given) ∷ []) refl 4 5 6 7 principal principal refl
