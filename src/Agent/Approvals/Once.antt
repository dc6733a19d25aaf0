-- ===== src/Agent/Approvals/Once.antt =====
-- An approval is consumed once, whatever the order of the queries (agent/runtime/durable_approval.go).
use liaison.Base.{
  sym, ◌∙◌, ℕ, ◌+◌, ◌≤◌, String, ◌≡◌, refl, Bool, true, false, not, ◌&&◌, Option, none, some, [],
  arith, if◌then◌else◌, Option-cases, Bool-cases, inl, inr,
}
use text.Mathlib.TextEquality.{eq_iff}
use liaison.Base.Eq.{◌==◌, string_eq, nat_eq}
use liaison.Base.Exec.{Result, ok, err, continue, fail_if}
use liaison.Base.Table.{get, get-put}
use liaison.Agent.Tool.Types.{Time}
use liaison.Agent.Approvals.{
  Approval, ApprovalRequest, Approvals, ApprovalError, ApprovalStatus, pending, approved, consumed,
  expired, approval_expired, approval_conflict, same_status, request_approval, new_approval,
  decide_write, decided, decision_status, overwritten, update_cas, cas_or_conflict, consume_write,
  consumed_row,
}

abbrev pub is_success : {A : Type 0} → Result ApprovalError A → Bool
is_success (ok a) = true
is_success (err x) = false

-- 1 for a query that has consumed the approval, 0 for any other.
abbrev pub counted : String → Approval → Result ApprovalError (Unit {0}) → ℕ
counted id row result = if row.id == id && is_success result then 1 else 0

-- The tables that queries make, in any order and with rows read at any time before, and how many of
-- the queries have consumed the approval of the given ID.
pub data ApprovalTrace (id : String) : ℕ → Approvals → Type 0 where
  opened : ApprovalTrace id 0 []
  asks :
      {n : ℕ} {rows : Approvals}
      → ApprovalTrace id n rows
      → (now : Time) (request : ApprovalRequest)
      → ApprovalTrace id n (request_approval now request rows).1
  decides :
      {n : ℕ} {rows : Approvals}
      → ApprovalTrace id n rows
      → (now : Time) (decided_by : ℕ) (approve : Bool) (note : String) (row : Approval)
      → ApprovalTrace id n (decide_write now decided_by approve note row rows).1
  consumes :
      {n : ℕ} {rows : Approvals}
      → ApprovalTrace id n rows
      → (now : Time) (row : Approval)
      → ApprovalTrace id
          (n + counted id row (consume_write now row rows).0)
          (consume_write now row rows).1

-- How often the row has been consumed, by its status.
abbrev consumptions : Option Approval → ℕ
consumptions none = 0
consumptions (some row) = if same_status row.status consumed then 1 else 0

-- The table after a compare-and-swap.
cas_lem :
    (written : Approval) (expected : ApprovalStatus) (rows : Approvals)
    → (is_success (cas_or_conflict written expected rows).0 ≡ (update_cas written expected rows).0)
      × ((cas_or_conflict written expected rows).1 ≡ (update_cas written expected rows).1)
cas_lem written expected rows = by_flag (update_cas written expected rows)
  where
    by_flag :
        (o : Bool × Approvals)
        → (is_success ((fail_if (not o.0) approval_conflict) o.1).0 ≡ o.0)
          × (((fail_if (not o.0) approval_conflict) o.1).1 ≡ o.1)
    by_flag (true, r) = (refl, refl)
    by_flag (false, r) = (refl, refl)

update_consumptions :
    (written : Approval) (expected : ApprovalStatus) (rows : Approvals) (id : String)
    → same_status expected consumed ≡ false
    → consumptions (get id (update_cas written expected rows).1)
      ≡ consumptions (get id rows)
        + (if written.id == id
              && (update_cas written expected rows).0
              && same_status written.status consumed
            then 1
            else 0)
unfolding update_cas
update_consumptions written expected rows id live = elim (Option-cases (get written.id rows)) [
  | inl n ↦ rw n (ground arith)
  | inr (row, n) ↦ rw n (elim (Bool-cases (same_status row.status expected)) [
    | inl same ↦
        rw same (
          ground
            (arith, get-put written.id id (overwritten written row) rows, eq_iff written.id id))
    | inr other ↦ rw other (ground arith)
  ])
]

decide_write_lem :
    (now : Time) (decided_by : ℕ) (approve : Bool) (note : String) (row : Approval)
    (rows : Approvals)
    → (decide_write now decided_by approve note row rows).1
      ≡ (update_cas (decided now decided_by approve note row) pending rows).1
unfolding decide_write
decide_write_lem now decided_by approve note row rows =
    after (cas_or_conflict (decided now decided_by approve note row) pending rows)
      (same_status (decision_status now approve row) expired)
    ∙ (cas_lem (decided now decided_by approve note row) pending rows).1
  where
    after :
        (o : Result ApprovalError (Unit {0}) × Approvals) (b : Bool)
        → (continue o.0 (λ _. fail_if b approval_expired) o.1).1 ≡ o.1
    after (ok u, r) true = refl
    after (ok u, r) false = refl
    after (err x, r) b = refl

not_consumed :
    (now : Time) (approve : Bool) (row : Approval)
    → same_status (decision_status now approve row) consumed ≡ false
unfolding decision_status
not_consumed now approve row = ground arith

asked_lem :
    (id : String) (now : Time) (request : ApprovalRequest) (rows : Approvals)
    → consumptions (get id (request_approval now request rows).1) ≡ consumptions (get id rows)
unfolding request_approval
asked_lem id now request rows =
    ground (arith, get-put request.id id (new_approval now request) rows, eq_iff request.id id)

consume_write_lem :
    (id : String) (now : Time) (row : Approval) (rows : Approvals)
    → consumptions (get id (consume_write now row rows).1)
      ≡ consumptions (get id rows) + counted id row (consume_write now row rows).0
unfolding consume_write
consume_write_lem id now row rows =
    let c = cas_lem (consumed_row now row) approved rows in
    rw c.1
      (rw (update_consumptions (consumed_row now row) approved rows id refl) (ground (arith, c.0)))

trace_lem :
    {id : String} {n : ℕ} {rows : Approvals}
    → ApprovalTrace id n rows
    → n ≡ consumptions (get id rows)
unfolding get
trace_lem opened = refl
trace_lem {id} (asks {rows = rows} t now request) =
    trace_lem t ∙ sym (asked_lem id now request rows)
trace_lem {id} (decides {rows = rows} t now decided_by approve note row) =
    rw (decide_write_lem now decided_by approve note row rows) (
      rw (update_consumptions (decided now decided_by approve note row) pending rows id refl)
        (ground (arith, trace_lem t, not_consumed now approve row)))
trace_lem {id} (consumes {rows = rows} t now row) =
    ground (arith, trace_lem t, consume_write_lem id now row rows)

-- Whatever queries are made, in any order and with rows read at any earlier time, at most one of
-- them consumes the approval of a given ID.
pub consumed_at_most_once :
    {id : String} {n : ℕ} {rows : Approvals} → ApprovalTrace id n rows → n ≤ 1
consumed_at_most_once {id} {rows = rows} t = ground (arith, trace_lem t)
