-- ===== src/Agent/Approvals/Consuming.antt =====
-- When `Consume` succeeds, and that it does not succeed twice (agent/runtime/durable_approval.go).
use liaison.Base.{
  ◌≡◌, refl, sym, ◌∙◌, Bool, true, false, ◌&&◌, some, arith, ltb, Bool-cases, inl, inr,
}
use liaison.Base.Eq.{◌==◌, string_eq, nat_eq}
use liaison.Base.Exec.{ok, err}
use liaison.Base.Table.{get, put, get-put_self}
use liaison.Agent.Tool.Types.{Time, Principal}
use liaison.Agent.Approvals.{
  Approval, Approvals, approved, approval_conflict, same_status, same_principal, overwritten,
  update_cas, get_approved, consume_write, consumed_row, consume,
}
use liaison.Agent.Approvals.Once.{is_success}

-- The row is approved, has not expired and is the principal's own, with the same binding.
abbrev pub may_consume : Time → Principal → Approval → Bool
may_consume now principal row =
    same_status row.status approved
    && ltb now row.expires_at
    && row.requested_by == principal.user_id
    && same_principal row.invocation.binding.principal principal

module _ (row : Approval) (rows : Approvals) (found : get row.id rows ≡ some row) where
  consumed_table :
      (now later : Time) (principal : Principal)
      → may_consume now principal row ≡ true
      → consume now later row.id principal rows
        ≡ (ok row, put row.id (overwritten (consumed_row later row) row) rows)
  unfolding consume get_approved consume_write update_cas
  consumed_table now later principal h = rw found (ground (arith, found))

  refused_table :
      (now later : Time) (principal : Principal)
      → may_consume now principal row ≡ false
      → is_success (consume now later row.id principal rows).0 ≡ false
  unfolding consume get_approved
  refused_table now later principal h = rw found (ground arith)

  -- A stored approval is consumed exactly if it is approved, has not expired when it is looked at,
  -- and was requested by the principal under the same binding.
  pub consumed_iff :
      (now later : Time) (principal : Principal)
      → is_success (consume now later row.id principal rows).0 ≡ may_consume now principal row
  consumed_iff now later principal = elim (Bool-cases (may_consume now principal row)) [
    | inl may ↦ rw (consumed_table now later principal may) (sym may)
    | inr not_now ↦ refused_table now later principal not_now ∙ sym not_now
  ]

  -- If an approval has been consumed, every further attempt on the table that this has left, by
  -- any principal at any time, is a conflict.
  pub consumed_twice_conflicts :
      (now later now' later' : Time) (principal principal' : Principal)
      → is_success (consume now later row.id principal rows).0 ≡ true
      → (consume now' later' row.id principal' (consume now later row.id principal rows).1).0
        ≡ err approval_conflict
  unfolding consume get_approved
  consumed_twice_conflicts now later now' later' principal principal' done =
      rw (consumed_table now later principal (sym (consumed_iff now later principal) ∙ done))
        (rw get-put_self refl)
