-- ===== src/Agent/Tool/Gate/Stopping.antt =====
-- A call that the gate of `Engine.execute` (tool/engine.go) stops leaves the registry as it was.
use liaison.Base.{◌≡◌, refl, ◌∙◌, false, not, ◌&&◌, Option, none, some}
use liaison.Base.Eq.{◌==◌, string_eq, nat_eq}
use liaison.Base.Exec.{Result, ok, err, continue, pure, ◌>>=◌, ◌>>◌}
use liaison.Base.Exec.Rules.{fail_if_rule, or_fail_rule}
use liaison.Base.Lists.{is_empty}
use liaison.Agent.Tool.Types.{
  tool_id_eq, Time, ToolInvocation, ExposedTool, ToolSetSnapshot, find_tool,
}
use liaison.Agent.Tool.Registry.{Registry, acquire}
use liaison.Agent.Tool.Gate.{
  Decision, ApprovalGrant, Encodings, Authorize, Policy, Refusal, evaluate,
  descriptor_matches_session, valid_attachment,
}
use liaison.Agent.Tool.Gate.Running.{
  settle, stop, verdict, normalized, admit, execute, on_lease, run_leased, Tools, is_granted,
  at_generation,
}
use liaison.Agent.Tool.Gate.Approval.{is_done, is_cleared, admit_iff}

module _ (go : Encodings) (policy : Policy) (now : Time) (snapshot : ToolSetSnapshot)
    (grant : Option ApprovalGrant) (invocation : ToolInvocation) (r : Registry) where
  settle_reads :
      (call : ToolInvocation) (decision : Decision)
      → (settle go now snapshot grant call decision r).1 ≡ r
  unfolding settle
  settle_reads call decision =
      fail_if_rule (λ o. o.1 ≡ r)
        (not (is_empty decision.normalized_input) && not (go.json_valid decision.normalized_input))
        _ refl
        λ _.
          stop_reads
            (verdict decision.effect (is_granted go grant (normalized decision call) snapshot now)
              (normalized decision call) decision)
            (normalized decision call)
    where
      stop_reads :
          (refusal : Option Refusal) (call' : ToolInvocation)
          → ((stop refusal >> pure call') r).1 ≡ r
      stop_reads none call' = refl
      stop_reads (some x) call' = refl

  decided_reads :
      (exposed : ExposedTool) (call : ToolInvocation) (decision : Result Refusal Decision)
      → (continue {B = ExposedTool × ToolInvocation} decision
          (λ d. settle go now snapshot grant call d >>= λ call'. pure (exposed, call'))
          r).1
        ≡ r
  decided_reads exposed call (err x) = refl
  decided_reads exposed call (ok d) =
      elim_result (settle go now snapshot grant call d r) (settle_reads call d)
    where
      elim_result :
          (o : Result Refusal ToolInvocation × Registry)
          → o.1 ≡ r
          → (continue {B = ExposedTool × ToolInvocation} o.0 (λ call'. pure (exposed, call')) o.1).1
            ≡ r
      elim_result (ok c, s) h = h
      elim_result (err x, s) h = h

  admit_reads : (admit go policy now snapshot grant invocation r).1 ≡ r
  unfolding admit
  admit_reads =
      let Q : Result Refusal (ExposedTool × ToolInvocation) × Registry → Type 0 = λ o. o.1 ≡ r in
      fail_if_rule Q (invocation.id == "") _ refl λ _.
        fail_if_rule Q (not (invocation.binding.tool_snapshot_id == snapshot.id)) _ refl λ _.
          or_fail_rule Q (find_tool snapshot invocation.call.id) _ refl λ exposed _.
            fail_if_rule Q
              (not (descriptor_matches_session exposed.descriptor invocation.binding.session_kind))
              _ refl
              λ _.
                fail_if_rule Q
                  (not (invocation.registration_generation == 0)
                    && not (invocation.registration_generation == exposed.registration_generation))
                  _ refl
                  λ _.
                    fail_if_rule Q (not (valid_attachment snapshot invocation.binding.attachment)) _
                      refl
                      λ _.
                        let call = at_generation exposed.registration_generation invocation in
                        decided_reads exposed call (policy call exposed.descriptor)

  -- A call that does not pass the gate fails, and the registry grants no lease on its behalf.
  stopped_lem :
      (tools : Tools)
      → is_done (admit go policy now snapshot grant invocation r).0 ≡ false
      → (is_done (execute go policy tools now snapshot grant invocation r).0 ≡ false)
        × ((execute go policy tools now snapshot grant invocation r).1 ≡ r)
  unfolding execute
  stopped_lem tools h = go_on (admit go policy now snapshot grant invocation r) h admit_reads
    where
      go_on :
          (o : Result Refusal (ExposedTool × ToolInvocation) × Registry)
          → is_done o.0 ≡ false
          → o.1 ≡ r
          → let o' =
              continue o.0
                (λ (exposed, call).
                  on_lease (acquire call.call.id exposed.registration_generation)
                  >>= run_leased tools exposed call)
                o.1 in
            (is_done o'.0 ≡ false) × (o'.1 ≡ r)
      go_on (ok a, s) h same = absurd (cc)
      go_on (err x, s) h same = (refl, same)

-- Under the authorization policy, a call that the gate does not clear fails and takes no lease:
-- the registry is as it was.
pub uncleared_takes_nothing :
    (go : Encodings) (authorize : Authorize) (tools : Tools) (now : Time)
    (snapshot : ToolSetSnapshot) (grant : Option ApprovalGrant) (invocation : ToolInvocation)
    (r : Registry)
    → is_cleared go authorize now snapshot grant invocation (find_tool snapshot invocation.call.id)
      ≡ false
    → let o = execute go (evaluate authorize) tools now snapshot grant invocation r in
      (is_done o.0 ≡ false) × (o.1 ≡ r)
uncleared_takes_nothing go authorize tools now snapshot grant invocation r h =
    stopped_lem go (evaluate authorize) now snapshot grant invocation r tools
      (admit_iff go authorize now snapshot grant invocation r ∙ h)
