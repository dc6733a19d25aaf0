-- ===== src/Agent/Tool/Gate/Running.antt =====
-- `Engine.execute` (tool/engine.go), with `Chain` (tool/pipeline.go): the tests before a call, the
-- lease around it, and the call. A factory's `Bind`, an executor's run, the wrapping done by the
-- middleware and by `TimeoutMiddleware` are the fields of `Tools`.
use liaison.Base.{ℕ, Bool, false, not, ◌&&◌, Option, none, some, List, [], ◌∷◌, if◌then◌else◌, ltb}
use liaison.Base.Eq.{◌==◌, string_eq, nat_eq}
use liaison.Base.Exec.{Result, ok, err, Exec, pure, lift, or_fail, fail_if, ◌>>=◌, ◌>>◌}
use liaison.Base.Lists.{is_empty}
use liaison.Agent.Tool.Types.{
  Bytes, Time, ToolBinding, ToolInvocation, ExposedTool, ToolSetSnapshot, find_tool,
}
use liaison.Agent.Tool.Registry.{
  ToolError, stale_snapshot, not_exposed, policy_denied, missing_invocation_id,
  invalid_normalized_input, policy_failed, bind_failed, nil_executor, Registry, ToolRegistration,
  ToolLease, Action, acquire, release,
}
use liaison.Agent.Tool.Gate.{
  DecisionEffect, allow, deny, require_approval, unknown, Decision, ApprovalGrant, Encodings,
  validates, descriptor_matches_session, Refusal, refused, needs_approval, Policy, valid_attachment,
}

-- `with_input` of an invocation.
abbrev pub with_input : Bytes → ToolInvocation → ToolInvocation
with_input input invocation = record invocation { call = record invocation.call { input = input } }

abbrev pub is_granted :
    Encodings → Option ApprovalGrant → ToolInvocation → ToolSetSnapshot → Time → Bool
is_granted go none invocation snapshot now = false
is_granted go (some grant) invocation snapshot now = validates go grant invocation snapshot now

-- The `switch` on the decision: the error, if it refuses the call.
abbrev pub verdict : DecisionEffect → Bool → ToolInvocation → Decision → Option Refusal
verdict deny granted invocation decision = some (refused policy_denied)
verdict require_approval granted invocation decision =
    if granted then none else some (needs_approval invocation decision)
verdict allow granted invocation decision = none
verdict (unknown n) granted invocation decision = some (refused policy_failed)

abbrev pub normalized : Decision → ToolInvocation → ToolInvocation
normalized decision invocation =
    if is_empty decision.normalized_input
    then invocation
    else with_input decision.normalized_input invocation

abbrev pub at_generation : ℕ → ToolInvocation → ToolInvocation
at_generation generation invocation = record invocation { registration_generation = generation }

abbrev pub Gate : Type 0 → Type 0
Gate A = Exec Registry Refusal A

abbrev pub stop : Option Refusal → Gate (Unit {0})
stop none r = (ok tt, r)
stop (some refusal) r = (err refusal, r)

-- What follows the policy's decision on a call: the call as the policy has left it.
unfoldable pub settle :
    Encodings
    → Time
    → ToolSetSnapshot
    → Option ApprovalGrant
    → ToolInvocation
    → Decision
    → Gate ToolInvocation
settle go now snapshot grant bound decision = do
  fail_if
      (not (is_empty decision.normalized_input) && not (go.json_valid decision.normalized_input))
      (refused invalid_normalized_input)
  let call = normalized decision bound
  stop (verdict decision.effect (is_granted go grant call snapshot now) call decision)
  pure call

-- All that stands before the lease: the exposed tool and the call.
unfoldable pub admit :
    Encodings
    → Policy
    → Time
    → ToolSetSnapshot
    → Option ApprovalGrant
    → ToolInvocation
    → Gate (ExposedTool × ToolInvocation)
admit go policy now snapshot grant invocation = do
  fail_if (invocation.id == "") (refused missing_invocation_id)
  fail_if (not (invocation.binding.tool_snapshot_id == snapshot.id)) (refused stale_snapshot)
  exposed ← or_fail (find_tool snapshot invocation.call.id) (refused not_exposed)
  fail_if (not (descriptor_matches_session exposed.descriptor invocation.binding.session_kind))
      (refused policy_denied)
  fail_if
      (not (invocation.registration_generation == 0)
        && not (invocation.registration_generation == exposed.registration_generation))
      (refused stale_snapshot)
  let bound = at_generation exposed.registration_generation invocation
  fail_if (not (valid_attachment snapshot bound.binding.attachment)) (refused stale_snapshot)
  decision ← lift (policy bound exposed.descriptor)
  call ← settle go now snapshot grant bound decision
  pure (exposed, call)

abbrev pub refuse : {A : Type 0} → Result ToolError A → Result Refusal A
refuse (ok a) = ok a
refuse (err x) = err (refused x)

abbrev pub on_lease : {A : Type 0} → Action A → Gate A
on_lease action r = let (result, r') = action r in (refuse result, r')

-- A result of a tool is the caller's; here it is a number.
abbrev pub Handler : Type 0
Handler = ToolInvocation → Result Refusal ℕ

pub record Tools : Type 0 where
  -- `Factory.Bind`: `none` where it fails, `some none` where it returns no executor.
  pub bind : ToolRegistration → ToolBinding → Option (Option Handler)
  pub middleware : List (Handler → Handler)
  pub timeout : ℕ → Handler → Handler

-- `Chain`: the first middleware is the outermost.
unfoldable pub chain : Handler → List (Handler → Handler) → Handler
chain handler [] = handler
chain handler (wrap ∷ middleware) = let inner = chain handler middleware in wrap inner

abbrev pub limited : Tools → ℕ → Handler → Handler
limited tools timeout handler = if ltb 0 timeout then tools.timeout timeout handler else handler

abbrev pub run_bound : Tools → ℕ → Option (Option Handler) → Handler
run_bound tools timeout none invocation = err (refused bind_failed)
run_bound tools timeout (some none) invocation = err (refused nil_executor)
run_bound tools timeout (some (some executor)) invocation =
    limited tools timeout (chain executor tools.middleware) invocation

-- The lease is released when the call returns, whatever it returns.
abbrev pub run_leased : Tools → ExposedTool → ToolInvocation → ToolLease → Gate ℕ
run_leased tools exposed invocation lease r = (
  run_bound tools exposed.descriptor.default_timeout
      (tools.bind lease.registration invocation.binding) invocation,
  release lease.entry lease.lease_id r,
)

unfoldable pub execute :
    Encodings
    → Policy
    → Tools
    → Time
    → ToolSetSnapshot
    → Option ApprovalGrant
    → ToolInvocation
    → Gate ℕ
unfolding chain
execute go policy tools now snapshot grant invocation = do
  (exposed, call) ← admit go policy now snapshot grant invocation
  lease ← on_lease (acquire call.call.id exposed.registration_generation)
  run_leased tools exposed call lease
