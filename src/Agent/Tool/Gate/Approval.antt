-- ===== src/Agent/Tool/Gate/Approval.antt =====
-- Which calls pass the gate of `Engine.execute` (tool/engine.go) under the authorization policy
-- (policy/authorization.go).
use liaison.Base.{
  String, ◌≡◌, refl, sym, ltb, Bool, true, false, not, ◌&&◌, ◌||◌, Option, none, some, arith,
  if◌then◌else◌, Option-cases, Bool-cases, inl, inr,
}
use liaison.Base.Eq.{◌==◌, string_eq, nat_eq}
use liaison.Base.Exec.{Result, ok, err, continue}
use liaison.Base.Lists.{is_empty}
use liaison.Agent.Tool.Types.{
  tool_id_eq, Time, SessionKind, ResourcePermission, Principal, ToolDescriptor, ToolInvocation,
  ExposedTool, ToolSetSnapshot, find_tool,
}
use liaison.Agent.Tool.Registry.{Registry}
use liaison.Agent.Tool.Gate.{
  Decision, denied, allowed, permitted, ApprovalGrant, Encodings, Authorize, Refusal, validates,
  input_digest, evaluate, descriptor_matches_session, valid_attachment, wants_approval, same_kind,
}
use liaison.Agent.Tool.Gate.Running.{settle, admit, is_granted, at_generation}

abbrev pub is_done : {A : Type 0} → Result Refusal A → Bool
is_done (ok a) = true
is_done (err x) = false

abbrev pub lets : Option Refusal → Bool
lets none = true
lets (some refusal) = false

-- The authorizer lets the principal do what the tool asks for.
abbrev pub is_permitted : Authorize → Principal → Option ResourcePermission → Bool
is_permitted authorize principal none = true
is_permitted authorize principal (some p) =
    not (p.resource == "") && not (p.action == "") && lets (authorize principal p.resource p.action)

-- The resource that a session of this kind uses.
abbrev pub session_resource : SessionKind → String
session_resource SessionKind.management = "management_agent_sessions"
session_resource _ = "agent_sessions"

-- The grant is for this call, with its input, on this snapshot and this attachment, and has not
-- expired.
abbrev pub is_matching :
    Encodings → Time → ToolSetSnapshot → ToolInvocation → Option ApprovalGrant → Bool
is_matching go now snapshot call none = false
is_matching go now snapshot call (some grant) =
    not (grant.approval_id == "")
    && ltb now grant.expires_at
    && grant.invocation_id == call.id
    && grant.tool_id == call.call.id
    && grant.tool_snapshot_id == snapshot.id
    && grant.attachment_generation == call.binding.attachment.generation
    && not (input_digest go call.call.input == "")
    && grant.input_sha256 == input_digest go call.call.input

is_granted-is_matching :
    (go : Encodings) (now : Time) (snapshot : ToolSetSnapshot) (call : ToolInvocation)
    (grant : Option ApprovalGrant)
    → is_granted go grant call snapshot now ≡ is_matching go now snapshot call grant
unfolding validates
is_granted-is_matching go now snapshot call none = refl
is_granted-is_matching go now snapshot call (some grant) = ground arith

-- What the policy asks of a call that is bound to an exposed tool.
abbrev pub is_allowed :
    Encodings
    → Authorize
    → Time
    → ToolSetSnapshot
    → Option ApprovalGrant
    → ToolDescriptor
    → ToolInvocation
    → Bool
is_allowed go authorize now snapshot grant descriptor call =
    let principal = call.binding.principal in
    not (principal.user_id == 0)
    && not (principal.organization_id == 0)
    && lets (authorize principal (session_resource call.binding.session_kind) "use")
    && is_permitted authorize principal descriptor.permission
    && (is_empty call.call.input || go.json_valid call.call.input)
    && (not (wants_approval descriptor) || is_matching go now snapshot call grant)

-- What the gate asks of a call on an exposed tool.
abbrev pub is_cleared :
    Encodings
    → Authorize
    → Time
    → ToolSetSnapshot
    → Option ApprovalGrant
    → ToolInvocation
    → Option ExposedTool
    → Bool
is_cleared go authorize now snapshot grant invocation none = false
is_cleared go authorize now snapshot grant invocation (some exposed) =
    not (invocation.id == "")
    && invocation.binding.tool_snapshot_id == snapshot.id
    && descriptor_matches_session exposed.descriptor invocation.binding.session_kind
    && (invocation.registration_generation == 0
        || invocation.registration_generation == exposed.registration_generation)
    && valid_attachment snapshot invocation.binding.attachment
    && is_allowed go authorize now snapshot grant exposed.descriptor
        (at_generation exposed.registration_generation invocation)

resource_lem :
    (kind : SessionKind)
    → (if same_kind kind SessionKind.management
        then "management_agent_sessions"
        else "agent_sessions")
      ≡ session_resource kind
resource_lem kind = ground arith

module _ (go : Encodings) (authorize : Authorize) (now : Time) (snapshot : ToolSetSnapshot)
    (grant : Option ApprovalGrant) where
  settle-allowed :
      (descriptor : ToolDescriptor) (call : ToolInvocation) (r : Registry)
      → is_done (settle go now snapshot grant call (allowed call descriptor) r).0 ≡ (
          (is_empty call.call.input || go.json_valid call.call.input)
          && (not (wants_approval descriptor) || is_matching go now snapshot call grant))
  unfolding settle
  settle-allowed descriptor call r =
      rw (sym (is_granted-is_matching go now snapshot call grant))
        (elim (Bool-cases (wants_approval descriptor)) [
          | inl w ↦ rw w (elim (Bool-cases (is_empty call.call.input)) [
            | inl e ↦ rw e (ground arith)
            | inr e ↦ rw e (ground arith)
          ])
          | inr w ↦ rw w (ground arith)
        ])

  settle-denied :
      (reason : String) (call : ToolInvocation) (r : Registry)
      → is_done (settle go now snapshot grant call (denied reason) r).0 ≡ false
  unfolding settle
  settle-denied reason call r = refl

  permitted_lem :
      (permission : Option ResourcePermission) (decision : Decision) (call : ToolInvocation)
      (r : Registry)
      → let principal = call.binding.principal in
        is_done
          (continue
            (permitted authorize principal permission decision)
            (settle go now snapshot grant call)
            r).0
        ≡ (is_permitted authorize principal permission
            && is_done (settle go now snapshot grant call decision r).0)
  permitted_lem none decision call r = refl
  permitted_lem (some p) decision call r =
      elim (Option-cases (authorize call.binding.principal p.resource p.action)) [
        | inl free ↦ rw free (ground (arith, settle-denied "invalid resource permission" call r))
        | inr (x, refusal) ↦
            rw refusal (ground (arith, settle-denied "invalid resource permission" call r))
      ]

  judge_lem :
      (descriptor : ToolDescriptor) (call : ToolInvocation) (r : Registry)
      → is_done
          (continue (evaluate authorize call descriptor) (settle go now snapshot grant call) r).0
        ≡ is_allowed go authorize now snapshot grant descriptor call
  unfolding evaluate
  judge_lem descriptor call r =
      rw resource_lem
        (elim (Option-cases
          (authorize call.binding.principal (session_resource call.binding.session_kind) "use")) [
            | inl free ↦ rw free (
                ground (
                  arith,
                  settle-denied "missing principal binding" call r,
                  permitted_lem descriptor.permission (allowed call descriptor) call r,
                  settle-allowed descriptor call r,
                ))
            | inr (x, refusal) ↦
                rw refusal (ground (arith, settle-denied "missing principal binding" call r))
          ])

module _ (go : Encodings) (authorize : Authorize) (now : Time) (snapshot : ToolSetSnapshot)
    (grant : Option ApprovalGrant) (invocation : ToolInvocation) (r : Registry) where
  -- Under the authorization policy, a call passes the gate exactly if it has an ID and names an
  -- exposed tool of its snapshot, for its kind of session, its generation and its attachment, if its
  -- principal is named and authorized now, its input is empty or valid JSON, and a grant that has
  -- not expired matches it where the tool wants approval.
  pub admit_iff :
      is_done (admit go (evaluate authorize) now snapshot grant invocation r).0
      ≡ is_cleared go authorize now snapshot grant invocation
          (find_tool snapshot invocation.call.id)
  unfolding admit
  admit_iff = elim (Option-cases (find_tool snapshot invocation.call.id)) [
    | inl n ↦ rw n (ground arith)
    | inr (exposed, found) ↦ rw found (
        ground (
          arith,
          judge_lem go authorize now snapshot grant exposed.descriptor
              (at_generation exposed.registration_generation invocation) r,
        ))
  ]
