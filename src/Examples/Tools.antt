-- ===== src/Examples/Tools.antt =====
-- Two versions of a tool in the engine of tool/engine.go, and a call that needs an approval.
use liaison.Base.{String, ◌≡◌, refl, true, false, none, some, [], ◌∷◌, arith}
use liaison.Base.Eq.{string_eq, nat_eq}
use liaison.Base.Exec.{ok, err}
use liaison.Base.Lists.{find, any, keep}
use liaison.Base.Table.{get, put, remove}
use liaison.Agent.Tool.Types.{
  RiskLevel, ApprovalMode, DisclosureMode, SessionKind, ToolId, ToolDescriptor, ToolInvocation,
  ToolSetSnapshot, is_valid_kind, effective_kind, find_tool, tool_id_eq, tool_id_beq,
}
use liaison.Agent.Tool.Validation.{GoLibrary, validate_descriptor}
use liaison.Agent.Tool.Registry.{
  ToolRegistration, Registry, new_registry, register, unload, acquire, release, already_registered,
  not_found, entry_of, set_status, valid_status_transition,
}
use liaison.Agent.Tool.Registry.Leases.{is_ok, unloaded_grants_nothing, release_spares_others}
use liaison.Agent.Tool.Catalog.{upsert, mark, by_model_name}
use liaison.Agent.Tool.Engine.{
  Engine, registers, replaces, EngineReach, fresh, next, advance, new_engine, engine_register,
  engine_unload, unloads, acquires, releases, drain_replaced,
}
use liaison.Agent.Tool.Engine.History.{shows, shown_iff_leased, one_live_version}
use liaison.Agent.Tool.Gate.{
  ApprovalGrant, Encodings, evaluate, validates, valid_attachment, descriptor_matches_session,
}
use liaison.Agent.Tool.Gate.Running.{Tools, admit, execute}
use liaison.Agent.Tool.Gate.Approval.{is_done, admit_iff}
use liaison.Agent.Tool.Gate.Stopping.{uncleared_takes_nothing}

abbrev pub go : GoLibrary
go = record {
  is_tool_part = λ s. true;
  is_version = λ s. true;
  trim_space = λ s. s;
  size = λ s. 1;
  json_valid = λ b. true;
  json_object = λ b. true;
}

abbrev encodings : Encodings
encodings = record {
  json_valid = λ b. true;
  compact = λ b. some b;
  html_escape = λ b. b;
  hex_sha256 = λ b. "0";
}

abbrev pub tool : String → ToolDescriptor
tool version = record {
  session_kinds = [];
  permission = none;
  id = record { namespace = "terminal"; name = "execute"; version = version };
  display_name = "Run a command";
  description = "Run a command";
  when_to_use = "";
  input_schema = 123 ∷ 125 ∷ [];
  protocols = [];
  capabilities = [];
  tags = [];
  risk = RiskLevel.high;
  approval = ApprovalMode.by_policy;
  disclosure = DisclosureMode.always_shown;
  default_timeout = 0;
  source = record { id = "core"; kind = "builtin" };
}

abbrev pub registration : String → ToolRegistration
registration version = record { descriptor = tool version; factory = some 0 }

abbrev one_version : Registry
one_version = (register (registration "1.0.0") false new_registry).1

abbrev leased_version : Registry
leased_version = (acquire (tool "1.0.0").id 1 one_version).1

abbrev replaced : Registry
replaced = (register (registration "1.0.0") true leased_version).1

unloaded_grants_nothing_example :
    is_ok (acquire (tool "1.0.0").id 1 (unload (tool "1.0.0").id true leased_version).1).0 ≡ false
unfolding register acquire unload get put tool_id_beq
unloaded_grants_nothing_example =
    unloaded_grants_nothing (tool "1.0.0").id true leased_version 1 (2, false) refl

release_spares_others_example :
    entry_of (tool "1.0.0").id (release 0 1 replaced) ≡ entry_of (tool "1.0.0").id replaced
unfolding register acquire get put tool_id_beq
release_spares_others_example =
    release_spares_others 0 1 1 (tool "1.0.0").id replaced refl (λ h. ground arith)

-- The tool is unloaded while a lease is out, and then the lease is released.
abbrev abandoned : Engine
abandoned = advance go (releases 0 1) (
    advance go (unloads (tool "1.0.0").id false) (
      advance go (acquires (tool "1.0.0").id 1)
        (advance go (registers (registration "1.0.0")) new_engine)))

-- The registration is gone, but its name is taken.
abandoned_name :
    ((engine_register go (registration "1.0.0") false abandoned).0 ≡ err already_registered)
    × ((engine_unload (tool "1.0.0").id false abandoned).0 ≡ err not_found)
unfolding advance engine_register engine_unload release acquire unload by_model_name upsert mark
    register validate_descriptor keep get put remove any tool_id_beq
abandoned_name = (refl, refl)

abbrev pub calls : Engine
calls =
    advance go (replaces (registration "2.0.0"))
      (advance go (registers (registration "1.0.0")) new_engine)

pub calls-Reach : EngineReach go calls
calls-Reach = next (next fresh (registers (registration "1.0.0"))) (replaces (registration "2.0.0"))

shown_iff_leased_example :
    is_ok (acquire (tool "2.0.0").id 3 calls.registry).0
    ≡ shows 3 (get (tool "2.0.0").id calls.catalog.entries)
shown_iff_leased_example = shown_iff_leased calls-Reach (tool "2.0.0").id 3

one_live_version_example : ◌≡◌ {A = ToolId} (tool "2.0.0").id (tool "2.0.0").id
unfolding advance engine_register drain_replaced by_model_name upsert mark register
    validate_descriptor keep get put any tool_id_beq set_status valid_status_transition
one_live_version_example =
    one_live_version (tool "2.0.0").id (tool "2.0.0").id calls-Reach refl refl refl refl

abbrev pub snapshot : ToolSetSnapshot
snapshot = record {
  id = "snap";
  catalog_generation = 1;
  policy_revision = "";
  attachment_generation = ("a", 4) ∷ [];
  tools =
      (record { descriptor = tool "1.0.0"; registration_generation = 1; estimated_tokens = 9 })
      ∷ [];
  created_at = 0;
}

abbrev pub invocation : ToolInvocation
invocation = record {
  id = "i";
  call = record { id = (tool "1.0.0").id; input = [] };
  binding = record {
    session_kind = SessionKind.access;
    principal = record { user_id = 1; organization_id = 1 };
    attachment = record {
      id = "a";
      access_id = 1;
      application_id = 1;
      protocol = "web_ssh";
      capabilities = [];
      generation = 4;
      access_handle_id = "h";
    };
    tool_snapshot_id = "snap";
  };
  registration_generation = 0;
}

abbrev grant : ApprovalGrant
grant = record {
  approval_id = "g";
  invocation_id = "i";
  tool_id = (tool "1.0.0").id;
  tool_snapshot_id = "snap";
  input_sha256 = "0";
  attachment_generation = 4;
  expires_at = 10;
}

abbrev tools : Tools
tools = record { bind = λ r b. some (some (λ i. ok 7)); middleware = []; timeout = λ n h. h }

-- The call passes with the grant before it expires.
admit_iff_example :
    is_done
      (admit encodings (evaluate (λ p r a. none)) 9 snapshot (some grant) invocation one_version).0
    ≡ true
unfolding find_tool find descriptor_matches_session is_valid_kind effective_kind any
    valid_attachment validates get tool_id_beq
admit_iff_example =
    admit_iff encodings (λ p r a. none) 9 snapshot (some grant) invocation one_version

-- The grant has expired.
uncleared_takes_nothing_example :
    let o =
      execute encodings
        (evaluate (λ p r a. none))
        tools
        10
        snapshot
        (some grant)
        invocation
        one_version in
    (is_done o.0 ≡ false) × (o.1 ≡ one_version)
unfolding find_tool find descriptor_matches_session is_valid_kind effective_kind any
    valid_attachment validates get tool_id_beq
uncleared_takes_nothing_example =
    uncleared_takes_nothing encodings (λ p r a. none) tools 10 snapshot (some grant) invocation
      one_version refl
