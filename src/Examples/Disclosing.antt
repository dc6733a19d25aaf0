-- ===== src/Examples/Disclosing.antt =====
-- Names of tools, snapshots and searches (tool/types.go, tool/disclosure.go) at small inputs.
use liaison.Base.{◌≤◌, ◌≡◌, refl, true, [], ◌∷◌}
use liaison.Base.Every.{Every}
use liaison.Base.Int.{pos, negsuc}
use liaison.Base.Eq.{string_eq}
use liaison.Base.Exec.{ok}
use liaison.Base.Lists.{length, any, find, take, keep}
use liaison.Base.Sort.{sort_by, insert_by}
use liaison.Base.Table.{get, put}
use liaison.Agent.Tool.Types.{
  SessionKind, ToolSetSnapshot, tool_id_eq, tool_id_beq, is_valid_kind, effective_kind,
}
use liaison.Agent.Tool.Names.{
  parse_tool_id, id_text, is_tool_part, is_version, all_chars, skip_digits, number, dot, is_ending,
  split, model_name,
}
use liaison.Agent.Tool.Names.RoundTrip.{is_well_named, parse_tool_id-id_text, id_text-parse_tool_id}
use liaison.Agent.Tool.Validation.{validate_descriptor}
use liaison.Agent.Tool.Gate.{descriptor_matches_session}
use liaison.Agent.Tool.Registry.{acquire, register, set_status, valid_status_transition}
use liaison.Agent.Tool.Registry.Leases.{is_ok}
use liaison.Agent.Tool.Catalog.{by_model_name, upsert, mark}
use liaison.Agent.Tool.Engine.{advance, engine_register, drain_replaced}
use liaison.Agent.Tool.Engine.Entries.{Reach-IsKeyed}
use liaison.Agent.Tool.Engine.History.{Reach-IsCoherent}
use liaison.Agent.Tool.Disclosure.{
  DisclosureRequest, normalize_budget, descriptor_matches_attachment, matching_attachment,
  find_primary_attachment,
}
use liaison.Agent.Tool.Disclosure.Scoring.{
  GoTexts, descriptor_match_score, disclosure_score, match_parts, hits, estimate_descriptor_tokens,
  total_size,
}
use liaison.Agent.Tool.Disclosure.Candidates.{
  AllowTool, gather, candidate, tested, among, ranks_before,
}
use liaison.Agent.Tool.Disclosure.Snapshot.{
  build_snapshot, disclose, spend, expose, attachment_generations,
}
use liaison.Agent.Tool.Disclosure.Search.{search, hit, scores_before, summary_of}
use liaison.Agent.Tool.Disclosure.Limits.{tokens_of, always_of, snapshot_within_budget}
use liaison.Agent.Tool.Disclosure.Shown.{
  IsDisclosed, snapshot_tools-IsDisclosed, disclosed_is_leased,
}
use liaison.Agent.Tool.Disclosure.Found.{IsFound, search_finds_offered}
use liaison.Examples.Tools.{tool, calls, calls-Reach}

parse_tool_id-id_text_example :
    parse_tool_id (id_text (tool "10.0.2-rc.1").id) ≡ ok (tool "10.0.2-rc.1").id
unfolding is_tool_part is_version all_chars skip_digits number dot is_ending
parse_tool_id-id_text_example = parse_tool_id-id_text (tool "10.0.2-rc.1").id refl

id_text-parse_tool_id_example :
    (id_text (tool "1.0.0").id ≡ "terminal.execute@1.0.0")
    × (is_well_named (tool "1.0.0").id ≡ true)
unfolding parse_tool_id split is_tool_part is_version all_chars skip_digits number dot is_ending
id_text-parse_tool_id_example =
    id_text-parse_tool_id "terminal.execute@1.0.0" (tool "1.0.0").id refl

abbrev texts : GoTexts
texts = record { to_lower = λ s. s; trim_space = λ s. s; fields = λ s. s ∷ [] }

abbrev allow_all : AllowTool
allow_all principal attachment d = ok true

abbrev request : DisclosureRequest
request = record {
  session_kind = SessionKind.access;
  principal = record { user_id = 1; organization_id = 1 };
  attachments = [];
  primary = "";
  query = "";
  promoted = [];
  recently_used = [];
  policy_revision = "p";
  budget = record {
    max_always_visible = pos 1;
    max_candidates = pos 0;
    max_schemas = negsuc 4;
    max_tokens = pos 11;
  };
}

-- The version that is draining is not shown.
abbrev shown : ToolSetSnapshot
shown = record {
  id = "tls_00";
  catalog_generation = 3;
  policy_revision = "p";
  attachment_generation = [];
  tools =
      (record { descriptor = tool "2.0.0"; registration_generation = 3; estimated_tokens = 11 })
      ∷ [];
  created_at = 5;
}

shown_lem :
    build_snapshot texts allow_all (λ b. "00") request calls.catalog (ok (0 ∷ [])) 5 ≡ ok shown
unfolding advance engine_register drain_replaced by_model_name upsert mark register
    validate_descriptor keep get put any tool_id_beq set_status valid_status_transition
    build_snapshot disclose spend expose attachment_generations gather candidate tested among
    ranks_before sort_by insert_by descriptor_match_score disclosure_score match_parts hits
    estimate_descriptor_tokens total_size normalize_budget descriptor_matches_attachment
    matching_attachment find_primary_attachment descriptor_matches_session is_valid_kind
    effective_kind model_name find
shown_lem = refl

snapshot_within_budget_example :
    (length shown.tools ≤ 16) × (tokens_of shown.tools ≤ 11) × (always_of shown.tools ≤ 1)
unfolding normalize_budget
snapshot_within_budget_example =
    snapshot_within_budget texts allow_all (λ b. "00") request calls.catalog (ok (0 ∷ [])) 5 shown
      shown_lem

snapshot_tools-IsDisclosed_example : Every (IsDisclosed allow_all request calls.catalog) shown.tools
snapshot_tools-IsDisclosed_example =
    snapshot_tools-IsDisclosed allow_all request calls.catalog texts (λ b. "00") (ok (0 ∷ [])) 5
      shown (Reach-IsKeyed calls-Reach) (Reach-IsCoherent calls-Reach).0.key shown_lem

disclosed_is_leased_example :
    Every
      (λ t. is_ok (acquire t.descriptor.id t.registration_generation calls.registry).0 ≡ true)
      shown.tools
disclosed_is_leased_example =
    disclosed_is_leased texts allow_all (λ b. "00") request calls (ok (0 ∷ [])) 5 shown calls-Reach
      shown_lem

found_lem :
    search texts allow_all request calls.catalog "execute" ≡ ok (summary_of (tool "2.0.0") ∷ [])
unfolding advance engine_register drain_replaced by_model_name upsert mark register
    validate_descriptor keep get put any tool_id_beq set_status valid_status_transition search hit
    gather tested scores_before sort_by insert_by take descriptor_match_score match_parts hits
    normalize_budget descriptor_matches_attachment matching_attachment find_primary_attachment
    descriptor_matches_session is_valid_kind effective_kind model_name find
found_lem = refl

search_finds_offered_example :
    (length (summary_of (tool "2.0.0") ∷ []) ≤ 12)
    × Every
        (IsFound texts allow_all request calls.catalog "execute")
        (summary_of (tool "2.0.0") ∷ [])
unfolding normalize_budget
search_finds_offered_example =
    search_finds_offered texts allow_all request calls.catalog "execute"
      (summary_of (tool "2.0.0") ∷ []) (Reach-IsKeyed calls-Reach)
      (Reach-IsCoherent calls-Reach).0.key found_lem
