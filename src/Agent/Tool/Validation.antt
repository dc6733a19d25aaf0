-- ===== src/Agent/Tool/Validation.antt =====
-- `ValidateDescriptor` (tool/types.go). The regular expressions, `strings.TrimSpace`, the sizes of
-- texts in bytes and the JSON decoder are Go's: they are the fields of `GoLibrary`. A duration is a
-- number here, so the test for a negative timeout has no counterpart.
use liaison.Base.{
  ℕ, String, Bool, true, false, not, ◌||◌, ◌*◌, Option, none, some, if◌then◌else◌, ltb,
}
use liaison.Base.Eq.{◌==◌, string_eq}
use liaison.Base.Lists.{any, is_empty, length}
use liaison.Agent.Tool.Types.{
  Bytes, SessionKind, unset, is_valid_kind, ResourcePermission, ToolDescriptor,
}

pub record GoLibrary : Type 0 where
  -- `toolPartPattern.MatchString` and `versionPattern.MatchString`.
  pub is_tool_part : String → Bool
  pub is_version : String → Bool
  pub trim_space : String → String
  -- `len` of a text.
  pub size : String → ℕ
  pub json_valid : Bytes → Bool
  -- Whether the bytes decode into a `map[string]json.RawMessage`.
  pub json_object : Bytes → Bool

abbrev pub is_unset : SessionKind → Bool
is_unset unset = true
is_unset _ = false

abbrev pub is_bad_kind : SessionKind → Bool
unfolding is_valid_kind
is_bad_kind kind = is_unset kind || not (is_valid_kind kind)

abbrev pub is_bad_permission : GoLibrary → Option ResourcePermission → Bool
is_bad_permission go none = false
is_bad_permission go (some p) = go.trim_space p.resource == "" || go.trim_space p.action == ""

-- Whether the descriptor passes.
unfoldable pub validate_descriptor : GoLibrary → ToolDescriptor → Bool
validate_descriptor go d =
    if not (go.is_tool_part d.id.namespace)
    then false
    else if not (go.is_tool_part d.id.name)
    then false
    else if not (go.is_version d.id.version)
    then false
    else if go.trim_space d.description == ""
    then false
    else if ltb 2048 (go.size d.description) || ltb 2048 (go.size d.when_to_use)
    then false
    else if is_empty d.input_schema
        || ltb (64 * 1024) (length d.input_schema)
        || not (go.json_valid d.input_schema)
    then false
    else if not (go.json_object d.input_schema)
    then false
    else if d.source.id == "" || d.source.kind == ""
    then false
    else if any is_bad_kind d.session_kinds
    then false
    else not (is_bad_permission go d.permission)
