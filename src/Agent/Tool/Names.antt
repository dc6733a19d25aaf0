-- ===== src/Agent/Tool/Names.antt =====
-- The texts of tool IDs (tool/types.go): `ToolID.String`, `ParseToolID`, and the two regular
-- expressions that it tests its parts with. `strings.Split` is written out for one character.
pub mod Splitting
pub mod RoundTrip
use Prim.Native.Char.{Char, code}
use Prim.Native.String as Native
use Prim.Native.String.{count, ◌++◌}
use liaison.Base.{
  ℕ, String, Bool, true, false, ◌&&◌, ◌||◌, Option, none, some, List, [], ◌∷◌, leb, nat_beq,
  if◌then◌else◌,
}
use liaison.Base.Exec.{Result, ok, err}
use liaison.Agent.Tool.Types.{ToolId}
use liaison.Agent.Tool.Registry.{ToolError, invalid_descriptor}

-- `ToolID.ModelName`.
unfoldable pub model_name : ToolId → String
model_name id = id.namespace ++ "." ++ id.name

-- `ToolID.String`.
unfoldable pub id_text : ToolId → String
unfolding model_name
id_text id = id.namespace ++ "." ++ id.name ++ "@" ++ id.version

abbrev pub is_code : ℕ → Char → Bool
is_code n c = nat_beq (code c) n

abbrev pub within : ℕ → ℕ → Char → Bool
within lo hi c = leb lo (code c) && leb (code c) hi

abbrev pub is_digit : Char → Bool
is_digit = within b'0' b'9'

abbrev pub is_lower : Char → Bool
is_lower = within b'a' b'z'

-- `[a-z0-9_]`
abbrev pub is_part_char : Char → Bool
is_part_char c = is_lower c || is_digit c || is_code b'_' c

-- `[0-9A-Za-z.-]`
abbrev pub is_suffix_char : Char → Bool
is_suffix_char c =
    is_digit c || within b'A' b'Z' c || is_lower c || is_code b'.' c || is_code b'-' c

unfoldable pub all_chars : (Char → Bool) → String → Bool
all_chars p Native.[] = true
all_chars p (Native.◌∷◌ c s) = p c && all_chars p s

-- `toolPartPattern`, `^[a-z][a-z0-9_]{0,62}$`.
unfoldable pub is_tool_part : String → Bool
is_tool_part Native.[] = false
is_tool_part (Native.◌∷◌ c s) = is_lower c && leb (count s) 62 && all_chars is_part_char s

-- What is left behind the digits at the front.
unfoldable pub skip_digits : String → String
skip_digits Native.[] = Native.[]
skip_digits (Native.◌∷◌ c s) =
    let rest = skip_digits s in if is_digit c then rest else Native.◌∷◌ c s

-- `[0-9]+` at the front.
unfoldable pub number : String → Option String
number Native.[] = none
number (Native.◌∷◌ c s) = if is_digit c then some (skip_digits s) else none

-- `\.` at the front.
unfoldable pub dot : String → Option String
dot Native.[] = none
dot (Native.◌∷◌ c s) = if is_code b'.' c then some s else none

abbrev pub is_some_text : String → Bool
is_some_text Native.[] = false
is_some_text (Native.◌∷◌ c s) = true

-- `(?:-[0-9A-Za-z.-]+)?$`
unfoldable pub is_ending : String → Bool
is_ending Native.[] = true
is_ending (Native.◌∷◌ c s) = is_code b'-' c && is_some_text s && all_chars is_suffix_char s

abbrev pub and_then : Option String → (String → Bool) → Bool
and_then none rest = false
and_then (some s) rest = rest s

-- `versionPattern`.
unfoldable pub is_version : String → Bool
is_version s = and_then (number s) λ s.
    and_then (dot s)
      λ s. and_then (number s) λ s. and_then (dot s) λ s. and_then (number s) is_ending

-- A character in front of the first part.
abbrev pub in_front : Char → List String → List String
in_front c [] = Native.◌∷◌ c Native.[] ∷ []
in_front c (part ∷ parts) = Native.◌∷◌ c part ∷ parts

-- `strings.Split` at a character.
unfoldable pub split : ℕ → String → List String
split at Native.[] = Native.[] ∷ []
split at (Native.◌∷◌ c s) =
    let rest = split at s in if is_code at c then Native.[] ∷ rest else in_front c rest

abbrev pub checked : ToolId → Result ToolError ToolId
checked id =
    if is_tool_part id.namespace && is_tool_part id.name && is_version id.version
    then ok id
    else err invalid_descriptor

-- From the parts of the name, and the version.
abbrev pub from_name : List String → String → Result ToolError ToolId
from_name (namespace ∷ name ∷ []) version =
    checked (record { namespace = namespace; name = name; version = version })
from_name _ version = err invalid_descriptor

abbrev pub from_parts : List String → Result ToolError ToolId
from_parts (name ∷ version ∷ []) = from_name (split b'.' name) version
from_parts _ = err invalid_descriptor

unfoldable pub parse_tool_id : String → Result ToolError ToolId
parse_tool_id value = from_parts (split b'@' value)
