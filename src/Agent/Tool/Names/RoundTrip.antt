-- ===== src/Agent/Tool/Names/RoundTrip.antt =====
-- Tool IDs as texts and back (`ToolID.String` and `ParseToolID` of tool/types.go).
use Prim.Native.Char.{Char}
use Prim.Native.String as Native
use Prim.Native.String.{◌++◌}
use text.Mathlib.TextLemmas.{append_assoc}
use liaison.Base.{
  ℕ, String, ◌≡◌, refl, Bool, true, false, ◌&&◌, Option, none, some, List, [], ◌∷◌, arith,
  Bool-cases, inl, inr, sym,
}
use liaison.Base.Exec.{ok}
use liaison.Agent.Tool.Types.{ToolId}
use liaison.Agent.Tool.Names.{
  id_text, parse_tool_id, is_tool_part, is_version, all_chars, is_part_char, is_suffix_char,
  skip_digits, number, dot, is_ending, is_code, split, checked, and_then, from_parts, from_name,
}
use liaison.Agent.Tool.Names.Splitting.{is_free, all_chars-append, split-join, split_two}

-- A test that refuses a character lets no text with it pass.
all_chars-is_free :
    (p : Char → Bool) (at : ℕ)
    → ((c : Char) → p c ≡ true → is_code at c ≡ false)
    → (s : String) → all_chars p s ≡ true
    → is_free at s ≡ true
unfolding all_chars
all_chars-is_free p at off Native.[] h = refl
all_chars-is_free p at off (Native.◌∷◌ c s) h = ground (arith, off c, all_chars-is_free p at off s)

part-is_free_at : (s : String) → is_tool_part s ≡ true → is_free b'@' s ≡ true
unfolding is_tool_part all_chars
part-is_free_at Native.[] h = refl
part-is_free_at (Native.◌∷◌ c s) h =
    ground (arith, all_chars-is_free is_part_char b'@' (λ d p. ground arith) s)

point-is_free_at : is_free b'@' "." ≡ true
unfolding all_chars
point-is_free_at = refl

part-is_free_dot : (s : String) → is_tool_part s ≡ true → is_free b'.' s ≡ true
unfolding is_tool_part all_chars
part-is_free_dot Native.[] h = refl
part-is_free_dot (Native.◌∷◌ c s) h =
    ground (arith, all_chars-is_free is_part_char b'.' (λ d p. ground arith) s)

skip_digits-is_free : (s : String) → is_free b'@' (skip_digits s) ≡ true → is_free b'@' s ≡ true
unfolding skip_digits all_chars
skip_digits-is_free Native.[] h = refl
skip_digits-is_free (Native.◌∷◌ c s) h = ground (arith, skip_digits-is_free s)

number-is_free : (s t : String) → number s ≡ some t → is_free b'@' t ≡ true → is_free b'@' s ≡ true
unfolding number all_chars
number-is_free Native.[] t h free = refl
number-is_free (Native.◌∷◌ c s) t h free = ground (arith, skip_digits-is_free s)

dot-is_free : (s t : String) → dot s ≡ some t → is_free b'@' t ≡ true → is_free b'@' s ≡ true
unfolding dot all_chars
dot-is_free Native.[] t h free = refl
dot-is_free (Native.◌∷◌ c s) t h free = ground arith

ending-is_free : (s : String) → is_ending s ≡ true → is_free b'@' s ≡ true
unfolding is_ending all_chars
ending-is_free Native.[] h = refl
ending-is_free (Native.◌∷◌ c s) h =
    ground (arith, all_chars-is_free is_suffix_char b'@' (λ d p. ground arith) s)

and_then_inv :
    (o : Option String) (rest : String → Bool)
    → and_then o rest ≡ true
    → (t : String) × (o ≡ some t) × (rest t ≡ true)
and_then_inv none rest h = absurd (cc h)
and_then_inv (some t) rest h = (t, refl, h)

version-is_free : (s : String) → is_version s ≡ true → is_free b'@' s ≡ true
unfolding is_version
version-is_free s h =
    let (a, major, h) = and_then_inv (number s) _ h in
    let (b, point, h) = and_then_inv (dot a) _ h in
    let (c, minor, h) = and_then_inv (number b) _ h in
    let (d, second, h) = and_then_inv (dot c) _ h in
    let (e, patch, h) = and_then_inv (number d) _ h in
    number-is_free s a major (
      dot-is_free a b point (
        number-is_free b c minor
          (dot-is_free c d second (number-is_free d e patch (ending-is_free e h)))))

-- The three tests of `ParseToolID`.
abbrev pub is_well_named : ToolId → Bool
is_well_named id = is_tool_part id.namespace && is_tool_part id.name && is_version id.version

-- An ID whose namespace, name and version match the patterns is parsed back from its text.
pub parse_tool_id-id_text :
    (id : ToolId) → is_well_named id ≡ true → parse_tool_id (id_text id) ≡ ok id
unfolding parse_tool_id id_text
parse_tool_id-id_text id h =
    let name : String = id.namespace ++ ("." ++ id.name) in
    let name_free : is_free b'@' name ≡ true = rw all_chars-append (
      rw all_chars-append (
        ground (arith, point-is_free_at, part-is_free_at id.namespace, part-is_free_at id.name))) in
    let named : split b'.' name ≡ id.namespace ∷ id.name ∷ [] =
      split-join "." id.namespace id.name (part-is_free_dot id.namespace (ground arith))
        (part-is_free_dot id.name (ground arith)) in
    let whole : split b'@' (name ++ ("@" ++ id.version)) ≡ name ∷ id.version ∷ [] =
      split-join "@" name id.version name_free (version-is_free id.version (ground arith)) in
    let text : id.namespace ++ ("." ++ (id.name ++ ("@" ++ id.version)))
        ≡ name ++ ("@" ++ id.version) =
      cc (
        append_assoc id.namespace ("." ++ id.name) ("@" ++ id.version),
        append_assoc "." id.name ("@" ++ id.version),
      ) in
    rw text (rw whole (rw named (ground arith)))

from_parts_inv :
    (parts : List String) (id : ToolId)
    → from_parts parts ≡ ok id
    → (name : String) × (version : String) × (parts ≡ name ∷ version ∷ [])
      × (from_name (split b'.' name) version ≡ ok id)
from_parts_inv (name ∷ version ∷ []) id h = (name, version, refl, h)
from_parts_inv [] id h = absurd cc
from_parts_inv (name ∷ []) id h = absurd cc
from_parts_inv (name ∷ version ∷ more ∷ rest) id h = absurd cc

from_name_inv :
    (parts : List String) (version : String) (id : ToolId)
    → from_name parts version ≡ ok id
    → (namespace : String) × (name : String) × (parts ≡ namespace ∷ name ∷ [])
      × (checked (record { namespace = namespace; name = name; version = version }) ≡ ok id)
from_name_inv (namespace ∷ name ∷ []) version id h = (namespace, name, refl, h)
from_name_inv [] version id h = absurd cc
from_name_inv (name ∷ []) version id h = absurd cc
from_name_inv (namespace ∷ name ∷ more ∷ rest) version id h = absurd cc

checked_inv : (made id : ToolId) → checked made ≡ ok id → (made ≡ id) × (is_well_named made ≡ true)
checked_inv made id h = elim (Bool-cases (is_well_named made)) [
  | inl fine ↦ (ground arith, fine)
  | inr bad ↦ absurd (ground arith)
]

-- What is parsed is what the ID's text says, and it matches the patterns: no text is parsed to an
-- ID that is written in another way.
pub id_text-parse_tool_id :
    (value : String) (id : ToolId)
    → parse_tool_id value ≡ ok id
    → (id_text id ≡ value) × (is_well_named id ≡ true)
unfolding parse_tool_id id_text
id_text-parse_tool_id value id h =
    let (name, version, whole, h) = from_parts_inv (split b'@' value) id h in
    let (namespace, first, named, h) = from_name_inv (split b'.' name) version id h in
    let text = split_two "@" value name version whole in
    let parts = split_two "." name namespace first named in
    let made : ToolId = record { namespace = namespace; name = first; version = version } in
    let (same, fine) = checked_inv made id h in
    rw (sym same) (
      cc (
        text,
        parts,
        append_assoc namespace ("." ++ first) ("@" ++ version),
        append_assoc "." first ("@" ++ version),
      ),
      fine,
    )
