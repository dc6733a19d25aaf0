-- ===== src/Agent/Tool/Disclosure/Candidates.antt =====
-- The first loops of `BuildSnapshot` and `Search` (tool/disclosure.go), which have their tests in
-- common, and the order of the candidates. The catalog's map is iterated in the order of its table.
use liaison.Base.{
  ℕ, Bool, true, false, not, ◌&&◌, Option, none, some, List, [], ◌∷◌, ltb, if◌then◌else◌,
}
use liaison.Base.Eq.{◌==◌, nat_eq, string_eq}
use liaison.Base.Exec.{Result, ok, err}
use liaison.Base.Lists.{any}
use liaison.Base.Sort.{str_ltb}
use liaison.Agent.Tool.Types.{
  AttachmentSnapshot, ToolDescriptor, ToolId, Principal, active, deferred, risk_rank, tool_id_eq,
}
use liaison.Agent.Tool.Registry.{is_in, status_beq}
use liaison.Agent.Tool.Catalog.{CatalogEntry}
use liaison.Agent.Tool.Gate.{descriptor_matches_session}
use liaison.Agent.Tool.Disclosure.{
  DisclosureRequest, DisclosureError, visibility_failed, descriptor_matches_attachment,
  matching_attachment, find_primary_attachment,
}
use liaison.Agent.Tool.Disclosure.Scoring.{GoTexts, disclosure_score, same_mode}
use liaison.Agent.Tool.Names.{id_text}

-- `VisibilityFilter.AllowTool`, with errors as numbers.
abbrev pub AllowTool : Type 0
AllowTool = Principal → Option AttachmentSnapshot → ToolDescriptor → Result ℕ Bool

pub record RankedTool : Type 0 where
  pub entry : CatalogEntry
  pub score : ℕ
  pub promoted : Bool

-- Membership of the sets that `toolIDSet` makes.
unfoldable pub among : ToolId → List ToolId → Bool
among id ids = any (λ other. other == id) ids

-- A filter that fails ends the loop, one that refuses passes over the entry.
abbrev pub admitted :
    {A : Type 0} → ToolId → Result ℕ Bool → Option A → Result DisclosureError (Option A)
admitted id (err x) found = err (visibility_failed id x)
admitted id (ok false) found = ok none
admitted id (ok true) found = ok found

-- What a loop has when one entry more is looked at.
abbrev pub gathered :
    {A : Type 0}
    → Result DisclosureError (Option A)
    → Result DisclosureError (List A)
    → Result DisclosureError (List A)
gathered (err x) rest = err x
gathered (ok none) rest = rest
gathered (ok (some a)) (err x) = err x
gathered (ok (some a)) (ok rest) = ok (a ∷ rest)

-- The loop over the entries, `make` being what it does with one.
unfoldable pub gather :
    {A : Type 0}
    → (CatalogEntry → Result DisclosureError (Option A))
    → List CatalogEntry
    → Result DisclosureError (List A)
gather make [] = ok []
gather make (entry ∷ entries) = gathered (make entry) (gather make entries)

-- The attachment that an entry is tested with.
abbrev pub attachment_for : DisclosureRequest → ToolDescriptor → Option AttachmentSnapshot
attachment_for request descriptor =
    matching_attachment request.attachments
      (find_primary_attachment request.attachments request.primary) descriptor

-- The rest of the first loop of `BuildSnapshot`.
abbrev pub ranked : DisclosureRequest → GoTexts → CatalogEntry → Option RankedTool
ranked request go entry =
    let d = entry.descriptor in
    let is_promoted = among d.id request.promoted in
    if same_mode d.disclosure deferred && not is_promoted
    then none
    else some (record {
      entry = entry;
      score =
          disclosure_score go d request.query is_promoted (among d.id request.recently_used)
            (is_in (attachment_for request d));
      promoted = is_promoted;
    })

module _ (allow_tool : AllowTool) (request : DisclosureRequest) where
  -- The tests of both loops; `found` is what an entry that passes them gives.
  unfoldable pub tested : {A : Type 0} → CatalogEntry → Option A → Result DisclosureError (Option A)
  tested entry found =
      let d = entry.descriptor in
      let attachment = attachment_for request d in
      if not (status_beq entry.status active)
      then ok none
      else if not (descriptor_matches_session d request.session_kind)
      then ok none
      else if not (descriptor_matches_attachment d attachment)
      then ok none
      else admitted d.id (allow_tool request.principal attachment d) found

  unfoldable pub candidate : GoTexts → CatalogEntry → Result DisclosureError (Option RankedTool)
  candidate go entry = tested entry (ranked request go entry)

abbrev pub same_bool : Bool → Bool → Bool
same_bool true b = b
same_bool false b = not b

-- The `less` of `sort.Slice` in `BuildSnapshot`.
unfoldable pub ranks_before : RankedTool → RankedTool → Bool
ranks_before a b =
    if not (same_bool a.promoted b.promoted)
    then a.promoted
    else if not (a.score == b.score)
    then ltb b.score a.score
    else if not (risk_rank a.entry.descriptor.risk == risk_rank b.entry.descriptor.risk)
    then ltb (risk_rank a.entry.descriptor.risk) (risk_rank b.entry.descriptor.risk)
    else str_ltb (id_text a.entry.descriptor.id) (id_text b.entry.descriptor.id)
