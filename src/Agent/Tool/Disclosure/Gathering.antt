-- ===== src/Agent/Tool/Disclosure/Gathering.antt =====
-- What passes the tests that `BuildSnapshot` and `Search` have in common (tool/disclosure.go).
use liaison.Base.{
  ℕ, ◌≡◌, refl, Bool, true, false, not, Option, none, some, List, [], ◌∷◌, arith, if_rule, sym,
}
use liaison.Base.Exec.{Result, ok, err}
use liaison.Base.Every.{Every, Every-map, Every-mono}
use liaison.Base.Table.{Table, get, values}
use liaison.Base.Table.Keys.{IsMap, rows_found}
use liaison.Agent.Tool.Types.{ToolId, active, tool_id_eq, tool_id_beq_iff}
use liaison.Agent.Tool.Registry.{status_beq}
use liaison.Agent.Tool.Catalog.{CatalogEntry}
use liaison.Agent.Tool.Gate.{descriptor_matches_session}
use liaison.Agent.Tool.Engine.Agreement.{keyed}
use liaison.Agent.Tool.Disclosure.{
  DisclosureRequest, DisclosureError, descriptor_matches_attachment,
}
use liaison.Agent.Tool.Disclosure.Candidates.{
  AllowTool, gather, gathered, tested, admitted, attachment_for,
}

-- What each entry gives, if it gives anything, is there for everything that is gathered.
pub gather_rule :
    {A : Type 0} (P : A → Type 0) (make : CatalogEntry → Result DisclosureError (Option A))
    (entries : List CatalogEntry) (found : List A)
    → Every (λ entry. (a : A) → make entry ≡ ok (some a) → P a) entries
    → gather make entries ≡ ok found
    → Every P found
unfolding gather
gather_rule P make [] [] h g = tt
gather_rule P make [] (a ∷ found) h g = absurd cc
gather_rule P make (entry ∷ entries) found h g =
    split_off (make entry) (gather make entries) h.0
      (λ rest e. gather_rule P make entries rest h.1 e) g
  where
    split_off :
        (first : Result DisclosureError (Option _)) (rest : Result DisclosureError (List _))
        → ((a : _) → first ≡ ok (some a) → P a)
        → ((found : List _) → rest ≡ ok found → Every P found)
        → gathered first rest ≡ ok found
        → Every P found
    split_off (err x) rest here after g = absurd cc
    split_off (ok none) rest here after g = after found g
    split_off (ok (some a)) (err x) here after g = absurd cc
    split_off (ok (some a)) (ok others) here after g =
        let same : a ∷ others ≡ found = cc g in rw (sym same) (here a refl, after others refl)

-- Each entry of a map of entries stands under its own ID.
pub entries_listed :
    (entries : Table ToolId CatalogEntry)
    → IsMap entries
    → ((id : ToolId) → keyed id (get id entries) ≡ true)
    → Every (λ entry. get entry.descriptor.id entries ≡ some entry) (values entries)
entries_listed entries single key =
    Every-map (λ entry. get entry.descriptor.id entries ≡ some entry) (λ row. row.1) entries
      (Every-mono (λ row. get row.0 entries ≡ some row.1)
        (λ row. get row.1.descriptor.id entries ≡ some row.1)
        (λ row found. ground (arith, key row.0, tool_id_beq_iff row.1.descriptor.id row.0)) entries
        (rows_found entries single))

admitted_inv :
    {A : Type 0} (id : ToolId) (answer : Result ℕ Bool) (found : Option A) (a : A)
    → admitted id answer found ≡ ok (some a)
    → (answer ≡ ok true) × (found ≡ some a)
admitted_inv id (ok true) found a h = (refl, cc)
admitted_inv id (ok false) found a h = absurd cc
admitted_inv id (err x) found a h = absurd cc

module _ (allow_tool : AllowTool) (request : DisclosureRequest) where
  -- The entry passes every test of the loops.
  pub record IsOffered (entry : CatalogEntry) : Type 0 where
    pub running : status_beq entry.status active ≡ true
    pub in_session : descriptor_matches_session entry.descriptor request.session_kind ≡ true
    pub attached :
        descriptor_matches_attachment entry.descriptor (attachment_for request entry.descriptor)
        ≡ true
    pub allowed :
        allow_tool request.principal (attachment_for request entry.descriptor) entry.descriptor
        ≡ ok true

  pub tested_inv :
      {A : Type 0} (entry : CatalogEntry) (found : Option A) (a : A)
      → tested allow_tool request entry found ≡ ok (some a)
      → IsOffered entry × (found ≡ some a)
  unfolding tested
  tested_inv entry found a =
      let d = entry.descriptor in
      let P : Result DisclosureError (Option _) → Type 0 =
        λ o. o ≡ ok (some a) → IsOffered entry × (found ≡ some a) in
      if_rule P (not (status_beq entry.status active)) _ _ (λ _ h. absurd cc)
        λ running.
          if_rule P (not (descriptor_matches_session d request.session_kind)) _ _ (λ _ h. absurd cc)
            λ in_session.
              if_rule P (not (descriptor_matches_attachment d (attachment_for request d))) _ _
                (λ _ h. absurd cc)
                λ attached h.
                  let (allowed, same) =
                    admitted_inv d.id (allow_tool request.principal (attachment_for request d) d)
                      found a h in
                  (
                    record {
                      running = ground arith;
                      in_session = ground arith;
                      attached = ground arith;
                      allowed = allowed;
                    },
                    same,
                  )
