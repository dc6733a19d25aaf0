-- ===== src/Agent/Tool/Disclosure/Shown.antt =====
-- Which tools a snapshot has (`BuildSnapshot` of tool/disclosure.go), and that the registry grants
-- leases on them.
use liaison.Base.{ℕ, String, ◌≡◌, refl, true, false, not, ◌&&◌, some, List, arith, if_rule}
use liaison.Base.Tests.{nat_beq_iff}
use liaison.Base.Exec.{Result, ok}
use liaison.Base.Every.{Every, Every-concat, Every-sort_by, Every-mono}
use liaison.Base.Sort.{sort_by}
use liaison.Base.Table.{get, values}
use liaison.Base.Table.Keys.{IsMap}
use liaison.Agent.Tool.Types.{
  Bytes, Time, ToolId, deferred, ExposedTool, ToolSetSnapshot, tool_id_eq,
}
use liaison.Agent.Tool.Validation.{GoLibrary}
use liaison.Agent.Tool.Registry.{acquire}
use liaison.Agent.Tool.Registry.Leases.{is_ok}
use liaison.Agent.Tool.Catalog.{CatalogEntry, Catalog}
use liaison.Agent.Tool.Engine.{Engine, EngineReach}
use liaison.Agent.Tool.Engine.Agreement.{keyed}
use liaison.Agent.Tool.Engine.Entries.{Reach-IsKeyed}
use liaison.Agent.Tool.Engine.History.{Reach-IsCoherent, shown_iff_leased}
use liaison.Agent.Tool.Disclosure.{DisclosureRequest, normalize_budget, Budget}
use liaison.Agent.Tool.Disclosure.Scoring.{GoTexts, same_mode}
use liaison.Agent.Tool.Disclosure.Candidates.{
  AllowTool, RankedTool, among, candidate, ranked, gather, ranks_before,
}
use liaison.Agent.Tool.Disclosure.Gathering.{IsOffered, gather_rule, tested_inv, entries_listed}
use liaison.Agent.Tool.Disclosure.Snapshot.{Spent, nothing_spent, exposed_of, spend, build_snapshot}
use liaison.Agent.Tool.Disclosure.Loop.{Ends, disclose_rule, spend_rule, build_snapshot_inv}

-- An entry that is ranked is not deferred, or it has been promoted.
ranked_inv :
    (request : DisclosureRequest) (go : GoTexts) (entry : CatalogEntry) (c : RankedTool)
    → ranked request go entry ≡ some c
    → (c.entry ≡ entry)
      × ((same_mode entry.descriptor.disclosure deferred
            && not (among entry.descriptor.id request.promoted))
          ≡ false)
ranked_inv request go entry c =
    if_rule
      (λ o.
        o ≡ some c
        → (c.entry ≡ entry)
          × ((same_mode entry.descriptor.disclosure deferred
                && not (among entry.descriptor.id request.promoted))
              ≡ false))
      (same_mode entry.descriptor.disclosure deferred
        && not (among entry.descriptor.id request.promoted))
      _ _ (λ _ h. absurd cc) λ shown h. (cc, shown)

module _ (allow_tool : AllowTool) (request : DisclosureRequest) (catalog : Catalog) where
  -- The catalog lists the tool at its generation, the entry passes the tests, and a deferred tool
  -- is one that has been promoted.
  pub record IsDisclosed (tool : ExposedTool) : Type 0 where
    pub entry : CatalogEntry
    pub listed : get tool.descriptor.id catalog.entries ≡ some entry
    pub described : entry.descriptor ≡ tool.descriptor
    pub current : entry.registration_generation ≡ tool.registration_generation
    pub offered : IsOffered allow_tool request entry
    pub asked_for :
        (same_mode tool.descriptor.disclosure deferred
          && not (among tool.descriptor.id request.promoted))
        ≡ false

  candidate-IsDisclosed :
      (go : GoTexts) (entry : CatalogEntry)
      → get entry.descriptor.id catalog.entries ≡ some entry
      → (c : RankedTool) → candidate allow_tool request go entry ≡ ok (some c)
      → IsDisclosed (exposed_of c)
  unfolding candidate
  candidate-IsDisclosed go entry listed c h =
      let (offered, made) = tested_inv allow_tool request entry (ranked request go entry) c h in
      let (same, shown) = ranked_inv request go entry c made in
      rw same (record {
        entry = entry;
        listed = listed;
        described = refl;
        current = refl;
        offered = offered;
        asked_for = shown;
      })

  candidates-IsDisclosed :
      (go : GoTexts) (entries : List CatalogEntry)
      → Every (λ entry. get entry.descriptor.id catalog.entries ≡ some entry) entries
      → (cs : List RankedTool) → gather (candidate allow_tool request go) entries ≡ ok cs
      → Every (λ c. IsDisclosed (exposed_of c)) cs
  candidates-IsDisclosed go entries listed cs =
      gather_rule (λ c. IsDisclosed (exposed_of c)) (candidate allow_tool request go) entries cs
        (Every-mono _ _ (candidate-IsDisclosed go) entries listed)

  iterations_keep :
      (budget : Budget) (cs : List RankedTool)
      → Every (λ c. IsDisclosed (exposed_of c)) cs
      → Every
          (λ c.
            (s : Spent)
            → Every IsDisclosed s.tools
            → Ends (λ s. Every IsDisclosed s.tools) (spend budget c s))
          cs
  iterations_keep budget cs =
      Every-mono _ _
        (λ c disclosed s kept.
          spend_rule (Every IsDisclosed) budget c s kept
            (Every-concat IsDisclosed s.tools (exposed_of c) kept disclosed))
        cs

  -- Every tool of a snapshot is one that the catalog lists as active at the same generation, that
  -- fits the kind of session and the attachment it is tested with, that the filter allows, and that
  -- was promoted if it is deferred. The catalog's map has each key once, the ID of its entry.
  pub snapshot_tools-IsDisclosed :
      (go : GoTexts) (hex : Bytes → String) (random : Result ℕ Bytes) (now : Time)
      (snapshot : ToolSetSnapshot)
      → IsMap catalog.entries
      → ((id : ToolId) → keyed id (get id catalog.entries) ≡ true)
      → build_snapshot go allow_tool hex request catalog random now ≡ ok snapshot
      → Every IsDisclosed snapshot.tools
  snapshot_tools-IsDisclosed go hex random now snapshot single key built =
      let budget = normalize_budget request.budget in
      let (candidates, gathered, tools) =
        build_snapshot_inv go allow_tool hex request catalog random now snapshot built in
      let disclosed =
        candidates-IsDisclosed go (values catalog.entries)
          (entries_listed catalog.entries single key) candidates gathered in
      rw tools (
        disclose_rule (λ s. Every IsDisclosed s.tools) budget (sort_by ranks_before candidates)
          nothing_spent
          (iterations_keep budget (sort_by ranks_before candidates)
            (Every-sort_by (λ c. IsDisclosed (exposed_of c)) ranks_before candidates disclosed))
          tt)

-- After any history of registrations, replacements, switches, unloads and leases, failed ones
-- included, the registry grants a lease on every tool of a snapshot that is built then, at the
-- generation in the snapshot.
pub disclosed_is_leased :
    {lib : GoLibrary} (go : GoTexts) (allow_tool : AllowTool) (hex : Bytes → String)
    (request : DisclosureRequest) (e : Engine) (random : Result ℕ Bytes) (now : Time)
    (snapshot : ToolSetSnapshot)
    → EngineReach lib e
    → build_snapshot go allow_tool hex request e.catalog random now ≡ ok snapshot
    → Every
        (λ tool.
          is_ok (acquire tool.descriptor.id tool.registration_generation e.registry).0 ≡ true)
        snapshot.tools
disclosed_is_leased go allow_tool hex request e random now snapshot r built =
    Every-mono (IsDisclosed allow_tool request e.catalog) _
      (λ tool d. rw (shown_iff_leased r tool.descriptor.id tool.registration_generation) (
        rw d.listed (
          ground (
            arith,
            d.offered.running,
            d.current,
            nat_beq_iff d.entry.registration_generation tool.registration_generation,
          ))))
      snapshot.tools
      (snapshot_tools-IsDisclosed allow_tool request e.catalog go hex random now snapshot
        (Reach-IsKeyed r) (Reach-IsCoherent r).0.key built)
