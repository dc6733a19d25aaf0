-- ===== src/Agent/Tool/Engine/Moves.antt =====
-- Each pair of changes that the engine makes (tool/engine.go) keeps catalog and registry matched.
use liaison.Base.{ℕ, ◌≡◌, true, some, arith, if◌then◌else◌}
use liaison.Base.Tests.{nat_beq_iff}
use liaison.Base.Eq.{◌==◌, nat_eq, string_eq}
use liaison.Base.Table.{get, remove}
use liaison.Base.Words.{inc64}
use liaison.Agent.Tool.Types.{ToolId, ToolStatus, active, tool_id_eq, tool_id_beq_iff}
use liaison.Agent.Tool.Registry.{
  ToolRegistration, Managed, Registry, entry_of, status_beq, located, set_entry, holds, install,
}
use liaison.Agent.Tool.Registry.Laws.{located_inv}
use liaison.Agent.Tool.Registry.Entries.{
  entry_of-install, entry_of-set_entry, entry_of-unmap, holds_own,
}
use liaison.Agent.Tool.Catalog.{Catalog, upsert, mark, take_off}
use liaison.Agent.Tool.Catalog.Entries.{get-upsert, get-mark, get-take_off}
use liaison.Agent.Tool.Engine.Agreement.{agrees, keyed, Matches}

module _ {c : Catalog} {r : Registry} (m : Matches c r) where
  pub mark-keyed :
      (id : ToolId) (status : ToolStatus) (j : ToolId)
      → keyed j (get j (mark id status c).1.entries) ≡ true
  mark-keyed id status j = rw get-mark (ground (arith, m.key j))

  pub install-match :
      (registration : ToolRegistration) (j : ToolId)
      → agrees
          (get j (upsert registration.descriptor (inc64 r.generation) active c).entries)
          (entry_of j (install registration r))
        ≡ true
  install-match registration j = rw get-upsert (
      rw (entry_of-install m.sound registration j)
        (ground (arith, m.match j, nat_beq_iff (inc64 r.generation) (inc64 r.generation))))

  pub install-keyed :
      (registration : ToolRegistration) (g : ℕ) (j : ToolId)
      → keyed j (get j (upsert registration.descriptor g active c).entries) ≡ true
  install-keyed registration g j = rw get-upsert (ground (arith, m.key j))

  -- An entry of the map is rewritten.
  module _ (id : ToolId) (p : ℕ) (e e' : Managed) (at : located id r ≡ some (p, e))
      (j : ToolId) where
    own : holds (get id r.registrations) p ≡ true
    own = ground (arith, located_inv id r p e at, nat_beq_iff p p)

    looked_up : entry_of id r ≡ some e
    looked_up = ground (arith, located_inv id r p e at)

    pub entry_of-rewrite :
        entry_of j (set_entry p e' r) ≡ (if id == j then some e' else entry_of j r)
    entry_of-rewrite = rw (entry_of-set_entry m.sound p e e' (located_inv id r p e at).1 j) (
        ground (
          arith,
          own,
          tool_id_beq_iff id j,
          holds_own m.sound p e e' (located_inv id r p e at).1 id,
          holds_own m.sound p e e' (located_inv id r p e at).1 j,
        ))

    pub mark-match :
        (status : ToolStatus)
        → status_beq e'.status status ≡ true
        → e'.generation ≡ e.generation
        → agrees (get j (mark id status c).1.entries) (entry_of j (set_entry p e' r)) ≡ true
    mark-match status same kept =
        rw get-mark
          (rw entry_of-rewrite (ground (arith, m.match j, looked_up, tool_id_beq_iff id j)))

    pub take_off-match :
        agrees
          (get j (take_off id c).entries)
          (entry_of j (record (set_entry p e' r) { registrations = remove id r.registrations }))
        ≡ true
    take_off-match = rw get-take_off (
        rw (entry_of-unmap m.sound p e e' (located_inv id r p e at).1 j id own)
          (ground (arith, m.match j)))
