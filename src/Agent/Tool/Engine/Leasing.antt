-- ===== src/Agent/Tool/Engine/Leasing.antt =====
-- Leases come and go without the engine's lock (tool/registry.go), and a change of status.
use liaison.Base.{ℕ, ◌≡◌, true, false, not, ◌&&◌, some, arith, Option-cases, inl, inr, if_rule}
use liaison.Base.Eq.{nat_eq}
use liaison.Base.Lists.{is_empty}
use liaison.Base.Table.{get, remove}
use liaison.Agent.Tool.Types.{ToolId, ToolStatus, draining, unloaded, tool_id_eq, tool_id_beq_iff}
use liaison.Agent.Tool.Registry.{
  Managed, Registry, entry_of, status_beq, located, holds, release, acquire, leased, has_lease,
  valid_status_transition,
}
use liaison.Agent.Tool.Registry.Laws.{located_inv, acquire_cases, acquire-IsSound, release-IsSound}
use liaison.Agent.Tool.Registry.Entries.{
  entry_of-set_entry, entry_of-unmap, entry_of-held, entry_of-next, holds_own,
}
use liaison.Agent.Tool.Catalog.{Catalog, mark}
use liaison.Agent.Tool.Catalog.Entries.{get-mark}
use liaison.Agent.Tool.Engine.Agreement.{agrees, Matches}
use liaison.Agent.Tool.Engine.Moves.{entry_of-rewrite}
use liaison.Agent.Tool.Engine.Replacing.{Shrinks}

module _ {c : Catalog} {r : Registry} (m : Matches c r) where
  pub acquire-Matches : (id : ToolId) (generation : ℕ) → Matches c (acquire id generation r).1
  acquire-Matches id generation = record {
    sound = acquire-IsSound m.sound id generation;
    key = m.key;
    match = λ j.
        acquire_cases r (λ o. agrees (get j c.entries) (entry_of j o.1) ≡ true) id generation
          (λ _. m.match j)
          λ p e at live current.
            rw (entry_of-rewrite m id p e (leased e) at j)
              (ground (arith, m.match j, located_inv id r p e at, tool_id_beq_iff id j));
  }

  -- The release of a lease unloads an entry only if it is draining, and so it is in the catalog.
  pub release-Matches : (p lease_id : ℕ) → Matches c (release p lease_id r)
  unfolding release
  release-Matches p lease_id = record {
    sound = release-IsSound m.sound p lease_id;
    key = m.key;
    match = λ j. elim (Option-cases (get p r.entries)) [
      | inl none_there ↦ rw none_there (m.match j)
      | inr (e, found) ↦
          let left : Managed = record e { in_flight = remove lease_id e.in_flight } in
          let id = e.registration.descriptor.id in
          let P : Registry → Type 0 = λ r'. agrees (get j c.entries) (entry_of j r') ≡ true in
          rw found (
            if_rule P (has_lease lease_id e) _ _
              (λ _.
                if_rule P (status_beq e.status draining && is_empty left.in_flight) _ _
                  (λ last.
                    let gone : Managed = record left { status = unloaded } in
                    if_rule P (holds (get id r.registrations) p) _ _
                      (λ here. rw entry_of-next (
                        rw (entry_of-unmap m.sound p e gone found j id here) (
                          ground (
                            arith,
                            m.match j,
                            entry_of-held m.sound p e gone found id here,
                            tool_id_beq_iff id j,
                          ))))
                      (λ away.
                        rw (entry_of-set_entry m.sound p e gone found j)
                          (ground (arith, m.match j, holds_own m.sound p e gone found j))))
                  λ _.
                    rw (entry_of-set_entry m.sound p e left found j)
                      (ground (arith, m.match j, entry_of-held m.sound p e left found j)))
              λ _. m.match j)
    ];
  }

-- A status that the registry grants makes no tool live that was not.
pub allowed-Shrinks :
    {c : Catalog} {r : Registry} (m : Matches c r) (id : ToolId) (p : ℕ) (e : Managed)
    (status : ToolStatus)
    → located id r ≡ some (p, e)
    → not (valid_status_transition e.status status) ≡ false
    → Shrinks c (mark id status c).1
unfolding valid_status_transition
allowed-Shrinks {c} {r} m id p e status at allowed j h = elim (Option-cases (get j c.entries)) [
  | inl n ↦ absurd (ground (arith, get-mark id status c j))
  | inr (x, n) ↦
      ground
        (arith, get-mark id status c j, m.match j, located_inv id r p e at, tool_id_beq_iff id j)
]
