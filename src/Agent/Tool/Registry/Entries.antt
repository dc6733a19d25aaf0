-- ===== src/Agent/Tool/Registry/Entries.antt =====
-- What a lookup finds after each operation of the registry (tool/registry.go).
use liaison.Base.{ℕ, ◌≡◌, refl, true, none, some, arith, if◌then◌else◌, Option-cases, inl, inr}
use liaison.Base.Tests.{nat_beq_iff}
use liaison.Base.Eq.{◌==◌, nat_eq}
use liaison.Base.Table.{get, remove, get-put, get-remove}
use liaison.Base.Words.{inc64}
use liaison.Agent.Tool.Types.{ToolId, tool_id_eq, tool_id_beq_iff}
use liaison.Agent.Tool.Registry.{
  ToolRegistration, Managed, Registry, entry_of, install, set_entry, holds, fresh_entry,
  next_generation,
}
use liaison.Agent.Tool.Registry.Laws.{IsSound}

pub entry_of-install :
    {r : Registry} (i : IsSound r) (registration : ToolRegistration) (j : ToolId)
    → entry_of j (install registration r) ≡ (
        if registration.descriptor.id == j
        then some (fresh_entry registration (inc64 r.generation))
        else entry_of j r)
entry_of-install {r} i registration j = elim (Option-cases (get j r.registrations)) [
  | inl e ↦ ground (
    arith,
    get-put registration.descriptor.id j r.next_entry r.registrations,
    get-put r.next_entry r.next_entry (fresh_entry registration (inc64 r.generation)) r.entries,
    nat_beq_iff r.next_entry r.next_entry,
  )
  | inr (p, e) ↦ ground (
    arith,
    get-put registration.descriptor.id j r.next_entry r.registrations,
    get-put r.next_entry r.next_entry (fresh_entry registration (inc64 r.generation)) r.entries,
    nat_beq_iff r.next_entry r.next_entry,
    get-put r.next_entry p (fresh_entry registration (inc64 r.generation)) r.entries,
    nat_beq_iff r.next_entry p,
    i.mapped j p,
    i.allocated p,
  )
]

module _ {r : Registry} (i : IsSound r) (p : ℕ) (e e' : Managed) (found : get p r.entries ≡ some e)
    (j : ToolId) where
  -- An entry is rewritten, whether the map holds it or not.
  pub entry_of-set_entry :
      entry_of j (set_entry p e' r)
      ≡ (if holds (get j r.registrations) p then some e' else entry_of j r)
  entry_of-set_entry = elim (Option-cases (get j r.registrations)) [
    | inl h ↦ rw h refl
    | inr (q, h) ↦ ground (arith, get-put p q e' r.entries, nat_beq_iff p q, nat_beq_iff q p)
  ]

  -- The map holds an entry under the ID of its descriptor only.
  pub holds_own : holds (get j r.registrations) p ≡ true → e.registration.descriptor.id ≡ j
  holds_own h = elim (Option-cases (get j r.registrations)) [
    | inl n ↦ absurd (ground arith)
    | inr (q, at) ↦
        ground
          (arith, i.mapped j q at, nat_beq_iff q p, tool_id_beq_iff e.registration.descriptor.id j)
  ]

  pub entry_of-unmap :
      (id : ToolId)
      → holds (get id r.registrations) p ≡ true
      → entry_of j (record (set_entry p e' r) { registrations = remove id r.registrations })
        ≡ (if id == j then none else entry_of j r)
  entry_of-unmap id here = elim (Option-cases (get j r.registrations)) [
    | inl n ↦ ground (arith, get-remove id j r.registrations)
    | inr (q, at) ↦ ground (
      arith,
      get-remove id j r.registrations,
      get-put p q e' r.entries,
      nat_beq_iff p q,
      tool_id_beq_iff id j,
      tool_id_beq_iff e.registration.descriptor.id j,
      tool_id_beq_iff e.registration.descriptor.id id,
      i.mapped j q at,
      λ (n : ℕ). nat_beq_iff n p,
      i.mapped id p,
    )
  ]

  pub entry_of-held : holds (get j r.registrations) p ≡ true → entry_of j r ≡ some e
  entry_of-held h = elim (Option-cases (get j r.registrations)) [
    | inl n ↦ absurd (ground arith)
    | inr (q, at) ↦ ground (arith, nat_beq_iff q p)
  ]

-- A new generation of the registry changes no entry.
pub entry_of-next : (j : ToolId) (r : Registry) → entry_of j (next_generation r) ≡ entry_of j r
entry_of-next j r = elim (Option-cases (get j r.registrations)) [
  | inl n ↦ rw n refl
  | inr (p, n) ↦ rw n refl
]
