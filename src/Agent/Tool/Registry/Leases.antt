-- ===== src/Agent/Tool/Registry/Leases.antt =====
-- What the registry (tool/registry.go) promises of generations and leases.
use liaison.Base.{
  ℕ, ◌≡◌, ◌≢◌, refl, Bool, true, false, ◌&&◌, Option, none, some, arith, if◌then◌else◌,
  Option-cases, inl, inr, if_rule, nat_beq_iff,
}
use liaison.Base.Eq.{◌==◌, nat_eq}
use liaison.Base.Exec.{Result, ok, err}
use liaison.Base.Table.{get, remove, get-put, get-put_self, get-remove}
use liaison.Base.Words.{inc64}
use liaison.Agent.Tool.Types.{ToolId, active, unloaded, tool_id_eq, tool_id_beq_iff}
use liaison.Agent.Tool.Registry.{
  ToolError, stale_snapshot, ToolRegistration, Managed, Registry, register, unload, acquire,
  release, status_beq, entry_of, install, located, set_entry, drained, leased, has_lease,
  fresh_entry,
}
use liaison.Agent.Tool.Registry.Laws.{register_cases, unload_cases}

abbrev pub is_ok : {A : Type 0} → Result ToolError A → Bool
is_ok (ok a) = true
is_ok (err x) = false

-- What `acquire` asks of the entry.
abbrev pub grants : ℕ → Option Managed → Bool
grants generation none = false
grants generation (some e) = status_beq e.status active && e.generation == generation

-- A lease is granted exactly on an active registration of the generation that is asked for.
pub acquire_iff :
    (id : ToolId) (generation : ℕ) (r : Registry)
    → is_ok (acquire id generation r).0 ≡ grants generation (entry_of id r)
unfolding acquire
acquire_iff id generation r = ground arith

-- The lookup that follows a registration finds the entry that it installed.
located-install :
    (registration : ToolRegistration) (r : Registry)
    → located registration.descriptor.id (install registration r)
      ≡ some (r.next_entry, fresh_entry registration (inc64 r.generation))
located-install registration r = rw get-put_self (rw get-put_self refl)

-- `acquire` decided by what the lookup finds.
acquire-located :
    (id : ToolId) (g p : ℕ) (e : Managed) (r : Registry)
    → located id r ≡ some (p, e)
    → status_beq e.status active ≡ true
    → acquire id g r ≡ (
        if e.generation == g
        then (
          ok (record {
            entry = p;
            lease_id = inc64 e.next_lease_id;
            registration = e.registration;
          }),
          set_entry p (leased e) r,
        )
        else (err stale_snapshot, r))
unfolding acquire
acquire-located id g p e r found live = rw found (rw live (ground arith))

-- After a registration has been installed or replaced, a lease is granted at the new generation and
-- refused as stale at every other one.
replaced_is_stale :
    (registration : ToolRegistration) (replace : Bool) (r : Registry) (g n : ℕ)
    → (register registration replace r).0 ≡ ok n
    → g ≢ n
    → let id = registration.descriptor.id in
      let r' = (register registration replace r).1 in
      (is_ok (acquire id n r').0 ≡ true) × ((acquire id g r').0 ≡ err stale_snapshot)
replaced_is_stale registration replace r g n =
    register_cases r
      (λ o.
        o.0 ≡ ok n
        → g ≢ n
        → (is_ok (acquire registration.descriptor.id n o.1).0 ≡ true)
          × ((acquire registration.descriptor.id g o.1).0 ≡ err stale_snapshot))
      registration replace (λ x h. absurd (cc))
      λ _ h ne.
        let e = fresh_entry registration (inc64 r.generation) in
        let same : inc64 r.generation ≡ n = ground arith in
        let found = located-install registration r in
        let r' = install registration r in
        let id = registration.descriptor.id in
        (
          rw (acquire-located id n r.next_entry e r' found refl) (ground (arith, nat_beq_iff n n)),
          rw (acquire-located id g r.next_entry e r' found refl) (ground (arith, nat_beq_iff n g)),
        )

-- Once an unload of a tool has been accepted, forced or not, no lease is granted on it at any
-- generation.
pub unloaded_grants_nothing :
    (id : ToolId) (force : Bool) (r : Registry) (g : ℕ) (n : ℕ × Bool)
    → (unload id force r).0 ≡ ok n
    → is_ok (acquire id g (unload id force r).1).0 ≡ false
unloaded_grants_nothing id force r g n =
    unload_cases r (λ o. o.0 ≡ ok n → is_ok (acquire id g o.1).0 ≡ false) id force
      (λ x h. absurd (cc))
      λ p e at live h. rw (acquire_iff id g) (
        ground (
          arith,
          at,
          get-put p p (drained force e) r.entries,
          nat_beq_iff p p,
          get-remove id id r.registrations,
          tool_id_beq_iff id id,
        ))

-- The release of a lease on one entry leaves every ID that the map leads to another entry: what is
-- looked up there stays as it was.
pub release_spares_others :
    (p lease_id q : ℕ) (id : ToolId) (r : Registry)
    → get id r.registrations ≡ some q
    → q ≢ p
    → entry_of id (release p lease_id r) ≡ entry_of id r
unfolding release
release_spares_others p lease_id q id r at ne = elim (Option-cases (get p r.entries)) [
  | inl none_there ↦ rw none_there refl
  | inr (e, found) ↦ rw found (
      if_rule (λ r'. entry_of id r' ≡ entry_of id r) (has_lease lease_id e) _ _
        (λ _.
          let left : Managed = record e { in_flight = remove lease_id e.in_flight } in
          ground (
            arith,
            get-put p q left r.entries,
            get-put p q (record left { status = unloaded }) r.entries,
            nat_beq_iff p q,
            nat_beq_iff q p,
            get-remove e.registration.descriptor.id id r.registrations,
            tool_id_beq_iff e.registration.descriptor.id id,
          ))
        λ _. refl)
]
