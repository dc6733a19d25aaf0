-- ===== src/Agent/Tool/Registry/Laws.antt =====
-- What holds of the registry (tool/registry.go) between two operations, and the cases of each.
use liaison.Base.{
  ℕ, ◌<◌, ◌≡◌, refl, Bool, true, false, not, ◌&&◌, Option, none, some, arith, Option-cases, inl,
  inr, if_rule,
}
use liaison.Base.Eq.{◌==◌, nat_eq}
use liaison.Base.Exec.{Result, ok, err}
use liaison.Base.Exec.Rules.{fail_if_rule, or_fail_rule}
use liaison.Base.Lists.{is_empty}
use liaison.Base.Table.{get, remove, get-put, get-remove}
use liaison.Base.Words.{inc64}
use liaison.Base.Tests.{nat_beq_iff}
use liaison.Agent.Tool.Types.{
  ToolId, ToolStatus, active, draining, unloaded, tool_id_eq, tool_id_beq_iff,
}
use liaison.Agent.Tool.Registry.{
  ToolError, ToolRegistration, Managed, Registry, ToolLease, register, set_status, unload, acquire,
  release, status_beq, entry_of, is_loaded, install, located, next_generation, set_entry,
  finish_unload, drained, leased, has_lease, is_in, holds, valid_status_transition, fresh_entry,
  new_registry,
}

-- The entry is there, is under the ID of its descriptor and is not unloaded.
abbrev pub serves : ToolId → Option Managed → Bool
serves id none = false
serves id (some e) = e.registration.descriptor.id == id && not (status_beq e.status unloaded)

pub record IsSound (r : Registry) : Type 0 where
  -- No pointer of the map dangles, and the map holds no unloaded entry.
  pub mapped :
      (id : ToolId) (p : ℕ) → get id r.registrations ≡ some p → serves id (get p r.entries) ≡ true
  pub allocated : (p : ℕ) → is_in (get p r.entries) ≡ true → p < r.next_entry

pub new-IsSound : IsSound new_registry
unfolding get
new-IsSound = record { mapped = λ id p h. cc; allocated = λ p h. absurd (cc) }

module _ {r : Registry} (i : IsSound r) where
  pub install-IsSound : (registration : ToolRegistration) → IsSound (install registration r)
  install-IsSound registration = record {
    mapped = λ id p h. ground (
      arith,
      get-put registration.descriptor.id id r.next_entry r.registrations,
      get-put r.next_entry p (fresh_entry registration (inc64 r.generation)) r.entries,
      tool_id_beq_iff registration.descriptor.id id,
      nat_beq_iff r.next_entry p,
      i.mapped id p,
      i.allocated p,
    );
    allocated = λ p h. ground (
      arith,
      get-put r.next_entry p (fresh_entry registration (inc64 r.generation)) r.entries,
      nat_beq_iff r.next_entry p,
      i.allocated p,
    );
  }

-- An entry is rewritten in place: the descriptor stays, and it is not unloaded.
module _ {r : Registry} (i : IsSound r) (p : ℕ) (e e' : Managed) (found : get p r.entries ≡ some e)
    (same : e'.registration ≡ e.registration) where
  pub set_entry-IsSound :
      (status_beq e.status unloaded ≡ false → status_beq e'.status unloaded ≡ false)
      → IsSound (set_entry p e' r)
  set_entry-IsSound live = record {
    mapped = λ id q h. ground (arith, get-put p q e' r.entries, nat_beq_iff p q, i.mapped id q);
    allocated = λ q h.
        ground (arith, get-put p q e' r.entries, nat_beq_iff p q, i.allocated p, i.allocated q);
  }

  -- An entry is taken off the map while it is unloaded.
  pub unmap-IsSound :
      (id : ToolId)
      → holds (get id r.registrations) p ≡ true
      → IsSound (record (set_entry p e' r) { registrations = remove id r.registrations })
  unmap-IsSound id here = record {
    mapped = λ j q h. ground (
      arith,
      get-put p q e' r.entries,
      get-remove id j r.registrations,
      nat_beq_iff p q,
      λ (n : ℕ). nat_beq_iff n p,
      tool_id_beq_iff id j,
      tool_id_beq_iff e.registration.descriptor.id j,
      tool_id_beq_iff e.registration.descriptor.id id,
      i.mapped j q,
      i.mapped id p,
    );
    allocated = λ q h.
        ground (arith, get-put p q e' r.entries, nat_beq_iff p q, i.allocated p, i.allocated q);
  }

pub generation-IsSound : {r : Registry} → IsSound r → IsSound (next_generation r)
generation-IsSound i = record { mapped = i.mapped; allocated = i.allocated }

-- An entry that the map no longer holds is unloaded.
retire-IsSound :
    {r : Registry} (p : ℕ) (e e' : Managed)
    → IsSound r
    → get p r.entries ≡ some e
    → holds (get e.registration.descriptor.id r.registrations) p ≡ false
    → IsSound (set_entry p e' r)
retire-IsSound {r} p e e' i found gone = record {
  mapped = λ id q h. ground (
    arith,
    get-put p q e' r.entries,
    nat_beq_iff p q,
    nat_beq_iff q p,
    tool_id_beq_iff e.registration.descriptor.id id,
    i.mapped id q,
  );
  allocated = λ q h.
      ground (arith, get-put p q e' r.entries, nat_beq_iff p q, i.allocated p, i.allocated q);
}

pub located_inv :
    (id : ToolId) (r : Registry) (p : ℕ) (e : Managed)
    → located id r ≡ some (p, e)
    → (get id r.registrations ≡ some p) × (get p r.entries ≡ some e)
located_inv id r p e h = ground arith

module _ (r : Registry) where
  pub register_cases {ℓ} :
      (Q : Result ToolError ℕ × Registry → Type ℓ) (registration : ToolRegistration)
      (replace : Bool)
      → ((x : ToolError) → Q (err x, r))
      → ((not replace && is_loaded (entry_of registration.descriptor.id r)) ≡ false
          → Q (ok (inc64 r.generation), install registration r))
      → Q (register registration replace r)
  unfolding register
  register_cases Q registration replace refused done =
      fail_if_rule Q (not replace && is_loaded (entry_of registration.descriptor.id r)) _
        (refused _) done

  pub set_status_cases {ℓ} :
      (Q : Result ToolError ℕ × Registry → Type ℓ) (id : ToolId) (status : ToolStatus)
      → ((x : ToolError) → Q (err x, r))
      → ((p : ℕ) (e : Managed)
          → located id r ≡ some (p, e)
          → status_beq e.status unloaded ≡ false
          → not (valid_status_transition e.status status) ≡ false
          → Q (
            ok (inc64 r.generation),
            set_entry p (record e { status = status }) (next_generation r),
          ))
      → Q (set_status id status r)
  unfolding set_status
  set_status_cases Q id status refused done =
      or_fail_rule Q (located id r) _ (refused _) λ at found.
        fail_if_rule Q (status_beq at.1.status unloaded) _ (refused _) λ live.
          fail_if_rule Q (not (valid_status_transition at.1.status status)) _ (refused _)
            λ allowed. done at.0 at.1 found live allowed

  pub unload_cases {ℓ} :
      (Q : Result ToolError (ℕ × Bool) × Registry → Type ℓ) (id : ToolId) (force : Bool)
      → ((x : ToolError) → Q (err x, r))
      → ((p : ℕ) (e : Managed)
          → located id r ≡ some (p, e)
          → status_beq e.status unloaded ≡ false
          → Q (
            ok (inc64 r.generation, is_empty (drained force e).in_flight),
            finish_unload id p (drained force e) (next_generation r),
          ))
      → Q (unload id force r)
  unfolding unload
  unload_cases Q id force refused done = or_fail_rule Q (located id r) _ (refused _) λ at found.
      fail_if_rule Q (status_beq at.1.status unloaded) _ (refused _)
        λ live. done at.0 at.1 found live

  pub acquire_cases {ℓ} :
      (Q : Result ToolError ToolLease × Registry → Type ℓ) (id : ToolId) (generation : ℕ)
      → ((x : ToolError) → Q (err x, r))
      → ((p : ℕ) (e : Managed)
          → located id r ≡ some (p, e)
          → not (status_beq e.status active) ≡ false
          → not (e.generation == generation) ≡ false
          → Q (
            ok (record {
              entry = p;
              lease_id = inc64 e.next_lease_id;
              registration = e.registration;
            }),
            set_entry p (leased e) r,
          ))
      → Q (acquire id generation r)
  unfolding acquire
  acquire_cases Q id generation refused done =
      or_fail_rule Q (located id r) _ (refused _) λ at found.
        fail_if_rule Q (not (status_beq at.1.status active)) _ (refused _) λ live.
          fail_if_rule Q (not (at.1.generation == generation)) _ (refused _)
            λ current. done at.0 at.1 found live current

module _ {r : Registry} (i : IsSound r) where
  pub register-IsSound :
      (registration : ToolRegistration) (replace : Bool)
      → IsSound (register registration replace r).1
  register-IsSound registration replace =
      register_cases r (λ o. IsSound o.1) registration replace (λ _. i)
        λ _. install-IsSound i registration

  pub set_status-IsSound :
      (id : ToolId) (status : ToolStatus)
      → status_beq status unloaded ≡ false
      → IsSound (set_status id status r).1
  set_status-IsSound id status kept =
      set_status_cases r (λ o. IsSound o.1) id status (λ _. i)
        λ p e at live allowed.
          set_entry-IsSound (generation-IsSound i) p e (record e { status = status })
            (located_inv id r p e at).1 refl (λ _. kept)

  pub unload-IsSound : (id : ToolId) (force : Bool) → IsSound (unload id force r).1
  unload-IsSound id force =
      unload_cases r (λ o. IsSound o.1) id force (λ _. i)
        λ p e at live.
          let (m, f) = located_inv id r p e at in
          if_rule IsSound (is_empty (drained force e).in_flight) _ _
            (λ _.
              unmap-IsSound (generation-IsSound i) p e
                (record (drained force e) { status = unloaded }) f refl id
                (ground (arith, nat_beq_iff p p)))
            λ _. set_entry-IsSound (generation-IsSound i) p e (drained force e) f refl (λ _. refl)

  pub acquire-IsSound : (id : ToolId) (generation : ℕ) → IsSound (acquire id generation r).1
  acquire-IsSound id generation =
      acquire_cases r (λ o. IsSound o.1) id generation (λ _. i)
        λ p e at live current.
          set_entry-IsSound i p e (leased e) (located_inv id r p e at).1 refl (λ h. h)

  -- Releasing a lease, whichever entry it was granted on.
  pub release-IsSound : (p lease_id : ℕ) → IsSound (release p lease_id r)
  unfolding release
  release-IsSound p lease_id = elim (Option-cases (get p r.entries)) [
    | inl e ↦ rw e i
    | inr (e, found) ↦ rw found (
        if_rule IsSound (has_lease lease_id e) _ _
          (λ _.
            let e' : Managed = record e { in_flight = remove lease_id e.in_flight } in
            if_rule IsSound (status_beq e.status draining && is_empty e'.in_flight) _ _
              (λ last.
                let id = e.registration.descriptor.id in
                if_rule IsSound (holds (get id r.registrations) p) _ _
                  (λ here.
                    generation-IsSound
                      (unmap-IsSound i p e (record e' { status = unloaded }) found refl id here))
                  (λ gone. retire-IsSound p e (record e' { status = unloaded }) i found gone))
              λ _. set_entry-IsSound i p e e' found refl (λ h. h))
          λ _. i)
  ]
