-- ===== src/Access/Handles.antt =====
-- Registering, resolving and unregistering a session (accesssession/registry.go).
use liaison.Base.{ℕ, ◌≡◌, ◌≢◌, refl, true, false, ◌&&◌, ◌||◌, none, some, arith, nat_beq_iff}
use mathlib.Core.Path.{subst}
use text.Mathlib.TextEquality.{eq_iff}
use liaison.Base.Eq.{◌==◌, string_eq, nat_eq}
use liaison.Base.Exec.{Result, ok, err}
use liaison.Base.Exec.Rules.{fail_if_rule}
use liaison.Base.Table.{get, get-remove, get-put_self}
use liaison.Access.{
  Descriptor, Handle, AccessRegistry, AccessError, handle_not_found, register_handle, unregister,
  resolve, is_nil, next_of, at_next, publish_handle, fits, request_of,
}

pub register_handle_cases {ℓ} :
    (r : AccessRegistry) (Q : Result AccessError Descriptor × AccessRegistry → Type ℓ)
    (handle : Handle)
    → ((x : AccessError) → Q (err x, r))
    → Q (
      ok (at_next (next_of handle.descriptor.id r) handle).descriptor,
      publish_handle (next_of handle.descriptor.id r) handle r,
    )
    → Q (register_handle handle r)
unfolding register_handle
register_handle_cases r Q handle refused done =
    fail_if_rule Q
      (handle.descriptor.id == ""
        || handle.descriptor.user_id == 0
        || handle.descriptor.access_id == 0
        || handle.descriptor.protocol == "")
      _ (refused _)
      λ _.
        fail_if_rule Q
          (is_nil handle.terminal && is_nil handle.data_source && is_nil handle.desktop) _
          (refused _) λ _. done

fits_own : (d : Descriptor) → fits (request_of d) d ≡ true
fits_own d = ground (
  arith,
  nat_beq_iff d.user_id d.user_id,
  nat_beq_iff d.access_id d.access_id,
  nat_beq_iff d.application_id d.application_id,
  nat_beq_iff d.generation d.generation,
  eq_iff d.protocol d.protocol,
)

resolve_found :
    (d : Descriptor) (r : AccessRegistry) (h : Handle)
    → get d.id r.handles ≡ some h
    → fits (request_of d) h.descriptor ≡ true
    → (resolve false (request_of d) r).0 ≡ ok h
unfolding resolve
resolve_found d r h at same = rw at (rw same refl)

resolve_missing :
    (d : Descriptor) (r : AccessRegistry)
    → get d.id r.handles ≡ none
    → (resolve false (request_of d) r).0 ≡ err handle_not_found
unfolding resolve
resolve_missing d r at = rw at refl

module _ (handle : Handle) (r : AccessRegistry) (generation : ℕ) where
  abbrev published : AccessRegistry
  published = publish_handle generation handle r

  found_lem : get handle.descriptor.id published.handles ≡ some (at_next generation handle)
  found_lem = get-put_self handle.descriptor.id (at_next generation handle) r.handles

  unregister_spares :
      (earlier : ℕ)
      → earlier ≢ generation
      → unregister handle.descriptor.id earlier published ≡ published
  unfolding unregister
  unregister_spares earlier ne = rw found_lem (ground (arith, nat_beq_iff generation earlier))

  unregister_removes :
      get handle.descriptor.id (unregister handle.descriptor.id generation published).handles ≡ none
  unfolding unregister
  unregister_removes = rw found_lem (
      ground (
        arith,
        nat_beq_iff generation generation,
        get-remove handle.descriptor.id handle.descriptor.id published.handles,
        eq_iff handle.descriptor.id handle.descriptor.id,
      ))

  published_lem :
      (earlier : ℕ)
      → let d = (at_next generation handle).descriptor in
        earlier ≢ d.generation
        → ((resolve false (request_of d) (unregister d.id earlier published)).0
            ≡ ok (at_next d.generation handle))
          × ((resolve false (request_of d) (unregister d.id d.generation published)).0
              ≡ err handle_not_found)
  published_lem earlier ne =
      let d = (at_next generation handle).descriptor in
      (
        rw (unregister_spares earlier ne)
            (resolve_found d published (at_next generation handle) found_lem (fits_own d)),
        resolve_missing d (unregister d.id generation published) unregister_removes,
      )

-- If a registration succeeds with descriptor d, then d resolves to the handle, also after an
-- earlier registration of the same ID, one of another generation, has been undone; once d's own
-- registration is undone, d no longer resolves.
pub registered_resolves :
    (handle : Handle) (r : AccessRegistry) (d : Descriptor) (earlier : ℕ)
    → (register_handle handle r).0 ≡ ok d
    → earlier ≢ d.generation
    → let r' = (register_handle handle r).1 in
      ((resolve false (request_of d) (unregister d.id earlier r')).0
        ≡ ok (at_next d.generation handle))
      × ((resolve false (request_of d) (unregister d.id d.generation r')).0 ≡ err handle_not_found)
registered_resolves handle r d earlier =
    register_handle_cases r
      (λ o.
        o.0 ≡ ok d
        → earlier ≢ d.generation
        → ((resolve false (request_of d) (unregister d.id earlier o.1)).0
            ≡ ok (at_next d.generation handle))
          × ((resolve false (request_of d) (unregister d.id d.generation o.1)).0
              ≡ err handle_not_found))
      handle (λ x h. absurd (cc))
      λ h.
        let same : (at_next (next_of handle.descriptor.id r) handle).descriptor ≡ d = cc in
        subst
          (λ d'.
            (earlier ≢ d'.generation)
            → ((resolve false (request_of d') (
                  unregister d'.id earlier
                    (publish_handle (next_of handle.descriptor.id r) handle r))).0
                ≡ ok (at_next d'.generation handle))
              × ((resolve false (request_of d') (
                    unregister d'.id d'.generation
                      (publish_handle (next_of handle.descriptor.id r) handle r))).0
                  ≡ err handle_not_found))
          same (published_lem handle r (next_of handle.descriptor.id r) earlier)
