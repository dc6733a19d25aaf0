-- ===== src/Examples/Sessions.antt =====
-- Live sessions of one ID in the registry of accesssession/registry.go.
use liaison.Base.{true, ◌≡◌, refl, false, none, some, [], arith}
use liaison.Base.Eq.{string_eq, nat_eq}
use liaison.Base.Exec.{ok, err}
use liaison.Base.Table.{get, put}
use liaison.Access.{
  describe_reference, Handle, AccessRegistry, new_access_registry, handle_not_found,
  register_handle, unregister, resolve, at_next, request_of, stays, registers, unregisters,
}
use liaison.Base.Lists.{find}
use liaison.Access.References.{shows_own, described_is_own}
use liaison.Access.Handles.{registered_resolves}
use liaison.Access.Generations.{is_resolved, stale_never_resolves}

abbrev a_handle : Handle
a_handle = record {
  descriptor = record {
    id = "c";
    user_id = 1;
    access_id = 2;
    application_id = 3;
    protocol = "web_ssh";
    capabilities = [];
    generation = 0;
  };
  terminal = some 0;
  data_source = none;
  desktop = none;
}

abbrev twice : AccessRegistry
twice = (register_handle a_handle (register_handle a_handle new_access_registry).1).1

registered_resolves_example :
    ((resolve false (request_of (at_next 2 a_handle).descriptor) (unregister "c" 1 twice)).0
      ≡ ok (at_next 2 a_handle))
    × ((resolve false (request_of (at_next 2 a_handle).descriptor) (unregister "c" 2 twice)).0
        ≡ err handle_not_found)
unfolding register_handle get put
registered_resolves_example =
    registered_resolves a_handle (register_handle a_handle new_access_registry).1
      (at_next 2 a_handle).descriptor 1 refl (λ h. ground arith)

stale_never_resolves_example :
    is_resolved
      (resolve false
        (request_of (at_next 1 a_handle).descriptor)
        (register_handle a_handle (unregister "c" 1 twice)).1).0
    ≡ false
unfolding register_handle get put
stale_never_resolves_example =
    stale_never_resolves a_handle (register_handle a_handle new_access_registry).1
      (at_next 2 a_handle).descriptor 1 (register_handle a_handle (unregister "c" 1 twice)).1
      (request_of (at_next 1 a_handle).descriptor) refl
      (registers (unregisters stays "c" 1) a_handle) (ground arith) refl (ground arith)

described_is_own_example : shows_own 1 (describe_reference (λ id. id) false "c" 1 twice).0 ≡ true
described_is_own_example = described_is_own (λ id. id) false "c" 1 twice

-- The description is there.
described_lem :
    (describe_reference (λ id. id) false "c" 1 twice).0
    ≡ ok (record (at_next 2 a_handle).descriptor { id = "" })
unfolding register_handle describe_reference find get put
described_lem = refl
