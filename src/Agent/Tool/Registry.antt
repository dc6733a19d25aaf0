-- ===== src/Agent/Tool/Registry.antt =====
-- tool/registry.go: registrations, their leases, and when a registration is gone.
-- The map of the source holds pointers, and a lease keeps the pointer of the entry that it was
-- granted on, also when the map holds another entry by then. So the entries stand in a heap of
-- their own here. Each operation runs under the registry's lock.
pub mod Laws
pub mod Entries
pub mod Leases
use liaison.Base.{
  ℕ, suc, ◌+◌, String, Bool, true, false, not, ◌&&◌, Option, none, some, List, [], ◌∷◌, map,
  if◌then◌else◌,
}
use liaison.Base.Eq.{◌==◌, nat_eq}
use liaison.Base.Exec.{Result, Exec, pure, fail, gets, or_fail, fail_if, modify, ◌>>=◌, ◌>>◌}
use liaison.Base.Lists.{is_empty, length}
use liaison.Base.Table.{Table, get, put, remove}
use liaison.Base.Words.{inc64}
use liaison.Agent.Tool.Types
use liaison.Agent.Tool.Types.{
  ToolId, ToolDescriptor, ToolStatus, active, disabled, draining, failed, unloaded, tool_id_eq,
}

-- The error values of tool/types.go; the texts around them are left out.
pub data ToolError : Type 0 where
  invalid_descriptor already_registered not_found unavailable stale_snapshot not_exposed : ToolError
  approval_required policy_denied : ToolError
  missing_invocation_id invalid_normalized_input policy_failed bind_failed nil_executor : ToolError

-- A factory is an interface value of the caller's; `none` is `nil`.
pub record ToolRegistration : Type 0 where
  pub descriptor : ToolDescriptor
  pub factory : Option ℕ

-- `in_flight` tells of each lease whether its context is cancelled.
pub record Managed : Type 0 where
  pub registration : ToolRegistration
  pub generation : ℕ
  pub status : ToolStatus
  pub in_flight : Table ℕ Bool
  pub next_lease_id : ℕ

pub record Registry : Type 0 where
  pub generation : ℕ
  pub registrations : Table ToolId ℕ
  pub entries : Table ℕ Managed
  pub next_entry : ℕ

abbrev pub new_registry : Registry
new_registry = record { generation = 0; registrations = []; entries = []; next_entry = 0 }

abbrev pub Action : Type 0 → Type 0
Action A = Exec Registry ToolError A

abbrev pub status_beq : ToolStatus → ToolStatus → Bool
status_beq active active = true
status_beq disabled disabled = true
status_beq draining draining = true
status_beq failed failed = true
status_beq unloaded unloaded = true
status_beq _ _ = false

abbrev pub is_in : {A : Type 0} → Option A → Bool
is_in none = false
is_in (some a) = true

-- The entry behind a pointer of the map.
abbrev pub follow : Option ℕ → Registry → Option Managed
follow none r = none
follow (some p) r = get p r.entries

abbrev pub entry_of : ToolId → Registry → Option Managed
entry_of id r = follow (get id r.registrations) r

-- A registration that is there and not unloaded.
abbrev pub is_loaded : Option Managed → Bool
is_loaded none = false
is_loaded (some e) = not (status_beq e.status unloaded)

abbrev pub set_entry : ℕ → Managed → Registry → Registry
set_entry p e r = record r { entries = put p e r.entries }

abbrev pub fresh_entry : ToolRegistration → ℕ → Managed
fresh_entry registration generation = record {
  registration = registration;
  generation = generation;
  status = active;
  in_flight = [];
  next_lease_id = 0;
}

-- `&managedRegistration{...}` under the ID of its descriptor.
abbrev pub install : ToolRegistration → Registry → Registry
install registration r = record {
  generation = inc64 r.generation;
  registrations = put registration.descriptor.id r.next_entry r.registrations;
  entries = put r.next_entry (fresh_entry registration (inc64 r.generation)) r.entries;
  next_entry = suc r.next_entry;
}

unfoldable pub register : ToolRegistration → Bool → Action ℕ
register registration replace = do
  r ← gets (λ r. r)
  fail_if (not replace && is_loaded (entry_of registration.descriptor.id r)) already_registered
  modify (install registration)
  pure (inc64 r.generation)

abbrev status_switch : ToolStatus → ToolStatus → Bool
status_switch active disabled = true
status_switch active draining = true
status_switch active failed = true
status_switch disabled active = true
status_switch disabled draining = true
status_switch disabled failed = true
status_switch failed active = true
status_switch failed disabled = true
status_switch failed draining = true
status_switch _ _ = false

unfoldable pub valid_status_transition : ToolStatus → ToolStatus → Bool
valid_status_transition from to = if status_beq from to then true else status_switch from to

abbrev pub with_pointer : ℕ → Option Managed → Option (ℕ × Managed)
with_pointer p none = none
with_pointer p (some e) = some (p, e)

abbrev pub load : Option ℕ → Registry → Option (ℕ × Managed)
load none r = none
load (some p) r = with_pointer p (get p r.entries)

-- A pointer of the map with its entry. No pointer of the map dangles (Registry/Laws), so `none`
-- stands for a missing key.
abbrev pub located : ToolId → Registry → Option (ℕ × Managed)
located id r = load (get id r.registrations) r

abbrev pub next_generation : Registry → Registry
next_generation r = record r { generation = inc64 r.generation }

unfoldable pub set_status : ToolId → ToolStatus → Action ℕ
unfolding valid_status_transition
set_status id status = do
  r ← gets (λ r. r)
  (p, e) ← or_fail (located id r) not_found
  fail_if (status_beq e.status unloaded) not_found
  fail_if (not (valid_status_transition e.status status)) unavailable
  modify (λ r. set_entry p (record e { status = status }) (next_generation r))
  pure (inc64 r.generation)

-- Every lease's context is cancelled.
abbrev pub cancel_all : Table ℕ Bool → Table ℕ Bool
cancel_all = map (λ lease. (lease.0, true))

-- The entry while it is being unloaded.
abbrev pub drained : Bool → Managed → Managed
drained force e = record e {
  status = draining;
  in_flight = if force then cancel_all e.in_flight else e.in_flight;
}

-- With no lease in flight the registration is gone at once.
abbrev pub finish_unload : ToolId → ℕ → Managed → Registry → Registry
finish_unload id p e r =
    if is_empty e.in_flight
    then record (set_entry p (record e { status = unloaded }) r) {
      registrations = remove id r.registrations;
    }
    else set_entry p e r

unfoldable pub unload : ToolId → Bool → Action (ℕ × Bool)
unload id force = do
  r ← gets (λ r. r)
  (p, e) ← or_fail (located id r) not_found
  fail_if (status_beq e.status unloaded) not_found
  modify (λ r. finish_unload id p (drained force e) (next_generation r))
  pure (inc64 r.generation, is_empty (drained force e).in_flight)

-- A lease holds the pointer of its entry.
pub record ToolLease : Type 0 where
  pub entry : ℕ
  pub lease_id : ℕ
  pub registration : ToolRegistration

abbrev pub leased : Managed → Managed
leased e = record e {
  next_lease_id = inc64 e.next_lease_id;
  in_flight = put (inc64 e.next_lease_id) false e.in_flight;
}

unfoldable pub acquire : ToolId → ℕ → Action ToolLease
acquire id registration_generation = do
  r ← gets (λ r. r)
  (p, e) ← or_fail (located id r) not_found
  fail_if (not (status_beq e.status active)) unavailable
  fail_if (not (e.generation == registration_generation)) stale_snapshot
  modify (set_entry p (leased e))
  pure (record { entry = p; lease_id = inc64 e.next_lease_id; registration = e.registration })

abbrev pub has_lease : ℕ → Managed → Bool
has_lease lease_id e = is_in (get lease_id e.in_flight)

-- The map holds this entry under the ID of its descriptor: `current == entry`.
abbrev pub holds : Option ℕ → ℕ → Bool
holds none p = false
holds (some q) p = q == p

-- The last lease of an entry that is being unloaded unloads it.
abbrev pub finish_release : ℕ → Managed → Registry → Registry
finish_release p e r =
    let id = e.registration.descriptor.id in
    if status_beq e.status draining && is_empty e.in_flight
    then if holds (get id r.registrations) p
      then next_generation (record (set_entry p (record e { status = unloaded }) r) {
        registrations = remove id r.registrations;
      })
      else set_entry p (record e { status = unloaded }) r
    else set_entry p e r

abbrev release_entry : Option Managed → ℕ → ℕ → Registry → Registry
release_entry none p lease_id r = r
release_entry (some e) p lease_id r =
    if has_lease lease_id e
    then finish_release p (record e { in_flight = remove lease_id e.in_flight }) r
    else r

-- `release`, which `Lease.Release` calls once.
unfoldable pub release : ℕ → ℕ → Registry → Registry
release p lease_id r = release_entry (get p r.entries) p lease_id r

-- `status`: the status, the generation and the number of leases.
abbrev pub report : Option Managed → Option (ToolStatus × ℕ × ℕ)
report none = none
report (some e) = some (e.status, e.generation, length e.in_flight)

unfoldable pub status : ToolId → Registry → Option (ToolStatus × ℕ × ℕ)
status id r = report (entry_of id r)
