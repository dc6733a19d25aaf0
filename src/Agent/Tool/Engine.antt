-- ===== src/Agent/Tool/Engine.antt =====
-- The lifecycle of tools in tool/engine.go: the engine keeps the catalog and the registry together
-- under its lifecycle lock. Leases are taken and released without that lock.
pub mod Agreement
pub mod Moves
pub mod Calls
pub mod Replacing
pub mod Publishing
pub mod Leasing
pub mod Entries
pub mod History
use liaison.Base.{ℕ, Bool, true, false, not, ◌&&◌, Option, none, some, List, [], ◌∷◌, if◌then◌else◌}
use liaison.Base.Eq.{◌==◌, string_eq}
use liaison.Base.Exec.{Result, ok, err, Exec, pure, fail, gets, fail_if, modify, ◌>>=◌, ◌>>◌}
use liaison.Base.Lists.{is_empty}
use liaison.Agent.Tool.Types.{ToolId, ToolStatus, active, disabled, draining, tool_id_eq}
use liaison.Agent.Tool.Registry.{
  ToolError, invalid_descriptor, already_registered, not_found, unavailable, ToolRegistration,
  Registry, Action, new_registry, is_in,
}
use liaison.Agent.Tool.Registry
use liaison.Agent.Tool.Catalog.{
  CatalogEntry, Catalog, new_catalog, upsert, mark, take_off, by_model_name,
}
use liaison.Agent.Tool.Validation.{GoLibrary, validate_descriptor}

pub record Engine : Type 0 where
  pub catalog : Catalog
  pub registry : Registry

abbrev pub new_engine : Engine
new_engine = record { catalog = new_catalog; registry = new_registry }

abbrev pub Lifecycle : Type 0 → Type 0
Lifecycle A = Exec Engine ToolError A

abbrev pub on_registry : {A : Type 0} → Action A → Lifecycle A
on_registry action e =
    let (result, registry) = action e.registry in (result, record e { registry = registry })

abbrev pub on_catalog : (Catalog → Catalog) → Lifecycle (Unit {0})
on_catalog change = modify (λ e. record e { catalog = change e.catalog })

-- `err != nil && !errors.Is(err, ErrToolNotFound)`.
abbrev pub tolerated : Result ToolError ℕ → Result ToolError (Unit {0})
tolerated (ok n) = ok tt
tolerated (err not_found) = ok tt
tolerated (err x) = err x

abbrev pub tolerant : Action ℕ → Action (Unit {0})
tolerant action r = let (result, r') = action r in (tolerated result, r')

-- The replaced version stops taking calls.
abbrev pub drain_version : ToolId → Lifecycle (Unit {0})
drain_version id = do
  on_registry (tolerant (Registry.set_status id draining))
  on_catalog (λ c. (mark id draining c).1)

-- The loop over the entries of the same model name.
unfoldable pub drain_replaced : ToolRegistration → List CatalogEntry → Lifecycle (Unit {0})
drain_replaced registration [] = pure tt
drain_replaced registration (entry ∷ rest) =
    let rest' = drain_replaced registration rest in
    fail_if (not (entry.descriptor.source.id == registration.descriptor.source.id)) unavailable
    >> (if entry.descriptor.id == registration.descriptor.id
        then rest'
        else (drain_version entry.descriptor.id >> rest'))

-- The registry takes the tool, and the catalog lists it.
abbrev pub publish : ToolRegistration → Bool → Lifecycle (Unit {0})
publish registration replace = do
  generation ← on_registry (Registry.register registration replace)
  on_catalog (upsert registration.descriptor generation active)

abbrev pub clear : ToolRegistration → Bool → List CatalogEntry → Lifecycle (Unit {0})
clear registration replace existing e =
    if replace then drain_replaced registration existing e else (ok tt, e)

unfoldable pub engine_register : GoLibrary → ToolRegistration → Bool → Lifecycle (Unit {0})
engine_register go registration replace = do
  fail_if (not (is_in registration.factory)) invalid_descriptor
  fail_if (not (validate_descriptor go registration.descriptor)) invalid_descriptor
  e ← gets (λ e. e)
  let id = registration.descriptor.id
  let existing = by_model_name id.namespace id.name e.catalog
  fail_if (not replace && not (is_empty existing)) already_registered
  clear registration replace existing
  publish registration replace

-- The catalog follows the registry; that it lacks the tool is an error.
abbrev pub mark_too : ToolId → ToolStatus → ℕ → Lifecycle (Unit {0})
mark_too id status generation = do
  e ← gets (λ e. e)
  let marked = mark id status e.catalog
  modify (λ e. record e { catalog = marked.1 })
  fail_if (not marked.0) not_found

-- `Enable`, `Disable` and `Drain`, for the three statuses that they set.
unfoldable pub switch : ToolId → ToolStatus → Lifecycle (Unit {0})
switch id status = on_registry (Registry.set_status id status) >>= mark_too id status

abbrev pub enable : ToolId → Lifecycle (Unit {0})
enable id = switch id active

abbrev pub disable : ToolId → Lifecycle (Unit {0})
disable id = switch id disabled

abbrev pub drain : ToolId → Lifecycle (Unit {0})
drain id = switch id draining

-- A tool whose unload is complete leaves the catalog; one that still has leases is draining.
abbrev pub unlist : ToolId → ℕ × Bool → Lifecycle Bool
unlist id (generation, complete) = do
  on_catalog (λ c. if complete then take_off id c else (mark id draining c).1)
  pure complete

unfoldable pub engine_unload : ToolId → Bool → Lifecycle Bool
engine_unload id force = on_registry (Registry.unload id force) >>= unlist id

-- The operations on the engine, with those of its leases, which run without the lifecycle lock.
pub data EngineCall : Type 0 where
  registers : ToolRegistration → EngineCall
  replaces : ToolRegistration → EngineCall
  enables : ToolId → EngineCall
  disables : ToolId → EngineCall
  drains : ToolId → EngineCall
  unloads : ToolId → Bool → EngineCall
  acquires : ToolId → ℕ → EngineCall
  releases : ℕ → ℕ → EngineCall

-- The engine after a call, whether the call has failed or not.
unfoldable pub advance : GoLibrary → EngineCall → Engine → Engine
advance go (registers registration) e = (engine_register go registration false e).1
advance go (replaces registration) e = (engine_register go registration true e).1
advance go (enables id) e = (enable id e).1
advance go (disables id) e = (disable id e).1
advance go (drains id) e = (drain id e).1
advance go (unloads id force) e = (engine_unload id force e).1
advance go (acquires id generation) e = record e {
  registry = (Registry.acquire id generation e.registry).1;
}
advance go (releases entry lease_id) e = record e {
  registry = Registry.release entry lease_id e.registry;
}

-- The engines that calls make out of a new one.
pub data EngineReach (go : GoLibrary) : Engine → Type 0 where
  fresh : EngineReach go new_engine
  next : {e : Engine} → EngineReach go e → (c : EngineCall) → EngineReach go (advance go c e)
