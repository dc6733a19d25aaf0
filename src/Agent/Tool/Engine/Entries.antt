-- ===== src/Agent/Tool/Engine/Entries.antt =====
-- After any history of calls on the engine (tool/engine.go) the catalog's map has each key once.
use liaison.Base.{ℕ, Bool, true, false, not, ◌&&◌, Option, none, some, List, [], ◌∷◌, if_rule}
use liaison.Base.Eq.{◌==◌, string_eq}
use liaison.Base.Exec.{Result, fail_if}
use liaison.Base.Exec.Rules.{fail_if_rule, Keeps, bind-Keeps, then-Keeps, fail_if-Keeps}
use liaison.Base.Lists.{is_empty}
use liaison.Base.Table.{get}
use liaison.Base.Table.Keys.{IsMap, put-IsMap, remove-IsMap}
use liaison.Agent.Tool.Types.{
  ToolId, ToolDescriptor, ToolStatus, active, disabled, draining, tool_id_eq,
}
use liaison.Agent.Tool.Validation.{GoLibrary, validate_descriptor}
use liaison.Agent.Tool.Registry as Registry
use liaison.Agent.Tool.Registry.{
  ToolError, ToolRegistration, is_in, invalid_descriptor, already_registered, unavailable,
}
use liaison.Agent.Tool.Catalog.{
  CatalogEntry, Catalog, upsert, mark, take_off, changed, dropped, by_model_name,
}
use liaison.Agent.Tool.Engine.{
  Engine, EngineCall, registers, replaces, enables, disables, drains, unloads, acquires, releases,
  EngineReach, fresh, next, advance, switch, engine_register, engine_unload, drain_version,
  drain_replaced, clear, publish, on_registry, on_catalog, mark_too, unlist, tolerant,
}

abbrev pub IsKeyed : Engine → Type 0
IsKeyed e = IsMap e.catalog.entries

mark-IsMap :
    (id : ToolId) (s : ToolStatus) (c : Catalog) → IsMap c.entries → IsMap (mark id s c).1.entries
unfolding mark
mark-IsMap id s c h = changed_keeps (get id c.entries)
  where
    changed_keeps : (o : Option CatalogEntry) → IsMap (changed id s o c).1.entries
    changed_keeps none = h
    changed_keeps (some entry) = put-IsMap id _ c.entries h

take_off-IsMap : (id : ToolId) (c : Catalog) → IsMap c.entries → IsMap (take_off id c).entries
unfolding take_off
take_off-IsMap id c h = dropped_keeps (get id c.entries)
  where
    dropped_keeps : (o : Option CatalogEntry) → IsMap (dropped id o c).entries
    dropped_keeps none = h
    dropped_keeps (some entry) = remove-IsMap id c.entries h

upsert-IsMap :
    (d : ToolDescriptor) (generation : ℕ) (s : ToolStatus) (c : Catalog)
    → IsMap c.entries
    → IsMap (upsert d generation s c).entries
unfolding upsert
upsert-IsMap d generation s c h = put-IsMap d.id _ c.entries h

drain_version-Keeps : (id : ToolId) → Keeps IsKeyed (drain_version id)
drain_version-Keeps id =
    then-Keeps IsKeyed (on_registry (tolerant (Registry.set_status id draining)))
      (on_catalog (λ c. (mark id draining c).1)) (λ e h. h)
      λ e h. mark-IsMap id draining e.catalog h

drain_replaced-Keeps :
    (registration : ToolRegistration) (entries : List CatalogEntry)
    → Keeps IsKeyed (drain_replaced registration entries)
unfolding drain_replaced
drain_replaced-Keeps registration [] = λ e h. h
drain_replaced-Keeps registration (entry ∷ rest) =
    then-Keeps IsKeyed
      (fail_if (not (entry.descriptor.source.id == registration.descriptor.source.id)) unavailable)
      _ (fail_if-Keeps IsKeyed _ unavailable)
      (if_rule (Keeps IsKeyed) (entry.descriptor.id == registration.descriptor.id) _ _
        (λ _. drain_replaced-Keeps registration rest)
        λ _.
          then-Keeps IsKeyed (drain_version entry.descriptor.id) (drain_replaced registration rest)
            (drain_version-Keeps entry.descriptor.id) (drain_replaced-Keeps registration rest))

publish-Keeps :
    (registration : ToolRegistration) (replace : Bool)
    → Keeps IsKeyed (publish registration replace)
publish-Keeps registration replace =
    bind-Keeps IsKeyed (on_registry (Registry.register registration replace)) _ (λ e h. h)
      λ generation e h. upsert-IsMap registration.descriptor generation active e.catalog h

clear-Keeps :
    (registration : ToolRegistration) (replace : Bool) (existing : List CatalogEntry)
    → Keeps IsKeyed (clear registration replace existing)
clear-Keeps registration true existing = drain_replaced-Keeps registration existing
clear-Keeps registration false existing = λ e h. h

engine_register-Keeps :
    (go : GoLibrary) (registration : ToolRegistration) (replace : Bool)
    → Keeps IsKeyed (engine_register go registration replace)
unfolding engine_register
engine_register-Keeps go registration replace e h =
    let Q : Result ToolError (Unit {0}) × Engine → Type 0 = λ o. IsKeyed o.1 in
    let id = registration.descriptor.id in
    let existing = by_model_name id.namespace id.name e.catalog in
    fail_if_rule Q (not (is_in registration.factory)) _ h λ _.
      fail_if_rule Q (not (validate_descriptor go registration.descriptor)) _ h λ _.
        fail_if_rule Q (not replace && not (is_empty existing)) _ h λ _.
          then-Keeps IsKeyed (clear registration replace existing) (publish registration replace)
            (clear-Keeps registration replace existing) (publish-Keeps registration replace) e h

mark_too-Keeps :
    (id : ToolId) (s : ToolStatus) (generation : ℕ) → Keeps IsKeyed (mark_too id s generation)
mark_too-Keeps id s generation e h = fail_if-Keeps IsKeyed _ _ _ (mark-IsMap id s e.catalog h)

switch-Keeps : (id : ToolId) (s : ToolStatus) → Keeps IsKeyed (switch id s)
unfolding switch
switch-Keeps id s =
    bind-Keeps IsKeyed (on_registry (Registry.set_status id s)) (mark_too id s) (λ e h. h)
      (mark_too-Keeps id s)

engine_unload-Keeps : (id : ToolId) (force : Bool) → Keeps IsKeyed (engine_unload id force)
unfolding engine_unload
engine_unload-Keeps id force =
    bind-Keeps IsKeyed (on_registry (Registry.unload id force)) (unlist id) (λ e h. h)
      λ o e h.
        if_rule (λ c. IsMap c.entries) o.1 (take_off id e.catalog) (mark id draining e.catalog).1
          (λ _. take_off-IsMap id e.catalog h) λ _. mark-IsMap id draining e.catalog h

advance-IsKeyed :
    (go : GoLibrary) (c : EngineCall) (e : Engine) → IsKeyed e → IsKeyed (advance go c e)
unfolding advance
advance-IsKeyed go (registers registration) e h = engine_register-Keeps go registration false e h
advance-IsKeyed go (replaces registration) e h = engine_register-Keeps go registration true e h
advance-IsKeyed go (enables id) e h = switch-Keeps id active e h
advance-IsKeyed go (disables id) e h = switch-Keeps id disabled e h
advance-IsKeyed go (drains id) e h = switch-Keeps id draining e h
advance-IsKeyed go (unloads id force) e h = engine_unload-Keeps id force e h
advance-IsKeyed go (acquires id generation) e h = h
advance-IsKeyed go (releases entry lease_id) e h = h

pub Reach-IsKeyed : {go : GoLibrary} {e : Engine} → EngineReach go e → IsKeyed e
Reach-IsKeyed fresh = tt
Reach-IsKeyed (next {e} r c) = advance-IsKeyed _ c e (Reach-IsKeyed r)
