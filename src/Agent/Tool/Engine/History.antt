-- ===== src/Agent/Tool/Engine/History.antt =====
-- What holds of the engine (tool/engine.go) after any history of calls.
use liaison.Base.{ℕ, ◌≡◌, refl, Bool, true, false, ◌&&◌, Option, none, some, arith, if_rule}
use liaison.Base.Tests.{nat_beq_iff}
use liaison.Base.Eq.{◌==◌, nat_eq}
use liaison.Base.Lists.{is_empty}
use liaison.Base.Table.{get}
use liaison.Base.Exec.{continue}
use liaison.Agent.Tool.Types.{ToolId, ToolStatus, active, disabled, draining, unloaded, tool_id_eq}
use liaison.Agent.Tool.Validation.{GoLibrary}
use liaison.Agent.Tool.Registry.{status_beq, acquire, drained}
use liaison.Agent.Tool.Registry.Laws.{set_status_cases, unload_cases}
use liaison.Agent.Tool.Registry.Leases.{is_ok, acquire_iff}
use liaison.Agent.Tool.Catalog.{CatalogEntry, mark, take_off}
use liaison.Agent.Tool.Catalog.Entries.{get-take_off}
use liaison.Agent.Tool.Engine.{
  Engine, EngineCall, registers, replaces, enables, disables, drains, unloads, acquires, releases,
  EngineReach, fresh, next, advance, switch, engine_unload, mark_too, unlist, new_engine,
}
use liaison.Agent.Tool.Engine.Agreement.{is_live, IsSingle, new-Matches}
use liaison.Agent.Tool.Engine.Calls.{fail_if_state, switch-Matches, engine_unload-Matches}
use liaison.Agent.Tool.Engine.Replacing.{Shrinks, mark-Shrinks}
use liaison.Agent.Tool.Engine.Publishing.{Shrinks-IsSingle, IsCoherent, engine_register-IsCoherent}
use liaison.Agent.Tool.Engine.Leasing.{acquire-Matches, release-Matches, allowed-Shrinks}

module _ (e : Engine) (i : IsCoherent e) where
  switch-IsCoherent :
      (id : ToolId) (status : ToolStatus)
      → status_beq status unloaded ≡ false
      → IsCoherent (switch id status e).1
  unfolding switch
  switch-IsCoherent id status live = (
    switch-Matches id status e live i.0,
    set_status_cases e.registry
        (λ o. IsSingle (continue o.0 (mark_too id status) (record e { registry = o.1 })).1.catalog)
        id status (λ _. i.1)
        λ p entry at loaded allowed. rw fail_if_state (
          Shrinks-IsSingle e.catalog (mark id status e.catalog).1
            (allowed-Shrinks i.0 id p entry status at allowed) i.1),
  )

  take_off-Shrinks : (id : ToolId) → Shrinks e.catalog (take_off id e.catalog)
  take_off-Shrinks id j h = ground (arith, get-take_off id e.catalog j)

  engine_unload-IsCoherent : (id : ToolId) (force : Bool) → IsCoherent (engine_unload id force e).1
  unfolding engine_unload
  engine_unload-IsCoherent id force = (
    engine_unload-Matches id force e i.0,
    unload_cases e.registry
        (λ o. IsSingle (continue o.0 (unlist id) (record e { registry = o.1 })).1.catalog) id force
        (λ _. i.1)
        λ p entry at loaded.
          if_rule IsSingle (is_empty (drained force entry).in_flight) _ _
            (λ _. Shrinks-IsSingle e.catalog (take_off id e.catalog) (take_off-Shrinks id) i.1)
            λ _.
              Shrinks-IsSingle e.catalog (mark id draining e.catalog).1 (mark-Shrinks id e.catalog)
                i.1,
  )

-- Every call, failing or not, keeps catalog and registry matched and the versions single.
pub advance-IsCoherent :
    (go : GoLibrary) (c : EngineCall) (e : Engine) → IsCoherent e → IsCoherent (advance go c e)
unfolding advance
advance-IsCoherent go (registers registration) e i =
    engine_register-IsCoherent go registration false e i
advance-IsCoherent go (replaces registration) e i =
    engine_register-IsCoherent go registration true e i
advance-IsCoherent go (enables id) e i = switch-IsCoherent e i id active refl
advance-IsCoherent go (disables id) e i = switch-IsCoherent e i id disabled refl
advance-IsCoherent go (drains id) e i = switch-IsCoherent e i id draining refl
advance-IsCoherent go (unloads id force) e i = engine_unload-IsCoherent e i id force
advance-IsCoherent go (acquires id generation) e i = (acquire-Matches i.0 id generation, i.1)
advance-IsCoherent go (releases entry lease_id) e i = (release-Matches i.0 entry lease_id, i.1)

new-IsSingle : IsSingle new_engine.catalog
unfolding get
new-IsSingle a b la lb same_namespace same_name = absurd (cc)

pub Reach-IsCoherent : {go : GoLibrary} {e : Engine} → EngineReach go e → IsCoherent e
Reach-IsCoherent fresh = (new-Matches, new-IsSingle)
Reach-IsCoherent (next {e} r c) = advance-IsCoherent _ c e (Reach-IsCoherent r)

-- The catalog shows the tool as active at this registration generation.
abbrev pub shows : ℕ → Option CatalogEntry → Bool
shows generation none = false
shows generation (some c) = status_beq c.status active && c.registration_generation == generation

-- After any history of registrations, replacements, switches, unloads and leases, failed ones
-- included, the registry grants a lease on a tool at a generation exactly if the catalog shows the
-- tool as active at that generation.
pub shown_iff_leased :
    {go : GoLibrary} {e : Engine}
    → EngineReach go e
    → (id : ToolId) (generation : ℕ)
    → is_ok (acquire id generation e.registry).0 ≡ shows generation (get id e.catalog.entries)
shown_iff_leased {e = e} r id generation =
    let m = (Reach-IsCoherent r).0 in
    rw acquire_iff (ground (arith, m.match id, λ (a b : ℕ). nat_beq_iff a b))

-- After any history of registrations, replacements, switches, unloads and leases, failed ones
-- included, two versions of one tool that the catalog shows and that are not draining
-- are one version.
pub one_live_version :
    {go : GoLibrary} {e : Engine} (a b : ToolId)
    → EngineReach go e
    → is_live (get a e.catalog.entries) ≡ true
    → is_live (get b e.catalog.entries) ≡ true
    → a.namespace ≡ b.namespace
    → a.name ≡ b.name
    → a ≡ b
one_live_version a b r = (Reach-IsCoherent r).1 a b
