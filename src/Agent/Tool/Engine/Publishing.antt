-- ===== src/Agent/Tool/Engine/Publishing.antt =====
-- `Engine.register` (tool/engine.go): the new version is the only live one under its name.
use liaison.Base.{
  ◌≡◌, refl, sym, Bool, true, false, not, ◌&&◌, ◌||◌, arith, Option-cases, inl, inr, Bool-cases,
  String, [], ◌∷◌,
}
use text.Mathlib.TextEquality.{eq_iff}
use liaison.Base.Eq.{◌==◌, nat_eq, string_eq}
use liaison.Base.Lists.{is_empty, keep}
use liaison.Base.Table.{Table, get, values}
use liaison.Base.Words.{inc64}
use liaison.Base.Exec.{Result, ok, err, continue}
use liaison.Base.Exec.Rules.{fail_if_rule}
use liaison.Agent.Tool.Types.{ToolId, active, tool_id_eq, tool_id_beq_iff}
use liaison.Agent.Tool.Registry.{ToolError, ToolRegistration, is_in}
use liaison.Agent.Tool.Registry.Laws.{register_cases, install-IsSound}
use liaison.Agent.Tool.Validation.{GoLibrary, validate_descriptor}
use liaison.Agent.Tool.Catalog.{CatalogEntry, Catalog, upsert, has_name, by_model_name}
use liaison.Agent.Tool.Catalog.Entries.{get-upsert}
use liaison.Agent.Tool.Engine.{Engine, drain_replaced, clear, publish, engine_register, on_catalog}
use liaison.Agent.Tool.Engine.Agreement.{keyed, is_live, IsSingle}
use liaison.Agent.Tool.Engine.Moves.{install-match, install-keyed}
use liaison.Agent.Tool.Engine.Calls.{MatchesEngine}
use liaison.Agent.Tool.Engine.Replacing.{Shrinks, drains, drain_replaced_lem}

pub Shrinks-IsSingle : (c c' : Catalog) → Shrinks c c' → IsSingle c → IsSingle c'
Shrinks-IsSingle c c' shrinks single a b la lb = single a b (shrinks a la) (shrinks b lb)

-- Every entry under the model name is found by name.
named_is_found :
    (new j : ToolId) (namespace name : String) (t : Table ToolId CatalogEntry)
    → keyed j (get j t) ≡ true
    → is_live (get j t) ≡ true
    → namespace ≡ j.namespace
    → name ≡ j.name
    → (is_empty (keep (has_name namespace name) (values t)) ≡ false)
      × ((drains new j (keep (has_name namespace name) (values t)) || j == new) ≡ true)
unfolding get keep
named_is_found new j namespace name [] key live same_namespace same_name = absurd (cc)
named_is_found new j namespace name ((i, c) ∷ t) key live same_namespace same_name =
    elim (Bool-cases (i == j)) [
      | inl here ↦
          let id : c.descriptor.id ≡ j = ground (arith, tool_id_beq_iff c.descriptor.id j) in
          ground (
            arith,
            eq_iff c.descriptor.id.namespace namespace,
            eq_iff c.descriptor.id.name name,
            tool_id_beq_iff c.descriptor.id new,
            tool_id_beq_iff c.descriptor.id j,
          )
      | inr later ↦
          let rest =
            named_is_found new j namespace name t (ground arith) (ground arith) same_namespace
              same_name in
          ground (arith, rest)
    ]

-- No other version under the name of the new one is live.
abbrev Cleared : ToolId → Catalog → Type 0
Cleared new c =
    (j : ToolId)
    → is_live (get j c.entries) ≡ true
    → j.namespace ≡ new.namespace
    → j.name ≡ new.name
    → j ≡ new

publish_lem :
    (registration : ToolRegistration) (replace : Bool) (e : Engine)
    → MatchesEngine e
    → IsSingle e.catalog
    → Cleared registration.descriptor.id e.catalog
    → MatchesEngine (publish registration replace e).1
      × IsSingle (publish registration replace e).1.catalog
publish_lem registration replace e m single cleared =
    register_cases e.registry
      (λ o.
        let e' =
          (continue o.0 (λ g. on_catalog (upsert registration.descriptor g active))
            (record e { registry = o.1 })).1 in
        MatchesEngine e' × IsSingle e'.catalog)
      registration replace (λ _. (m, single))
      λ _. (
        record {
          sound = install-IsSound m.sound registration;
          key = install-keyed m registration (inc64 e.registry.generation);
          match = install-match m registration;
        },
        λ a b la lb same_namespace same_name. ground (
          arith,
          get-upsert registration.descriptor (inc64 e.registry.generation) active e.catalog a,
          get-upsert registration.descriptor (inc64 e.registry.generation) active e.catalog b,
          tool_id_beq_iff registration.descriptor.id a,
          tool_id_beq_iff registration.descriptor.id b,
          cleared a,
          cleared b,
          single a b,
        ),
      )

clear_lem :
    (registration : ToolRegistration) (replace : Bool) (e : Engine)
    → MatchesEngine e
    → IsSingle e.catalog
    → let id = registration.descriptor.id in
      let existing = by_model_name id.namespace id.name e.catalog in
      (not replace && not (is_empty existing)) ≡ false
      → let o = clear registration replace existing e in
        MatchesEngine o.1
        × IsSingle o.1.catalog
        × (o.0 ≡ ok tt → Cleared registration.descriptor.id o.1.catalog)
unfolding by_model_name
clear_lem registration true e m single _ =
    let id = registration.descriptor.id in
    let existing = by_model_name id.namespace id.name e.catalog in
    let r = drain_replaced_lem registration existing e m in
    (
      r.matched,
      Shrinks-IsSingle e.catalog (drain_replaced registration existing e).1.catalog r.shrinks
          single,
      λ h j live same_namespace same_name.
          let found =
            named_is_found id j id.namespace id.name e.catalog.entries (m.key j) (r.shrinks j live)
              (sym same_namespace) (sym same_name) in
          elim (Option-cases (get j e.catalog.entries)) [
            | inl n ↦ absurd (ground (arith, r.shrinks j live))
            | inr (x, n) ↦ ground (arith, r.drained h j, found, tool_id_beq_iff j id)
          ],
    )
clear_lem registration false e m single none_there =
    let id = registration.descriptor.id in
    (
      m,
      single,
      λ h j live same_namespace same_name. absurd (
          ground (
            arith,
            named_is_found id j id.namespace id.name e.catalog.entries (m.key j) live
                (sym same_namespace) (sym same_name),
          )),
    )

abbrev pub IsCoherent : Engine → Type 0
IsCoherent e = MatchesEngine e × IsSingle e.catalog

-- A refused registration keeps the engine coherent too, also one that has drained some versions.
pub engine_register-IsCoherent :
    (go : GoLibrary) (registration : ToolRegistration) (replace : Bool) (e : Engine)
    → IsCoherent e
    → IsCoherent (engine_register go registration replace e).1
unfolding engine_register
engine_register-IsCoherent go registration replace e i =
    let Q : Result ToolError (Unit {0}) × Engine → Type 0 = λ o. IsCoherent o.1 in
    let id = registration.descriptor.id in
    let existing = by_model_name id.namespace id.name e.catalog in
    fail_if_rule Q (not (is_in registration.factory)) _ i λ _.
      fail_if_rule Q (not (validate_descriptor go registration.descriptor)) _ i λ _.
        fail_if_rule Q (not replace && not (is_empty existing)) _ i λ free.
          let (m, single, cleared) = clear_lem registration replace e i.0 i.1 free in
          cleared_step (clear registration replace existing e) m single cleared
  where
    cleared_step :
        (o : Result ToolError (Unit {0}) × Engine)
        → MatchesEngine o.1
        → IsSingle o.1.catalog
        → (o.0 ≡ ok tt → Cleared registration.descriptor.id o.1.catalog)
        → IsCoherent (continue o.0 (λ _. publish registration replace) o.1).1
    cleared_step (ok tt, e') m single cleared =
        publish_lem registration replace e' m single (cleared refl)
    cleared_step (err x, e') m single cleared = (m, single)
