-- ===== src/Agent/Tool/Engine/Replacing.antt =====
-- The replacement of a tool (`Engine.register` of tool/engine.go) drains its other versions.
use liaison.Base.{
  ℕ, ◌≡◌, refl, Bool, true, false, not, ◌&&◌, ◌||◌, Option, none, some, arith, if◌then◌else◌,
  Option-cases, inl, inr, Bool-cases, List, [], ◌∷◌,
}
use mathlib.Core.Path.{subst}
use liaison.Base.Eq.{◌==◌, nat_eq, string_eq}
use liaison.Base.Table.{get}
use liaison.Base.Words.{inc64}
use liaison.Base.Exec.{Result, ok, err}
use liaison.Base.Exec.Rules.{then_lem}
use liaison.Agent.Tool.Types.{ToolId, ToolStatus, draining, unloaded, tool_id_eq, tool_id_beq_iff}
use liaison.Agent.Tool.Registry.{
  ToolError, not_found, ToolRegistration, Managed, Registry, status_beq, located, set_entry,
  next_generation, set_status, valid_status_transition,
}
use liaison.Agent.Tool.Registry.Laws.{IsSound, located_inv}
use liaison.Agent.Tool.Catalog.{CatalogEntry, Catalog, mark}
use liaison.Agent.Tool.Catalog.Entries.{restated, get-mark}
use liaison.Agent.Tool.Engine.{Engine, drain_version, drain_replaced}
use liaison.Agent.Tool.Engine.Agreement.{Matches, is_live}
use liaison.Agent.Tool.Engine.Moves.{mark-keyed}
use liaison.Agent.Tool.Engine.Calls.{MatchesEngine, mark-Matches}

missing_lem :
    (id : ToolId) (status : ToolStatus) (r : Registry)
    → located id r ≡ none
    → set_status id status r ≡ (err not_found, r)
unfolding set_status
missing_lem id status r h = rw h refl

draining_lem :
    (id : ToolId) (p : ℕ) (e : Managed) (r : Registry)
    → located id r ≡ some (p, e)
    → status_beq e.status unloaded ≡ false
    → set_status id draining r
      ≡ (ok (inc64 r.generation), set_entry p (record e { status = draining }) (next_generation r))
unfolding set_status valid_status_transition
draining_lem id p e r h live = rw h (rw live (ground arith))

loaded_lem :
    {r : Registry} (i : IsSound r) (id : ToolId) (p : ℕ) (e : Managed)
    → located id r ≡ some (p, e)
    → status_beq e.status unloaded ≡ false
loaded_lem {r} i id p e h = ground (arith, located_inv id r p e h, i.mapped id p)

-- What the loop leaves of an engine: catalog and registry match, and the catalog is the given one.
abbrev Left : Catalog → Result ToolError (Unit {0}) × Engine → Type 0
Left c o = (o.0 ≡ ok tt) × Matches o.1.catalog o.1.registry × (o.1.catalog ≡ c)

-- A version is drained in any state of the engine, also when only the catalog has it.
drain_version_lem :
    (id : ToolId) (e : Engine)
    → MatchesEngine e
    → Left (mark id draining e.catalog).1 (drain_version id e)
drain_version_lem id e m = elim (Option-cases (located id e.registry)) [
  | inl h ↦ rw (missing_lem id draining e.registry h) (
    refl,
    record {
      sound = m.sound;
      key = λ j. mark-keyed m id draining j;
      match = λ j. rw get-mark (ground (arith, m.match j, m.match id, tool_id_beq_iff id j));
    },
    refl,
  )
  | inr ((p, entry), h) ↦
      rw (draining_lem id p entry e.registry h (loaded_lem m.sound id p entry h)) (
        refl,
        mark-Matches m id p entry (record entry { status = draining }) draining h refl refl refl
            refl,
        refl,
      )
]

-- The tools that the loop drains.
abbrev pub drains : ToolId → ToolId → List CatalogEntry → Bool
drains new id [] = false
drains new id (entry ∷ rest) =
    (entry.descriptor.id == id && not (entry.descriptor.id == new)) || drains new id rest

restated_twice :
    (o : Option CatalogEntry) → restated draining (restated draining o) ≡ restated draining o
restated_twice none = refl
restated_twice (some c) = refl

abbrev pub Shrinks : Catalog → Catalog → Type 0
Shrinks c c' =
    (id : ToolId) → is_live (get id c'.entries) ≡ true → is_live (get id c.entries) ≡ true

pub mark-Shrinks : (id : ToolId) (c : Catalog) → Shrinks c (mark id draining c).1
mark-Shrinks id c j h = elim (Option-cases (get j c.entries)) [
  | inl n ↦ absurd (ground (arith, get-mark id draining c j))
  | inr (x, n) ↦ ground (arith, get-mark id draining c j)
]

-- What is shown of the loop on a list: catalog and registry stay matched and no tool becomes live.
-- If it succeeds, the versions in the list but the new one are draining and all else is as before.
pub record Replaces (registration : ToolRegistration) (existing : List CatalogEntry) (e : Engine)
    (o : Result ToolError (Unit {0}) × Engine) : Type 0 where
  pub matched : MatchesEngine o.1
  pub shrinks : Shrinks e.catalog o.1.catalog
  pub drained :
      o.0 ≡ ok tt
      → (id : ToolId)
      → get id o.1.catalog.entries ≡ (
          if drains registration.descriptor.id id existing
          then restated draining (get id e.catalog.entries)
          else get id e.catalog.entries)

pub drain_replaced_lem :
    (registration : ToolRegistration) (existing : List CatalogEntry) (e : Engine)
    → MatchesEngine e
    → Replaces registration existing e (drain_replaced registration existing e)
unfolding drain_replaced
drain_replaced_lem registration [] e m = record {
  matched = m;
  shrinks = λ id h. h;
  drained = λ _ id. refl;
}
drain_replaced_lem registration (entry ∷ rest) e m =
    elim (Bool-cases (entry.descriptor.source.id == registration.descriptor.source.id)) [
      | inr other ↦
          rw other (record { matched = m; shrinks = λ id h. h; drained = λ h. absurd (cc) })
      | inl owned ↦
          rw owned (elim (Bool-cases (entry.descriptor.id == registration.descriptor.id)) [
            | inl same ↦ rw same (
                let r = drain_replaced_lem registration rest e m in
                record {
                  matched = r.matched;
                  shrinks = r.shrinks;
                  drained = λ h id. rw (r.drained h id) (ground arith);
                })
            | inr older ↦ rw older (
                let v = entry.descriptor.id in
                let (done, m', left) = drain_version_lem v e m in
                let r = drain_replaced_lem registration rest (drain_version v e).1 m' in
                rw (then_lem (drain_version v) (drain_replaced registration rest) e done) (record {
                  matched = r.matched;
                  shrinks = λ id h.
                      mark-Shrinks v e.catalog id
                        (subst (λ c. is_live (get id c.entries) ≡ true) left (r.shrinks id h));
                  drained = λ h id. rw (r.drained h id) (
                      rw left (
                        rw get-mark (
                          ground (
                            arith,
                            older,
                            tool_id_beq_iff v id,
                            restated_twice (get id e.catalog.entries),
                          ))));
                }))
          ])
    ]
