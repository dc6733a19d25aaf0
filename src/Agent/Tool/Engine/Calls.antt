-- ===== src/Agent/Tool/Engine/Calls.antt =====
-- Every operation of the engine (tool/engine.go) keeps catalog and registry matched.
use liaison.Base.{
  ℕ, ◌≡◌, refl, Bool, true, false, Option, some, arith, if◌then◌else◌, Option-cases, inl, inr,
  Bool-cases,
}
use liaison.Base.Tests.{nat_beq_iff}
use liaison.Base.Eq.{nat_eq, string_eq}
use liaison.Base.Lists.{is_empty}
use liaison.Base.Table.{get, remove}
use liaison.Base.Exec.{continue, fail_if}
use liaison.Agent.Tool.Types.{ToolId, ToolStatus, draining, unloaded, tool_id_eq}
use liaison.Agent.Tool.Registry.{
  Managed, Registry, status_beq, located, set_entry, next_generation, finish_unload, drained,
  ToolError,
}
use liaison.Agent.Tool.Registry.Laws.{
  located_inv, generation-IsSound, set_entry-IsSound, unmap-IsSound, set_status_cases, unload_cases,
}
use liaison.Agent.Tool.Catalog.{Catalog, mark, take_off}
use liaison.Agent.Tool.Catalog.Entries.{get-take_off}
use liaison.Agent.Tool.Engine.{Engine, mark_too, unlist, switch, engine_unload}
use liaison.Agent.Tool.Engine.Agreement.{Matches}
use liaison.Agent.Tool.Engine.Moves.{mark-keyed, mark-match, take_off-match}

abbrev pub MatchesEngine : Engine → Type 0
MatchesEngine e = Matches e.catalog e.registry

-- A new generation of the registry changes no entry.
pub later-Matches : {c : Catalog} {r : Registry} → Matches c r → Matches c (next_generation r)
later-Matches {r} m = record {
  sound = generation-IsSound m.sound;
  key = m.key;
  match = λ j. elim (Option-cases (get j r.registrations)) [
    | inl h ↦ ground (arith, m.match j)
    | inr (p, h) ↦ ground (arith, m.match j)
  ];
}

pub located-next :
    (id : ToolId) (r : Registry) (at : Option (ℕ × Managed))
    → located id r ≡ at
    → located id (next_generation r) ≡ at
located-next id r at h = elim (Option-cases (get id r.registrations)) [
  | inl n ↦ ground arith
  | inr (p, n) ↦ ground arith
]

pub mark-Matches :
    {c : Catalog} {r : Registry} (m : Matches c r) (id : ToolId) (p : ℕ) (e e' : Managed)
    (status : ToolStatus)
    → located id r ≡ some (p, e)
    → e'.registration ≡ e.registration
    → status_beq e'.status unloaded ≡ false
    → status_beq e'.status status ≡ true
    → e'.generation ≡ e.generation
    → Matches (mark id status c).1 (set_entry p e' (next_generation r))
mark-Matches {r} m id p e e' status at same live set kept = record {
  sound =
      set_entry-IsSound (generation-IsSound m.sound) p e e' (located_inv id r p e at).1 same
        (λ _. live);
  key = λ j. mark-keyed m id status j;
  match = λ j.
      mark-match (later-Matches m) id p e e' (located-next id r (some (p, e)) at) j status set kept;
}

take_off-Matches :
    {c : Catalog} {r : Registry} (m : Matches c r) (id : ToolId) (p : ℕ) (e e' : Managed)
    → located id r ≡ some (p, e)
    → e'.registration ≡ e.registration
    → Matches
        (take_off id c)
        (record (set_entry p e' (next_generation r)) { registrations = remove id r.registrations })
take_off-Matches {r} m id p e e' at same = record {
  sound =
      unmap-IsSound (generation-IsSound m.sound) p e e' (located_inv id r p e at).1 same id
        (ground (arith, located_inv id r p e at, nat_beq_iff p p));
  key = λ j. rw get-take_off (ground (arith, m.key j));
  match = λ j. take_off-match (later-Matches m) id p e e' (located-next id r (some (p, e)) at) j;
}

pub status_beq_refl : (s : ToolStatus) → status_beq s s ≡ true
status_beq_refl s = ground arith

pub fail_if_state : (b : Bool) (x : ToolError) (e : Engine) → (fail_if b x e).1 ≡ e
fail_if_state true x e = refl
fail_if_state false x e = refl

pub switch-Matches :
    (id : ToolId) (status : ToolStatus) (e : Engine)
    → status_beq status unloaded ≡ false
    → MatchesEngine e
    → MatchesEngine (switch id status e).1
unfolding switch
switch-Matches id status e live m =
    set_status_cases e.registry
      (λ o. MatchesEngine (continue o.0 (mark_too id status) (record e { registry = o.1 })).1) id
      status (λ _. m)
      λ p entry at loaded allowed. rw fail_if_state (
        mark-Matches m id p entry (record entry { status = status }) status at refl live
          (status_beq_refl status) refl)

pub engine_unload-Matches :
    (id : ToolId) (force : Bool) (e : Engine)
    → MatchesEngine e
    → MatchesEngine (engine_unload id force e).1
unfolding engine_unload
engine_unload-Matches id force e m =
    unload_cases e.registry
      (λ o. MatchesEngine (continue o.0 (unlist id) (record e { registry = o.1 })).1) id force
      (λ _. m) λ p entry at loaded. unload_step p entry (drained force entry) at refl refl refl
  where
    unload_step :
        (p : ℕ) (entry entry' : Managed)
        → located id e.registry ≡ some (p, entry)
        → entry'.registration ≡ entry.registration
        → entry'.status ≡ draining
        → entry'.generation ≡ entry.generation
        → Matches
            (if is_empty entry'.in_flight
              then take_off id e.catalog
              else (mark id draining e.catalog).1)
            (finish_unload id p entry' (next_generation e.registry))
    unload_step p entry entry' at same status kept = elim (Bool-cases (is_empty entry'.in_flight)) [
      | inl none_left ↦
          rw none_left (take_off-Matches m id p entry (record entry' { status = unloaded }) at same)
      | inr some_left ↦
          rw some_left (
            mark-Matches m id p entry entry' draining at same (rw status refl) (rw status refl)
              kept)
    ]
