-- ===== src/Agent/Tool/Engine/Agreement.antt =====
-- The catalog and the registry of the engine (tool/engine.go) agree on every tool.
use liaison.Base.{◌≡◌, refl, Bool, true, false, not, ◌&&◌, Option, none, some}
use liaison.Base.Eq.{◌==◌, nat_eq, string_eq}
use liaison.Base.Table.{get}
use liaison.Agent.Tool.Types.{ToolId, draining, tool_id_eq}
use liaison.Agent.Tool.Registry.{Managed, Registry, entry_of, status_beq, new_registry}
use liaison.Agent.Tool.Registry.Laws.{IsSound, new-IsSound}
use liaison.Agent.Tool.Catalog.{CatalogEntry, Catalog}
use liaison.Agent.Tool.Engine.{new_engine}

-- The entries of one tool. A tool that only the catalog still has is one that is draining.
abbrev pub agrees : Option CatalogEntry → Option Managed → Bool
agrees none none = true
agrees none (some e) = false
agrees (some c) none = status_beq c.status draining
agrees (some c) (some e) = c.registration_generation == e.generation && status_beq c.status e.status

abbrev pub keyed : ToolId → Option CatalogEntry → Bool
keyed id none = true
keyed id (some c) = c.descriptor.id == id

-- In the catalog and not draining.
abbrev pub is_live : Option CatalogEntry → Bool
is_live none = false
is_live (some c) = not (status_beq c.status draining)

-- The tests below on the two halves of the engine.
pub record Matches (c : Catalog) (r : Registry) : Type 0 where
  pub sound : IsSound r
  pub key : (id : ToolId) → keyed id (get id c.entries) ≡ true
  pub match : (id : ToolId) → agrees (get id c.entries) (entry_of id r) ≡ true

-- At most one version of a tool is live.
abbrev pub IsSingle : Catalog → Type 0
IsSingle c =
    (a b : ToolId)
    → is_live (get a c.entries) ≡ true
    → is_live (get b c.entries) ≡ true
    → a.namespace ≡ b.namespace
    → a.name ≡ b.name
    → a ≡ b

pub new-Matches : Matches new_engine.catalog new_registry
unfolding get
new-Matches = record { sound = new-IsSound; key = λ id. refl; match = λ id. refl }
