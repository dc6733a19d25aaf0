-- ===== src/Agent/Tool/Catalog/Entries.antt =====
-- What a lookup finds after each operation of the catalog (tool/catalog.go).
use liaison.Base.{ℕ, ◌≡◌, Option, none, some, arith, if◌then◌else◌, Option-cases, inl, inr}
use liaison.Base.Eq.{◌==◌}
use liaison.Base.Table.{get, get-put, get-remove}
use liaison.Agent.Tool.Types.{ToolId, ToolStatus, ToolDescriptor, tool_id_eq, tool_id_beq_iff}
use liaison.Agent.Tool.Catalog.{CatalogEntry, Catalog, upsert, mark, take_off, with_status}

abbrev pub restated : ToolStatus → Option CatalogEntry → Option CatalogEntry
restated status none = none
restated status (some c) = some (with_status status c)

pub get-upsert :
    (d : ToolDescriptor) (g : ℕ) (status : ToolStatus) (c : Catalog) (j : ToolId)
    → get j (upsert d g status c).entries ≡ (
        if d.id == j
        then some (record { descriptor = d; registration_generation = g; status = status })
        else get j c.entries)
unfolding upsert
get-upsert d g status c j =
    get-put d.id j (record { descriptor = d; registration_generation = g; status = status })
      c.entries

pub get-mark :
    (id : ToolId) (status : ToolStatus) (c : Catalog) (j : ToolId)
    → get j (mark id status c).1.entries
      ≡ (if id == j then restated status (get j c.entries) else get j c.entries)
unfolding mark
get-mark id status c j = elim (Option-cases (get id c.entries)) [
  | inl n ↦ rw n (ground (arith, tool_id_beq_iff id j))
  | inr (e, h) ↦
      rw h (ground (arith, get-put id j (with_status status e) c.entries, tool_id_beq_iff id j))
]

pub get-take_off :
    (id : ToolId) (c : Catalog) (j : ToolId)
    → get j (take_off id c).entries ≡ (if id == j then none else get j c.entries)
unfolding take_off
get-take_off id c j = elim (Option-cases (get id c.entries)) [
  | inl n ↦ rw n (ground (arith, tool_id_beq_iff id j))
  | inr (e, h) ↦ rw h (get-remove id j c.entries)
]
