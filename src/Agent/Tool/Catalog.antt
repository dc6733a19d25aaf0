-- ===== src/Agent/Tool/Catalog.antt =====
-- tool/catalog.go: what the engine shows of its tools. Each operation runs under the catalog's lock
-- and replaces the map of entries by a changed copy.
pub mod Entries
use liaison.Base.{ℕ, String, Bool, true, false, ◌&&◌, Option, none, some, List, [], if◌then◌else◌}
use liaison.Base.Eq.{◌==◌, string_eq}
use liaison.Base.Lists.{keep}
use liaison.Base.Table.{Table, get, put, remove, values}
use liaison.Base.Words.{inc64}
use liaison.Agent.Tool.Types.{ToolId, ToolDescriptor, ToolStatus, tool_id_eq}

pub record CatalogEntry : Type 0 where
  pub descriptor : ToolDescriptor
  pub registration_generation : ℕ
  pub status : ToolStatus

-- `Catalog.current`.
pub record Catalog : Type 0 where
  pub generation : ℕ
  pub entries : Table ToolId CatalogEntry

abbrev pub new_catalog : Catalog
new_catalog = record { generation = 0; entries = [] }

abbrev pub with_status : ToolStatus → CatalogEntry → CatalogEntry
with_status status entry = record entry { status = status }

unfoldable pub upsert : ToolDescriptor → ℕ → ToolStatus → Catalog → Catalog
upsert descriptor registration_generation status c = record {
  generation = inc64 c.generation;
  entries =
      put descriptor.id
        (record {
          descriptor = descriptor;
          registration_generation = registration_generation;
          status = status;
        })
        c.entries;
}

abbrev pub changed : ToolId → ToolStatus → Option CatalogEntry → Catalog → Bool × Catalog
changed id status none c = (false, c)
changed id status (some entry) c = (
  true,
  record { generation = inc64 c.generation; entries = put id (with_status status entry) c.entries },
)

-- `setStatus`: whether the entry is there, and the catalog.
unfoldable pub mark : ToolId → ToolStatus → Catalog → Bool × Catalog
mark id status c = changed id status (get id c.entries) c

abbrev pub dropped : ToolId → Option CatalogEntry → Catalog → Catalog
dropped id none c = c
dropped id (some entry) c = record {
  generation = inc64 c.generation;
  entries = remove id c.entries;
}

-- `remove`.
unfoldable pub take_off : ToolId → Catalog → Catalog
take_off id c = dropped id (get id c.entries) c

abbrev pub has_name : String → String → CatalogEntry → Bool
has_name namespace name entry =
    entry.descriptor.id.namespace == namespace && entry.descriptor.id.name == name

-- `byModelName`; the key of an entry is the ID of its descriptor (Engine/Agreement).
unfoldable pub by_model_name : String → String → Catalog → List CatalogEntry
by_model_name namespace name c = keep (has_name namespace name) (values c.entries)
