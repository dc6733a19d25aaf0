-- ===== src/Agent/Runtime/Store.antt =====
-- runtime/store.go: the state of `MemoryStore`. Its operations and their laws are in the modules
-- below. Each operation runs under the store's lock, so it is one step. `ctx` is the value of
-- `ctx.Err()` on entry and `now` the value of the clock.
pub mod Sessions
pub mod Attachments
pub mod Turns
pub mod Steps
pub mod Messages
use liaison.Base.{String, Option, none, some, List, []}
use liaison.Base.Exec.{Exec, pure, fail}
use liaison.Base.Table.{Table}
use liaison.Agent.Tool.Types.{ToolSetSnapshot}
use liaison.Agent.Runtime.Types.{CtxError, Error, context, Session, Attachment, Turn, Step, Message}

pub record Store : Type 0 where
  pub sessions : Table String Session
  pub turns : Table String Turn
  pub steps : Table String Step
  pub messages : Table String (List Message)
  pub snapshots : Table String ToolSetSnapshot
  pub attachments : Table String Attachment

-- `NewMemoryStore`.
abbrev pub new_memory_store : Store
new_memory_store = record {
  sessions = [];
  turns = [];
  steps = [];
  messages = [];
  snapshots = [];
  attachments = [];
}

abbrev pub Action : Type 0 → Type 0
Action A = Exec Store Error A

-- `if err := ctx.Err(); err != nil { return ... }`.
abbrev pub check_ctx : Option CtxError → Action (Unit {0})
check_ctx none = pure tt
check_ctx (some e) = fail (context e)

-- A validator's verdict.
abbrev pub check : Option Error → Action (Unit {0})
check none = pure tt
check (some e) = fail e
