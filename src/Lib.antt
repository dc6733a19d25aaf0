-- ===== src/Lib.antt =====
-- A model of the parts of liaison that decide what an agent may do, and proofs about them.
--
-- liaison lets users reach applications behind edges; its manager (pkg/liaison/manager) runs an
-- agent that works in sessions on those applications with tools. The parts modelled here:
--
-- - Agent/Runtime: the store of agent sessions, turns, steps, attachments, messages and tool
--   snapshots (agent/runtime/store.go, types.go, model.go). `Status` and `Types` hold the data and
--   the validators, `Store` and its children one function for each method of `MemoryStore`.
--   `Cases` gives each method's outcomes, `Consistency` the invariant and that each method keeps
--   it, `Calls` all calls that change the store as one type, with histories of calls;
--   `Calls/Lifecycle` is the specification of a session's life and the events that calls are for it.
-- - Agent/Tool: the descriptors and snapshots of tools (agent/tool/types.go), the registry with its
--   leases (registry.go), the catalog (catalog.go), the engine that keeps the two together
--   (engine.go), and the gate of `Engine.execute` with grants, session kinds and the authorization
--   policy (session_kind.go, pipeline.go, agent/policy/authorization.go). `Names` writes tool IDs as
--   texts and parses them (types.go), `Disclosure` chooses the tools that a model is shown and that a
--   search finds (disclosure.go, the score of catalog.go).
-- - Agent/Runtime/Context: the history of earlier turns that the model is given
--   (agent/runtime/context.go).
-- - Agent/Runtime/Events: the broker of the runtime's events (agent/runtime/events.go).
-- - Agent/Approvals: approvals of tool calls, asked for, decided and consumed by queries of the
--   database that interleave (agent/runtime/durable_approval.go, the compare-and-swap of
--   pkg/liaison/repo/dao/dao_agent_runtime.go).
-- - Access: the registry of live protocol sessions that an attachment names
--   (accesssession/registry.go).
-- - Gatekeeper: the TCP listeners of proxies by ID and by port (pkg/entry/transport/gatekeeper.go).
--   `Framing` is the address that it writes ahead of a connection, and how the edge reads it
--   (pkg/edge/proxy/proxy.go).
-- - Traffic: counted bytes from the connections (pkg/trafficconn) over the gatekeeper to the collector
--   (traffic/traffic_collector.go) and the database.
-- - Firewall: the allowlist of source addresses of each proxy (pkg/entry/firewall).
-- - Tokens: personal access tokens, made, revoked and taken for their owner (iam/pat.go) on their
--   table (pkg/liaison/repo/dao/dao_user_api_token.go). `Text` has what this uses of Go's texts and
--   base32, on bytes.
-- - Examples: small runs, and each theorem applied to one of them.
--
-- Paths without a leading pkg are below pkg/liaison/manager.
--
-- The runtime asks the engine for a snapshot of tools, a model step names a tool of that snapshot,
-- and `Engine.execute` tests the call against the snapshot, the attachment and the policy before it
-- takes a lease from the registry. The tool resolves the attachment's session through `Access`.
-- A client of a proxy passes the firewall in the gatekeeper, which opens a stream to the edge, writes
-- the address ahead and counts the bytes of the connection.
--
-- State is passed explicitly: an operation is a function from a state to a result and a state
-- (Base/Exec), and what was written before an error stays written. A Go map is an association list
-- (Base/Table), a pointer that outlives its map entry is an address in a heap (Agent/Tool/Registry).
-- Counters of 64 and 32 bits wrap around (Base/Words). Each operation holds its component's lock,
-- so it is one step; where the source lets go of the lock in between there are two steps. `CreatePAT`
-- holds no lock: it is one step in Tokens, for calls that follow one another. The value
-- of `ctx.Err()` on entry and the clock are arguments. No definition runs on fuel.
--
-- Parameters, since they are not code of this repository: regular expressions, JSON, hashes and
-- text functions of Go (`GoLibrary`, `GoTexts`, `Encodings`), its `net` (`Net`, `Listen`), decimal
-- numerals, bcrypt and the random source (`Minting`, `Checking`), the authorizer, the filter of visible tools, and the tools with middleware and timeouts
-- (`Tools`). Durations, ports and IDs are not negative here.
--
-- A call on the store of sessions is admissible if it does not create a session with an active
-- turn, or, without an attachment, with an active attachment.
--
-- Not modelled: the agent loop and its durable store on a database, authorization by
-- role, and what is input and output: HTTP, protocol gateways, the relay of connections, the edge agent and the clients.
pub mod Base
pub mod Agent
pub mod Access
pub mod Firewall
pub mod Examples
pub mod Tokens
pub mod Traffic
pub mod Gatekeeper
pub mod Framing
