-- ===== src/Lib.antt =====
-- Models and proofs of the core of the gateway programs of this repository: what they keep in
-- memory or in tables, each operation on it as a function by clauses, and the theorems on those.
--
-- Parts, and how they interact:
-- - Patch (internal/envtools/tools/apply_patch_core.go): the apply_patch tool. Parse models ParsePatch
--   and its helpers, from a text to file operations or to an error with the line it names; Apply models
--   ApplyHunks, which an update or a move runs on the lines of its file. Marker holds the markers.
-- - Relay (internal/codexexecgateway/relay/relay.go): the registry of tickets (NewRegistry, Create,
--   Lookup, cleanup, ActiveCount), one ticket's pairing of a PUT and a GET (Relay/Pairing: AcceptPut,
--   AcceptGet, run), and the ticket of a header (Relay/Ticket). The goroutine of a ticket calls cleanup
--   of the registry when it is done.
-- - Gateway (internal/codexexecgateway): Revocation models revocation.go, the bounded set of revoked
--   turns that a bridge asks; Mux models registry.go, multiplex.go and handleInbound of inbound.go:
--   connections by executor, the sessions routed over each, and what arrivals and departures do;
--   Bridge models handleBridge of bridge.go, which asks both before it routes a session.
-- - Bearer: the signed bearers that the gateway checks. Ticket models ws_ticket.go
--   (internal/codexexecgateway/handlers), Capability the verifier of internal/codexexecgateway/auth.go and
--   the two mints, internal/codexappgateway/captoken.go and internal/codexexecgateway/sdk/captoken.go. A
--   bridge asks the verifier (Bearer/Admission), which is the parameter of Gateway/Bridge.
-- - Broker (internal/codexappgateway/broker): one websocket to a codex subprocess. Waiters models the
--   maps pendingResp and pendingTurns with their channels, Conn and Dispatch what the reader does with a
--   frame, Call the methods Turn and StartThread cut where they wait, Steps everything that changes a
--   Conn in any order, Pool the connections of the workspaces (pool.go).
-- - Supervisor (internal/codexappgateway/supervisor/supervisor.go): the subprocess of each workspace, its
--   directory, and the races of its spawns; the pool of Broker dials what it spawns.
-- - CopyPath (internal/envtools/tools/copy_path.go): the tool copy_path. Pump is the loop between the two
--   executors, Transfer the copy through the bridge, Http the copy through the relay and the dispatch of
--   Call, Quote the quoting of paths.
-- - Tunnel (internal/tunnel): Stream models the headers of streams (stream.go), Registry the tunnels of
--   the sandboxes (registry.go) and the calls at the end of a tunnel's handler
--   (internal/sandboxproxy/tunnel.go), each call a step of its own.
-- - Auth (internal/codexauth): the token issuer. Refresh models the rotation of refresh tokens of
--   store.go; Device the device codes of store.go and the handlers of device.go; Tokens the handlers of
--   pkce.go and access tokens. The device flow leaves a PKCE request that /oauth/token consumes.
-- - Quota (internal/server/quota.go): settings in layers, overrides of a workspace, and the checks.
-- - Names: the name resolver (internal/envtools/nameresolver/resolver.go) and the approval filter
--   (internal/codexappgateway/approvalfilter/filter.go), for the tools' side of the gateway.
-- - Lifecycle (internal/sbxstore/state.go, idlewatcher.go): statuses of sandboxes and the idle watcher.
-- - Common: Boolean tests, equality as an interface, results, maps, texts, signed integers.
-- - Examples: runs on concrete inputs.
--
-- How state and code correspond: a Go map is an association list with one entry for a key; a pointer
-- that is compared or shared is a handle into a map; a table is its list of rows, and a SQL statement
-- is a function on it, under the unique columns of the migrations; a method under a lock, and a
-- transaction, is one step, and so is a handler of the device flow, whose statements are separate.
-- Clocks, random tickets, digests and the answers of a database and of executors are arguments. A Go
-- error is the `err` of a Result, with the values that its message prints; an HTTP reply is its status
-- and what it carries.
--
-- Bounds and fuel: the parser's loops over operations and hunks run on fuel, the number of lines left,
-- and each round consumes a line, so the fuel is enough; every other loop is structural, and a loop that
-- polls an executor goes over the list of its replies, which ends when the context is done. Quantities are
-- natural numbers, so negative settings are outside the model, and so is the overflow of an int64 but in
-- the two sums of the budget check of quota.go, which wrap around; the limits of the relay and the cap of
-- the revoked set are signed, as their code treats negative ones apart.
--
-- Not modelled: websockets, HTTP and JSON decoding, the encoding of relayed frames, logging, tickers,
-- lost database connections, JWTs and their keys, the handshake of a new Conn, the drain of a copy's
-- destination, the legacy parsers of quota.go (parameters here), and
-- the parts of the repository that only call libraries: containers, Kubernetes, chat bridges, front end.
pub mod Common
pub mod Patch
pub mod Relay
pub mod Gateway
pub mod Auth
pub mod Quota
pub mod Names
pub mod Lifecycle
pub mod Bearer
pub mod Broker
pub mod CopyPath
pub mod Tunnel
pub mod Supervisor
pub mod Examples
