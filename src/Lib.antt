-- ===== src/Lib.antt =====
-- EchoEar Cloud: a verification library for the Go service of this repository.
--
-- The service connects phones with agents on computers. Its database keeps accounts, devices, agents,
-- the shares by which an owner lets another user use an agent, and the leases that stand on an access.
-- Its tunnel hub keeps the connections: one agent under each key (user, agent), its phones, the HTTP
-- requests that go through it, and the discoveries that wait for its answer. The two meet in the
-- handlers: an access is resolved in the database, then a request goes to the hub under the owner's
-- key.
--
-- The files and the code they model:
-- - Base: names of the libraries, association lists for Go's maps, texts and `strings.TrimSpace`, lists
--   and `ORDER BY`, signed integers.
-- - Api/Identifier: `validIdentifier` of internal/api/echoear_handlers.go.
-- - Api/Tunnel: internal/api/tunnel.go and the hub part of internal/api/hapi_gateway.go. Hub has the
--   types, the four maps and `sendControl`; Attach has `attach`, `detach`, `attachGateway` and
--   `detachGateway`; Delivery has `sendGatewayFrame` and `deliverGateway`; Discovery has
--   `requestDiscovery` and `deliverDiscovery`; Frames has `readLoop`. Invariant, Preserve, Requests,
--   Untouched and Steps prove the invariant over all sequences of steps; Opened, Routing, Takeover,
--   Release and Exchange prove what the operations do.
-- - Api/Gateway: the request frames and `streamGatewayResponse` of internal/api/hapi_gateway.go.
-- - Api/Connect: `requestHapiConnection` of internal/api/echoear_handlers.go, with `issueAccessTicket`
--   of internal/api/admin_share_handlers.go; it takes what the hub answered as an argument.
-- - Api/Entry: `hapiGateway` up to its body and `gatewayAuthorized` of internal/api/hapi_gateway.go, and
--   `sessionAuthorized` of internal/api/tunnel.go, with `hapiTunnel` in Join: where the tables and the
--   hub meet.
-- - Config: internal/config/config.go, and the key that signs tickets, of
--   internal/database/repository.go.
-- - Api/Http: the answers and texts of internal/api/helpers.go. A handler gives the state after it and
--   `done` with the data of its answer, or `refused` with the status.
-- - Api/Session: the middlewares, `login`, `logout` and `changePassword` of internal/api/server.go;
--   Api/Accounts: `register` there and the routes of internal/api/admin_share_handlers.go that change users.
-- - Api/Devices: the handlers of devices of internal/api/server.go; Api/Agents: those of agents, settings,
--   pairing and responses of internal/api/echoear_handlers.go; Api/Shares: those of shares of
--   internal/api/admin_share_handlers.go, with the tickets and the usage in Tickets and the claims of
--   internal/api/access_ticket.go.
-- - Database/Rows: the tables as lists of rows, and the results of operations.
-- - Database/Users: `UpdateUserLifecycle`, `ListUsers` and `ListAudit` of
--   internal/database/access_repository.go, and `CreateUser` and the sessions of internal/database/repository.go.
-- - Database/Shares: `CreateShare`, `ListShares` and `TransitionShare`; Database/Access:
--   `ListAccessibleAgents`, `ResolveAgentAccess` and the leases; Database/Usage: `RecordShareUsage`;
--   all of internal/database/access_repository.go.
-- - Database/Devices: the devices and their tokens, of internal/database/repository.go.
-- - Database/Agents: the agents; Database/Mailbox: the queue of connection requests and the responses;
--   Database/Pairing: the pairing codes and claims; Database/Settings: the settings of users; all of
--   internal/database/agent_repository.go.
--
-- How state is modelled. An operation of the hub is one step on a record of the maps and the channels; a
-- pointer or a channel is its address. `detach`, `attach`, `detachGateway` and `requestDiscovery` release the
-- lock before they send, close or clean up, and `readLoop` takes it in several sections: the
-- definitions run each as one step. Steps lets the channels change in any way between two steps, and
-- `send_all` lets the others act before each frame. A message stands on a queue as its record:
-- `json.Marshal`, which compacts and escapes a raw payload, is not applied to it. A transaction of the database is a
-- function from the tables to a result: one that fails gives no tables, and its caller goes on with
-- those it had. Where two transactions may overlap, the operation is two functions, one up to its last
-- read and one from its first write (`check_lifecycle` and `apply_lifecycle`, `check_refresh` and
-- `write_access`). The constraints of migrations/*.sql are guards of the operations that can meet them.
--
-- Bounds. Timestamps are microseconds. An INTEGER column and a BIGINT column of usage are refused
-- beyond 2^31 and 2^63, and so is a policy version beyond 2^31; identifiers are unbounded. There are two
-- fuels. That of the chunks of a gateway body is the length of the body, and the theorem on the
-- frames shows that it is enough, since each chunk takes a byte at least. That of the codes of a pairing
-- claim is the five attempts of the code itself.
--
-- Parameters. SHA-256, bcrypt, base64, JSON, the case mappings and foldings, net.ParseIP and the locale's
-- LOWER are arguments of the definitions that call them; so are the random codes and tokens, and the ids
-- that the database draws. The runtime's choices are arguments too: how a send on a
-- channel ends, which case a `select` takes, which rows another transaction has locked, and what the
-- clocks say, the service's and the database's apart where the code reads both. Failures of the
-- connection to the database are not modelled, nor is an operation that commits and then fails to read
-- its row back.
--
-- Not modelled: the HTTP router, the upgrade to WebSocket and the write loop (I/O), the web pages, the
-- signature of tickets (a library), the schema and the deployment scripts, and the printing of the
-- database's URL (net/url). Of net/http, an informational status is followed by its final 200 at once.
pub mod Base
pub mod Api
pub mod Database
pub mod Config
