-- ===== src/Lib.antt =====
-- Verification of the gateway console: the service by which the operator of a Livepeer gateway
-- watches its resolver and payer daemons, the orchestrators and the sender's escrow.
--
-- The parts and how they meet. A request comes through the gate (token and handle) to a handler. A
-- handler calls a service; the services call the resolver client, the payer daemon's client and the
-- chain reader, and the repositories of the state database. The routing service reads through a
-- cache. Beside the requests, the audit poll copies the resolver's audit log into the database,
-- where the routing service reads an orchestrator's history. The two refresh routes are the only
-- ones that make a daemon act; each appends an event to the console's own audit log. The process is
-- put together from the environment, and taken down by a signal. The operator's browser signs in with
-- the token, keeps it for the session, and shows what the routes answer.
--
-- Files and code (paths from the root of the repository):
--   Gate       src/runtime/http/server.ts: the onRequest hook is `on_request`
--   Auth       src/service/auth, src/types/actor.ts: `authenticate`, `parse_actor`
--   Refresh    src/runtime/http/handlers/handleResolverRefresh.ts, src/service/resolver: `run_refresh`
--   Audit      src/service/audit: `append_event`, `list_events`
--   Repo       src/repo: the tables, `append`, `list_recent`, `append_batch`, `list_recent_for_orch`
--   AuditPoll  src/runtime/workers/auditPoll.ts: `tick` is `begin_tick` and `finish_tick`; `start`, `stop`
--   TtlCache   src/service/routing/index.ts, createTtlCache: `get_or_load`, `settle`
--   Routing    src/service/routing/index.ts: `list_orchs`, `get_orch`; Dedupe is its `dedupe`, and
--              Routing.Handlers handleListOrchs.ts and handleGetOrch.ts
--   Chain      src/providers/chain/viem.ts: `bonding_manager_list_pool`, `get_balance`
--   Payer      src/providers/payerDaemon/client.ts; Payer.Sender: src/service/sender, the wallet,
--              escrow and health handlers
--   Resolver   src/providers/resolver/client.ts, over the messages of its gen directory;
--              Resolver.Views: what it answers; Resolver.EnumJson: the registry's enums in JSON
--   Wire       src/providers/resolver/gen: `encode` and `decode` of the messages (Wire.Nodes,
--              Wire.Requests, Wire.Replies, Wire.Health), dates (Wire.Times), and in Wire.Service the
--              methods of `ResolverService` and the stub, `resolver_stub`, which is a `Grpc`
--   Listing    handleListAuditLog.ts, handleListResolverAuditLog.ts, handleCapabilitySearch.ts
--   Server     src/runtime/http/server.ts: the route table is `registrations`, a request is `serve`
--   Config     src/config/env.ts: `load_env`, `parse_listen_addr`
--   Startup    src/main.ts: `boot` is `main` up to the await of `listen`, with
--              `apply_bootstrap_migration_if_needed`
--   Process    src/main.ts from that await on, with `shutdown`: `step` and `run` over events
--   Admin.Api  admin-ui/shared/lib/api-base.js, session-storage.js, admin-ui/admin/lib/api.js and
--              session.js: `after_fetch`, `head_of`, `set_session`
--   Admin.Login, Admin.AuditScreen, Admin.RoutingScreen
--              admin-login.js, admin-audit.js and admin-routing.js under admin-ui/admin/components:
--              `submit`; `load_first_page`, `load_older`; the operations between their awaits, `step`
--   Admin.App, Admin.SenderScreen, Admin.OrchDetail
--              admin-app.js with admin-ui/shared/lib/route.js: `render_route`, `current`; admin-sender.js:
--              `reload`, `below_floor`; admin-orch-detail.js: `begin_load` and `end_load`, `step`;
--              Admin.Payload is what their responses hold
--   Admin.CapabilityScreen  admin-capabilities.js: `begin_submit` and `end_submit`, `step`
--   Admin.Display  admin-ui/admin/lib/format.js: `format_wei`, `short_address`
--   Common     texts, results, maps, JSON, decimals and lists, which the others share
--
-- How the code is read. A text is the list of its code points. What throws or rejects is a
-- `Failure`; a function that may throw returns a `Result`. State is passed on explicitly. Where the
-- code awaits, and other calls may come between, the model has separate steps: the two halves of a
-- tick, the call and the settling of a load, a shutdown before and behind the close of the server, and
-- the operations of the routing screen. Requests of the server are taken one after another, and a
-- sign-in with its request as one step. The libraries stand behind interfaces: `Sqlite`
-- (keys of AUTOINCREMENT grow, ORDER BY sorts and permutes), `Grpc` (how each call settles),
-- `WireFormat` and `Channel` (what stands below the generated code),
-- `BondingManager` (what the contract answers), `RoutingServiceDeps`, `Router` (which registration the
-- framework picks for a URL), `Platform` (JavaScript's `Number` on texts, zod's test of URLs) and
-- `RawDatabase` (the tables, and the run of a script). Repo.Orders has a database
-- that meets the first. Case mapping is that of ASCII letters, in which addresses, the scheme
-- "bearer" and the tokens compared with it are written.
--
-- Bounds and fuel. The pool walk recurs on the rounds that its guard of 1000 entries leaves, so the
-- fuel is the code's own bound. Printing a number in base 10 recurs on the number itself, which
-- bounds its digits. The loop of a `decode` recurs on the length of its input, since every round takes a
-- tag. All else is structural. Amounts are `bigint` in the code and have no width;
-- times are integers that JavaScript holds exactly, and are not cut off.
--
-- Not modelled: the set-up of Fastify, SQLite and the logger, and the static files of the client,
-- which only call libraries; of the generated code the JSON forms of messages, the payment messages and
-- the services that the console does not call; in the browser the rendering
-- and the display of times; the lint rules. Zod's coercion of a query is a given number; the name
-- of a parameter that is given twice is not told from one that is given once.
pub mod Common
pub mod Resolver
pub mod Repo
pub mod AuditPoll
pub mod TtlCache
pub mod Auth
pub mod Gate
pub mod Audit
pub mod Refresh
pub mod Chain
pub mod Payer
pub mod Wire
pub mod Dedupe
pub mod Routing
pub mod Server
pub mod Config
pub mod Process
pub mod Startup
pub mod Admin
pub mod Listing
