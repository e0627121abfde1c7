-- ===== src/Server.antt =====
-- src/runtime/http/server.ts as a whole: the route table of `registerPublicRoutes` and
-- `registerApiRoutes`, the hook in front of it, and the handlers of the other modules behind it. The
-- framework's router, which picks a row of the table, is a parameter.
pub mod Gated
pub mod Ungated
pub mod Trail
pub mod Examples
use livepeer_gateway_console.Common.{
  ℕ, Bool, true, false, not, ◌&&◌, Option, none, some, List, [], ◌∷◌, get_elem?, if◌then◌else◌,
}
use livepeer_gateway_console.Common.Text.{Text, codes}
use livepeer_gateway_console.Common.Result.{Result}
use livepeer_gateway_console.Repo.{Sqlite}
use livepeer_gateway_console.Audit.{AuditEvent}
use livepeer_gateway_console.Resolver.{Grpc, SelectResult, ResolverAuditEntry}
use livepeer_gateway_console.Payer.{GetDepositInfoResponse}
use livepeer_gateway_console.Payer.Sender.{
  SenderServiceDeps, SenderEscrow, SocketPresence, HealthReply, WalletReply, get_escrow,
  handle_get_sender_wallet, handle_health,
}
use livepeer_gateway_console.Dedupe.{includes}
use livepeer_gateway_console.Routing.{RoutingServiceDeps, OrchRosterRow}
use livepeer_gateway_console.Routing.Handlers.{GetOrchReply, handle_list_orchs, handle_get_orch}
use livepeer_gateway_console.Listing.{
  Coerced, Reply, has_length, handle_list_audit_log, handle_list_resolver_audit_log,
  handle_capability_search,
}
use livepeer_gateway_console.Gate.{Request, Hook, next, sent, ErrorCode, on_request}
use livepeer_gateway_console.Refresh.{
  Surroundings, World, Outcome, handle_resolver_refresh, handle_resolver_refresh_one,
}

pub data Method : Type 0 where
  get post : Method

pub data Route : Type 0 where
  healthz health orchs orch capability_search sender_wallet sender_escrow : Route
  audit_log resolver_audit_log resolver_refresh resolver_refresh_one : Route

-- A registration: the method, the pattern and the handler.
pub record Registration : Type 0 where
  pub method : Method
  pub pattern : Text
  pub route : Route

-- The registrations, in the order of the source.
unfoldable pub registrations : List Registration
registrations =
    record { method = get; pattern = codes "/healthz"; route = healthz }
    ∷ record { method = get; pattern = codes "/api/health"; route = health }
    ∷ record { method = get; pattern = codes "/api/orchs"; route = orchs }
    ∷ record { method = get; pattern = codes "/api/orchs/:address"; route = orch }
    ∷ record { method = get; pattern = codes "/api/capabilities/search"; route = capability_search }
    ∷ record { method = get; pattern = codes "/api/sender/wallet"; route = sender_wallet }
    ∷ record { method = get; pattern = codes "/api/sender/escrow"; route = sender_escrow }
    ∷ record { method = get; pattern = codes "/api/audit-log"; route = audit_log }
    ∷ record { method = get; pattern = codes "/api/resolver/audit-log"; route = resolver_audit_log }
    ∷ record { method = post; pattern = codes "/api/resolver/refresh"; route = resolver_refresh }
    ∷ record {
      method = post;
      pattern = codes "/api/resolver/refresh/:address";
      route = resolver_refresh_one;
    }
    ∷ []

-- The framework's router: for the registrations, a method and the raw URL, the place of the
-- registration that serves the request and the `:address` in its path.
abbrev pub Router : Type 0
Router = List Registration → Method → Text → Option (ℕ × Text)

-- The query string as the framework parses it: the names that it has, and the values of those that
-- the program reads, numbers as zod coerces them.
pub record Query : Type 0 where
  pub names : List Text
  pub capability : Option Text
  pub offering : Option Text
  pub tier : Option Text
  pub limit : Option Coerced
  pub before : Option Coerced
  pub since : Option Coerced
  pub eth_address : Option Text

-- `empty_body` says whether the body is absent, null or `{}`.
pub record HttpRequest : Type 0 where
  pub method : Method
  pub head : Request
  pub query : Query
  pub empty_body : Bool

-- `ServerDeps` as the services use them.
pub record ServerDeps : Type 0 where
  pub admin_token : Text
  pub router : Router
  pub routing : RoutingServiceDeps
  pub sender : SenderServiceDeps
  pub sockets : SocketPresence
  pub refresh : Surroundings

-- How a request ends, by the route that answered.
pub data HttpReply : Type 0 where
  gate_error : ℕ → ErrorCode → HttpReply
  not_routed : HttpReply
  invalid_query : HttpReply
  alive : HttpReply
  health_reply : HealthReply → HttpReply
  orchs_reply : Result (List OrchRosterRow) → HttpReply
  orch_reply : GetOrchReply → HttpReply
  search_reply : Reply SelectResult → HttpReply
  wallet_reply : WalletReply → HttpReply
  escrow_reply : Result SenderEscrow → HttpReply
  audit_page : Reply (List AuditEvent) → HttpReply
  resolver_page : Reply (List ResolverAuditEntry) → HttpReply
  refresh_reply : Outcome → HttpReply

-- `z.strictObject`: no names but these.
only : List Text → List Text → Bool
only allowed [] = true
only allowed (n ∷ ns) = includes allowed n && only allowed ns

-- `.min(1).max(bound).optional()`
text_fits : ℕ → Option Text → Bool
text_fits bound none = true
text_fits bound (some s) = has_length bound s

-- The schema of the query of each route; the others read no query.
query_fits : Route → Query → Bool
unfolding text_fits only
query_fits health q = only [] q.names
query_fits orchs q =
    only (codes "capability" ∷ codes "offering" ∷ []) q.names
    && text_fits 120 q.capability
    && text_fits 240 q.offering
query_fits capability_search q =
    only (codes "capability" ∷ codes "offering" ∷ codes "tier" ∷ []) q.names
query_fits sender_wallet q = only [] q.names
query_fits sender_escrow q = only [] q.names
query_fits audit_log q = only (codes "limit" ∷ codes "before" ∷ []) q.names
query_fits resolver_audit_log q =
    only (codes "since" ∷ codes "limit" ∷ codes "ethAddress" ∷ []) q.names
query_fits _ q = true

-- `CapabilitySearchQuerySchema` wants both texts.
search_for : Grpc → Query → Option Text → Option Text → Reply SelectResult
search_for g q (some capability) (some offering) =
    handle_capability_search g
      (record { capability = capability; offering = offering; tier = q.tier })
search_for g q _ _ = Reply.invalid_input

-- The handler of a route, for a query within its schema.
handle : ServerDeps → HttpRequest → Text → Text → World → Route → HttpReply × World
unfolding search_for
handle d req actor address w healthz = (alive, w)
handle d req actor address w health =
    (health_reply (handle_health d.routing.grpc d.sender.deposit_info d.sockets d.refresh.now), w)
handle d req actor address w orchs =
    (orchs_reply (handle_list_orchs d.routing req.query.capability req.query.offering), w)
handle d req actor address w orch = (orch_reply (handle_get_orch d.routing address), w)
handle d req actor address w capability_search =
    (search_reply (search_for d.routing.grpc req.query req.query.capability req.query.offering), w)
handle d req actor address w sender_wallet = (wallet_reply (handle_get_sender_wallet d.sender), w)
handle d req actor address w sender_escrow = (escrow_reply (get_escrow d.sender), w)
handle d req actor address w audit_log =
    (audit_page (handle_list_audit_log d.refresh.db req.query.limit req.query.before w.table), w)
handle d req actor address w resolver_audit_log = (
  resolver_page (
      handle_list_resolver_audit_log d.routing.grpc req.query.since req.query.limit
        req.query.eth_address),
  w,
)
handle d req actor address w resolver_refresh =
    let (outcome, after) = handle_resolver_refresh d.refresh actor req.empty_body w in
    (refresh_reply outcome, after)
handle d req actor address w resolver_refresh_one =
    let (outcome, after) = handle_resolver_refresh_one d.refresh actor address w in
    (refresh_reply outcome, after)

parse_and_handle : ServerDeps → HttpRequest → Text → Text → World → Route → HttpReply × World
unfolding handle
parse_and_handle d req actor address w route =
    if query_fits route req.query then handle d req actor address w route else (invalid_query, w)

run_registration :
    ServerDeps → HttpRequest → Text → Text → World → Option Registration → HttpReply × World
run_registration d req actor address w none = (not_routed, w)
run_registration d req actor address w (some r) = parse_and_handle d req actor address w r.route

dispatch : ServerDeps → HttpRequest → Text → World → Option (ℕ × Text) → HttpReply × World
unfolding run_registration
dispatch d req actor w none = (not_routed, w)
dispatch d req actor w (some (i, address)) =
    run_registration d req actor address w (get_elem? registrations i)

pub after_hook : ServerDeps → HttpRequest → World → Hook → HttpReply × World
unfolding dispatch
after_hook d req w (sent status code) = (gate_error status code, w)
after_hook d req w (next actor) =
    dispatch d req actor w (d.router registrations req.method req.head.url)

-- One request: the hook, the router, the handler.
pub serve : ServerDeps → HttpRequest → World → HttpReply × World
unfolding after_hook
serve d req w = after_hook d req w (on_request d.admin_token req.head)

-- The world that requests leave, each served over what the one before it left, with the answers of
-- its own surroundings.
pub serve_all : List (ServerDeps × HttpRequest) → World → World
serve_all [] w = w
serve_all ((d, req) ∷ reqs) w = serve_all reqs (serve d req w).1
