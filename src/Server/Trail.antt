-- ===== src/Server/Trail.antt =====
-- A refresh over HTTP and the audit log that is read over HTTP after it.
use livepeer_gateway_console.Common.{ℕ, ◌≡◌, refl, true, none, some, [], ◌∷◌}
use livepeer_gateway_console.Common.Text.{Text}
use livepeer_gateway_console.Common.Address.{is_eth_address}
use livepeer_gateway_console.Repo.Inserts.{IsKeyed, event_id}
use livepeer_gateway_console.Audit.{list_events}
use livepeer_gateway_console.Audit.RoundTrip.{list_events_lem}
use livepeer_gateway_console.Listing.{sent}
use livepeer_gateway_console.Listing.Limits.{first_page}
use livepeer_gateway_console.Gate.{Hook, next, ErrorCode, on_request}
use livepeer_gateway_console.Payer.Sender.{handle_health}
use livepeer_gateway_console.Refresh.{World, run_refresh}
use livepeer_gateway_console.Refresh.Keys.{run_refresh-IsKeyed, refresh_one_accepted}
use livepeer_gateway_console.Refresh.Audited.{request_for, event_for, refresh_audited}
use livepeer_gateway_console.Server.{
  registrations, HttpRequest, ServerDeps, audit_page, gate_error, health_reply, only, query_fits,
  handle, parse_and_handle, run_registration, dispatch, after_hook, serve,
}

-- The hook lets the request through as the actor, and the router serves it by a registration.
pub record IsServed (d : ServerDeps) (req : HttpRequest) (actor : Text) (place : ℕ) (address : Text)
    : Type 0 where
  pub passed : on_request d.admin_token req.head ≡ next actor
  pub found : d.router registrations req.method req.head.url ≡ some (place, address)

serve_refresh_one :
    (d : ServerDeps) (req : HttpRequest) (actor address : Text) (w : World)
    → IsServed d req actor 10 address
    → is_eth_address address ≡ true
    → (serve d req w).1 ≡ (run_refresh d.refresh actor address w).1
unfolding serve after_hook dispatch run_registration registrations parse_and_handle query_fits
    handle
serve_refresh_one d req actor address w served valid =
    rw (served.passed, served.found, refresh_one_accepted d.refresh actor address w valid) refl

serve_audit_log :
    (d : ServerDeps) (req : HttpRequest) (actor address : Text) (w : World)
    → IsServed d req actor 7 address
    → req.query.names ≡ []
    → req.query.limit ≡ none
    → req.query.before ≡ none
    → (serve d req w).0
      ≡ audit_page
          (sent (list_events d.refresh.db (record { limit = none; before = none }) w.table))
unfolding serve after_hook dispatch run_registration registrations parse_and_handle query_fits only
    handle
serve_audit_log d req actor address w served names limit before =
    rw (served.passed, served.found, names, limit, before, first_page) refl

-- While the database and the reply do not fail, an operator's refresh of an orchestrator over HTTP
-- is the first event of the audit log that the next request reads over HTTP, with the operator's
-- handle, the address and whether the daemon accepted; the events that were listed before follow.
pub refresh_then_listed :
    (d d' : ServerDeps) (req req' : HttpRequest) (actor address reader rest : Text) (w : World)
    → IsServed d req actor 10 address
    → is_eth_address address ≡ true
    → d.refresh.first_append ≡ none
    → d.refresh.second_append ≡ none
    → d.refresh.send ≡ none
    → IsKeyed event_id w.table
    → IsServed d' req' reader 7 rest
    → d'.refresh.db ≡ d.refresh.db
    → req'.query.names ≡ []
    → req'.query.limit ≡ none
    → req'.query.before ≡ none
    → (serve d' req' (serve d req w).1).0
      ≡ audit_page (
          sent (
            event_for d.refresh actor address w (d.refresh.daemon (request_for address))
            ∷ list_events d.refresh.db (record { limit = some 49; before = none }) w.table))
refresh_then_listed d d' req req' actor address reader rest w served valid p q s keyed served' db
      names limit before =
    let after = (run_refresh d.refresh actor address w).1 in
    let none_limit =
      list_events_lem d.refresh.db none after.table
        (run_refresh-IsKeyed d.refresh actor address w keyed) in
    let (_, logged, _) = refresh_audited d.refresh actor address w p q s in
    rw
      (
        serve_audit_log d' req' reader rest (serve d req w).1 served' names limit before,
        serve_refresh_one d req actor address w served valid,
        db,
        none_limit,
        logged,
        list_events_lem d.refresh.db (some 49) w.table keyed,
      )
      refl

-- The hook answers, or lets a request for the health through to its handler.
pub serve_refused :
    (d : ServerDeps) (req : HttpRequest) (w : World) (status : ℕ) (code : ErrorCode)
    → on_request d.admin_token req.head ≡ Hook.sent status code
    → (serve d req w).0 ≡ gate_error status code
unfolding serve after_hook
serve_refused d req w status code h = rw h refl

pub serve_health :
    (d : ServerDeps) (req : HttpRequest) (actor address : Text) (w : World)
    → on_request d.admin_token req.head ≡ next actor
    → d.router registrations req.method req.head.url ≡ some (1, address)
    → req.query.names ≡ []
    → (serve d req w).0
      ≡ health_reply (handle_health d.routing.grpc d.sender.deposit_info d.sockets d.refresh.now)
unfolding serve after_hook dispatch run_registration registrations parse_and_handle query_fits only
    handle
serve_health d req actor address w passed found names = rw (passed, found, names) refl
