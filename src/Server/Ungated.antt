-- ===== src/Server/Ungated.antt =====
-- Requests that the framework routes although their raw URL does not begin with /api/, as a router
-- that normalises the URL may: one in absolute form, or with percent-encoded letters.
use livepeer_gateway_console.Common.{
  ℕ, ◌≡◌, refl, true, false, none, some, [], ◌∷◌, ◌++◌, get_elem?,
}
use livepeer_gateway_console.Common.Text.{Text}
use livepeer_gateway_console.Gate.Laws.{on_request-outside}
use livepeer_gateway_console.Refresh.{World, wildcard, run_refresh}
use livepeer_gateway_console.Audit.RoundTrip.{log_of}
use livepeer_gateway_console.Refresh.Audited.{event_for, request_for, refresh_audited}
use livepeer_gateway_console.Refresh.Keys.{refresh_all_accepted}
use livepeer_gateway_console.Server.{
  Registration, registrations, resolver_refresh, HttpRequest, ServerDeps, query_fits, handle,
  parse_and_handle, run_registration, dispatch, after_hook, serve,
}
use livepeer_gateway_console.Server.Gated.{under_api}

served_ungated :
    (d : ServerDeps) (req : HttpRequest) (w : World) (i : ℕ) (address : Text) (r : Registration)
    → under_api req.head.url ≡ false
    → d.router registrations req.method req.head.url ≡ some (i, address)
    → get_elem? registrations i ≡ some r
    → r.route ≡ resolver_refresh
    → req.empty_body ≡ true
    → (serve d req w).1 ≡ (run_refresh d.refresh [] wildcard w).1
unfolding serve after_hook dispatch run_registration parse_and_handle query_fits handle under_api
served_ungated d req w i address r outside found at route empty =
    rw
      (
        on_request-outside d.admin_token req.head outside,
        found,
        at,
        route,
        empty,
        refresh_all_accepted,
      )
      refl

-- While the database and the reply do not fail: a request with an empty body that the router serves
-- as the refresh of all orchestrators, and whose raw URL does not begin with /api/, makes the daemon
-- refresh all of them and puts one event under an empty handle in front of the audit log, whatever
-- its headers are.
pub ungated_refresh :
    (d : ServerDeps) (req : HttpRequest) (w : World) (i : ℕ) (address : Text) (r : Registration)
    → under_api req.head.url ≡ false
    → d.router registrations req.method req.head.url ≡ some (i, address)
    → get_elem? registrations i ≡ some r
    → r.route ≡ resolver_refresh
    → req.empty_body ≡ true
    → d.refresh.first_append ≡ none
    → d.refresh.second_append ≡ none
    → d.refresh.send ≡ none
    → (log_of (serve d req w).1.table
        ≡ event_for d.refresh [] wildcard w (d.refresh.daemon (request_for wildcard))
          ∷ log_of w.table)
      × ((serve d req w).1.refreshes ≡ w.refreshes ++ request_for wildcard ∷ [])
ungated_refresh d req w i address r outside found at route empty p q s =
    let (_, log, calls) = refresh_audited d.refresh [] wildcard w p q s in
    rw (served_ungated d req w i address r outside found at route empty) (log, calls)
