-- ===== src/Server/Examples.antt =====
-- A server behind a router that knows a few URLs, over an empty audit log.
use livepeer_gateway_console.Common.{
  ℕ, ◌≡◌, ◌≢◌, refl, ap, true, false, ◌⊎◌, ◌++◌, ◌||◌, none, some, List, [], ◌∷◌, keep, get_elem?,
  arith, if◌then◌else◌, Bool-cases, inl, inr,
}
use livepeer_gateway_console.Common.Text.{Text, codes, starts_with, text_eq}
use livepeer_gateway_console.Common.Address.{is_eth_address, hex_digits}
use livepeer_gateway_console.Common.Result.{ok}
use livepeer_gateway_console.Repo.Inserts.{IsKeyed, event_id}
use livepeer_gateway_console.Audit.{list_events}
use livepeer_gateway_console.Audit.RoundTrip.{log_of}
use livepeer_gateway_console.Auth.Examples.{admin_token}
use livepeer_gateway_console.Gate.{Request, absent}
use livepeer_gateway_console.Gate.Laws.{IsAdmitted}
use livepeer_gateway_console.Gate.Examples.{good, good_passes}
use livepeer_gateway_console.Listing.{sent}
use livepeer_gateway_console.Refresh.{World, wildcard, run_refresh}
use livepeer_gateway_console.Refresh.Keys.{refresh_all_accepted}
use livepeer_gateway_console.Refresh.Audited.{event_for, request_for, refresh_audited}
use livepeer_gateway_console.Refresh.Examples.{calm, begin, address}
use livepeer_gateway_console.Routing.Examples.{deps}
use livepeer_gateway_console.Payer.Sender.Examples.{configured, sockets}
use livepeer_gateway_console.Server.{
  Method, get, post, Registration, registrations, Router, Query, HttpRequest, ServerDeps, serve,
  serve_all, after_hook, dispatch, run_registration, parse_and_handle, query_fits, handle,
  audit_page,
}
use livepeer_gateway_console.Server.Gated.{
  KeepsMethod, under_api, may_change, change-IsAdmitted, others_irrelevant,
}
use livepeer_gateway_console.Server.Ungated.{ungated_refresh}
use livepeer_gateway_console.Server.Trail.{IsServed, refresh_then_listed}

abbrev refresh_url : Text
refresh_url = codes "/api/resolver/refresh"

-- It knows one URL, in absolute form too, takes every other for that of an orchestrator, and serves
-- the audit log to the other method.
abbrev lax_router : Router
lax_router rs get url = some (7, [])
lax_router rs post url =
    if text_eq url (codes "http://console/api/resolver/refresh") || text_eq url refresh_url
    then some (9, [])
    else some (10, address)

abbrev pub console : Router → ServerDeps
console router = record {
  admin_token = admin_token;
  router = router;
  routing = deps;
  sender = configured;
  sockets = sockets;
  refresh = calm;
}

abbrev no_query : Query
no_query = record {
  names = [];
  capability = none;
  offering = none;
  tier = none;
  limit = none;
  before = none;
  since = none;
  eth_address = none;
}

abbrev sends : Method → Request → HttpRequest
sends method head = record { method = method; head = head; query = no_query; empty_body = true }

abbrev refresh_all : HttpRequest
refresh_all = sends post (record good { url = refresh_url })

abbrev anonymous : HttpRequest
anonymous = sends post (record good { url = refresh_url; authorization = absent })

row_of :
    (place i : ℕ) (r : Registration)
    → place ≡ i
    → get_elem? registrations i ≡ some r
    → get_elem? registrations place ≡ some r
row_of place i r same at = rw same at

lax_router-KeepsMethod : KeepsMethod lax_router
unfolding KeepsMethod registrations
lax_router-KeepsMethod get url i place r found at =
    let row : get_elem? registrations 7 ≡ some r = row_of 7 i r (ground arith) at in ground arith
lax_router-KeepsMethod post url i place r found at =
    elim (Bool-cases
      (text_eq url (codes "http://console/api/resolver/refresh") || text_eq url refresh_url)) [
        | inl all ↦
            let same : some (9, []) ≡ some (i, place) = rw all at found in
            let row : get_elem? registrations 9 ≡ some r = row_of 9 i r (ground arith) at in
            ground arith
        | inr one ↦
            let same : some (10, address) ≡ some (i, place) = rw one at found in
            let row : get_elem? registrations 10 ≡ some r = row_of 10 i r (ground arith) at in
            ground arith
      ]

refresh_api : starts_with (codes "/api/") refresh_url ≡ true
unfolding starts_with
refresh_api = refl

served_refresh :
    (serve (console lax_router) refresh_all begin).1
    ≡ (run_refresh calm (codes "alice") wildcard begin).1
unfolding serve after_hook dispatch run_registration parse_and_handle query_fits handle
    registrations
served_refresh = rw (good_passes refresh_url refresh_api, refresh_all_accepted) refl

refresh_changes : (serve (console lax_router) refresh_all begin).1 ≢ begin
refresh_changes e =
    let (_, _, calls) = refresh_audited calm (codes "alice") wildcard begin refl refl refl in
    let none_called : (run_refresh calm (codes "alice") wildcard begin).1.refreshes ≡ [] =
      rw served_refresh at (ap (λ (w : World). w.refreshes) e) in
    absurd (cc)

change-IsAdmitted_example :
    (post ≡ post)
    × (((actor : Text) × IsAdmitted admin_token refresh_all.head actor)
        ⊎ (under_api refresh_all.head.url ≡ false))
change-IsAdmitted_example =
    change-IsAdmitted (console lax_router) refresh_all begin lax_router-KeepsMethod refresh_changes

abbrev traffic : List (ServerDeps × HttpRequest)
traffic = (console lax_router, anonymous) ∷ (console lax_router, refresh_all) ∷ []

others_irrelevant_example : serve_all traffic begin ≡ serve_all (keep may_change traffic) begin
others_irrelevant_example =
    others_irrelevant traffic begin (lax_router-KeepsMethod, (lax_router-KeepsMethod, tt))

abbrev absolute : HttpRequest
absolute =
    sends post
      (record good { url = codes "http://console/api/resolver/refresh"; authorization = absent })

ungated_refresh_example :
    (log_of (serve (console lax_router) absolute begin).1.table
      ≡ event_for calm [] wildcard begin (ok tt) ∷ log_of begin.table)
    × ((serve (console lax_router) absolute begin).1.refreshes
        ≡ begin.refreshes ++ request_for wildcard ∷ [])
unfolding starts_with registrations
ungated_refresh_example =
    ungated_refresh (console lax_router) absolute begin 9 [] _ refl refl refl refl refl refl refl
      refl

abbrev refresh_one : HttpRequest
refresh_one = sends post (record good { url = codes "/api/resolver/refresh/0xaB" })

abbrev read_log : HttpRequest
read_log = sends get (record good { url = codes "/api/audit-log" })

one-IsServed : IsServed (console lax_router) refresh_one (codes "alice") 10 address
unfolding starts_with
one-IsServed = record {
  passed = good_passes (codes "/api/resolver/refresh/0xaB") refl;
  found = refl;
}

log-IsServed : IsServed (console lax_router) read_log (codes "alice") 7 []
unfolding starts_with
log-IsServed = record { passed = good_passes (codes "/api/audit-log") refl; found = refl }

begin-IsKeyed : IsKeyed event_id begin.table
begin-IsKeyed = record { ascending = tt; within = tt }

address_valid : is_eth_address address ≡ true
unfolding is_eth_address hex_digits
address_valid = refl

refresh_then_listed_example :
    (serve (console lax_router) read_log (serve (console lax_router) refresh_one begin).1).0
    ≡ audit_page (
        sent (
          event_for calm (codes "alice") address begin (ok tt)
          ∷ list_events calm.db (record { limit = some 49; before = none }) begin.table))
refresh_then_listed_example =
    refresh_then_listed (console lax_router) (console lax_router) refresh_one read_log
      (codes "alice") address (codes "alice") [] begin one-IsServed address_valid refl refl refl
      begin-IsKeyed log-IsServed refl refl refl refl
