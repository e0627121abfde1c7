-- ===== src/Admin/Examples.antt =====
-- Screens of the browser client, on a small log and against a server that knows the health route.
mod Screens
use livepeer_gateway_console.Gate.{Request, single}
use livepeer_gateway_console.Common.{
  Bool, Option, ◌&&◌, ltb, if◌then◌else◌, List, Option, ◌<◌, ◌/◌, ◌%◌, length, ◌≡◌, ◌≢◌, ◌↔◌, ◌⊎◌,
  refl, true, false, ◌++◌, none, some, [], ◌∷◌, map, arith,
}
use livepeer_gateway_console.Repo.{Table, AuditEventRow, append}
use livepeer_gateway_console.Repo.Inserts.{IsKeyed, event_id}
use livepeer_gateway_console.Repo.Orders.{memory_database}
use livepeer_gateway_console.Audit.{append_event, input_to_row}
use livepeer_gateway_console.Audit.RoundTrip.{log_of, append_event-IsKeyed}
use livepeer_gateway_console.Audit.Examples.{log, log-IsKeyed, input}
use livepeer_gateway_console.Common.Text.{Text, codes, text_eq_iff, trim, trim_start, is_space}
use livepeer_gateway_console.Auth.{passed, authenticate}
use livepeer_gateway_console.Auth.Examples.{admin_token}
use livepeer_gateway_console.Refresh.Examples.{begin}
use livepeer_gateway_console.Server.{Router}
use livepeer_gateway_console.Server.Examples.{console}
use livepeer_gateway_console.Admin.Api.{
  Browser, Response, Fetched, response, no_message, value, after_fetch, on_unauthorized,
}
use livepeer_gateway_console.Admin.Api.Outcomes.{Answers, IsRefusal, after_fetch-Answers}
use livepeer_gateway_console.Admin.Login.{LoginScreen, submit}
use livepeer_gateway_console.Admin.Login.SignIn.{no_field, fetch_health, signed_head, submit_iff}
use livepeer_gateway_console.Common.Result.{Failure, error, ok}
use livepeer_gateway_console.Common.Int.{ℤ, pos}
use livepeer_gateway_console.Common.Decimal.{to_decimal, decimal_value, digits_loop}
use livepeer_gateway_console.Common.Address.{is_eth_address}
use livepeer_gateway_console.Payer.Sender.{
  SenderWallet, SenderEscrow, sent, handle_get_sender_wallet,
}
use livepeer_gateway_console.Payer.Sender.Examples.{configured, floored, low, sends_low}
use livepeer_gateway_console.Resolver.Examples.{stranger}
use livepeer_gateway_console.Routing.Handlers.{handle_get_orch}
use livepeer_gateway_console.Routing.Examples.{unpolled, views_nothing}
use livepeer_gateway_console.Admin.Display.{eth, dotted, trim_zeros, format_wei}
use livepeer_gateway_console.Admin.Display.SixDigits.{format_wei_lem}
use livepeer_gateway_console.Admin.Payload.{Payload, error, error_field, code_of}
use livepeer_gateway_console.Admin.SenderScreen.{SenderScreen, wallet_response, reload, below_floor}
use livepeer_gateway_console.Admin.SenderScreen.Wallet.{wallet_screen}
use livepeer_gateway_console.Admin.SenderScreen.Floor.{below_floor_iff}
use livepeer_gateway_console.Admin.CapabilityScreen
use livepeer_gateway_console.Admin.CapabilityScreen.Submits.{Searching, run-Searching}
use livepeer_gateway_console.Admin.OrchDetail.{
  OrchDetail, new_detail, nothing_known, orch_response, begin_load, end_load,
}
use livepeer_gateway_console.Admin.OrchDetail.View.{load_shows_view}
use livepeer_gateway_console.Routing.{OrchView}
use livepeer_gateway_console.Admin.RoutingScreen.{
  RoutingScreen, Event, clicked, detail_settled, refresh_all_clicked, refresh_settled,
  refresh_reload_settled, view, run,
}
use livepeer_gateway_console.Admin.RoutingScreen
use livepeer_gateway_console.Admin.RoutingScreen.Races.{Guarded, run-Guarded}
use livepeer_gateway_console.Admin.AuditScreen.{new_screen, load_first_page, press_older}
use livepeer_gateway_console.Admin.AuditScreen.Pages.{api_of, every_page, append-Extends}

-- A log of one event, and the log when another has come.
abbrev one_event : Table AuditEventRow
one_event = (append_event memory_database 9 none input log).1

one_event-IsKeyed : IsKeyed event_id one_event
one_event-IsKeyed = append_event-IsKeyed memory_database 9 none input log log-IsKeyed

abbrev grown : Table AuditEventRow
grown = (append_event memory_database 10 none input one_event).1

every_page_example :
    (press_older
      (map (api_of memory_database) (grown ∷ []))
      (load_first_page (api_of memory_database one_event) new_screen)).events
    ≡ log_of one_event
unfolding append_event append input_to_row
every_page_example =
    every_page memory_database one_event (grown ∷ []) one_event-IsKeyed
      (append-Extends memory_database 10 none input one_event one_event-IsKeyed, tt) (omega arith)

abbrev pub tab : Browser
tab = record { session = none; writable = true; authed = false }

abbrev refusal : Fetched (Unit {0})
refusal = response (record { status = 401; content_type = none; json = none })

after_fetch-Answers_example :
    Answers refusal (after_fetch no_field tab refusal).1
    × ((IsRefusal refusal × ((after_fetch no_field tab refusal).0 ≡ on_unauthorized tab))
        ⊎ ((IsRefusal refusal → ⊥) × ((after_fetch no_field tab refusal).0 ≡ tab)))
after_fetch-Answers_example = after_fetch-Answers no_field tab refusal

abbrev health_router : Router
health_router rs method url = some (1, [])

-- A handle that the server does not accept.
abbrev typed : LoginScreen
typed = record { token = codes " secret"; actor = codes "Alice"; loading = false; error = [] }

abbrev secret : Text
secret = codes "secret"

token_trims : trim typed.token ≡ secret
unfolding trim trim_start is_space
token_trims = refl

actor_trims : trim typed.actor ≡ codes "Alice"
unfolding trim trim_start is_space
actor_trims = refl

-- A connection, and no character in a header beyond Latin-1.
abbrev latin1 : Text → Bool
latin1 [] = true
latin1 (c ∷ s) = ltb c 256 && latin1 s

abbrev throws : Request → Option Failure
throws head =
    if latin1 (elim head.x_actor [ single s ↦ s | _ ↦ [] ])
    then none
    else some (error (codes "not a ByteString"))

submit_iff_example :
    ((submit no_field (fetch_health throws (console health_router) begin) typed tab).1.authed
      ≡ true)
    ↔ (((e : Failure) × (throws (signed_head secret (codes "Alice")) ≡ some e))
        ⊎ ((a : Text) × (authenticate admin_token (some (codes "Bearer " ++ secret)) ≡ passed a)))
submit_iff_example =
    submit_iff throws (console health_router) begin typed tab [] b's' b'A' (codes "ecret")
      (codes "lice") refl token_trims actor_trims refl refl

abbrev new_routing : RoutingScreen
new_routing = RoutingScreen.new_screen

abbrev busy_day : List Event
busy_day =
    refresh_all_clicked true
    ∷ refresh_all_clicked true
    ∷ refresh_settled (ok tt)
    ∷ refresh_reload_settled (ok [])
    ∷ []

run-Guarded_example : Guarded (run new_routing busy_day)
run-Guarded_example = run-Guarded busy_day
