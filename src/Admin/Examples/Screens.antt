-- ===== src/Admin/Examples/Screens.antt =====
-- The sender screen, the detail of an orchestrator, the search form and the display, with servers that
-- answer from small services.
use livepeer_gateway_console.Admin.Examples.{tab}
use livepeer_gateway_console.Common.{
  List, Option, ◌<◌, ◌/◌, ◌%◌, ◌≡◌, ◌↔◌, ◌⊎◌, refl, true, false, ◌++◌, none, some, [], ◌∷◌,
}
use livepeer_gateway_console.Common.Text.{Text, codes}
use livepeer_gateway_console.Admin.Api.{Response, Fetched, response, no_message, value, after_fetch}
use livepeer_gateway_console.Common.Result.{Failure, error}
use livepeer_gateway_console.Common.Int.{ℤ, pos}
use livepeer_gateway_console.Common.Decimal.{to_decimal, decimal_value, digits_loop}
use livepeer_gateway_console.Common.Address.{is_eth_address}
use livepeer_gateway_console.Payer.Sender.{
  SenderWallet, SenderEscrow, sent, handle_get_sender_wallet,
}
use livepeer_gateway_console.Payer.Sender.Examples.{configured, floored, low, sends_low}
use livepeer_gateway_console.Resolver.Examples.{stranger}
use livepeer_gateway_console.Routing.Handlers.{handle_get_orch}
use livepeer_gateway_console.Routing.Examples.{unpolled, views_nothing}
use livepeer_gateway_console.Admin.Display.{eth, format_wei}
use livepeer_gateway_console.Admin.Display.SixDigits.{IsSixDigits, IsFraction, format_wei_lem}
use livepeer_gateway_console.Admin.Payload.{Payload, error, error_field, code_of}
use livepeer_gateway_console.Admin.SenderScreen.{SenderScreen, wallet_response, reload, below_floor}
use livepeer_gateway_console.Admin.SenderScreen.Wallet.{wallet_screen}
use livepeer_gateway_console.Admin.SenderScreen.Floor.{below_floor_iff}
use livepeer_gateway_console.Admin.CapabilityScreen
use livepeer_gateway_console.Admin.CapabilityScreen.Submits.{Searching, run-Searching}
use livepeer_gateway_console.Admin.OrchDetail.{
  OrchDetail, new_detail, nothing_known, orch_response, begin_load, end_load,
}
use livepeer_gateway_console.Admin.OrchDetail.View.{load_shows_view}

-- What JavaScript reads of digits.
abbrev digits_of : Text → Option ℤ
digits_of s = some (pos (decimal_value 0 s))

reads_amount : digits_of (codes "1500000000000000000") ≡ some (pos 1500000000000000000)
unfolding decimal_value
reads_amount = refl

format_wei_lem_example :
    (decimals : Text) × IsSixDigits (1500000000000000000 % eth / 1000000000000) decimals
    × ((fraction : Text) × IsFraction decimals fraction
        × (format_wei digits_of (some (codes "1500000000000000000"))
            ≡ to_decimal (1500000000000000000 / eth) ++ (fraction ++ codes " ETH")))
format_wei_lem_example =
    format_wei_lem digits_of b'1' (codes "500000000000000000") 1500000000000000000 reads_amount

-- Fastify's response to an error.
abbrev internal_error : {A : Type 0} → Failure → Response (Payload A)
internal_error e = record {
  status = 500;
  content_type = some (codes "application/json; charset=utf-8");
  json = some (error none no_message);
}

internal_error-codeless : (e : Failure) → code_of (internal_error {A = SenderWallet} e).json ≡ none
unfolding code_of
internal_error-codeless e = refl

abbrev new_sender : SenderScreen
new_sender = record {
  wallet = none;
  escrow = none;
  wallet_not_configured = false;
  wallet_error = [];
  escrow_error = [];
  loading = false;
}

abbrev no_escrow : Fetched (Payload SenderEscrow)
no_escrow = response (internal_error (error (codes "unavailable")))

wallet_screen_example :
    let after =
      (reload tab
        (response (wallet_response [] internal_error (handle_get_sender_wallet configured)))
        no_escrow
        new_sender).1 in
    ((after.wallet_not_configured ≡ true)
      ↔ ((configured.sender_address ≡ none) ⊎ (configured.sender_address ≡ some [])))
    × ((w : SenderWallet)
        → handle_get_sender_wallet configured ≡ sent w
        → after.wallet ≡ some (Payload.view w))
wallet_screen_example =
    wallet_screen [] internal_error internal_error-codeless tab new_sender configured no_escrow

reads_seven : digits_of (to_decimal 7) ≡ some (pos 7)
unfolding decimal_value to_decimal digits_loop
reads_seven = refl

reads_nine : digits_of (codes "9") ≡ some (pos 9)
unfolding decimal_value
reads_nine = refl

below_floor_iff_example :
    (below_floor digits_of (record new_sender { wallet = some (Payload.view low) }) ≡ true)
    ↔ (7 < 9)
below_floor_iff_example =
    below_floor_iff digits_of floored (record new_sender { wallet = some (Payload.view low) }) low
      sends_low refl 7 9 b'9' [] refl refl reads_seven reads_nine

abbrev at_orch : OrchDetail
at_orch = record new_detail { address = stranger }

stranger_valid : is_eth_address stranger ≡ true
unfolding is_eth_address
stranger_valid = refl

load_shows_view_example :
    end_load
      (after_fetch error_field tab
        (response (orch_response internal_error (handle_get_orch unpolled stranger)))).1
      (begin_load at_orch)
    ≡ record at_orch { orch_data = some (Payload.view nothing_known); error = []; loading = false }
load_shows_view_example =
    load_shows_view internal_error tab at_orch unpolled nothing_known stranger_valid views_nothing

abbrev searched : List CapabilityScreen.Event
searched =
    CapabilityScreen.typed
      (record { capability = codes " video"; offering = codes "hd"; tier = codes " " })
    ∷ CapabilityScreen.submitted
    ∷ CapabilityScreen.submitted
    ∷ CapabilityScreen.search_settled (value none)
    ∷ CapabilityScreen.submitted
    ∷ []

run-Searching_example : Searching (CapabilityScreen.run CapabilityScreen.new_screen searched)
run-Searching_example = run-Searching searched
