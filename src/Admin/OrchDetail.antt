-- ===== src/Admin/OrchDetail.antt =====
-- src/admin-ui/admin/components/admin-orch-detail.js: the detail of one orchestrator, by its address
-- in the URL. An operation is cut at its awaits, as those of the routing screen are.
pub mod View
use livepeer_gateway_console.Common.{
  ℕ, Bool, true, false, Option, none, some, List, [], ◌∷◌, ◌==◌, if◌then◌else◌,
}
use livepeer_gateway_console.Common.Text.{Text, codes, text_eq}
use livepeer_gateway_console.Common.Result.{Failure, message_of, Result, ok, err}
use livepeer_gateway_console.Routing.{OrchView}
use livepeer_gateway_console.Routing.Handlers.{GetOrchReply, invalid_input, orch_not_found}
use livepeer_gateway_console.Admin.Payload.{Payload, view, error, error_field, json_response}
use livepeer_gateway_console.Admin.Api.{
  Browser, no_message, Response, Fetched, Settled, value, failed, after_fetch,
}

pub record OrchDetail : Type 0 where
  pub address : Text
  pub orch_data : Option (Payload OrchView)
  pub error : Text
  pub loading : Bool
  pub refreshing : Bool

-- `new AdminOrchDetail()`
abbrev pub new_detail : OrchDetail
new_detail = record {
  address = [];
  orch_data = none;
  error = [];
  loading = false;
  refreshing = false;
}

-- The response to `getOrch`, with Fastify's response to an error that is thrown.
unfoldable pub orch_response :
    (Failure → Response (Payload OrchView)) → GetOrchReply → Response (Payload OrchView)
unfolding json_response
orch_response send_error invalid_input =
    json_response 400 (error (some (codes "invalid_input")) no_message)
orch_response send_error (orch_not_found address) =
    json_response 404 (error (some (codes "orch_not_found")) no_message)
orch_response send_error (GetOrchReply.view v) = json_response 200 (view v)
orch_response send_error (GetOrchReply.failed e) = send_error e

-- What a 404 is shown as.
abbrev pub nothing_known : OrchView
nothing_known = record { orch = none; recent_observations = [] }

-- `_load`, up to its await.
unfoldable pub begin_load : OrchDetail → OrchDetail
begin_load s = elim s.address [
  | [] ↦ s
  | c ∷ t ↦ record s { loading = true; error = []; orch_data = none }
]

-- `_load`, from its await on.
unfoldable pub end_load : Settled (Payload OrchView) → OrchDetail → OrchDetail
end_load (value v) s = record s { orch_data = v; loading = false }
end_load (failed e) s =
    if e.status == 404
    then record s { orch_data = some (view nothing_known); loading = false }
    else record s { error = e.message; loading = false }

-- `_refresh`, up to its first await.
unfoldable pub begin_refresh : OrchDetail → OrchDetail
begin_refresh s = if s.refreshing then s else record s { refreshing = true }

-- `_refresh`, from its first await on; without an address the load is over at once.
unfoldable pub after_refresh : Result (Unit {0}) → OrchDetail → OrchDetail
unfolding begin_load
after_refresh (ok _) s = elim s.address [
  | [] ↦ record s { refreshing = false }
  | c ∷ t ↦ begin_load s
]
after_refresh (err e) s = record s { error = message_of e; refreshing = false }

-- `updated`: a property that is set to what it is changes nothing.
unfoldable pub set_address : Text → OrchDetail → OrchDetail
unfolding begin_load
set_address address s =
    if text_eq address s.address then s else begin_load (record s { address = address })

-- What may happen to the screen. Responses come in any order.
pub data Event : Type 0 where
  connected : Event
  address_set : Text → Event
  load_settled : Settled (Payload OrchView) → Event
  refresh_clicked : Event
  refresh_settled : Result (Unit {0}) → Event
  refresh_load_settled : Settled (Payload OrchView) → Event

unfoldable pub step : OrchDetail → Event → OrchDetail
unfolding begin_load end_load begin_refresh after_refresh set_address
step s connected = begin_load s
step s (address_set address) = set_address address s
step s (load_settled r) = end_load r s
step s refresh_clicked = begin_refresh s
step s (refresh_settled r) = after_refresh r s
step s (refresh_load_settled r) = record (end_load r s) { refreshing = false }

unfoldable pub run : OrchDetail → List Event → OrchDetail
run s [] = s
run s (e ∷ es) = run (step s e) es
