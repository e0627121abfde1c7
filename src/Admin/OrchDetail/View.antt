-- ===== src/Admin/OrchDetail/View.antt =====
-- The view of an orchestrator from the service behind the handler to the screen.
use livepeer_gateway_console.Common.{◌≡◌, refl, true, false, Option, none, some, List, [], ◌∷◌}
use livepeer_gateway_console.Common.Text.{Text, starts_with}
use livepeer_gateway_console.Common.Address.{is_eth_address}
use livepeer_gateway_console.Common.Result.{Failure, ok}
use livepeer_gateway_console.Routing.{
  RoutingServiceDeps, OrchRosterRow, RoutingObservation, OrchView, get_orch,
}
use livepeer_gateway_console.Routing.Handlers.{handle_get_orch, reply_orch, reply_view}
use livepeer_gateway_console.Admin.Payload.{Payload, view, error_field, json_response}
use livepeer_gateway_console.Admin.Api.{
  Browser, Response, response, is_json, check_status, check_response, after_fetch,
}
use livepeer_gateway_console.Admin.OrchDetail.{OrchDetail, orch_response, begin_load, end_load}

-- The 404 for a view that is empty is shown as that view.
taken :
    (send_error : Failure → Response (Payload OrchView)) (b : Browser) (s : OrchDetail)
    (address : Text) (orch : Option OrchRosterRow) (recent : List RoutingObservation)
    → let v : OrchView = record { orch = orch; recent_observations = recent } in
      end_load
        (after_fetch error_field b (response (orch_response send_error (reply_view address v)))).1
        s
      ≡ record s { orch_data = some (view v); loading = false }
unfolding reply_view orch_response json_response after_fetch check_response check_status end_load
    is_json starts_with error_field
taken send_error b s address (some row) recent = refl
taken send_error b s address none [] = refl
taken send_error b s address none (r ∷ rs) = refl

loading_from :
    (s : OrchDetail) (address : Text)
    → s.address ≡ address
    → is_eth_address address ≡ true
    → begin_load s ≡ record s { loading = true; error = []; orch_data = none }
unfolding begin_load is_eth_address
loading_from s [] e valid = absurd (cc)
loading_from s (c ∷ t) e valid = rw e refl

-- A load of the screen for a valid address whose request is answered from the service shows exactly
-- the view that the service gives, an empty one too, which the handler answers with a 404, and leaves
-- no error.
pub load_shows_view :
    (send_error : Failure → Response (Payload OrchView)) (b : Browser) (s : OrchDetail)
    (deps : RoutingServiceDeps) (v : OrchView)
    → is_eth_address s.address ≡ true
    → get_orch deps s.address ≡ ok v
    → end_load
        (after_fetch error_field b
          (response (orch_response send_error (handle_get_orch deps s.address)))).1
        (begin_load s)
      ≡ record s { orch_data = some (view v); error = []; loading = false }
unfolding handle_get_orch reply_orch
load_shows_view send_error b s deps v valid answered =
    rw (valid, answered, loading_from s s.address refl valid)
      (taken send_error b (record s { loading = true; error = []; orch_data = none }) s.address
        v.orch v.recent_observations)
