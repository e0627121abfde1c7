-- ===== src/Gate/Examples.antt =====
-- Requests to the console with and without its token.
use livepeer_gateway_console.Common.{ℕ, ◌≡◌, ◌↔◌, refl, true}
use livepeer_gateway_console.Common.Text.{Text, codes, starts_with}
use livepeer_gateway_console.Auth.Examples.{admin_token, wrong_token, right_token, trimmed_handle}
use livepeer_gateway_console.Gate.{
  absent, single, Request, next, sent, invalid_admin_token_code, header_string, check_bearer,
  check_actor, auth_reply, on_request,
}
use livepeer_gateway_console.Gate.Laws.{IsAdmitted, api_gate_iff}

abbrev pub good : Request
good = record {
  url = codes "/api/orchs";
  authorization = single (codes "Bearer secret");
  x_actor = single (codes " alice ");
}

abbrev bad : Request
bad = record good { authorization = single (codes "bearer secreT"); x_actor = absent }

under_api : starts_with (codes "/api/") (codes "/api/orchs") ≡ true
unfolding starts_with
under_api = refl

pub good_passes :
    (url : Text)
    → starts_with (codes "/api/") url ≡ true
    → on_request admin_token (record good { url = url }) ≡ next (codes "alice")
unfolding on_request check_bearer check_actor header_string
good_passes url api = rw (api, right_token, trimmed_handle) refl

api_gate_iff_example :
    (on_request admin_token good ≡ next (codes "alice"))
    ↔ IsAdmitted admin_token good (codes "alice")
api_gate_iff_example = api_gate_iff admin_token good (codes "alice") under_api

bad_refused : on_request admin_token bad ≡ sent 401 invalid_admin_token_code
unfolding on_request check_bearer auth_reply header_string
bad_refused = rw (under_api, wrong_token) refl

abbrev unauthorized : ℕ
unauthorized = 401
