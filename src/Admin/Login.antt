-- ===== src/Admin/Login.antt =====
-- src/admin-ui/admin/components/admin-login.js: the sign-in, which stores what the operator typed and
-- asks the server for its health.
pub mod SignIn
use livepeer_gateway_console.Common.{
  ℕ, Bool, true, false, Option, none, some, [], ◌∷◌, if◌then◌else◌,
}
use livepeer_gateway_console.Common.Text.{Text, codes, trim}
use livepeer_gateway_console.Admin.Api.{
  Browser, Session, Fetched, ErrorField, ApiErrorCode, network_error, unauthorized, http_error,
  ApiError, Settled, value, failed, set_session, on_authenticated, after_fetch,
}

pub record LoginScreen : Type 0 where
  pub token : Text
  pub actor : Text
  pub loading : Bool
  pub error : Text

-- What the screen makes of the settled `getHealth()`.
after_error : ApiErrorCode → LoginScreen → Browser → LoginScreen × Browser
after_error unauthorized s b = (record s { error = codes "Invalid token."; loading = false }, b)
after_error _ s b = (record s { error = []; loading = false }, on_authenticated b)

module _ {B : Type 0} where
  after_health : LoginScreen → Browser × Settled B → LoginScreen × Browser
  unfolding after_error
  after_health s (b, value body) = (record s { error = []; loading = false }, on_authenticated b)
  after_health s (b, failed e) = after_error e.code s b

  sign_in :
      (B → ErrorField)
      → (Option Session → Fetched B)
      → LoginScreen
      → Browser
      → LoginScreen × Browser
  unfolding after_health
  sign_in error_field fetch s b = after_health s (after_fetch error_field b (fetch b.session))

  submit_trimmed :
      (B → ErrorField)
      → (Option Session → Fetched B)
      → LoginScreen
      → Browser
      → Text
      → Text
      → LoginScreen × Browser
  unfolding sign_in
  submit_trimmed error_field fetch s b [] actor =
      (record s { error = codes "Both fields are required." }, b)
  submit_trimmed error_field fetch s b (c ∷ token) [] =
      (record s { error = codes "Both fields are required." }, b)
  submit_trimmed error_field fetch s b (c ∷ token) (d ∷ actor) =
      sign_in error_field fetch s (set_session (c ∷ token) (d ∷ actor) b)

  -- `_submit`; `fetch` is how the request for the health settles, by the session of its headers.
  pub submit :
      (B → ErrorField)
      → (Option Session → Fetched B)
      → LoginScreen
      → Browser
      → LoginScreen × Browser
  unfolding submit_trimmed
  submit error_field fetch s b =
      if s.loading
      then (s, b)
      else submit_trimmed error_field fetch s b (trim s.token) (trim s.actor)
