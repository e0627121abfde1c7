-- ===== src/Admin/Api.antt =====
-- src/admin-ui/shared/lib/api-base.js, session-storage.js and events.js under
-- src/admin-ui/admin/lib/api.js and session.js: one request of the browser client, the session that
-- its headers come from, and what a 401 does to it.
pub mod Outcomes
use livepeer_gateway_console.Common.{
  ℕ, Bool, true, false, ◌&&◌, ◌||◌, Option, none, some, List, [], ◌∷◌, ◌++◌, ltb, leb, ◌==◌,
  if◌then◌else◌,
}
use livepeer_gateway_console.Common.Text.{Text, codes, starts_with}
use livepeer_gateway_console.Common.Decimal.{to_decimal}
use livepeer_gateway_console.Common.Result.{Failure, error, service_error, other}
use livepeer_gateway_console.Gate.{HeaderValue, absent, single, Request}

-- What `setSession` stores.
pub record Session : Type 0 where
  pub token : Text
  pub actor : Text

-- The tab: the session storage, whether it takes writes, and the `_authed` of the application, which
-- listens to the two events.
pub record Browser : Type 0 where
  pub session : Option Session
  pub writable : Bool
  pub authed : Bool

-- `setSession(token, actor)`; a write that fails is swallowed.
unfoldable pub set_session : Text → Text → Browser → Browser
set_session token actor b =
    if b.writable then record b { session = some (record { token = token; actor = actor }) } else b

-- `onUnauthorized`: the session is cleared, and the event shows the sign-in again.
unfoldable pub on_unauthorized : Browser → Browser
on_unauthorized b = record b { session = none; authed = false }

-- `emit(GATEWAY_EVENTS.AUTHENTICATED)`, as the application hears it.
unfoldable pub on_authenticated : Browser → Browser
on_authenticated b = record b { authed = true }

-- An empty text adds no header.
unfoldable pub bearer_header : Text → HeaderValue
bearer_header [] = absent
bearer_header (c ∷ s) = single (codes "Bearer " ++ (c ∷ s))

unfoldable pub actor_header : Text → HeaderValue
actor_header [] = absent
actor_header (c ∷ s) = single (c ∷ s)

-- The request line and headers that `request` hands to `fetch`, with `getAuthHeaders`. `fetch` may
-- throw at them, as at a lost connection: that is the `unreachable` of its settling.
unfoldable pub head_of : Text → Option Session → Request
unfolding bearer_header actor_header
head_of path none = record { url = path; authorization = absent; x_actor = absent }
head_of path (some s) = record {
  url = path;
  authorization = bearer_header s.token;
  x_actor = actor_header s.actor;
}

-- A response: its status, its content type and what `res.json()` gives, nothing where it rejects.
pub record Response (B : Type 0) : Type 0 where
  pub status : ℕ
  pub content_type : Option Text
  pub json : Option B

-- How `fetch` settles.
pub data Fetched (B : Type 0) : Type 0 where
  unreachable : Failure → Fetched B
  response : Response B → Fetched B

pub data ApiErrorCode : Type 0 where
  network_error unauthorized http_error : ApiErrorCode

pub record ApiError (B : Type 0) : Type 0 where
  pub code : ApiErrorCode
  pub status : ℕ
  pub message : Text
  pub body : Option B

-- How `request` settles.
pub data Settled (B : Type 0) : Type 0 where
  value : Option B → Settled B
  failed : ApiError B → Settled B

-- What stands under `error` in a payload: nothing, something without a message in text, or a
-- message.
pub data ErrorField : Type 0 where
  no_error no_message : ErrorField
  message : Text → ErrorField

-- `s.includes(part)`
contains : Text → Text → Bool
contains part [] = starts_with part []
contains part (c ∷ s) = let rest = contains part s in starts_with part (c ∷ s) || rest

unfoldable pub is_json : Option Text → Bool
unfolding contains
is_json none = false
is_json (some s) = contains (codes "application/json") s

-- `err instanceof Error ? err.message : "fetch failed"`
network_message : Failure → Text
network_message (error m) = m
network_message (service_error code m) = m
network_message (other m) = codes "fetch failed"

module _ {B : Type 0} (error_field : B → ErrorField) where
  pub http_message : ℕ → Option B → Text
  http_message status none = codes "http_" ++ to_decimal status
  http_message status (some body) = elim (error_field body) [
    | no_error ↦ codes "http_" ++ to_decimal status
    | no_message ↦ codes "request_failed"
    | message m ↦ m
  ]

  -- A response that is neither 401 nor 204, with its payload; `res.ok` is a status from 200 to 299.
  unfoldable pub check_status : ℕ → Option B → Settled B
  unfolding http_message
  check_status status payload =
      if leb 200 status && ltb status 300
      then value payload
      else failed (record {
        code = http_error;
        status = status;
        message = http_message status payload;
        body = payload;
      })

  unfoldable pub check_response : Browser → Response B → Browser × Settled B
  unfolding check_status is_json
  check_response b r =
      if r.status == 401
      then (
        on_unauthorized b,
        failed (record {
          code = unauthorized;
          status = 401;
          message = codes "unauthorized";
          body = none;
        }),
      )
      else if r.status == 204
      then (b, value none)
      else (b, check_status r.status (if is_json r.content_type then r.json else none))

  -- `request`, from the settling of its `fetch`.
  unfoldable pub after_fetch : Browser → Fetched B → Browser × Settled B
  unfolding check_response network_message
  after_fetch b (unreachable e) = (
    b,
    failed (record { code = network_error; status = 0; message = network_message e; body = none }),
  )
  after_fetch b (response r) = check_response b r
