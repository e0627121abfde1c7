-- ===== src/Gate.antt =====
-- src/runtime/http/server.ts: the error handler, and the `onRequest` hook of `registerApiRoutes`, the
-- bearer token and the operator's handle, checked before the handler of every route under /api/.
pub mod Laws
pub mod Examples
use livepeer_gateway_console.Common.{
  ℕ, Bool, true, false, Option, none, some, List, [], map, if◌then◌else◌,
}
use livepeer_gateway_console.Common.Text.{Text, codes, starts_with}
use livepeer_gateway_console.Common.Result.{Failure}
use livepeer_gateway_console.Auth.{
  Checked, passed, thrown, AuthError, malformed_authorization, invalid_admin_token, ActorError,
  missing_actor, malformed_actor, HandleIssue, authenticate, parse_actor,
}

-- A header's value, as Node hands it over.
pub data HeaderValue : Type 0 where
  absent : HeaderValue
  single : Text → HeaderValue
  repeated : List Text → HeaderValue

pub record Request : Type 0 where
  pub url : Text
  pub authorization : HeaderValue
  pub x_actor : HeaderValue

-- The code of an error reply, with what it reports.
pub data ErrorCode : Type 0 where
  malformed_authorization_code : Text → ErrorCode
  invalid_admin_token_code : ErrorCode
  missing_actor_code : ErrorCode
  malformed_actor_code : HandleIssue → ErrorCode

-- The hook lets the handler run, with `req.actor` as it then is, or answers itself.
pub data Hook : Type 0 where
  next : Text → Hook
  sent : ℕ → ErrorCode → Hook

unfoldable pub header_string : HeaderValue → Option Text
header_string (single value) = some value
header_string _ = none

-- The `catch` block.
auth_reply : AuthError → Hook
auth_reply (malformed_authorization reason) = sent 401 (malformed_authorization_code reason)
auth_reply invalid_admin_token = sent 401 invalid_admin_token_code

actor_reply : ActorError → Hook
actor_reply missing_actor = sent 400 missing_actor_code
actor_reply (malformed_actor issue) = sent 400 (malformed_actor_code issue)

check_actor : Checked ActorError Text → Hook
check_actor (passed actor) = next actor
check_actor (thrown e) = actor_reply e

check_bearer : Checked AuthError Text → Hook → Hook
check_bearer (passed identity) rest = rest
check_bearer (thrown e) rest = auth_reply e

-- The hook, for a request whose `actor` is still the empty text.
pub on_request : Text → Request → Hook
unfolding header_string
on_request admin_token req =
    if starts_with (codes "/api/") req.url
    then check_bearer (authenticate admin_token (header_string req.authorization))
        (check_actor (parse_actor (header_string req.x_actor)))
    else next []

-- An issue that zod reports.
pub record Issue : Type 0 where
  pub path : List Text
  pub code : Text
  pub message : Text

-- What reaches the error handler: a refusal of zod, or anything else.
pub data RouteError : Type 0 where
  zod_error : List Issue → RouteError
  any_error : Failure → RouteError

-- `invalid_input` with its status, or the error as the framework sends it.
pub data ErrorReply : Type 0 where
  invalid_input : ℕ → List Issue → ErrorReply
  sent_error : Failure → ErrorReply

copy_issue : Issue → Issue
copy_issue i = record { path = i.path; code = i.code; message = i.message }

-- `registerErrorHandler`
pub error_reply : RouteError → ErrorReply
unfolding copy_issue
error_reply (zod_error issues) = invalid_input 400 (map copy_issue issues)
error_reply (any_error e) = sent_error e
