-- ===== src/Gate/Laws.antt =====
-- What the hook lets through.
use livepeer_gateway_console.Common.{ℕ, ◌≡◌, ◌↔◌, ◌⊎◌, inl, inr, refl, true, false, some, [], arith}
use livepeer_gateway_console.Common.Text.{Text, codes, starts_with, trim, utf8_encode}
use livepeer_gateway_console.Auth.{
  Checked, passed, thrown, AuthError, malformed_authorization, invalid_admin_token, ActorError,
  missing_actor, malformed_actor, authenticate, parse_actor,
}
use livepeer_gateway_console.Auth.Bearer.{IsBearer, authenticate_iff}
use livepeer_gateway_console.Auth.Actor.{IsHandle, parse_actor_iff}
use livepeer_gateway_console.Gate.{
  Request, Hook, next, sent, ErrorCode, header_string, auth_reply, actor_reply, check_actor,
  check_bearer, on_request,
}

-- A request that carries the admin token and a handle.
pub record IsAdmitted (admin_token : Text) (req : Request) (actor : Text) : Type 0 where
  pub token : Text
  pub bearer : IsBearer (header_string req.authorization) token
  pub right_token : utf8_encode token ≡ utf8_encode admin_token
  pub value : Text
  pub given : header_string req.x_actor ≡ some value
  pub trimmed : actor ≡ trim value
  pub handle : IsHandle (trim value)

check_actor_next :
    (r : Checked ActorError Text) (actor : Text) → check_actor r ≡ next actor → r ≡ passed actor
unfolding check_actor actor_reply
check_actor_next (passed a) actor h = ground arith
check_actor_next (thrown missing_actor) actor h = absurd (cc)
check_actor_next (thrown (malformed_actor issue)) actor h = absurd (cc)

check_bearer_next :
    (r : Checked AuthError Text) (rest : Hook) (actor : Text)
    → check_bearer r rest ≡ next actor
    → (a : Text) × (r ≡ passed a) × (rest ≡ next actor)
unfolding check_bearer auth_reply
check_bearer_next (passed a) rest actor h = (a, refl, h)
check_bearer_next (thrown (malformed_authorization reason)) rest actor h = absurd (cc)
check_bearer_next (thrown invalid_admin_token) rest actor h = absurd (cc)

-- Under /api/ a handler runs exactly when the request has a bearer header with the bytes of the
-- admin token and a handle in X-Actor; it then runs with that handle.
pub api_gate_iff :
    (admin_token : Text) (req : Request) (actor : Text)
    → starts_with (codes "/api/") req.url ≡ true
    → (on_request admin_token req ≡ next actor) ↔ IsAdmitted admin_token req actor
unfolding on_request
api_gate_iff admin_token req actor api = (
  λ h.
      let (a, accepted, rest) =
        check_bearer_next (authenticate admin_token (header_string req.authorization))
          (check_actor (parse_actor (header_string req.x_actor))) actor (rw api at h) in
      let (token, bearer, same, _) =
        (authenticate_iff admin_token (header_string req.authorization) a).0 accepted in
      let (value, given, trimmed, handle) =
        (parse_actor_iff (header_string req.x_actor) actor).0 (check_actor_next _ actor rest) in
      record {
        token = token;
        bearer = bearer;
        right_token = same;
        value = value;
        given = given;
        trimmed = trimmed;
        handle = handle;
      },
  λ k.
      let accepted =
        (authenticate_iff admin_token (header_string req.authorization) (codes "ADMIN_TOKEN")).1
          (k.token, k.bearer, k.right_token, refl) in
      let parsed =
        (parse_actor_iff (header_string req.x_actor) actor).1
          (k.value, k.given, k.trimmed, k.handle) in
      rw (api, accepted, parsed) (unfold check_bearer check_actor in refl),
)

refusal_of :
    (r : Checked AuthError Text) (p : Checked ActorError Text) (status : ℕ) (code : ErrorCode)
    → check_bearer r (check_actor p) ≡ sent status code
    → ((status ≡ 401) × ((e : AuthError) × (r ≡ thrown e)))
      ⊎ ((status ≡ 400) × ((a : Text) × (r ≡ passed a)) × ((e : ActorError) × (p ≡ thrown e)))
unfolding check_bearer check_actor auth_reply actor_reply
refusal_of (thrown (malformed_authorization reason)) p status code h = inl (ground arith, (_, refl))
refusal_of (thrown invalid_admin_token) p status code h = inl (ground arith, (_, refl))
refusal_of (passed a) (passed actor) status code h = absurd (cc)
refusal_of (passed a) (thrown missing_actor) status code h =
    inr (ground arith, (a, refl), (_, refl))
refusal_of (passed a) (thrown (malformed_actor issue)) status code h =
    inr (ground arith, (a, refl), (_, refl))

-- A request under /api/ that the hook answers gets 401 when its token does not authenticate, with
-- any X-Actor, and 400 when the token does and the handle does not parse.
pub refusal_status :
    (admin_token : Text) (req : Request) (status : ℕ) (code : ErrorCode)
    → starts_with (codes "/api/") req.url ≡ true
    → on_request admin_token req ≡ sent status code
    → ((status ≡ 401)
        × ((e : AuthError) × (authenticate admin_token (header_string req.authorization)
              ≡ thrown e)))
      ⊎ ((status ≡ 400)
          × ((a : Text) × (authenticate admin_token (header_string req.authorization) ≡ passed a))
          × ((e : ActorError) × (parse_actor (header_string req.x_actor) ≡ thrown e)))
unfolding on_request
refusal_status admin_token req status code api h =
    refusal_of (authenticate admin_token (header_string req.authorization))
      (parse_actor (header_string req.x_actor)) status code (rw api at h)

pub on_request-outside :
    (admin_token : Text) (req : Request)
    → starts_with (codes "/api/") req.url ≡ false
    → on_request admin_token req ≡ next []
unfolding on_request
on_request-outside admin_token req outside = rw outside refl

-- What the hook does with a request under /api/, by its token.
pub data GatedBy (admin_token : Text) (req : Request) : Hook → Type 0 where
  bad_token :
      {e : AuthError} {code : ErrorCode}
      → authenticate admin_token (header_string req.authorization) ≡ thrown e
      → GatedBy admin_token req (sent 401 code)
  bad_handle :
      {a : Text} {code : ErrorCode}
      → authenticate admin_token (header_string req.authorization) ≡ passed a
      → GatedBy admin_token req (sent 400 code)
  let_in :
      {a actor : Text}
      → authenticate admin_token (header_string req.authorization) ≡ passed a
      → GatedBy admin_token req (next actor)

check_bearer-GatedBy :
    (admin_token : Text) (req : Request) (r : Checked AuthError Text) (p : Checked ActorError Text)
    → authenticate admin_token (header_string req.authorization) ≡ r
    → GatedBy admin_token req (check_bearer r (check_actor p))
unfolding check_bearer check_actor auth_reply actor_reply
check_bearer-GatedBy admin_token req (thrown (malformed_authorization reason)) p e =
    GatedBy.bad_token e
check_bearer-GatedBy admin_token req (thrown invalid_admin_token) p e = GatedBy.bad_token e
check_bearer-GatedBy admin_token req (passed a) (passed actor) e = GatedBy.let_in e
check_bearer-GatedBy admin_token req (passed a) (thrown missing_actor) e = GatedBy.bad_handle e
check_bearer-GatedBy admin_token req (passed a) (thrown (malformed_actor issue)) e =
    GatedBy.bad_handle e

pub on_request-GatedBy :
    (admin_token : Text) (req : Request)
    → starts_with (codes "/api/") req.url ≡ true
    → GatedBy admin_token req (on_request admin_token req)
unfolding on_request
on_request-GatedBy admin_token req api = rw api (
    check_bearer-GatedBy admin_token req
      (authenticate admin_token (header_string req.authorization))
      (parse_actor (header_string req.x_actor)) refl)
