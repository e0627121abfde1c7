-- ===== src/Admin/Login/SignIn.antt =====
-- The sign-in against the server of the repository.
use livepeer_gateway_console.Common.{
  ℕ, ◌≡◌, ◌≢◌, ◌↔◌, ◌⊎◌, inl, inr, refl, sym, ap, ◌∙◌, Bool, true, false, Option, none, some, [],
  ◌∷◌, ◌++◌, arith, if◌then◌else◌,
}
use livepeer_gateway_console.Common.Text.{Text, codes, trim, starts_with}
use livepeer_gateway_console.Auth.{Checked, passed, thrown, AuthError, authenticate}
use livepeer_gateway_console.Gate.{Request, single, Hook, header_string, on_request}
use livepeer_gateway_console.Gate.Laws.{GatedBy, on_request-GatedBy}
use livepeer_gateway_console.Common.Result.{Failure}
use livepeer_gateway_console.Payer.Sender.Views.{health_iff}
use livepeer_gateway_console.Refresh.{World}
use livepeer_gateway_console.Server.{
  get, registrations, Query, HttpRequest, HttpReply, gate_error, health_reply, not_routed,
  ServerDeps, serve,
}
use livepeer_gateway_console.Server.Trail.{serve_refused, serve_health}
use livepeer_gateway_console.Admin.Api.{
  Browser, Session, Fetched, unreachable, response, ErrorField, Settled, head_of, bearer_header,
  actor_header, set_session, on_unauthorized, on_authenticated, after_fetch,
}
use livepeer_gateway_console.Admin.Api.Outcomes.{Answers, IsRefusal, after_fetch-Answers}
use livepeer_gateway_console.Admin.Login.{
  LoginScreen, after_error, after_health, sign_in, submit_trimmed, submit,
}

abbrev pub plain_query : Query
plain_query = record {
  names = [];
  capability = none;
  offering = none;
  tier = none;
  limit = none;
  before = none;
  since = none;
  eth_address = none;
}

-- The request of `getHealth()`.
abbrev pub health_request : Option Session → HttpRequest
health_request session = record {
  method = get;
  head = head_of (codes "/api/health") session;
  query = plain_query;
  empty_body = true;
}

-- The status of the reply to a request for the health: that of the hook, of the handler, of a route
-- that there is not, or of a query that is refused.
abbrev pub status_of : HttpReply → ℕ
status_of (gate_error status code) = status
status_of (health_reply h) = h.status
status_of not_routed = 404
status_of _ = 400

-- How a fetch settles that throws, or that is answered with a status.
abbrev pub fetched : Option Failure → ℕ → Fetched (Unit {0})
fetched (some e) status = unreachable e
fetched none status = response (record { status = status; content_type = none; json = none })

-- The server as the browser reaches it. `throws` is what `fetch` throws for a request line and
-- headers, if it does: there is no connection, or a header value is none that it takes.
abbrev pub fetch_health :
    (Request → Option Failure) → ServerDeps → World → Option Session → Fetched (Unit {0})
fetch_health throws d w session =
    fetched (throws (health_request session).head)
      (status_of (serve d (health_request session) w).0)

abbrev pub no_field : Unit {0} → ErrorField
no_field body = ErrorField.no_error

module _ {B : Type 0} where
  after_health-in :
      (s : LoginScreen) (b : Browser) (f : Fetched B) (v : Settled B)
      → Answers f v
      → (IsRefusal f → ⊥)
      → (after_health s (b, v)).1.authed ≡ true
  unfolding after_health after_error on_authenticated IsRefusal
  after_health-in s b f _ (Answers.succeeded low high) fine = refl
  after_health-in s b f _ (Answers.refused range not_401 status code) fine = rw code refl
  after_health-in s b f _ (Answers.rejected status own code) fine = absurd (fine status)
  after_health-in s b f _ (Answers.lost status code) fine = rw code refl

  after_health-out :
      (s : LoginScreen) (b : Browser) (f : Fetched B) (v : Settled B)
      → Answers f v
      → IsRefusal f
      → (after_health s (b, v)).1 ≡ b
  unfolding after_health after_error IsRefusal
  after_health-out s b f _ (Answers.succeeded low high) out = absurd (omega arith)
  after_health-out s b f _ (Answers.refused range not_401 status code) out = absurd (not_401 out)
  after_health-out s b f _ (Answers.rejected status own code) out = rw code refl
  after_health-out s b f _ (Answers.lost status code) out = elim out [ ]

module _ (d : ServerDeps) (w : World) (session : Option Session) (address : Text) where
  abbrev token_check : Checked AuthError Text
  token_check =
      authenticate d.admin_token
        (header_string (head_of (codes "/api/health") session).authorization)

  abbrev answered : ℕ
  answered = status_of (serve d (health_request session) w).0

  answered_by :
      (h : Hook)
      → GatedBy d.admin_token (head_of (codes "/api/health") session) h
      → on_request d.admin_token (head_of (codes "/api/health") session) ≡ h
      → d.router registrations get (head_of (codes "/api/health") session).url ≡ some (1, address)
      → ((answered ≡ 401) × ((e : AuthError) × (token_check ≡ thrown e)))
        ⊎ ((answered ≢ 401) × ((a : Text) × (token_check ≡ passed a)))
  answered_by _ (GatedBy.bad_token {code = code} thrown_by) hook found =
      inl (ap status_of (serve_refused d (health_request session) w 401 code hook), (_, thrown_by))
  answered_by _ (GatedBy.bad_handle {code = code} accepted) hook found =
      let status : answered ≡ 400 =
        ap status_of (serve_refused d (health_request session) w 400 code hook) in
      inr (λ e. absurd (omega (arith, status, e)), (_, accepted))
  answered_by _ (GatedBy.let_in {actor = actor} accepted) hook found =
      let reply =
        ap status_of (serve_health d (health_request session) actor address w hook found refl) in
      let two = (health_iff d.routing.grpc d.sender.deposit_info d.sockets d.refresh.now).1 in
      inr (
        elim two [
          | inl up ↦ λ e. absurd (omega (arith, reply, up, e))
          | inr down ↦ λ e. absurd (omega (arith, reply, down, e))
        ],
        (_, accepted),
      )

stays_out :
    (b : Browser) (f : Fetched (Unit {0}))
    → IsRefusal f
    → (IsRefusal f × ((after_fetch no_field b f).0 ≡ on_unauthorized b))
      ⊎ ((IsRefusal f → ⊥) × ((after_fetch no_field b f).0 ≡ b))
    → (after_fetch no_field b f).0.authed ≡ false
unfolding on_unauthorized
stays_out b f refusal (inl (r, out)) = ap (λ (t : Browser). t.authed) out
stays_out b f refusal (inr (kept, same)) = absurd (kept refusal)

-- The tab behind a settled request for the health.
signed : LoginScreen → Browser → Fetched (Unit {0}) → Bool
signed s b f = (after_health s (after_fetch no_field b f)).1.authed

IsPassed : ServerDeps → Option Session → Type 0
IsPassed d session =
    (a : Text) × (authenticate d.admin_token
        (header_string (head_of (codes "/api/health") session).authorization)
      ≡ passed a)

answered-signed :
    (d : ServerDeps) (w : World) (s : LoginScreen) (b : Browser) (address : Text)
    → starts_with (codes "/api/") (head_of (codes "/api/health") b.session).url ≡ true
    → d.router registrations get (head_of (codes "/api/health") b.session).url ≡ some (1, address)
    → (signed s b (fetched none (answered d w b.session address)) ≡ true) ↔ IsPassed d b.session
unfolding signed IsPassed
answered-signed d w s b address api found =
    let f = fetched none (answered d w b.session address) in
    let (answers, tab) = after_fetch-Answers no_field b f in
    elim (answered_by d w b.session address _
      (on_request-GatedBy d.admin_token (head_of (codes "/api/health") b.session) api) refl found) [
        | inl (status, (e, thrown_by)) ↦
            let refusal : IsRefusal f = unfold IsRefusal in status in
            (
              λ signed.
                  let out : false ≡ true =
                    sym (stays_out b f refusal tab)
                    ∙ sym
                        (ap (λ (t : Browser). t.authed) (after_health-out s _ f _ answers refusal))
                    ∙ signed in
                  absurd (cc),
              λ (a, accepted). absurd (cc),
            )
        | inr (status, accepted) ↦ (
          λ signed. accepted,
          λ k. after_health-in s _ f _ answers (λ refused. status (unfold IsRefusal in refused)),
        )
      ]

lost-signed :
    (s : LoginScreen) (b : Browser) (e : Failure) (n : ℕ) → signed s b (fetched (some e) n) ≡ true
unfolding signed after_fetch after_health after_error on_authenticated
lost-signed s b e n = refl

fetched-signed :
    (d : ServerDeps) (w : World) (s : LoginScreen) (b : Browser) (address : Text)
    (o : Option Failure)
    → starts_with (codes "/api/") (head_of (codes "/api/health") b.session).url ≡ true
    → d.router registrations get (head_of (codes "/api/health") b.session).url ≡ some (1, address)
    → (signed s b (fetched o (answered d w b.session address)) ≡ true)
      ↔ (((e : Failure) × (o ≡ some e)) ⊎ IsPassed d b.session)
fetched-signed d w s b address (some e) api found =
    (λ h. inl (e, refl), λ k. lost-signed s b e (answered d w b.session address))
fetched-signed d w s b address none api found =
    let iff = answered-signed d w s b address api found in
    (λ h. inr (iff.0 h), λ k. elim k [ inl (e, q) ↦ absurd (cc) | inr accepted ↦ iff.1 accepted ])

health_api : starts_with (codes "/api/") (codes "/api/health") ≡ true
unfolding starts_with
health_api = refl

submit_lem :
    (fetch : Option Session → Fetched (Unit {0})) (s : LoginScreen) (b : Browser) (c c' : ℕ)
    (token actor : Text)
    → s.loading ≡ false
    → trim s.token ≡ c ∷ token
    → trim s.actor ≡ c' ∷ actor
    → b.writable ≡ true
    → submit no_field fetch s b
      ≡ sign_in no_field fetch s
          (record b { session = some (record { token = c ∷ token; actor = c' ∷ actor }) })
unfolding submit submit_trimmed set_session
submit_lem fetch s b c c' token actor idle typed named writable =
    let try = submit_trimmed no_field fetch s b in
    let stored : Browser = record b {
      session = some (record { token = c ∷ token; actor = c' ∷ actor });
    } in
    ap (λ x. if x then (s, b) else try (trim s.token) (trim s.actor)) idle
    ∙ ap (λ x. try x (trim s.actor)) typed
    ∙ ap (λ x. try (c ∷ token) x) named
    ∙ ap (λ x. sign_in no_field fetch s (if x then stored else b)) writable

-- The request line and headers of `getHealth()` behind a sign-in.
abbrev pub signed_head : Text → Text → Request
signed_head token actor = record {
  url = codes "/api/health";
  authorization = single (codes "Bearer " ++ token);
  x_actor = single actor;
}

-- Where the session storage takes writes and the server routes the request, a sign-in with a token
-- and a handle shows the console exactly when `fetch` throws, or the server accepts the token as a
-- bearer header, whatever it says to the handle.
pub submit_iff :
    (throws : Request → Option Failure) (d : ServerDeps) (w : World) (s : LoginScreen) (b : Browser)
    (address : Text) (c c' : ℕ) (token actor : Text)
    → s.loading ≡ false
    → trim s.token ≡ c ∷ token
    → trim s.actor ≡ c' ∷ actor
    → b.writable ≡ true
    → d.router registrations get (codes "/api/health") ≡ some (1, address)
    → ((submit no_field (fetch_health throws d w) s b).1.authed ≡ true) ↔ (
        ((e : Failure) × (throws (signed_head (c ∷ token) (c' ∷ actor)) ≡ some e))
        ⊎ ((a : Text) × (authenticate d.admin_token (some (codes "Bearer " ++ (c ∷ token)))
              ≡ passed a)))
unfolding sign_in signed IsPassed head_of bearer_header actor_header header_string
submit_iff throws d w s b address c c' token actor idle typed named writable found =
    rw (submit_lem (fetch_health throws d w) s b c c' token actor idle typed named writable) (
      fetched-signed d w s
        (record b { session = some (record { token = c ∷ token; actor = c' ∷ actor }) }) address
        (throws (signed_head (c ∷ token) (c' ∷ actor))) health_api found)
