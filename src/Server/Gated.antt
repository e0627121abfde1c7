-- ===== src/Server/Gated.antt =====
-- What a request can change, behind a router that serves a method by the registrations of that method.
-- How it reads the path is left open: it may serve a raw URL that does not begin as the pattern does.
use livepeer_gateway_console.Common.{
  ℕ, zero, suc, ◌≡◌, ◌≢◌, ◌⊎◌, inl, inr, refl, sym, ◌∙◌, Bool, true, false, not, ◌&&◌, ◌||◌, Option,
  none, some, List, [], ◌∷◌, All, keep, get_elem?, arith, Bool-cases,
}
use livepeer_gateway_console.Common.Text.{Text, codes, starts_with}
use livepeer_gateway_console.Gate.{Hook, next, sent, on_request}
use livepeer_gateway_console.Gate.Laws.{IsAdmitted, api_gate_iff}
use livepeer_gateway_console.Refresh.{World}
use livepeer_gateway_console.Server.{
  Method, get, post, Route, healthz, health, orchs, orch, capability_search, sender_wallet,
  sender_escrow, audit_log, resolver_audit_log, resolver_refresh, resolver_refresh_one,
  Registration, registrations, Router, HttpRequest, ServerDeps, query_fits, handle,
  parse_and_handle, run_registration, dispatch, after_hook, serve, serve_all,
}

abbrev pub under_api : Text → Bool
under_api url = starts_with (codes "/api/") url

-- What the router answers is a registration of the method of the request.
unfoldable pub KeepsMethod : Router → Type 0
KeepsMethod router =
    (method : Method) (url : Text) (i : ℕ) (address : Text) (r : Registration)
    → router registrations method url ≡ some (i, address)
    → get_elem? registrations i ≡ some r
    → r.method ≡ method

-- The routes that may change the world.
acts : Route → Bool
acts resolver_refresh = true
acts resolver_refresh_one = true
acts _ = false

is_post : Method → Bool
is_post post = true
is_post get = false

-- A registration of a route that acts is a POST.
is_guarded : Registration → Bool
unfolding acts is_post
is_guarded r = not (acts r.route) || is_post r.method

all_guarded : List Registration → Bool
all_guarded [] = true
all_guarded (r ∷ rs) = is_guarded r && all_guarded rs

guards : all_guarded registrations ≡ true
unfolding all_guarded is_guarded registrations
guards = refl

guarded_at :
    (rs : List Registration) (i : ℕ) (r : Registration)
    → all_guarded rs ≡ true
    → get_elem? rs i ≡ some r
    → is_guarded r ≡ true
unfolding all_guarded
guarded_at [] i r h e = cc
guarded_at (q ∷ rs) zero r h e = ground arith
guarded_at (q ∷ rs) (suc i) r h e = guarded_at rs i r (ground arith) e

is_post→eq : (m : Method) → is_post m ≡ true → m ≡ post
unfolding is_post
is_post→eq post h = refl
is_post→eq get h = cc

guarded-acts : (r : Registration) → is_guarded r ≡ true → acts r.route ≡ true → r.method ≡ post
unfolding is_guarded
guarded-acts r h a = is_post→eq r.method (ground arith)

-- The handler of any other route leaves the world as it was.
handle-reads :
    (d : ServerDeps) (req : HttpRequest) (actor address : Text) (w : World) (route : Route)
    → acts route ≡ false
    → (handle d req actor address w route).1 ≡ w
unfolding handle acts
handle-reads d req actor address w healthz h = refl
handle-reads d req actor address w health h = refl
handle-reads d req actor address w orchs h = refl
handle-reads d req actor address w orch h = refl
handle-reads d req actor address w capability_search h = refl
handle-reads d req actor address w sender_wallet h = refl
handle-reads d req actor address w sender_escrow h = refl
handle-reads d req actor address w audit_log h = refl
handle-reads d req actor address w resolver_audit_log h = refl
handle-reads d req actor address w resolver_refresh h = absurd (cc)
handle-reads d req actor address w resolver_refresh_one h = absurd (cc)

parse_and_handle-reads :
    (d : ServerDeps) (req : HttpRequest) (actor address : Text) (w : World) (route : Route)
    → acts route ≡ false
    → (parse_and_handle d req actor address w route).1 ≡ w
unfolding parse_and_handle
parse_and_handle-reads d req actor address w route h =
    elim (Bool-cases (query_fits route req.query)) [
      | inl fits ↦ rw fits (handle-reads d req actor address w route h)
      | inr unfit ↦ rw unfit refl
    ]

run_registration-cases :
    (d : ServerDeps) (req : HttpRequest) (actor : Text) (w : World) (i : ℕ) (address : Text)
    (o : Option Registration)
    → KeepsMethod d.router
    → d.router registrations req.method req.head.url ≡ some (i, address)
    → get_elem? registrations i ≡ o
    → ((run_registration d req actor address w o).1 ≡ w) ⊎ (req.method ≡ post)
unfolding run_registration KeepsMethod
run_registration-cases d req actor w i address none keeps found at = inl refl
run_registration-cases d req actor w i address (some r) keeps found at =
    elim (Bool-cases (acts r.route)) [
      | inl acting ↦
          let posts = guarded-acts r (guarded_at registrations i r guards at) acting in
          inr (sym (keeps req.method req.head.url i address r found at) ∙ posts)
      | inr reading ↦ inl (parse_and_handle-reads d req actor address w r.route reading)
    ]

dispatch-cases :
    (d : ServerDeps) (req : HttpRequest) (actor : Text) (w : World) (o : Option (ℕ × Text))
    → KeepsMethod d.router
    → d.router registrations req.method req.head.url ≡ o
    → ((dispatch d req actor w o).1 ≡ w) ⊎ (req.method ≡ post)
unfolding dispatch
dispatch-cases d req actor w none keeps found = inl refl
dispatch-cases d req actor w (some (i, address)) keeps found =
    run_registration-cases d req actor w i address (get_elem? registrations i) keeps found refl

after_hook-cases :
    (d : ServerDeps) (req : HttpRequest) (w : World) (h : Hook)
    → KeepsMethod d.router
    → ((after_hook d req w h).1 ≡ w) ⊎ ((req.method ≡ post) × ((actor : Text) × (h ≡ next actor)))
unfolding after_hook
after_hook-cases d req w (sent status code) keeps = inl refl
after_hook-cases d req w (next actor) keeps =
    elim (dispatch-cases d req actor w (d.router registrations req.method req.head.url) keeps
      refl) [ inl same ↦ inl same | inr posts ↦ inr (posts, (actor, refl)) ]

-- A request that changes the audit log or makes the daemon act is a POST; it has the admin token and
-- a handle, unless its raw URL does not begin with /api/.
pub change-IsAdmitted :
    (d : ServerDeps) (req : HttpRequest) (w : World)
    → KeepsMethod d.router
    → (serve d req w).1 ≢ w
    → (req.method ≡ post)
      × (((actor : Text) × IsAdmitted d.admin_token req.head actor)
          ⊎ (under_api req.head.url ≡ false))
unfolding serve
change-IsAdmitted d req w keeps changed =
    elim (after_hook-cases d req w (on_request d.admin_token req.head) keeps) [
      | inl same ↦ absurd (changed same)
      | inr (posts, (actor, passed)) ↦ (
        posts,
        elim (Bool-cases (under_api req.head.url)) [
          | inl api ↦ inl (actor, (api_gate_iff d.admin_token req.head actor api).0 passed)
          | inr outside ↦ inr outside
        ],
      )
    ]

passes : Hook → Bool
passes (next actor) = true
passes (sent status code) = false

-- The request is a POST that the hook lets through.
pub may_change : ServerDeps × HttpRequest → Bool
unfolding is_post passes
may_change (d, req) = is_post req.method && passes (on_request d.admin_token req.head)

unmoved :
    (d : ServerDeps) (req : HttpRequest) (w : World)
    → KeepsMethod d.router
    → may_change (d, req) ≡ false
    → (serve d req w).1 ≡ w
unfolding serve may_change
unmoved d req w keeps idle =
    elim (after_hook-cases d req w (on_request d.admin_token req.head) keeps) [
      | inl same ↦ same
      | inr (posts, (actor, passed)) ↦
          let clash : true ≡ false = rw (posts, passed) at idle in absurd (cc)
    ]

-- Behind routers that serve a request by a registration of its method, any sequence of requests
-- leaves the world that the POST requests which pass the hook leave alone: every other request can be
-- left out.
pub others_irrelevant :
    (reqs : List (ServerDeps × HttpRequest)) (w : World)
    → All (λ (r : ServerDeps × HttpRequest). KeepsMethod r.0.router) reqs
    → serve_all reqs w ≡ serve_all (keep may_change reqs) w
unfolding serve_all
others_irrelevant [] w h = refl
others_irrelevant ((d, req) ∷ reqs) w (keeps, h) = elim (Bool-cases (may_change (d, req))) [
  | inl moves ↦ rw moves (others_irrelevant reqs (serve d req w).1 h)
  | inr idle ↦ rw (idle, unmoved d req w keeps idle) (others_irrelevant reqs w h)
]
