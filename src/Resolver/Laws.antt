-- ===== src/Resolver/Laws.antt =====
-- How the client reads the daemon's answers.
use livepeer_gateway_console.Common.{
  ℕ, ◌≡◌, ◌↔◌, ◌⊎◌, refl, ap, true, Option, none, some, ==_iff, Bool-cases, inl, inr,
}
use livepeer_gateway_console.Common.Text.{Text}
use livepeer_gateway_console.Common.Result.{Failure, error, service_error, other, Result, ok, err}
use livepeer_gateway_console.Resolver.{
  Grpc, ResolveByAddressOptions, SelectQuery, no_route, is_status, resolve_request, settle_resolved,
  resolve_by_address, select_request, selected, settle_selected, select, settle_ping, ping,
}
use livepeer_gateway_console.Resolver.Messages.{ResolveResult, ProtoSelectedRoute}

is_status_iff :
    (e : Failure) (code : ℕ)
    → (is_status e code ≡ true) ↔ ((message : Text) × (e ≡ service_error code message))
unfolding is_status
is_status_iff (error m) code = (λ h. absurd (cc), λ (m', h). absurd (cc))
is_status_iff (service_error c m) code =
    (λ h. (m, ap (λ n. service_error n m) ((==_iff c code).0 h)), λ (m', h). (==_iff c code).1 (cc))
is_status_iff (other t) code = (λ h. absurd (cc), λ (m', h). absurd (cc))

err-injective : {A : Type 0} (a b : Failure) → ◌≡◌ {A = Result A} (err a) (err b) → a ≡ b
err-injective a b h = cc

settle_resolved_iff :
    (code : ℕ) (r : Result ResolveResult)
    → (settle_resolved code r ≡ ok none)
      ↔ ((message : Text) × (r ≡ err (service_error code message)))
unfolding settle_resolved
settle_resolved_iff code (ok res) = (λ h. absurd (cc), λ (m, h). absurd (cc))
settle_resolved_iff code (err e) = elim (Bool-cases (is_status e code)) [
  | inl found ↦
      let (m, same) = (is_status_iff e code).0 found in (λ h. (m, ap err same), λ k. rw found refl)
  | inr missing ↦ (
    λ h. absurd (cc (rw missing at h)),
    λ (m, h). absurd (cc ((is_status_iff e code).1 (m, err-injective e (service_error code m) h))),
  )
]

-- The client answers that it knows no such orchestrator exactly when the daemon's call failed with
-- the status NOT_FOUND; any other failure is passed on, and any answer is some orchestrator.
pub not_found_iff :
    (g : Grpc) (address : Text) (opts : Option ResolveByAddressOptions)
    → (resolve_by_address g address opts ≡ ok none) ↔ (
        (message : Text) × (g.resolve_by_address (resolve_request address opts)
          ≡ err (service_error g.not_found message)))
unfolding resolve_by_address
not_found_iff g address opts =
    settle_resolved_iff g.not_found (g.resolve_by_address (resolve_request address opts))

settle_selected_iff :
    (g : Grpc) (r : Result (Option ProtoSelectedRoute))
    → (settle_selected g r ≡ ok no_route)
      ↔ ((r ≡ ok none) ⊎ ((message : Text) × (r ≡ err (service_error g.not_found message))))
unfolding settle_selected selected
settle_selected_iff g (ok none) = (λ h. inl refl, λ k. refl)
settle_selected_iff g (ok (some r)) =
    (λ h. absurd (cc), λ k. elim k [ inl e ↦ absurd (cc) | inr (m, e) ↦ absurd (cc) ])
settle_selected_iff g (err e) = elim (Bool-cases (is_status e g.not_found)) [
  | inl found ↦
      let (m, same) = (is_status_iff e g.not_found).0 found in
      (λ h. inr (m, ap err same), λ k. rw found refl)
  | inr missing ↦ (
    λ h. absurd (cc (rw missing at h)),
    λ k. elim k [
      | inl h ↦ absurd (cc)
      | inr (m, h) ↦ absurd (
          cc ((is_status_iff e g.not_found).1 (m, err-injective e (service_error g.not_found m) h)))
    ],
  )
]

-- A search reports that no route matched exactly when the daemon answered without a route or failed
-- with the status NOT_FOUND.
pub no_route_iff :
    (g : Grpc) (query : SelectQuery)
    → (select g query ≡ ok no_route) ↔ (
        (g.select (select_request query) ≡ ok none)
        ⊎ ((message : Text) × (g.select (select_request query)
              ≡ err (service_error g.not_found message))))
unfolding select
no_route_iff g query = settle_selected_iff g (g.select (select_request query))

settle_ping_iff : (r : Result (Unit {0})) → ((settle_ping r).ok ≡ true) ↔ (r ≡ ok tt)
unfolding settle_ping
settle_ping_iff (ok u) = (λ h. refl, λ h. refl)
settle_ping_iff (err e) = (λ h. absurd (cc), λ h. absurd (cc))

pub ping_iff : (g : Grpc) → ((ping g).ok ≡ true) ↔ (g.health ≡ ok tt)
unfolding ping
ping_iff g = settle_ping_iff g.health
