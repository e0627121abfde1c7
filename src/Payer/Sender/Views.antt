-- ===== src/Payer/Sender/Views.antt =====
-- What the operator sees of the daemons and of the wallet.
use livepeer_gateway_console.Common.{
  ℕ, ◌≡◌, ◌≢◌, ◌↔◌, ◌⊎◌, inl, inr, refl, Bool, true, false, ◌&&◌, arith, Option, none, some, [],
  ◌∷◌, if◌then◌else◌,
}
use livepeer_gateway_console.Common.Text.{Text}
use livepeer_gateway_console.Common.Decimal.{to_decimal}
use livepeer_gateway_console.Common.Result.{Result, ok, err}
use livepeer_gateway_console.Resolver.{Grpc}
use livepeer_gateway_console.Resolver.Laws.{ping_iff}
use livepeer_gateway_console.Resolver
use livepeer_gateway_console.Chain.{get_balance}
use livepeer_gateway_console.Payer.{GetDepositInfoResponse, get_deposit_info}
use livepeer_gateway_console.Payer.Sender.{
  SenderServiceDeps, get_wallet, read_wallet, wallet_at, reply_wallet, SenderWallet, settle_ping,
  sent, wallet_not_configured, handle_get_sender_wallet, ping, SocketPresence, handle_health,
}

payer_ping_iff :
    (answer : Result GetDepositInfoResponse)
    → ((ping answer).ok ≡ true) ↔ ((info : GetDepositInfoResponse) × (answer ≡ ok info))
unfolding ping settle_ping get_deposit_info
payer_ping_iff (ok info) = (λ h. (info, refl), λ h. refl)
payer_ping_iff (err e) = (λ h. absurd (cc), λ (info, h). absurd (cc))

abbrev health_status : Bool → ℕ
health_status b = if b then 200 else 503

status_iff : (a b : Bool) → (health_status (a && b) ≡ 200) ↔ ((a ≡ true) × (b ≡ true))
status_iff true true = (λ h. (refl, refl), λ k. refl)
status_iff true false = (λ h. absurd (omega arith), λ (p, q). absurd (cc))
status_iff false b = (λ h. absurd (omega arith), λ (p, q). absurd (cc))

two_statuses : (b : Bool) → (health_status b ≡ 200) ⊎ (health_status b ≡ 503)
two_statuses true = inl refl
two_statuses false = inr refl

-- The health reply has the status 200 exactly when the resolver answers its health check and the
-- payer daemon answers the read of the deposit; in every other case it is 503.
pub health_iff :
    (g : Grpc) (answer : Result GetDepositInfoResponse) (sockets : SocketPresence) (now : ℕ)
    → (((handle_health g answer sockets now).status ≡ 200)
        ↔ ((g.health ≡ ok tt) × ((info : GetDepositInfoResponse) × (answer ≡ ok info))))
      × (((handle_health g answer sockets now).status ≡ 200)
          ⊎ ((handle_health g answer sockets now).status ≡ 503))
unfolding handle_health
health_iff g answer sockets now =
    let pings = status_iff (Resolver.ping g).ok (ping answer).ok in
    (
      (
        λ h. ((ping_iff g).0 (pings.0 h).0, (payer_ping_iff answer).0 (pings.0 h).1),
        λ (p, q). pings.1 ((ping_iff g).1 p, (payer_ping_iff answer).1 q),
      ),
      two_statuses ((Resolver.ping g).ok && (ping answer).ok),
    )

-- A wallet that the chain's balance was read for.
pub record IsWallet (deps : SenderServiceDeps) (w : SenderWallet) : Type 0 where
  pub configured : deps.sender_address ≡ some w.address
  pub not_empty : w.address ≢ []
  pub wei : ℕ
  pub answered : deps.balance w.address ≡ ok wei
  pub printed : w.balance_wei ≡ to_decimal wei
  pub floor : w.min_balance_wei ≡ deps.min_balance_wei

read_sound :
    (deps : SenderServiceDeps) (address : Text) (balance : Result ℕ) (w : SenderWallet)
    → reply_wallet (read_wallet deps address (get_balance balance)) ≡ sent w
    → (wei : ℕ) × (balance ≡ ok wei)
      × (w ≡ record {
        address = address;
        balance_wei = to_decimal wei;
        min_balance_wei = deps.min_balance_wei;
      })
unfolding read_wallet reply_wallet get_balance
read_sound deps address (ok wei) w h = (wei, refl, cc)
read_sound deps address (err e) w h = absurd (cc)

at_sound :
    (deps : SenderServiceDeps) (o : Option Text) (w : SenderWallet)
    → deps.sender_address ≡ o
    → reply_wallet (wallet_at deps o) ≡ sent w
    → IsWallet deps w
unfolding wallet_at reply_wallet
at_sound deps none w p h = absurd (cc)
at_sound deps (some []) w p h = absurd (cc)
at_sound deps (some (c ∷ s)) w p h =
    let (wei, answered, same) = read_sound deps (c ∷ s) (deps.balance (c ∷ s)) w h in
    rw same (record {
      configured = p;
      not_empty = λ e. cc;
      wei = wei;
      answered = answered;
      printed = refl;
      floor = refl;
    })

never_unconfigured :
    (deps : SenderServiceDeps) (address : Text) (balance : Result ℕ) (status : ℕ)
    → reply_wallet (read_wallet deps address (get_balance balance)) ≡ wallet_not_configured status
    → ⊥
unfolding read_wallet reply_wallet get_balance
never_unconfigured deps address (ok wei) status h = cc
never_unconfigured deps address (err e) status h = cc

at_unconfigured :
    (deps : SenderServiceDeps) (o : Option Text)
    → (reply_wallet (wallet_at deps o) ≡ wallet_not_configured 503) ↔ ((o ≡ none) ⊎ (o ≡ some []))
unfolding wallet_at reply_wallet
at_unconfigured deps none = (λ h. inl refl, λ k. refl)
at_unconfigured deps (some []) = (λ h. inr refl, λ k. refl)
at_unconfigured deps (some (c ∷ s)) = (
  λ h. absurd (never_unconfigured deps (c ∷ s) (deps.balance (c ∷ s)) 503 h),
  λ k. elim k [ inl e ↦ absurd (cc) | inr e ↦ absurd (cc) ],
)

-- A wallet request that is answered shows the configured address, which is not empty, the balance
-- that the chain gave for it, in base 10, and the configured floor.
pub balance_shown :
    (deps : SenderServiceDeps) (w : SenderWallet)
    → handle_get_sender_wallet deps ≡ sent w
    → IsWallet deps w
unfolding handle_get_sender_wallet get_wallet
balance_shown deps w h = at_sound deps deps.sender_address w refl h

-- A wallet request is answered with "not configured" and the status 503 exactly when no address is
-- configured, or an empty one.
pub not_configured_iff :
    (deps : SenderServiceDeps)
    → (handle_get_sender_wallet deps ≡ wallet_not_configured 503)
      ↔ ((deps.sender_address ≡ none) ⊎ (deps.sender_address ≡ some []))
unfolding handle_get_sender_wallet get_wallet
not_configured_iff deps = at_unconfigured deps deps.sender_address
