-- ===== src/Admin/SenderScreen/Wallet.antt =====
-- The wallet from the service behind the handler to the screen.
use livepeer_gateway_console.Common.{
  ℕ, ◌≡◌, ◌↔◌, ◌⊎◌, refl, sym, ap, ◌∙◌, Bool, true, false, Option, none, some, [], arith, if-elim,
  Bool-cases, inl, inr, ◌&&◌, ltb, leb, ◌==◌,
}
use livepeer_gateway_console.Common.Text.{Text, codes, starts_with}
use livepeer_gateway_console.Common.Result.{Failure}
use livepeer_gateway_console.Payer.Sender.{
  SenderWallet, SenderEscrow, SenderServiceDeps, WalletReply, sent, wallet_not_configured,
  handle_get_sender_wallet,
}
use livepeer_gateway_console.Payer.Sender.Views.{not_configured_iff}
use livepeer_gateway_console.Admin.Api.{
  Browser, ErrorField, message, Response, response, Settled, ApiError, Fetched, http_error,
  http_message, is_json, check_status, check_response, after_fetch,
}
use livepeer_gateway_console.Admin.Payload.{
  Payload, view, error, json_response, error_field, code_of,
}
use livepeer_gateway_console.Admin.SenderScreen.{
  SenderScreen, begin_reload, wallet_response, reload, take_wallet, take_escrow, end_reload,
  is_not_configured,
}

-- What a settled request leaves of the hint.
hint : SenderScreen → Settled (Payload SenderWallet) → Bool
hint s x = (take_wallet x s).wallet_not_configured

abbrev unset : Text
unset = codes "wallet_not_configured"

module _ (b : Browser) (s : SenderScreen) (hidden : s.wallet_not_configured ≡ false) where
  failed-codeless :
      (e : ApiError (Payload SenderWallet))
      → code_of e.body ≡ none
      → hint s (Settled.failed e) ≡ false
  unfolding take_wallet is_not_configured hint
  failed-codeless e codeless = rw (hint, codeless) hidden

  check_status-codeless :
      (status : ℕ) (payload : Option (Payload SenderWallet))
      → code_of payload ≡ none
      → hint s (check_status error_field status payload) ≡ false
  unfolding check_status take_wallet is_not_configured hint
  check_status-codeless status payload codeless =
      elim (Bool-cases (leb 200 status && ltb status 300)) [
        | inl fine ↦ rw fine hidden
        | inr bad ↦ rw bad (
            failed-codeless
              (record {
                code = http_error;
                status = status;
                message = http_message error_field status payload;
                body = payload;
              })
              codeless)
      ]

  -- A payload without a code shows no hint.
  check_response-codeless :
      (r : Response (Payload SenderWallet))
      → code_of r.json ≡ none
      → hint s (check_response error_field b r).1 ≡ false
  unfolding check_response hint take_wallet is_not_configured code_of
  check_response-codeless r codeless = elim (Bool-cases (r.status == 401)) [
    | inl t ↦ rw t hidden
    | inr f ↦ elim (Bool-cases (r.status == 204)) [
      | inl t ↦ rw (f, t) hidden
      | inr f' ↦
          rw (f, f')
            (check_status-codeless r.status _ (
              if-elim (λ (o : Option (Payload SenderWallet)). code_of o ≡ none)
                (is_json r.content_type) r.json none (λ t. codeless) (λ f''. refl)))
    ]
  ]

  check_status-503 :
      (status : ℕ) (field : ErrorField)
      → hint s (check_status error_field status (some (error (some unset) field))) ≡ true
      → status ≡ 503
  unfolding check_status take_wallet is_not_configured hint code_of
  check_status-503 status field shown = elim (Bool-cases (leb 200 status && ltb status 300)) [
    | inl fine ↦ absurd (let clash : false ≡ true = sym hidden ∙ rw fine at shown in cc)
    | inr bad ↦ ground (arith, bad, shown, hidden)
  ]

  -- The hint is only shown for the status 503.
  check_response-503 :
      (status : ℕ) (field : ErrorField)
      → hint s (check_response error_field b (json_response status (error (some unset) field))).1
        ≡ true
      → status ≡ 503
  unfolding check_response hint take_wallet is_not_configured code_of json_response starts_with
      error_field
  check_response-503 status field shown = elim (Bool-cases (status == 401)) [
    | inl t ↦ absurd (let clash : false ≡ true = sym hidden ∙ rw t at shown in cc)
    | inr f ↦ elim (Bool-cases (status == 204)) [
      | inl t ↦ absurd (let clash : false ≡ true = sym hidden ∙ rw (f, t) at shown in cc)
      | inr f' ↦ check_status-503 status field (rw (f, f') at shown)
    ]
  ]

take_escrow-same :
    (escrow : Settled (Payload SenderEscrow)) (s : SenderScreen)
    → ((take_escrow escrow s).wallet_not_configured ≡ s.wallet_not_configured)
      × ((take_escrow escrow s).wallet ≡ s.wallet)
unfolding take_escrow
take_escrow-same (Settled.value w) s = (refl, refl)
take_escrow-same (Settled.failed e) s = (refl, refl)

module _ (explanation : Text) (send_error : Failure → Response (Payload SenderWallet))
    (codeless : (e : Failure) → code_of (send_error e).json ≡ none) (b : Browser)
    (s : SenderScreen) where
  -- The response to a wallet request that the handler ends so.
  answer : WalletReply → Response (Payload SenderWallet)
  answer reply = wallet_response explanation send_error reply

  reply→503 :
      (reply : WalletReply)
      → hint (begin_reload s) (check_response error_field b (answer reply)).1 ≡ true
      → reply ≡ wallet_not_configured 503
  unfolding answer wallet_response begin_reload
  reply→503 (sent w) h =
      let none_shown =
        check_response-codeless b (begin_reload s) refl (json_response 200 (view w))
          (unfold code_of in refl) in
      absurd (cc)
  reply→503 (wallet_not_configured status) h =
      ap wallet_not_configured
        (check_response-503 b (begin_reload s) refl status (message explanation) h)
  reply→503 (WalletReply.failed e) h =
      let none_shown =
        check_response-codeless b (begin_reload s) refl (send_error e) (codeless e) in
      absurd (cc)

  shown_503 :
      hint (begin_reload s) (check_response error_field b (answer (wallet_not_configured 503))).1
      ≡ true
  unfolding answer wallet_response begin_reload hint check_response check_status json_response
      take_wallet is_not_configured code_of starts_with error_field is_json
  shown_503 = refl

  module _ (deps : SenderServiceDeps) (escrow : Fetched (Payload SenderEscrow)) where
    -- The screen behind `_reload`.
    abbrev after : SenderScreen
    after = (reload b (response (answer (handle_get_sender_wallet deps))) escrow s).1

    after-hint :
        after.wallet_not_configured
        ≡ hint
            (begin_reload s)
            (check_response error_field b (answer (handle_get_sender_wallet deps))).1
    unfolding reload end_reload after_fetch hint
    after-hint = (take_escrow-same _ _).0

    after_iff :
        (after.wallet_not_configured ≡ true)
        ↔ ((deps.sender_address ≡ none) ⊎ (deps.sender_address ≡ some []))
    after_iff = (
      λ h.
          (not_configured_iff deps).0
            (reply→503 (handle_get_sender_wallet deps) (sym after-hint ∙ h)),
      λ k. after-hint ∙ rw ((not_configured_iff deps).1 k) shown_503,
    )

    taken :
        (w : SenderWallet)
        → (take_wallet (check_response error_field b (answer (sent w))).1 (begin_reload s)).wallet
          ≡ some (view w)
    unfolding answer wallet_response check_response check_status json_response take_wallet
        starts_with is_json
    taken w = refl

    after-wallet :
        (w : SenderWallet) → handle_get_sender_wallet deps ≡ sent w → after.wallet ≡ some (view w)
    unfolding reload end_reload after_fetch
    after-wallet w h =
        (take_escrow-same _ _).1
        ∙ ap
            (λ r. (take_wallet (check_response error_field b (answer r)).1 (begin_reload s)).wallet)
            h
        ∙ taken w

-- The screen reloads, its request of the wallet is answered from the service and the request of the
-- escrow settles in any way. The hint is shown exactly when no address is configured, or an empty
-- one, whatever the chain reader throws, if what Fastify sends for an error has no code under
-- `error`; and a wallet that the handler sends is the one that is shown.
pub wallet_screen :
    (explanation : Text) (send_error : Failure → Response (Payload SenderWallet))
    → ((e : Failure) → code_of (send_error e).json ≡ none)
    → (b : Browser) (s : SenderScreen) (deps : SenderServiceDeps)
      (escrow : Fetched (Payload SenderEscrow))
    → let after =
        (reload b
          (response (wallet_response explanation send_error (handle_get_sender_wallet deps)))
          escrow
          s).1 in
      ((after.wallet_not_configured ≡ true)
        ↔ ((deps.sender_address ≡ none) ⊎ (deps.sender_address ≡ some [])))
      × ((w : SenderWallet) → handle_get_sender_wallet deps ≡ sent w → after.wallet ≡ some (view w))
unfolding answer
wallet_screen explanation send_error codeless b s deps escrow = (
  after_iff explanation send_error codeless b s deps escrow,
  after-wallet explanation send_error codeless b s deps escrow,
)
