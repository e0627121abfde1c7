-- ===== src/Admin/SenderScreen.antt =====
-- src/admin-ui/admin/components/admin-sender.js: the wallet and the escrow, each with its own error,
-- and the hint that replaces the wallet where none is configured.
pub mod Wallet
pub mod Floor
use livepeer_gateway_console.Common.{
  ℕ, Bool, true, false, ◌&&◌, Option, none, some, List, [], ◌∷◌, ◌==◌, if◌then◌else◌,
}
use livepeer_gateway_console.Common.Int.{ℤ, ltb_ℤ}
use livepeer_gateway_console.Common.Text.{Text, codes, text_eq}
use livepeer_gateway_console.Payer.Sender.{
  SenderWallet, SenderEscrow, WalletReply, sent, wallet_not_configured,
}
use livepeer_gateway_console.Payer.Sender
use livepeer_gateway_console.Admin.Payload.{
  Payload, view, error, error_field, code_of, json_response,
}
use livepeer_gateway_console.Admin.Api.{
  Browser, Fetched, after_fetch, message, Response, Settled, value, failed,
}
use livepeer_gateway_console.Common.Result.{Failure}

-- What the handler sends, with the message of `SenderWalletNotConfiguredError` and with Fastify's
-- response to an error that is thrown.
unfoldable pub wallet_response :
    Text
    → (Failure → Response (Payload SenderWallet))
    → WalletReply
    → Response (Payload SenderWallet)
unfolding json_response
wallet_response explanation send_error (sent w) = json_response 200 (view w)
wallet_response explanation send_error (wallet_not_configured status) =
    json_response status (error (some (codes "wallet_not_configured")) (message explanation))
wallet_response explanation send_error (WalletReply.failed e) = send_error e

pub record SenderScreen : Type 0 where
  pub wallet : Option (Payload SenderWallet)
  pub escrow : Option (Payload SenderEscrow)
  pub wallet_not_configured : Bool
  pub wallet_error : Text
  pub escrow_error : Text
  pub loading : Bool

-- `_reload`, up to its await.
unfoldable pub begin_reload : SenderScreen → SenderScreen
begin_reload s = record {
  wallet = none;
  escrow = none;
  wallet_not_configured = false;
  wallet_error = [];
  escrow_error = [];
  loading = true;
}

-- `status === 503 && code === "wallet_not_configured"`
unfoldable pub is_not_configured : ℕ → Option Text → Bool
is_not_configured status none = false
is_not_configured status (some code) = status == 503 && text_eq code (codes "wallet_not_configured")

unfoldable pub take_wallet : Settled (Payload SenderWallet) → SenderScreen → SenderScreen
unfolding is_not_configured
take_wallet (value w) s = record s { wallet = w }
take_wallet (failed e) s =
    if is_not_configured e.status (code_of e.body)
    then record s { wallet_not_configured = true }
    else record s { wallet_error = e.message }

unfoldable pub take_escrow : Settled (Payload SenderEscrow) → SenderScreen → SenderScreen
take_escrow (value w) s = record s { escrow = w }
take_escrow (failed e) s = record s { escrow_error = e.message }

-- `_reload`, from its await on: the two requests have settled, each as it did.
unfoldable pub end_reload :
    Settled (Payload SenderWallet) → Settled (Payload SenderEscrow) → SenderScreen → SenderScreen
unfolding take_wallet take_escrow
end_reload wallet escrow s = record (take_escrow escrow (take_wallet wallet s)) { loading = false }

-- `_reload`, in a tab: the order in which the two requests settle changes nothing.
unfoldable pub reload :
    Browser
    → Fetched (Payload SenderWallet)
    → Fetched (Payload SenderEscrow)
    → SenderScreen
    → Browser × SenderScreen
unfolding begin_reload end_reload
reload b wallet escrow s =
    let first = after_fetch error_field b wallet in
    let second = after_fetch error_field first.0 escrow in
    (second.0, end_reload first.1 second.1 (begin_reload s))

-- `BigInt(a) < BigInt(b)`, false where one of the two throws.
unfoldable pub less : Option ℤ → Option ℤ → Bool
less none _ = false
less (some a) none = false
less (some a) (some b) = ltb_ℤ a b

-- Texts that are empty or missing are falsy.
unfoldable pub floor_test : (Text → Option ℤ) → Text → Option Text → Bool
floor_test big_int balance none = false
floor_test big_int balance (some []) = false
floor_test big_int [] (some (c ∷ s)) = false
floor_test big_int (d ∷ t) (some (c ∷ s)) = less (big_int (d ∷ t)) (big_int (c ∷ s))

-- `_belowFloor`, with JavaScript's `BigInt`.
unfoldable pub below_floor : (Text → Option ℤ) → SenderScreen → Bool
unfolding floor_test
below_floor big_int s = elim s.wallet [
  | none ↦ false
  | some p ↦ elim p [
    | view w ↦ floor_test big_int w.balance_wei w.min_balance_wei
    | error code field ↦ false
  ]
]
