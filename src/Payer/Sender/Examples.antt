-- ===== src/Payer/Sender/Examples.antt =====
-- A daemon that answers, and a wallet with a balance of seven.
use livepeer_gateway_console.Common.{◌≡◌, refl, true, none, some, [], ◌∷◌}
use livepeer_gateway_console.Common.Int.{pos}
use livepeer_gateway_console.Common.Text.{codes}
use livepeer_gateway_console.Common.Result.{Result, ok}
use livepeer_gateway_console.Common.Decimal.{to_decimal}
use livepeer_gateway_console.Chain.{get_balance}
use livepeer_gateway_console.Payer.{GetDepositInfoResponse}
use livepeer_gateway_console.Payer.Sender.{
  SenderServiceDeps, SenderWallet, SocketPresence, handle_get_sender_wallet, get_wallet, wallet_at,
  read_wallet, reply_wallet, sent,
}

abbrev response : GetDepositInfoResponse
response = record { deposit = 1 ∷ 0 ∷ []; reserve = []; withdraw_round = pos 0 }

abbrev answer : Result GetDepositInfoResponse
answer = ok response

abbrev pub sockets : SocketPresence
sockets = record { resolver_socket = true; sender_socket = true }

abbrev pub configured : SenderServiceDeps
configured = record {
  deposit_info = answer;
  balance = λ address. ok 7;
  sender_address = some (codes "0xA");
  min_balance_wei = none;
  now = 9;
}

abbrev shown : SenderWallet
shown = record { address = codes "0xA"; balance_wei = to_decimal 7; min_balance_wei = none }

shows : handle_get_sender_wallet configured ≡ sent shown
unfolding handle_get_sender_wallet get_wallet wallet_at read_wallet reply_wallet get_balance
shows = refl

abbrev pub floored : SenderServiceDeps
floored = record configured { min_balance_wei = some (codes "9") }

abbrev pub low : SenderWallet
low = record {
  address = codes "0xA";
  balance_wei = to_decimal 7;
  min_balance_wei = some (codes "9");
}

pub sends_low : handle_get_sender_wallet floored ≡ sent low
unfolding handle_get_sender_wallet get_wallet wallet_at read_wallet reply_wallet get_balance
sends_low = refl

abbrev unconfigured : SenderServiceDeps
unconfigured = record configured { sender_address = none }
