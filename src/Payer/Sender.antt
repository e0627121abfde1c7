-- ===== src/Payer/Sender.antt =====
-- src/service/sender/index.ts with the handlers handleGetSenderWallet.ts, handleGetSenderEscrow.ts
-- and handleHealth.ts. The query of each request is one that zod accepts; the presence check of the
-- sockets, which the health reply repeats, is a value that the file system gives.
pub mod Views
pub mod Examples
use livepeer_gateway_console.Common.{
  ℕ, Bool, true, false, ◌&&◌, Option, none, some, List, [], ◌∷◌, if◌then◌else◌,
}
use livepeer_gateway_console.Common.Text.{Text, codes}
use livepeer_gateway_console.Common.Result.{Failure, message_of, Result, ok, err, ◌>>=◌}
use livepeer_gateway_console.Chain.{get_balance}
use livepeer_gateway_console.Resolver.{Grpc, Ping}
use livepeer_gateway_console.Resolver
use livepeer_gateway_console.Payer.{GetDepositInfoResponse, DepositInfo, get_deposit_info}

pub record SenderWallet : Type 0 where
  pub address : Text
  pub balance_wei : Text
  pub min_balance_wei : Option Text

pub record SenderEscrow : Type 0 where
  pub deposit_wei : Text
  pub reserve_wei : Text
  pub observed_at : ℕ

-- The daemon's answer, the chain's balances, the configuration, and the clock.
pub record SenderServiceDeps : Type 0 where
  pub deposit_info : Result GetDepositInfoResponse
  pub balance : Text → Result ℕ
  pub sender_address : Option Text
  pub min_balance_wei : Option Text
  pub now : ℕ

-- What `getWallet` throws: its own error, or what the chain reader throws.
pub data WalletError : Type 0 where
  sender_wallet_not_configured : WalletError
  chain_failure : Failure → WalletError

pub data WalletResult : Type 0 where
  wallet : SenderWallet → WalletResult
  refused : WalletError → WalletResult

read_wallet : SenderServiceDeps → Text → Result Text → WalletResult
read_wallet deps address (ok balance) =
    wallet
      (record { address = address; balance_wei = balance; min_balance_wei = deps.min_balance_wei })
read_wallet deps address (err e) = refused (chain_failure e)

-- `!deps.senderAddress` holds of an empty address too.
wallet_at : SenderServiceDeps → Option Text → WalletResult
unfolding read_wallet
wallet_at deps none = refused sender_wallet_not_configured
wallet_at deps (some []) = refused sender_wallet_not_configured
wallet_at deps (some (c ∷ s)) = read_wallet deps (c ∷ s) (get_balance (deps.balance (c ∷ s)))

-- `getWallet`
pub get_wallet : SenderServiceDeps → WalletResult
unfolding wallet_at
get_wallet deps = wallet_at deps deps.sender_address

-- `getEscrow`
pub get_escrow : SenderServiceDeps → Result SenderEscrow
get_escrow deps = do
  info ← get_deposit_info deps.deposit_info
  ok (record {
    deposit_wei = info.deposit_wei;
    reserve_wei = info.reserve_wei;
    observed_at = deps.now;
  })

-- How a wallet request ends.
pub data WalletReply : Type 0 where
  sent : SenderWallet → WalletReply
  wallet_not_configured : ℕ → WalletReply
  failed : Failure → WalletReply

reply_wallet : WalletResult → WalletReply
reply_wallet (wallet w) = sent w
reply_wallet (refused sender_wallet_not_configured) = wallet_not_configured 503
reply_wallet (refused (chain_failure e)) = failed e

-- `handleGetSenderWallet`
pub handle_get_sender_wallet : SenderServiceDeps → WalletReply
unfolding reply_wallet
handle_get_sender_wallet deps = reply_wallet (get_wallet deps)

settle_ping : Result DepositInfo → Ping
unfolding message_of
settle_ping (ok info) = record { ok = true; error = none }
settle_ping (err e) = record { ok = false; error = some (message_of e) }

-- `ping` of the payer daemon's client: a read of the deposit, its result dropped.
pub ping : Result GetDepositInfoResponse → Ping
unfolding settle_ping
ping answer = settle_ping (get_deposit_info answer)

pub record SocketPresence : Type 0 where
  pub resolver_socket : Bool
  pub sender_socket : Bool

pub record HealthReply : Type 0 where
  pub status : ℕ
  pub ok : Bool
  pub ts : ℕ
  pub sockets : SocketPresence
  pub resolver_ping : Ping
  pub sender_ping : Ping

-- `handleHealth`
pub handle_health : Grpc → Result GetDepositInfoResponse → SocketPresence → ℕ → HealthReply
handle_health grpc deposit_info sockets now =
    let resolver_ping = Resolver.ping grpc in
    let payer_ping = ping deposit_info in
    let healthy = resolver_ping.ok && payer_ping.ok in
    record {
      status = if healthy then 200 else 503;
      ok = healthy;
      ts = now;
      sockets = sockets;
      resolver_ping = resolver_ping;
      sender_ping = payer_ping;
    }
