-- ===== src/Payer.antt =====
-- src/providers/payerDaemon/client.ts: the daemon's deposit, whose amounts are big-endian bytes.
pub mod Amounts
pub mod Sender
mod Examples
use livepeer_gateway_console.Common.{
  ℕ, zero, suc, ◌+◌, ◌-◌, ◌*◌, ◌/◌, ◌%◌, Bool, true, false, Option, none, some, List, [], ◌∷◌, ◌++◌,
  ltb, leb, if◌then◌else◌,
}
use livepeer_gateway_console.Common.Int.{ℤ, pos, negsuc}
use livepeer_gateway_console.Common.Text.{Text, codes}
use livepeer_gateway_console.Common.Decimal.{to_decimal}
use livepeer_gateway_console.Common.Result.{Failure, message_of, Result, ok, err, ◌>>=◌}

-- The message of the daemon, src/providers/payerDaemon/gen/livepeer/payments/v1/payer_daemon.ts.
pub record GetDepositInfoResponse : Type 0 where
  pub deposit : List ℕ
  pub reserve : List ℕ
  pub withdraw_round : ℤ

pub record DepositInfo : Type 0 where
  pub deposit_wei : Text
  pub reserve_wei : Text
  pub withdraw_round : Text

abbrev pub hex_digit : ℕ → ℕ
hex_digit d = if ltb d 10 then d + 48 else d + 87

-- `buf.toString("hex")`
to_hex : List ℕ → Text
to_hex [] = []
to_hex (b ∷ bs) = hex_digit (b / 16) ∷ hex_digit (b % 16) ∷ to_hex bs

abbrev pub hex_value : ℕ → ℕ
hex_value c = if leb c 57 then c - 48 else c - 87

-- `BigInt("0x" + digits)`, behind a number read before them.
parse_hex : ℕ → Text → ℕ
parse_hex n [] = n
parse_hex n (c ∷ s) = parse_hex (16 * n + hex_value c) s

pub big_endian_bytes_to_decimal : List ℕ → Text
big_endian_bytes_to_decimal [] = codes "0"
big_endian_bytes_to_decimal (b ∷ bs) = to_decimal (parse_hex 0 (to_hex (b ∷ bs)))

-- `n.toString(10)` of a `bigint` of either sign.
pub signed_to_decimal : ℤ → Text
signed_to_decimal (pos n) = to_decimal n
signed_to_decimal (negsuc n) = b'-' ∷ to_decimal (suc n)

-- `getDepositInfoInternal`, from the answer of the call.
pub get_deposit_info : Result GetDepositInfoResponse → Result DepositInfo
get_deposit_info answer = do
  res ← answer
  ok (record {
    deposit_wei = big_endian_bytes_to_decimal res.deposit;
    reserve_wei = big_endian_bytes_to_decimal res.reserve;
    withdraw_round = signed_to_decimal res.withdraw_round;
  })
