-- ===== src/Chain.antt =====
-- src/providers/chain/viem.ts: the reads of the chain. The contracts behind the client are an
-- interface: what each `readContract` answers. Amounts are numbers (`bigint`), printed in base 10.
pub mod PoolWalk
pub mod Examples
use livepeer_gateway_console.Common.{
  ℕ, zero, suc, ◌+◌, Bool, true, false, Option, none, some, List, [], ◌∷◌, ◌++◌, ltb, if◌then◌else◌,
}
use livepeer_gateway_console.Common.Text.{Text, codes, text_eq, to_lower_case}
use livepeer_gateway_console.Common.Decimal.{to_decimal}
use livepeer_gateway_console.Common.Result.{Failure, error, Result, ok, err, ◌>>=◌}

pub record BondingPoolEntry : Type 0 where
  pub address : Text
  pub total_stake_wei : Text

pub record ReserveInfo : Type 0 where
  pub deposit_wei : Text
  pub reserve_wei : Text

-- What the client reads of the BondingManager: the head of the pool, the one behind an address, and
-- the `delegatedAmount` of `getDelegator`.
pub record BondingManager : Type 0 where
  pub first_transcoder : Result Text
  pub next_transcoder : Text → Result Text
  pub delegated_amount : Text → Result ℕ

abbrev pub zero_address : Text
zero_address = codes "0x0000000000000000000000000000000000000000"

abbrev pub pool_walk_safety_limit : ℕ
pool_walk_safety_limit = 1000

pub walk_failure : Failure
walk_failure = error (
    codes
      "BondingManager pool walk exceeded 1000 entries; aborting (likely a corrupt linked list).")

abbrev pub pool_entry : Text → ℕ → BondingPoolEntry
pool_entry addr delegated = record { address = addr; total_stake_wei = to_decimal delegated }

-- The `while` loop of `bondingManagerListPool`, with the number of rounds that the guard leaves: it
-- throws at the next one after `rounds`.
walk : BondingManager → ℕ → Text → List BondingPoolEntry → Result (List BondingPoolEntry)
walk bm zero addr out =
    if text_eq (to_lower_case addr) zero_address then ok out else err walk_failure
walk bm (suc rounds) addr out =
    let next = bm.delegated_amount addr >>= λ delegated. bm.next_transcoder addr >>= λ addr'.
    walk bm rounds addr' (out ++ pool_entry addr delegated ∷ []) in
    if text_eq (to_lower_case addr) zero_address then ok out else next

pub bonding_manager_list_pool : BondingManager → Result (List BondingPoolEntry)
bonding_manager_list_pool bm = do addr ← bm.first_transcoder; walk bm pool_walk_safety_limit addr []

-- `getReserveInfo`, from the deposit and the remaining reserve that `getSenderInfo` answers.
pub get_reserve_info : Result (ℕ × ℕ) → Result ReserveInfo
get_reserve_info answer = do
  info ← answer
  ok (record { deposit_wei = to_decimal info.0; reserve_wei = to_decimal info.1 })

-- `getBalance`
unfoldable pub get_balance : Result ℕ → Result Text
get_balance answer = do balance ← answer; ok (to_decimal balance)
