-- ===== src/Config/Examples.antt =====
-- Addresses and environments that are accepted, with a `Number` that knows base 10 alone.
use livepeer_gateway_console.Common.{
  ◌≡◌, ◌≢◌, ◌≤◌, refl, Bool, true, false, some, [], ◌∷◌, ◌++◌, arith, All, if◌then◌else◌,
}
use livepeer_gateway_console.Common.Int.{pos}
use livepeer_gateway_console.Common.Text.{Text, codes, utf16_length}
use livepeer_gateway_console.Common.Assoc.{map_get}
use livepeer_gateway_console.Common.Decimal.{
  to_decimal, decimal_value, is_digit_code, to_decimal-IsDecimal,
}
use livepeer_gateway_console.Common.Result.{ok}
use livepeer_gateway_console.Listing.{Coerced, integer, no_integer}
use livepeer_gateway_console.Config.{
  Platform, ListenConfig, Source, Env, parse_listen_addr, load_env, required, optional, is_long,
  count_from, level_of, format_of, address_or, all_of, env_of, with_default, split_last,
  check_parts, check_port,
}
use livepeer_gateway_console.Config.ListenAddr.{
  ReadsDecimals, listen_addr_roundtrip, listen_addr_sound,
}
use livepeer_gateway_console.Config.Bounds.{IsEnv, load_env_sound}

all_digits : Text → Bool
all_digits [] = true
all_digits (c ∷ s) = let rest = all_digits s in if is_digit_code c then rest else false

-- Decimal digits alone.
pub decimal_number : Text → Coerced
decimal_number s = if all_digits s then integer (pos (decimal_value 0 s)) else no_integer

all_digits-All : (s : Text) → All (λ c. is_digit_code c ≡ true) s → all_digits s ≡ true
unfolding all_digits
all_digits-All [] h = refl
all_digits-All (c ∷ s) (p, h) = rw (p, all_digits-All s h) refl

decimal_number-ReadsDecimals : ReadsDecimals decimal_number
unfolding ReadsDecimals decimal_number
decimal_number-ReadsDecimals n small =
    rw
      (all_digits-All (to_decimal n) (to_decimal-IsDecimal n).plain, (to_decimal-IsDecimal n).value)
      refl

listen_addr_roundtrip_example :
    parse_listen_addr decimal_number (codes "::1" ++ b':' ∷ to_decimal 8080)
    ≡ ok (record { host = codes "::1"; port = 8080 })
listen_addr_roundtrip_example =
    listen_addr_roundtrip decimal_number (codes "::1") 8080 decimal_number-ReadsDecimals (λ e. cc)
      (omega arith) (omega arith)

abbrev pub local : ListenConfig
local = record { host = codes "127.0.0.1"; port = 80 }

pub reads_local : parse_listen_addr decimal_number (codes "127.0.0.1:80") ≡ ok local
unfolding parse_listen_addr split_last check_parts check_port decimal_number all_digits
    decimal_value
reads_local = refl

listen_addr_sound_example :
    (after : Text) × (codes "127.0.0.1:80" ≡ local.host ++ b':' ∷ after)
    × (decimal_number after ≡ integer (pos local.port))
    × (local.host ≢ [])
    × (1 ≤ local.port)
    × (local.port ≤ 65535)
listen_addr_sound_example =
    listen_addr_sound decimal_number (codes "127.0.0.1:80") local reads_local

abbrev pub platform : Platform
platform = record { number = decimal_number; is_url = λ s. true }

abbrev long_token : Text
long_token = codes "0123456789abcdef0123456789abcdef"

abbrev pub environment : Source
environment =
    (codes "ADMIN_TOKEN", long_token)
    ∷ (codes "CHAIN_RPC", codes "http://localhost")
    ∷ (codes "CHAIN_READ_TTL_SEC", codes "5")
    ∷ []

pub loaded : (env : Env) × (load_env platform environment ≡ some env)
unfolding load_env all_of env_of map_get required optional is_long count_from level_of format_of
    address_or utf16_length decimal_number all_digits decimal_value
loaded = (_, refl)

load_env_sound_example : IsEnv environment loaded.0
load_env_sound_example = load_env_sound platform environment loaded.0 loaded.1

abbrev pub default_listen : ListenConfig
default_listen = record { host = codes "127.0.0.1"; port = 8080 }

pub loaded_listens : parse_listen_addr decimal_number loaded.0.listen_addr ≡ ok default_listen
unfolding loaded load_env all_of env_of with_default map_get required optional is_long count_from
    level_of format_of address_or utf16_length parse_listen_addr split_last check_parts check_port
    decimal_number all_digits decimal_value
loaded_listens = refl
