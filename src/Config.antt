-- ===== src/Config.antt =====
-- src/config/env.ts: the schema of the environment and the listening address. JavaScript's `Number`
-- on a text and zod's test of URLs are parameters.
pub mod ListenAddr
pub mod Bounds
pub mod Examples
use livepeer_gateway_console.Common.{
  ℕ, zero, suc, Bool, true, false, ◌&&◌, Option, none, some, List, [], ◌∷◌, ◌++◌, leb, ◌==◌,
  if◌then◌else◌,
}
use livepeer_gateway_console.Common.Int.{pos, negsuc}
use livepeer_gateway_console.Common.Text.{Text, codes, text_eq, utf16_length}
use livepeer_gateway_console.Common.Assoc.{map_get}
use livepeer_gateway_console.Common.Address.{is_eth_address}
use livepeer_gateway_console.Common.Decimal.{is_digit_code}
use livepeer_gateway_console.Common.Result.{Failure, error, Result, ok, err}
use livepeer_gateway_console.Listing.{Coerced, integer, no_integer}

-- The language's and the library's part: `Number(text)`, and whether `z.url()` accepts a text.
pub record Platform : Type 0 where
  pub number : Text → Coerced
  pub is_url : Text → Bool

pub record ListenConfig : Type 0 where
  pub host : Text
  pub port : ℕ

-- The texts before and after the last place of a code, `lastIndexOf` and the two slices.
pub split_last : ℕ → Text → Option (Text × Text)
split_last c [] = none
split_last c (x ∷ s) = elim (split_last c s) [
  | some (before, after) ↦ some (x ∷ before, after)
  | none ↦ if x == c then some ([], s) else none
]

not_host_port : Text → Failure
not_host_port value = error (codes "LISTEN_ADDR \"" ++ (value ++ codes "\" must be host:port"))

not_port : Text → Failure
not_port value = error (codes "LISTEN_ADDR \"" ++ (value ++ codes "\" port must be 1..65535"))

check_port : Text → Text → Coerced → Result ListenConfig
unfolding not_port
check_port value host no_integer = err (not_port value)
check_port value host (integer (negsuc n)) = err (not_port value)
check_port value host (integer (pos n)) =
    if leb 1 n && leb n 65535 then ok (record { host = host; port = n }) else err (not_port value)

-- A colon at the very beginning is no separator either.
check_parts : (Text → Coerced) → Text → Option (Text × Text) → Result ListenConfig
unfolding not_host_port check_port
check_parts number value none = err (not_host_port value)
check_parts number value (some ([], rest)) = err (not_host_port value)
check_parts number value (some (c ∷ host, rest)) = check_port value (c ∷ host) (number rest)

-- `parseListenAddr`
pub parse_listen_addr : (Text → Coerced) → Text → Result ListenConfig
parse_listen_addr number value = check_parts number value (split_last b':' value)

pub data LogLevel : Type 0 where
  debug info warn error_level : LogLevel

pub data LogFormat : Type 0 where
  json text : LogFormat

pub record Env : Type 0 where
  pub listen_addr : Text
  pub admin_token : Text
  pub chain_rpc : Text
  pub chain_id : ℕ
  pub controller_address : Text
  pub service_registry_address : Option Text
  pub state_path : Text
  pub resolver_socket_path : Text
  pub sender_socket_path : Text
  pub chain_read_ttl_sec : ℕ
  pub resolver_audit_poll_interval_sec : ℕ
  pub sender_address : Option Text
  pub min_balance_wei : Option Text
  pub log_level : LogLevel
  pub log_format : LogFormat

-- The environment, by the names of its variables.
abbrev pub Source : Type 0
Source = List (Text × Text)

infixl 5 ◌>>=◌
-- Once a variable is refused the whole is.
abbrev ◌>>=◌ : {A B : Type 0} → Option A → (A → Option B) → Option B
none >>= rest = none
some a >>= rest = rest a

-- A variable that must be there and pass a test.
required : (Text → Bool) → Option Text → Option Text
required test none = none
required test (some s) = if test s then some s else none

-- `.optional()`: `none` outside is a refusal.
optional : (Text → Bool) → Option Text → Option (Option Text)
optional test none = some none
optional test (some s) = if test s then some (some s) else none

-- `.default(d)`
with_default : Text → Option Text → Text
with_default d none = d
with_default d (some s) = s

all_digits : Text → Bool
all_digits [] = true
all_digits (c ∷ s) = is_digit_code c && all_digits s

-- `/^[0-9]+$/`
pub is_wei : Text → Bool
unfolding all_digits
is_wei [] = false
is_wei (c ∷ s) = is_digit_code c && all_digits s

-- `.min(32)`
is_long : Text → Bool
is_long s = leb 32 (utf16_length s)

-- `.int().min(floor)` of a coerced number.
at_least : ℕ → Coerced → Option ℕ
at_least floor (integer (pos n)) = if leb floor n then some n else none
at_least floor (integer (negsuc n)) = none
at_least floor no_integer = none

-- `z.coerce.number().int()` with its floor and its default.
count_from : (Text → Coerced) → ℕ → ℕ → Option Text → Option ℕ
unfolding at_least
count_from number floor d none = some d
count_from number floor d (some s) = at_least floor (number s)

level_of : Option Text → Option LogLevel
level_of none = some info
level_of (some s) =
    if text_eq s (codes "debug")
    then some debug
    else if text_eq s (codes "info")
    then some info
    else if text_eq s (codes "warn")
    then some warn
    else if text_eq s (codes "error")
    then some error_level
    else none

format_of : Option Text → Option LogFormat
format_of none = some json
format_of (some s) =
    if text_eq s (codes "json")
    then some json
    else if text_eq s (codes "text")
    then some text
    else none

-- `.default(d)` in front of a test: the default passes too.
address_or : Text → Option Text → Option Text
address_or d none = some d
address_or d (some s) = if is_eth_address s then some s else none

-- The object that the schema returns, from the variables that are tested.
unfoldable env_of :
    Source
    → Text
    → Text
    → ℕ
    → Text
    → Option Text
    → ℕ
    → ℕ
    → Option Text
    → Option Text
    → LogLevel
    → LogFormat
    → Env
unfolding with_default
env_of source admin_token chain_rpc chain_id controller registry ttl interval sender floor level
      format =
    record {
      listen_addr = with_default (codes "127.0.0.1:8080") (map_get (codes "LISTEN_ADDR") source);
      admin_token = admin_token;
      chain_rpc = chain_rpc;
      chain_id = chain_id;
      controller_address = controller;
      service_registry_address = registry;
      state_path =
          with_default (codes "/var/lib/livepeer/state.db") (map_get (codes "STATE_PATH") source);
      resolver_socket_path =
          with_default (codes "/var/run/livepeer/resolver/service-registry.sock")
            (map_get (codes "RESOLVER_SOCKET_PATH") source);
      sender_socket_path =
          with_default (codes "/var/run/livepeer/sender/payment.sock")
            (map_get (codes "SENDER_SOCKET_PATH") source);
      chain_read_ttl_sec = ttl;
      resolver_audit_poll_interval_sec = interval;
      sender_address = sender;
      min_balance_wei = floor;
      log_level = level;
      log_format = format;
    }

-- The object once each variable has been tested, if none is refused.
all_of :
    Source
    → Option Text
    → Option Text
    → Option ℕ
    → Option Text
    → Option (Option Text)
    → Option ℕ
    → Option ℕ
    → Option (Option Text)
    → Option (Option Text)
    → Option LogLevel
    → Option LogFormat
    → Option Env
all_of source o1 o2 o3 o4 o5 o6 o7 o8 o9 o10 o11 = do
  admin_token ← o1
  chain_rpc ← o2
  chain_id ← o3
  controller ← o4
  registry ← o5
  ttl ← o6
  interval ← o7
  sender ← o8
  floor ← o9
  level ← o10
  format ← o11
  some (
      env_of source admin_token chain_rpc chain_id controller registry ttl interval sender floor
        level format)

abbrev default_controller : Text
default_controller = codes "0xD8E8328501E9645d16Cf49539efC04f734606ee4"

-- `loadEnv`, which throws where this has none.
pub load_env : Platform → Source → Option Env
unfolding all_of required optional is_long count_from level_of format_of address_or
load_env p source =
    all_of source (required is_long (map_get (codes "ADMIN_TOKEN") source))
      (required p.is_url (map_get (codes "CHAIN_RPC") source))
      (count_from p.number 1 42161 (map_get (codes "CHAIN_ID") source))
      (address_or default_controller (map_get (codes "CONTROLLER_ADDRESS") source))
      (optional is_eth_address (map_get (codes "SERVICE_REGISTRY_ADDRESS") source))
      (count_from p.number 0 30 (map_get (codes "CHAIN_READ_TTL_SEC") source))
      (count_from p.number 0 30 (map_get (codes "RESOLVER_AUDIT_POLL_INTERVAL_SEC") source))
      (optional is_eth_address (map_get (codes "SENDER_ADDRESS") source))
      (optional is_wei (map_get (codes "MIN_BALANCE_WEI") source))
      (level_of (map_get (codes "LOG_LEVEL") source))
      (format_of (map_get (codes "LOG_FORMAT") source))
