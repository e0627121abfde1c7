-- ===== src/Config/Bounds.antt =====
-- What an environment that `loadEnv` accepts is like.
use livepeer_gateway_console.Common.{
  ℕ, ◌≡◌, ◌≤◌, refl, Bool, true, Option, none, some, arith, Bool-cases, inl, inr,
}
use livepeer_gateway_console.Common.Int.{pos, negsuc}
use livepeer_gateway_console.Common.Text.{Text, codes, utf16_length}
use livepeer_gateway_console.Common.Assoc.{map_get}
use livepeer_gateway_console.Common.Address.{is_eth_address, hex_digits}
use livepeer_gateway_console.Listing.{Coerced, integer, no_integer}
use livepeer_gateway_console.Config.{
  Platform, Env, Source, LogLevel, LogFormat, required, optional, is_wei, is_long, at_least,
  count_from, address_or, default_controller, level_of, format_of, env_of, all_of, load_env,
}

-- A variable that is absent or passes the test.
pub Fits : (Text → Bool) → Option Text → Type 0
Fits test none = Unit
Fits test (some s) = test s ≡ true

pub record IsEnv (source : Source) (env : Env) : Type 0 where
  pub token : map_get (codes "ADMIN_TOKEN") source ≡ some env.admin_token
  pub long : 32 ≤ utf16_length env.admin_token
  pub chain : 1 ≤ env.chain_id
  pub controller : is_eth_address env.controller_address ≡ true
  pub registry : Fits is_eth_address env.service_registry_address
  pub sender : Fits is_eth_address env.sender_address
  pub floor : Fits is_wei env.min_balance_wei

required-some :
    (test : Text → Bool) (o : Option Text) (s : Text)
    → required test o ≡ some s
    → (o ≡ some s) × (test s ≡ true)
unfolding required
required-some test none s h = absurd (cc)
required-some test (some t) s h = ground arith

optional-some : (test : Text → Bool) (o r : Option Text) → optional test o ≡ some r → Fits test r
unfolding optional Fits
optional-some test none r h = let same : none ≡ r = ground arith in rw (← same) tt
optional-some test (some t) r h = elim (Bool-cases (test t)) [
  | inl fits ↦
      let got : some (some t) ≡ some r = rw fits at h in
      let same : some t ≡ r = ground arith in rw (← same) fits
  | inr unfit ↦ let refused : none ≡ some r = rw unfit at h in absurd (cc)
]

at_least-some : (floor : ℕ) (c : Coerced) (n : ℕ) → at_least floor c ≡ some n → floor ≤ n
unfolding at_least
at_least-some floor (integer (pos m)) n h = ground arith
at_least-some floor (integer (negsuc m)) n h = absurd (cc)
at_least-some floor no_integer n h = absurd (cc)

count_from-some :
    (number : Text → Coerced) (floor d : ℕ) (o : Option Text) (n : ℕ)
    → floor ≤ d
    → count_from number floor d o ≡ some n
    → floor ≤ n
unfolding count_from
count_from-some number floor d none n low h = ground arith
count_from-some number floor d (some s) n low h = at_least-some floor (number s) n h

address_or-some :
    (d : Text) (o : Option Text) (a : Text)
    → is_eth_address d ≡ true
    → address_or d o ≡ some a
    → is_eth_address a ≡ true
unfolding address_or
address_or-some d none a valid h = let same : d ≡ a = ground arith in rw (← same) valid
address_or-some d (some s) a valid h = ground arith

-- A variable that is tested is a field of the object, if there is one.
all_of-some :
    (source : Source) (o1 : Option Text) (o2 : Option Text) (o3 : Option ℕ) (o4 : Option Text)
    (o5 : Option (Option Text)) (o6 : Option ℕ) (o7 : Option ℕ) (o8 : Option (Option Text))
    (o9 : Option (Option Text)) (o10 : Option LogLevel) (o11 : Option LogFormat) (env : Env)
    → all_of source o1 o2 o3 o4 o5 o6 o7 o8 o9 o10 o11 ≡ some env
    → (o1 ≡ some env.admin_token)
      × (o3 ≡ some env.chain_id)
      × (o4 ≡ some env.controller_address)
      × (o5 ≡ some env.service_registry_address)
      × (o8 ≡ some env.sender_address)
      × (o9 ≡ some env.min_balance_wei)
unfolding all_of env_of
all_of-some source none o2 o3 o4 o5 o6 o7 o8 o9 o10 o11 env h = absurd (cc)
all_of-some source (some admin_token) none o3 o4 o5 o6 o7 o8 o9 o10 o11 env h = absurd (cc)
all_of-some source (some admin_token) (some chain_rpc) none o4 o5 o6 o7 o8 o9 o10 o11 env h =
    absurd (cc)
all_of-some source (some admin_token) (some chain_rpc) (some chain_id) none o5 o6 o7 o8 o9 o10 o11
      env h =
    absurd (cc)
all_of-some source (some admin_token) (some chain_rpc) (some chain_id) (some controller) none o6 o7
      o8 o9 o10 o11 env h =
    absurd (cc)
all_of-some source (some admin_token) (some chain_rpc) (some chain_id) (some controller)
      (some registry) none o7 o8 o9 o10 o11 env h =
    absurd (cc)
all_of-some source (some admin_token) (some chain_rpc) (some chain_id) (some controller)
      (some registry) (some ttl) none o8 o9 o10 o11 env h =
    absurd (cc)
all_of-some source (some admin_token) (some chain_rpc) (some chain_id) (some controller)
      (some registry) (some ttl) (some interval) none o9 o10 o11 env h =
    absurd (cc)
all_of-some source (some admin_token) (some chain_rpc) (some chain_id) (some controller)
      (some registry) (some ttl) (some interval) (some sender) none o10 o11 env h =
    absurd (cc)
all_of-some source (some admin_token) (some chain_rpc) (some chain_id) (some controller)
      (some registry) (some ttl) (some interval) (some sender) (some floor) none o11 env h =
    absurd (cc)
all_of-some source (some admin_token) (some chain_rpc) (some chain_id) (some controller)
      (some registry) (some ttl) (some interval) (some sender) (some floor) (some level) none env
      h =
    absurd (cc)
all_of-some source (some admin_token) (some chain_rpc) (some chain_id) (some controller)
      (some registry) (some ttl) (some interval) (some sender) (some floor) (some level)
      (some format) env h =
    let same : env_of source admin_token chain_rpc chain_id controller registry ttl interval sender
          floor level format
        ≡ env =
      ground arith in
    rw (← same) (refl, refl, refl, refl, refl, refl)

valid_default : is_eth_address default_controller ≡ true
unfolding is_eth_address hex_digits
valid_default = refl

-- In an environment that is accepted the admin token is the one given and has at least 32 UTF-16
-- units, the chain's number is positive, and every address and the wei floor are well formed where
-- they are present.
pub load_env_sound :
    (p : Platform) (source : Source) (env : Env) → load_env p source ≡ some env → IsEnv source env
unfolding load_env is_long
load_env_sound p source env h =
    let (e1, e3, e4, e5, e8, e9) =
      all_of-some source _ _ _ _ _
        (count_from p.number 0 30 (map_get (codes "CHAIN_READ_TTL_SEC") source))
        (count_from p.number 0 30 (map_get (codes "RESOLVER_AUDIT_POLL_INTERVAL_SEC") source)) _ _
        (level_of (map_get (codes "LOG_LEVEL") source))
        (format_of (map_get (codes "LOG_FORMAT") source)) env h in
    let (given, enough) = required-some is_long _ env.admin_token e1 in
    record {
      token = given;
      long = ground (arith, enough);
      chain = count_from-some p.number 1 42161 _ env.chain_id (omega arith) e3;
      controller = address_or-some default_controller _ env.controller_address valid_default e4;
      registry = optional-some is_eth_address _ env.service_registry_address e5;
      sender = optional-some is_eth_address _ env.sender_address e8;
      floor = optional-some is_wei _ env.min_balance_wei e9;
    }
