-- ===== src/Refresh.antt =====
-- src/runtime/http/handlers/handleResolverRefresh.ts over src/service/resolver/index.ts: the two
-- refresh routes, the only ones that make the daemon act, and the audit events that they append.
pub mod Audited
pub mod Keys
pub mod Examples
use livepeer_gateway_console.Common.{
  ℕ, Bool, true, false, Option, none, some, List, [], ◌∷◌, ◌++◌, if◌then◌else◌,
}
use livepeer_gateway_console.Common.Text.{Text, codes, text_eq}
use livepeer_gateway_console.Common.Address.{is_eth_address}
use livepeer_gateway_console.Common.Result.{Failure, message_of, Result, ok, err}
use livepeer_gateway_console.Repo.{Sqlite, Table, AuditEventRow}
use livepeer_gateway_console.Audit.{AppendAuditEventInput, append_event}
use livepeer_gateway_console.Resolver.Messages.{RefreshRequest}
use livepeer_gateway_console.Resolver.{or_else}

-- What the handler finds around it: how the daemon answers, whether the first and the second
-- append and the reply fail, and the time.
pub record Surroundings : Type 0 where
  pub db : Sqlite
  pub now : ℕ
  pub daemon : RefreshRequest → Result (Unit {0})
  pub first_append : Option Failure
  pub second_append : Option Failure
  pub send : Option Failure

-- What the handler changes: the audit table, and the calls that the daemon has got.
pub record World : Type 0 where
  pub table : Table AuditEventRow
  pub refreshes : List RefreshRequest

-- How a request ends: a reply with `{ ok: true, target }`, a refusal by zod before anything is
-- done, or a throw.
pub data Outcome : Type 0 where
  replied : Text → Outcome
  invalid_input : Outcome
  threw : Failure → Outcome

abbrev pub wildcard : Text
wildcard = codes "*"

-- `createResolverService(..).refresh({ address })`, down to the request that it sends.
unfoldable pub service_refresh : Option Text → RefreshRequest
service_refresh address = record { eth_address = or_else address wildcard; force = true }

-- `ctx.target === "*" ? {} : { address: ctx.target }`
unfoldable pub call_target : Text → Option Text
call_target target = if text_eq target wildcard then none else some target

abbrev pub refresh_event : Text → Text → Bool → Option Text → AppendAuditEventInput
refresh_event actor target success message = record {
  actor = actor;
  action = codes "resolver.refresh";
  target = some target;
  ok = success;
  message = message;
}

-- The `catch` block after its append.
rethrow : World → Failure → Result (Unit {0}) × Table AuditEventRow → Outcome × World
rethrow w e (ok _, table) = (threw e, record w { table = table })
rethrow w e (err f, table) = (threw f, record w { table = table })

-- The `catch` block.
caught : Surroundings → Text → Text → World → Failure → Outcome × World
unfolding rethrow
caught env actor target w e = rethrow w e (
    append_event env.db env.now env.second_append
      (refresh_event actor target false (some (message_of e))) w.table)

-- `await reply.send(..)`, which settles or throws.
after_send : Surroundings → Text → Text → World → Option Failure → Outcome × World
after_send env actor target w none = (replied target, w)
after_send env actor target w (some e) = caught env actor target w e

after_append :
    Surroundings → Text → Text → World → Result (Unit {0}) × Table AuditEventRow → Outcome × World
after_append env actor target w (ok _, table) =
    after_send env actor target (record w { table = table }) env.send
after_append env actor target w (err e, table) =
    caught env actor target (record w { table = table }) e

after_refresh : Surroundings → Text → Text → World → Result (Unit {0}) → Outcome × World
after_refresh env actor target w (ok _) =
    after_append env actor target w
      (append_event env.db env.now env.first_append (refresh_event actor target true none) w.table)
after_refresh env actor target w (err e) = caught env actor target w e

-- `runRefresh`
pub run_refresh : Surroundings → Text → Text → World → Outcome × World
run_refresh env actor target w =
    let request = service_refresh (call_target target) in
    after_refresh env actor target (record w { refreshes = w.refreshes ++ request ∷ [] })
      (env.daemon request)

-- `handleResolverRefresh`; `empty_body` says whether the body is absent, null or `{}`.
pub handle_resolver_refresh : Surroundings → Text → Bool → World → Outcome × World
handle_resolver_refresh env actor empty_body w =
    if empty_body then run_refresh env actor wildcard w else (invalid_input, w)

-- `handleResolverRefreshOne`
pub handle_resolver_refresh_one : Surroundings → Text → Text → World → Outcome × World
handle_resolver_refresh_one env actor address w =
    if is_eth_address address then run_refresh env actor address w else (invalid_input, w)
