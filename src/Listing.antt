-- ===== src/Listing.antt =====
-- The handlers that read lists for the operator: handleListAuditLog.ts, handleListResolverAuditLog.ts
-- and handleCapabilitySearch.ts under src/runtime/http/handlers, with `search` and `fetchAuditLog` of
-- src/service/resolver/index.ts. A query parameter that zod coerces is the number that it became.
pub mod Limits
mod Examples
use livepeer_gateway_console.Common.{
  ℕ, zero, suc, Bool, true, false, ◌&&◌, Option, none, some, List, [], ◌∷◌, leb, if◌then◌else◌,
}
use livepeer_gateway_console.Common.Int.{ℤ, pos, negsuc}
use livepeer_gateway_console.Common.Text.{Text, utf16_length}
use livepeer_gateway_console.Common.Address.{is_eth_address}
use livepeer_gateway_console.Common.Result.{Failure, Result, ok, err}
use livepeer_gateway_console.Repo.{Sqlite, Table, AuditEventRow}
use livepeer_gateway_console.Audit.{AuditEvent, list_events}
use livepeer_gateway_console.Resolver.{
  Grpc, SelectQuery, SelectResult, AuditLogOptions, ResolverAuditEntry, select, get_audit_log,
}

-- What `z.coerce.number()` makes of a parameter: an integer within the safe range, which `.int()`
-- accepts, or any other number (NaN too).
pub data Coerced : Type 0 where
  integer : ℤ → Coerced
  no_integer : Coerced

-- A parameter after its schema: refused, absent, or a value.
pub data Field (A : Type 0) : Type 0 where
  refused : Field A
  given : Option A → Field A

-- `.int().positive().max(bound)`, and without a bound.
within_bound : Option ℕ → ℕ → Field ℕ
within_bound none n = given (some n)
within_bound (some bound) n = if leb n bound then given (some n) else refused

-- `.optional()`
positive : Option ℕ → Option Coerced → Field ℕ
unfolding within_bound
positive bound none = given none
positive bound (some no_integer) = refused
positive bound (some (integer (negsuc n))) = refused
positive bound (some (integer (pos zero))) = refused
positive bound (some (integer (pos (suc n)))) = within_bound bound (suc n)

-- `.int().nonnegative().optional()`
nonnegative : Option Coerced → Field ℕ
nonnegative none = given none
nonnegative (some no_integer) = refused
nonnegative (some (integer (negsuc n))) = refused
nonnegative (some (integer (pos n))) = given (some n)

address_field : Option Text → Field Text
address_field none = given none
address_field (some s) = if is_eth_address s then given (some s) else refused

-- How a request ends.
pub data Reply (A : Type 0) : Type 0 where
  invalid_input : Reply A
  sent : A → Reply A
  failed : Failure → Reply A

reply_of : {A : Type 0} → Result A → Reply A
reply_of (ok a) = sent a
reply_of (err e) = failed e

list_page : Sqlite → Table AuditEventRow → Field ℕ → Field ℕ → Reply (List AuditEvent)
list_page db t (given limit) (given before) =
    sent (list_events db (record { limit = limit; before = before }) t)
list_page db t _ _ = invalid_input

-- `handleListAuditLog`
pub handle_list_audit_log :
    Sqlite → Option Coerced → Option Coerced → Table AuditEventRow → Reply (List AuditEvent)
unfolding list_page positive
handle_list_audit_log db limit before t =
    list_page db t (positive (some 500) limit) (positive none before)

-- `fetchAuditLog`
pub fetch_audit_log : Grpc → AuditLogOptions → Result (List ResolverAuditEntry)
fetch_audit_log g opts = get_audit_log g opts

-- The options that the handler passes on, if the query is accepted.
log_options : Field ℕ → Field ℕ → Field Text → Option AuditLogOptions
log_options (given none) (given limit) (given address) =
    some (record { eth_address = address; since = none; limit = limit })
log_options (given (some since)) (given limit) (given address) =
    some (record { eth_address = address; since = some (pos since); limit = limit })
log_options _ _ _ = none

-- What a query asks the resolver for.
pub asked_options : Option Coerced → Option Coerced → Option Text → Option AuditLogOptions
unfolding log_options nonnegative positive address_field
asked_options since limit address =
    log_options (nonnegative since) (positive (some 1000) limit) (address_field address)

fetch_for : Grpc → Option AuditLogOptions → Reply (List ResolverAuditEntry)
fetch_for g none = invalid_input
fetch_for g (some opts) = reply_of (fetch_audit_log g opts)

-- `handleListResolverAuditLog`
pub handle_list_resolver_audit_log :
    Grpc → Option Coerced → Option Coerced → Option Text → Reply (List ResolverAuditEntry)
handle_list_resolver_audit_log g since limit address =
    fetch_for g (asked_options since limit address)

-- `.min(1).max(bound)` of a text.
unfoldable pub has_length : ℕ → Text → Bool
has_length bound s = leb 1 (utf16_length s) && leb (utf16_length s) bound

unfoldable pub tier_fits : Option Text → Bool
tier_fits none = true
tier_fits (some tier) = has_length 60 tier

-- `search`
pub search : Grpc → SelectQuery → Result SelectResult
search g query = select g query

unfoldable pub is_search_query : SelectQuery → Bool
unfolding has_length tier_fits
is_search_query query =
    has_length 120 query.capability && has_length 240 query.offering && tier_fits query.tier

-- `handleCapabilitySearch`
pub handle_capability_search : Grpc → SelectQuery → Reply SelectResult
handle_capability_search g query =
    if is_search_query query then reply_of (search g query) else invalid_input
