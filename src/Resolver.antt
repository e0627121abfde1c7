-- ===== src/Resolver.antt =====
-- src/providers/resolver/client.ts: the resolver client, over the generated gRPC stub. The types of
-- the messages are those of src/providers/resolver/gen/livepeer/registry/v1. A `Date` is its time
-- in epoch milliseconds and a `Buffer` the list of its bytes.
pub mod Labels
pub mod Messages
pub mod Views
pub mod EnumJson
pub mod Laws
pub mod Examples
use livepeer_gateway_console.Common.{
  ℕ, Bool, true, false, not, Option, none, some, List, [], ◌∷◌, ◌++◌, ◌≡◌, map, length, ◌==◌,
  if◌then◌else◌,
}
use livepeer_gateway_console.Common.Int.{ℤ, pos}
use livepeer_gateway_console.Common.Text.{Text, codes}
use livepeer_gateway_console.Common.Result.{
  Failure, error, service_error, other, message_of, Result, ok, err, ◌>>=◌,
}
use mathlib.Core.List.{flat_map}
pub use Views.{
  KnownOrch, ResolvedNode, ResolvedOrch, SelectQuery, SelectedRoute, SelectResult,
  ResolverAuditEntry, ResolveByAddressOptions, AuditLogOptions, or_else, non_empty, map_node,
  buffer_to_json_string_or_null,
}
unfoldable pub use Views.{map_known_entry, map_resolve_result, map_selected_route, map_audit_event}
use Labels.{FreshnessLabel, SignatureLabel, ResolveModeLabel}
use Labels.{map_resolve_mode, map_freshness, map_signature}
use Messages.{
  KnownEntry, Offering, Capability, Node, ResolveResult, ProtoSelectedRoute, AuditEvent,
  ResolveByAddressRequest, SelectRequest, RefreshRequest, GetAuditLogRequest,
}

-- The generated stub and the daemon behind it: how each unary call settles. `not_found` is the
-- library's status code of that name, `utf8` its decoding of bytes.
pub record Grpc : Type 0 where
  pub health : Result (Unit {0})
  pub list_known : Result (List KnownEntry)
  pub resolve_by_address : ResolveByAddressRequest → Result ResolveResult
  pub select : SelectRequest → Result (Option ProtoSelectedRoute)
  pub refresh : RefreshRequest → Result (Unit {0})
  pub get_audit_log : GetAuditLogRequest → Result (List AuditEvent)
  pub not_found : ℕ
  pub utf8 : List ℕ → Text

-- `isStatus(err, code)`: only a gRPC error has a code.
pub is_status : Failure → ℕ → Bool
is_status (service_error c message) code = c == code
is_status _ code = false

pub record Ping : Type 0 where
  pub ok : Bool
  pub error : Option Text

settle_ping : Result (Unit {0}) → Ping
unfolding message_of
settle_ping (ok u) = record { ok = true; error = none }
settle_ping (err e) = record { ok = false; error = some (message_of e) }

pub ping : Grpc → Ping
unfolding settle_ping
ping g = settle_ping g.health

pub list_known : Grpc → Result (List KnownOrch)
unfolding map_known_entry
list_known g = do entries ← g.list_known; ok (map map_known_entry entries)

abbrev pub no_options : ResolveByAddressOptions
no_options = record { allow_legacy_fallback = none; allow_unsigned = none; force_refresh = none }

pub resolve_request : Text → Option ResolveByAddressOptions → ResolveByAddressRequest
resolve_request address opts =
    let o = or_else opts no_options in
    record {
      eth_address = address;
      allow_legacy_fallback = or_else o.allow_legacy_fallback false;
      allow_unsigned = or_else o.allow_unsigned true;
      force_refresh = or_else o.force_refresh false;
    }

-- The `try` and `catch` blocks, on how the call settled.
settle_resolved : ℕ → Result ResolveResult → Result (Option ResolvedOrch)
unfolding map_resolve_result is_status
settle_resolved not_found (ok res) = ok (some (map_resolve_result res))
settle_resolved not_found (err e) = if is_status e not_found then ok none else err e

pub resolve_by_address : Grpc → Text → Option ResolveByAddressOptions → Result (Option ResolvedOrch)
unfolding resolve_request settle_resolved
resolve_by_address g address opts =
    settle_resolved g.not_found (g.resolve_by_address (resolve_request address opts))

abbrev pub no_route : SelectResult
no_route = record { route = none; reason = codes "no route matched" }

pub select_request : SelectQuery → SelectRequest
select_request query = record {
  capability = query.capability;
  offering = query.offering;
  tier = or_else query.tier [];
  min_weight = pos 0;
}

selected : (List ℕ → Text) → Option ProtoSelectedRoute → SelectResult
unfolding map_selected_route
selected utf8 none = no_route
selected utf8 (some r) = record {
  route = some (map_selected_route utf8 r);
  reason = codes "top-weighted";
}

settle_selected : Grpc → Result (Option ProtoSelectedRoute) → Result SelectResult
unfolding selected is_status
settle_selected g (ok res) = ok (selected g.utf8 res)
settle_selected g (err e) = if is_status e g.not_found then ok no_route else err e

pub select : Grpc → SelectQuery → Result SelectResult
unfolding select_request settle_selected
select g query = settle_selected g (g.select (select_request query))

pub refresh : Grpc → Text → Option Bool → Result (Unit {0})
refresh g address_or_wildcard force =
    g.refresh (record { eth_address = address_or_wildcard; force = or_else force false })

audit_request : AuditLogOptions → GetAuditLogRequest
audit_request opts = record {
  eth_address = or_else opts.eth_address [];
  limit = pos (or_else opts.limit 100);
  since = opts.since;
}

pub get_audit_log : Grpc → AuditLogOptions → Result (List ResolverAuditEntry)
unfolding audit_request map_audit_event
get_audit_log g opts = do
  events ← g.get_audit_log (audit_request opts)
  ok (map map_audit_event events)
