-- ===== src/Resolver/Examples.antt =====
-- A daemon that knows one orchestrator and finds no other.
use livepeer_gateway_console.Common.{◌≡◌, refl, none, some, [], ◌∷◌, if◌then◌else◌}
use livepeer_gateway_console.Common.Text.{Text, codes, text_eq}
use livepeer_gateway_console.Common.Result.{Failure, service_error, ok, err}
use livepeer_gateway_console.Resolver.{
  Grpc, KnownOrch, ResolvedOrch, SelectQuery, list_known, map_known_entry, map_resolve_result,
  resolve_by_address, resolve_request, settle_resolved,
}
use livepeer_gateway_console.Resolver.Labels.{
  ResolveMode, FreshnessStatus, ResolveModeLabel, FreshnessLabel, map_resolve_mode, map_freshness,
}
use livepeer_gateway_console.Resolver.Messages.{KnownEntry, ResolveResult, ResolveByAddressRequest}

abbrev pub orch : Text
orch = codes "0xAb"

abbrev not_found_failure : Failure
not_found_failure = service_error 5 (codes "not found")

abbrev known_entry : KnownEntry
known_entry = record {
  eth_address = orch;
  mode = ResolveMode.csv;
  freshness_status = FreshnessStatus.fresh;
  cached_at = none;
}

abbrev resolution : ResolveResult
resolution = record {
  eth_address = orch;
  resolved_uri = [];
  mode = ResolveMode.csv;
  nodes = [];
  freshness_status = FreshnessStatus.fresh;
  cached_at = none;
  fetched_at = none;
  schema_version = [];
}

abbrev pub daemon : Grpc
daemon = record {
  health = ok tt;
  list_known = ok (known_entry ∷ []);
  resolve_by_address = λ (request : ResolveByAddressRequest).
      if text_eq request.eth_address orch then ok resolution else err not_found_failure;
  select = λ request. ok none;
  refresh = λ request. ok tt;
  get_audit_log = λ request. ok [];
  not_found = 5;
  utf8 = λ bytes. bytes;
}

abbrev pub known : KnownOrch
known = record {
  address = orch;
  mode = ResolveModeLabel.csv;
  freshness_status = FreshnessLabel.fresh;
  cached_at = none;
}

pub lists_known : list_known daemon ≡ ok (known ∷ [])
unfolding list_known map_known_entry map_resolve_mode map_freshness
lists_known = refl

abbrev pub resolved : ResolvedOrch
resolved = record {
  address = orch;
  resolved_uri = [];
  mode = ResolveModeLabel.csv;
  nodes = [];
  freshness_status = FreshnessLabel.fresh;
  cached_at = none;
  fetched_at = none;
  schema_version = [];
}

pub resolves : resolve_by_address daemon orch none ≡ ok (some resolved)
unfolding resolve_by_address resolve_request settle_resolved map_resolve_result map_resolve_mode
    map_freshness
resolves = refl

-- An address that the daemon does not know.
abbrev pub stranger : Text
stranger = codes "0x00000000000000000000000000000000000000aB"

pub resolves_nothing : resolve_by_address daemon stranger none ≡ ok none
unfolding resolve_by_address resolve_request settle_resolved
resolves_nothing = refl

abbrev query : SelectQuery
query = record { capability = codes "video"; offering = []; tier = none }
