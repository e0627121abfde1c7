-- ===== src/Resolver/EnumJson/RoundTrip.antt =====
-- Writing a member and reading it back.
use livepeer_gateway_console.Common.{◌≡◌, refl}
use livepeer_gateway_console.Common.Int.{negsuc}
use livepeer_gateway_console.Resolver.Labels.{ResolveMode, SignatureStatus, FreshnessStatus, Source}
use livepeer_gateway_console.Resolver.EnumJson.{
  string, resolve_mode_from_json, resolve_mode_to_json, signature_status_from_json,
  signature_status_to_json, freshness_status_from_json, freshness_status_to_json, source_from_json,
  source_to_json,
}

-- A number that is no member becomes the one for such.
abbrev pub known_resolve_mode : ResolveMode → ResolveMode
known_resolve_mode (ResolveMode.unrecognized n) = ResolveMode.unrecognized (negsuc 0)
known_resolve_mode ResolveMode.unspecified = ResolveMode.unspecified
known_resolve_mode ResolveMode.well_known = ResolveMode.well_known
known_resolve_mode ResolveMode.csv = ResolveMode.csv
known_resolve_mode ResolveMode.legacy = ResolveMode.legacy

resolve_mode-roundtrip :
    (m : ResolveMode)
    → resolve_mode_from_json (string (resolve_mode_to_json m)) ≡ known_resolve_mode m
unfolding resolve_mode_from_json resolve_mode_to_json
resolve_mode-roundtrip ResolveMode.unspecified = refl
resolve_mode-roundtrip ResolveMode.well_known = refl
resolve_mode-roundtrip ResolveMode.csv = refl
resolve_mode-roundtrip ResolveMode.legacy = refl
resolve_mode-roundtrip (ResolveMode.unrecognized n) = refl

-- A number that is no member becomes the one for such.
abbrev pub known_signature_status : SignatureStatus → SignatureStatus
known_signature_status (SignatureStatus.unrecognized n) = SignatureStatus.unrecognized (negsuc 0)
known_signature_status SignatureStatus.unspecified = SignatureStatus.unspecified
known_signature_status SignatureStatus.verified = SignatureStatus.verified
known_signature_status SignatureStatus.unsigned = SignatureStatus.unsigned
known_signature_status SignatureStatus.legacy = SignatureStatus.legacy

signature_status-roundtrip :
    (m : SignatureStatus)
    → signature_status_from_json (string (signature_status_to_json m)) ≡ known_signature_status m
unfolding signature_status_from_json signature_status_to_json
signature_status-roundtrip SignatureStatus.unspecified = refl
signature_status-roundtrip SignatureStatus.verified = refl
signature_status-roundtrip SignatureStatus.unsigned = refl
signature_status-roundtrip SignatureStatus.legacy = refl
signature_status-roundtrip (SignatureStatus.unrecognized n) = refl

-- A number that is no member becomes the one for such.
abbrev pub known_freshness_status : FreshnessStatus → FreshnessStatus
known_freshness_status (FreshnessStatus.unrecognized n) = FreshnessStatus.unrecognized (negsuc 0)
known_freshness_status FreshnessStatus.unspecified = FreshnessStatus.unspecified
known_freshness_status FreshnessStatus.fresh = FreshnessStatus.fresh
known_freshness_status FreshnessStatus.stale_recoverable = FreshnessStatus.stale_recoverable
known_freshness_status FreshnessStatus.stale_failing = FreshnessStatus.stale_failing

freshness_status-roundtrip :
    (m : FreshnessStatus)
    → freshness_status_from_json (string (freshness_status_to_json m)) ≡ known_freshness_status m
unfolding freshness_status_from_json freshness_status_to_json
freshness_status-roundtrip FreshnessStatus.unspecified = refl
freshness_status-roundtrip FreshnessStatus.fresh = refl
freshness_status-roundtrip FreshnessStatus.stale_recoverable = refl
freshness_status-roundtrip FreshnessStatus.stale_failing = refl
freshness_status-roundtrip (FreshnessStatus.unrecognized n) = refl

-- A number that is no member becomes the one for such.
abbrev pub known_source : Source → Source
known_source (Source.unrecognized n) = Source.unrecognized (negsuc 0)
known_source Source.unspecified = Source.unspecified
known_source Source.manifest = Source.manifest
known_source Source.legacy = Source.legacy
known_source Source.static_overlay = Source.static_overlay
known_source Source.csv_fallback = Source.csv_fallback

source-roundtrip : (m : Source) → source_from_json (string (source_to_json m)) ≡ known_source m
unfolding source_from_json source_to_json
source-roundtrip Source.unspecified = refl
source-roundtrip Source.manifest = refl
source-roundtrip Source.legacy = refl
source-roundtrip Source.static_overlay = refl
source-roundtrip Source.csv_fallback = refl
source-roundtrip (Source.unrecognized n) = refl

-- Each of the four enums reads back every member that it writes as JSON; a number that is no member
-- comes back as UNRECOGNIZED.
pub enum_json_roundtrip :
    ((m : ResolveMode)
      → resolve_mode_from_json (string (resolve_mode_to_json m)) ≡ known_resolve_mode m)
    × ((m : SignatureStatus)
        → signature_status_from_json (string (signature_status_to_json m))
          ≡ known_signature_status m)
    × ((m : FreshnessStatus)
        → freshness_status_from_json (string (freshness_status_to_json m))
          ≡ known_freshness_status m)
    × ((m : Source) → source_from_json (string (source_to_json m)) ≡ known_source m)
enum_json_roundtrip = (
  resolve_mode-roundtrip, signature_status-roundtrip, freshness_status-roundtrip, source-roundtrip,
)
