-- ===== src/Resolver/EnumJson.antt =====
-- The JSON forms of the registry's enums, src/providers/resolver/gen/livepeer/registry/v1/types.ts:
-- `resolveModeFromJSON`, `resolveModeToJSON` and those of the other three. A member is read from its
-- number or its name.
pub mod RoundTrip
use livepeer_gateway_console.Common.{ℕ, Bool, true, false, List, [], ◌∷◌, ◌==◌, if◌then◌else◌}
use livepeer_gateway_console.Common.Int.{ℤ, pos, negsuc}
use livepeer_gateway_console.Common.Text.{Text, codes, text_eq}
use livepeer_gateway_console.Resolver.Labels.{ResolveMode, SignatureStatus, FreshnessStatus, Source}

-- A parsed value: an integer, a text, or anything else.
pub data JsonScalar : Type 0 where
  number : ℤ → JsonScalar
  string : Text → JsonScalar
  other : JsonScalar

-- `case number: case name:`
abbrev pub is_case : ℕ → Text → JsonScalar → Bool
is_case n name (number (pos m)) = m == n
is_case n name (number (negsuc m)) = false
is_case n name (string s) = text_eq s name
is_case n name other = false

-- `resolveModeFromJSON`
pub resolve_mode_from_json : JsonScalar → ResolveMode
resolve_mode_from_json object =
    if is_case 0 (codes "RESOLVE_MODE_UNSPECIFIED") object
    then ResolveMode.unspecified
    else if is_case 1 (codes "RESOLVE_MODE_WELL_KNOWN") object
    then ResolveMode.well_known
    else if is_case 2 (codes "RESOLVE_MODE_CSV") object
    then ResolveMode.csv
    else if is_case 3 (codes "RESOLVE_MODE_LEGACY") object
    then ResolveMode.legacy
    else ResolveMode.unrecognized (negsuc 0)

-- `resolveModeToJSON`
pub resolve_mode_to_json : ResolveMode → Text
resolve_mode_to_json ResolveMode.unspecified = codes "RESOLVE_MODE_UNSPECIFIED"
resolve_mode_to_json ResolveMode.well_known = codes "RESOLVE_MODE_WELL_KNOWN"
resolve_mode_to_json ResolveMode.csv = codes "RESOLVE_MODE_CSV"
resolve_mode_to_json ResolveMode.legacy = codes "RESOLVE_MODE_LEGACY"
resolve_mode_to_json (ResolveMode.unrecognized n) = codes "UNRECOGNIZED"

-- `signatureStatusFromJSON`
pub signature_status_from_json : JsonScalar → SignatureStatus
signature_status_from_json object =
    if is_case 0 (codes "SIGNATURE_STATUS_UNSPECIFIED") object
    then SignatureStatus.unspecified
    else if is_case 1 (codes "SIGNATURE_STATUS_VERIFIED") object
    then SignatureStatus.verified
    else if is_case 2 (codes "SIGNATURE_STATUS_UNSIGNED") object
    then SignatureStatus.unsigned
    else if is_case 3 (codes "SIGNATURE_STATUS_LEGACY") object
    then SignatureStatus.legacy
    else SignatureStatus.unrecognized (negsuc 0)

-- `signatureStatusToJSON`
pub signature_status_to_json : SignatureStatus → Text
signature_status_to_json SignatureStatus.unspecified = codes "SIGNATURE_STATUS_UNSPECIFIED"
signature_status_to_json SignatureStatus.verified = codes "SIGNATURE_STATUS_VERIFIED"
signature_status_to_json SignatureStatus.unsigned = codes "SIGNATURE_STATUS_UNSIGNED"
signature_status_to_json SignatureStatus.legacy = codes "SIGNATURE_STATUS_LEGACY"
signature_status_to_json (SignatureStatus.unrecognized n) = codes "UNRECOGNIZED"

-- `freshnessStatusFromJSON`
pub freshness_status_from_json : JsonScalar → FreshnessStatus
freshness_status_from_json object =
    if is_case 0 (codes "FRESHNESS_STATUS_UNSPECIFIED") object
    then FreshnessStatus.unspecified
    else if is_case 1 (codes "FRESHNESS_STATUS_FRESH") object
    then FreshnessStatus.fresh
    else if is_case 2 (codes "FRESHNESS_STATUS_STALE_RECOVERABLE") object
    then FreshnessStatus.stale_recoverable
    else if is_case 3 (codes "FRESHNESS_STATUS_STALE_FAILING") object
    then FreshnessStatus.stale_failing
    else FreshnessStatus.unrecognized (negsuc 0)

-- `freshnessStatusToJSON`
pub freshness_status_to_json : FreshnessStatus → Text
freshness_status_to_json FreshnessStatus.unspecified = codes "FRESHNESS_STATUS_UNSPECIFIED"
freshness_status_to_json FreshnessStatus.fresh = codes "FRESHNESS_STATUS_FRESH"
freshness_status_to_json FreshnessStatus.stale_recoverable =
    codes "FRESHNESS_STATUS_STALE_RECOVERABLE"
freshness_status_to_json FreshnessStatus.stale_failing = codes "FRESHNESS_STATUS_STALE_FAILING"
freshness_status_to_json (FreshnessStatus.unrecognized n) = codes "UNRECOGNIZED"

-- `sourceFromJSON`
pub source_from_json : JsonScalar → Source
source_from_json object =
    if is_case 0 (codes "SOURCE_UNSPECIFIED") object
    then Source.unspecified
    else if is_case 1 (codes "SOURCE_MANIFEST") object
    then Source.manifest
    else if is_case 2 (codes "SOURCE_LEGACY") object
    then Source.legacy
    else if is_case 3 (codes "SOURCE_STATIC_OVERLAY") object
    then Source.static_overlay
    else if is_case 4 (codes "SOURCE_CSV_FALLBACK") object
    then Source.csv_fallback
    else Source.unrecognized (negsuc 0)

-- `sourceToJSON`
pub source_to_json : Source → Text
source_to_json Source.unspecified = codes "SOURCE_UNSPECIFIED"
source_to_json Source.manifest = codes "SOURCE_MANIFEST"
source_to_json Source.legacy = codes "SOURCE_LEGACY"
source_to_json Source.static_overlay = codes "SOURCE_STATIC_OVERLAY"
source_to_json Source.csv_fallback = codes "SOURCE_CSV_FALLBACK"
source_to_json (Source.unrecognized n) = codes "UNRECOGNIZED"
