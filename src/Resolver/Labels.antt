-- ===== src/Resolver/Labels.antt =====
-- The enums of the registry's messages and the labels that src/providers/resolver/client.ts maps
-- them to.
use livepeer_gateway_console.Common.Int.{ℤ}

-- A number on the wire that is no member of the enum is kept as it is: `unrecognized`.
pub data ResolveMode : Type 0 where
  unspecified well_known csv legacy : ResolveMode
  unrecognized : ℤ → ResolveMode

pub data SignatureStatus : Type 0 where
  unspecified verified unsigned legacy : SignatureStatus
  unrecognized : ℤ → SignatureStatus

pub data FreshnessStatus : Type 0 where
  unspecified fresh stale_recoverable stale_failing : FreshnessStatus
  unrecognized : ℤ → FreshnessStatus

pub data Source : Type 0 where
  unspecified manifest legacy static_overlay csv_fallback : Source
  unrecognized : ℤ → Source

pub data FreshnessLabel : Type 0 where
  fresh stale_recoverable stale_failing unknown : FreshnessLabel

pub data SignatureLabel : Type 0 where
  verified unsigned legacy unknown : SignatureLabel

pub data ResolveModeLabel : Type 0 where
  well_known csv legacy unspecified : ResolveModeLabel

unfoldable pub map_resolve_mode : ResolveMode → ResolveModeLabel
map_resolve_mode ResolveMode.well_known = ResolveModeLabel.well_known
map_resolve_mode ResolveMode.csv = ResolveModeLabel.csv
map_resolve_mode ResolveMode.legacy = ResolveModeLabel.legacy
map_resolve_mode _ = ResolveModeLabel.unspecified

unfoldable pub map_freshness : FreshnessStatus → FreshnessLabel
map_freshness FreshnessStatus.fresh = FreshnessLabel.fresh
map_freshness FreshnessStatus.stale_recoverable = FreshnessLabel.stale_recoverable
map_freshness FreshnessStatus.stale_failing = FreshnessLabel.stale_failing
map_freshness _ = FreshnessLabel.unknown

unfoldable pub map_signature : SignatureStatus → SignatureLabel
map_signature SignatureStatus.verified = SignatureLabel.verified
map_signature SignatureStatus.unsigned = SignatureLabel.unsigned
map_signature SignatureStatus.legacy = SignatureLabel.legacy
map_signature _ = SignatureLabel.unknown
