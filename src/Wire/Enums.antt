-- ===== src/Wire/Enums.antt =====
-- The enums of the registry's messages as the numbers that they are in the code and on the wire.
use livepeer_gateway_console.Common.{zero, suc, ◌≡◌}
use livepeer_gateway_console.Common.Int.{ℤ, pos}
use livepeer_gateway_console.Resolver.Labels.{ResolveMode, SignatureStatus, FreshnessStatus, Source}

unfoldable pub resolve_mode_code : ResolveMode → ℤ
resolve_mode_code ResolveMode.unspecified = pos 0
resolve_mode_code ResolveMode.well_known = pos 1
resolve_mode_code ResolveMode.csv = pos 2
resolve_mode_code ResolveMode.legacy = pos 3
resolve_mode_code (ResolveMode.unrecognized n) = n

unfoldable pub resolve_mode_of : ℤ → ResolveMode
resolve_mode_of (pos zero) = ResolveMode.unspecified
resolve_mode_of (pos (suc zero)) = ResolveMode.well_known
resolve_mode_of (pos (suc (suc zero))) = ResolveMode.csv
resolve_mode_of (pos (suc (suc (suc zero)))) = ResolveMode.legacy
resolve_mode_of n = ResolveMode.unrecognized n

unfoldable pub signature_status_code : SignatureStatus → ℤ
signature_status_code SignatureStatus.unspecified = pos 0
signature_status_code SignatureStatus.verified = pos 1
signature_status_code SignatureStatus.unsigned = pos 2
signature_status_code SignatureStatus.legacy = pos 3
signature_status_code (SignatureStatus.unrecognized n) = n

unfoldable pub signature_status_of : ℤ → SignatureStatus
signature_status_of (pos zero) = SignatureStatus.unspecified
signature_status_of (pos (suc zero)) = SignatureStatus.verified
signature_status_of (pos (suc (suc zero))) = SignatureStatus.unsigned
signature_status_of (pos (suc (suc (suc zero)))) = SignatureStatus.legacy
signature_status_of n = SignatureStatus.unrecognized n

unfoldable pub freshness_status_code : FreshnessStatus → ℤ
freshness_status_code FreshnessStatus.unspecified = pos 0
freshness_status_code FreshnessStatus.fresh = pos 1
freshness_status_code FreshnessStatus.stale_recoverable = pos 2
freshness_status_code FreshnessStatus.stale_failing = pos 3
freshness_status_code (FreshnessStatus.unrecognized n) = n

unfoldable pub freshness_status_of : ℤ → FreshnessStatus
freshness_status_of (pos zero) = FreshnessStatus.unspecified
freshness_status_of (pos (suc zero)) = FreshnessStatus.fresh
freshness_status_of (pos (suc (suc zero))) = FreshnessStatus.stale_recoverable
freshness_status_of (pos (suc (suc (suc zero)))) = FreshnessStatus.stale_failing
freshness_status_of n = FreshnessStatus.unrecognized n

unfoldable pub source_code : Source → ℤ
source_code Source.unspecified = pos 0
source_code Source.manifest = pos 1
source_code Source.legacy = pos 2
source_code Source.static_overlay = pos 3
source_code Source.csv_fallback = pos 4
source_code (Source.unrecognized n) = n

unfoldable pub source_of : ℤ → Source
source_of (pos zero) = Source.unspecified
source_of (pos (suc zero)) = Source.manifest
source_of (pos (suc (suc zero))) = Source.legacy
source_of (pos (suc (suc (suc zero)))) = Source.static_overlay
source_of (pos (suc (suc (suc (suc zero))))) = Source.csv_fallback
source_of n = Source.unrecognized n

-- A value of an enum is its member where it has one, and `unrecognized` elsewhere.
abbrev pub IsResolveMode : ResolveMode → Type 0
IsResolveMode e = resolve_mode_of (resolve_mode_code e) ≡ e

abbrev pub IsSignatureStatus : SignatureStatus → Type 0
IsSignatureStatus e = signature_status_of (signature_status_code e) ≡ e

abbrev pub IsFreshnessStatus : FreshnessStatus → Type 0
IsFreshnessStatus e = freshness_status_of (freshness_status_code e) ≡ e

abbrev pub IsSource : Source → Type 0
IsSource e = source_of (source_code e) ≡ e
