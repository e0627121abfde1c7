-- ===== src/Resolver/Messages.antt =====
-- The registry's messages, as src/providers/resolver/gen/livepeer/registry/v1 declares them. A
-- `Buffer` is the list of its bytes, a `Date` its epoch milliseconds.
use livepeer_gateway_console.Common.{ℕ, Bool, Option, List}
use livepeer_gateway_console.Common.Int.{ℤ}
use livepeer_gateway_console.Common.Text.{Text}
use livepeer_gateway_console.Resolver.Labels.{ResolveMode, SignatureStatus, FreshnessStatus, Source}

pub record KnownEntry : Type 0 where
  pub eth_address : Text
  pub mode : ResolveMode
  pub freshness_status : FreshnessStatus
  pub cached_at : Option ℤ

pub record Offering : Type 0 where
  pub id : Text
  pub price_per_work_unit_wei : Text
  pub constraints_json : List ℕ

pub record Capability : Type 0 where
  pub name : Text
  pub work_unit : Text
  pub offerings : List Offering
  pub extra_json : List ℕ

pub record Node : Type 0 where
  pub id : Text
  pub url : Text
  pub worker_eth_address : Text
  pub extra_json : List ℕ
  pub capabilities : List Capability
  pub source : Source
  pub signature_status : SignatureStatus
  pub operator_address : Text
  pub enabled : Bool
  pub tier_allowed : List Text
  pub weight : ℤ

pub record ResolveResult : Type 0 where
  pub eth_address : Text
  pub resolved_uri : Text
  pub mode : ResolveMode
  pub nodes : List Node
  pub freshness_status : FreshnessStatus
  pub cached_at : Option ℤ
  pub fetched_at : Option ℤ
  pub schema_version : Text

pub record ProtoSelectedRoute : Type 0 where
  pub worker_url : Text
  pub eth_address : Text
  pub capability : Text
  pub offering : Text
  pub price_per_work_unit_wei : Text
  pub work_unit : Text
  pub extra_json : List ℕ
  pub constraints_json : List ℕ

pub record AuditEvent : Type 0 where
  pub at : Option ℤ
  pub eth_address : Text
  pub kind : Text
  pub mode : ResolveMode
  pub detail : Text

pub record ResolveByAddressRequest : Type 0 where
  pub eth_address : Text
  pub allow_legacy_fallback : Bool
  pub allow_unsigned : Bool
  pub force_refresh : Bool

pub record SelectRequest : Type 0 where
  pub capability : Text
  pub offering : Text
  pub tier : Text
  pub min_weight : ℤ

pub record RefreshRequest : Type 0 where
  pub eth_address : Text
  pub force : Bool

pub record GetAuditLogRequest : Type 0 where
  pub eth_address : Text
  pub since : Option ℤ
  pub limit : ℤ

pub record HealthResult : Type 0 where
  pub mode : Text
  pub chain_ok : Bool
  pub manifest_fetcher_ok : Bool
  pub cache_size : ℤ
  pub last_chain_success : Option ℤ
