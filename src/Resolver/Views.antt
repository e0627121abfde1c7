-- ===== src/Resolver/Views.antt =====
-- src/providers/resolver/client.ts: the types that the client answers with, and the maps to them from
-- the messages of the daemon.
use livepeer_gateway_console.Common.{ℕ, Bool, Option, none, some, List, [], ◌∷◌, map}
use livepeer_gateway_console.Common.Int.{ℤ, pos}
use livepeer_gateway_console.Common.Text.{Text}
use mathlib.Core.List.{flat_map}
use livepeer_gateway_console.Resolver.Labels.{FreshnessLabel, SignatureLabel, ResolveModeLabel}
use livepeer_gateway_console.Resolver.Labels.{map_resolve_mode, map_freshness, map_signature}
use livepeer_gateway_console.Resolver.Messages.{
  KnownEntry, Offering, Capability, Node, ResolveResult, ProtoSelectedRoute, AuditEvent,
}

pub record KnownOrch : Type 0 where
  pub address : Text
  pub mode : ResolveModeLabel
  pub freshness_status : FreshnessLabel
  pub cached_at : Option ℤ

pub record ResolvedNode : Type 0 where
  pub id : Text
  pub url : Text
  pub worker_eth_address : Text
  pub capabilities : List Text
  pub offerings : List Text
  pub signature_status : SignatureLabel
  pub operator_address : Text
  pub enabled : Bool
  pub tier_allowed : List Text
  pub weight : ℤ

pub record ResolvedOrch : Type 0 where
  pub address : Text
  pub resolved_uri : Text
  pub mode : ResolveModeLabel
  pub nodes : List ResolvedNode
  pub freshness_status : FreshnessLabel
  pub cached_at : Option ℤ
  pub fetched_at : Option ℤ
  pub schema_version : Text

pub record SelectQuery : Type 0 where
  pub capability : Text
  pub offering : Text
  pub tier : Option Text

pub record SelectedRoute : Type 0 where
  pub worker_url : Text
  pub eth_address : Text
  pub capability : Text
  pub offering : Text
  pub price_per_work_unit_wei : Text
  pub work_unit : Text
  pub extra_json : Option Text
  pub constraints_json : Option Text

pub record SelectResult : Type 0 where
  pub route : Option SelectedRoute
  pub reason : Text

pub record ResolverAuditEntry : Type 0 where
  pub occurred_at : ℤ
  pub orch_address : Option Text
  pub kind : Text
  pub mode : ResolveModeLabel
  pub detail : Text

pub record ResolveByAddressOptions : Type 0 where
  pub allow_legacy_fallback : Option Bool
  pub allow_unsigned : Option Bool
  pub force_refresh : Option Bool

pub record AuditLogOptions : Type 0 where
  pub eth_address : Option Text
  pub since : Option ℤ
  pub limit : Option ℕ

-- `o ?? d`
abbrev pub or_else {ℓ} : {A : Type ℓ} → Option A → A → A
or_else none d = d
or_else (some a) d = a

-- `s || null`
abbrev pub non_empty : Text → Option Text
non_empty [] = none
non_empty (c ∷ s) = some (c ∷ s)

unfoldable pub map_known_entry : KnownEntry → KnownOrch
map_known_entry e = record {
  address = e.eth_address;
  mode = map_resolve_mode e.mode;
  freshness_status = map_freshness e.freshness_status;
  cached_at = e.cached_at;
}

unfoldable pub map_node : Node → ResolvedNode
map_node n = record {
  id = n.id;
  url = n.url;
  worker_eth_address = n.worker_eth_address;
  capabilities = map (λ (c : Capability). c.name) n.capabilities;
  offerings =
      flat_map (λ (c : Capability). map (λ (m : Offering). m.id) c.offerings) n.capabilities;
  signature_status = map_signature n.signature_status;
  operator_address = n.operator_address;
  enabled = n.enabled;
  tier_allowed = n.tier_allowed;
  weight = n.weight;
}

unfoldable pub map_resolve_result : ResolveResult → ResolvedOrch
map_resolve_result r = record {
  address = r.eth_address;
  resolved_uri = r.resolved_uri;
  mode = map_resolve_mode r.mode;
  nodes = map map_node r.nodes;
  freshness_status = map_freshness r.freshness_status;
  cached_at = r.cached_at;
  fetched_at = r.fetched_at;
  schema_version = r.schema_version;
}

pub buffer_to_json_string_or_null : (List ℕ → Text) → List ℕ → Option Text
buffer_to_json_string_or_null utf8 [] = none
buffer_to_json_string_or_null utf8 (b ∷ bs) = some (utf8 (b ∷ bs))

unfoldable pub map_selected_route : (List ℕ → Text) → ProtoSelectedRoute → SelectedRoute
map_selected_route utf8 r = record {
  worker_url = r.worker_url;
  eth_address = r.eth_address;
  capability = r.capability;
  offering = r.offering;
  price_per_work_unit_wei = r.price_per_work_unit_wei;
  work_unit = r.work_unit;
  extra_json = buffer_to_json_string_or_null utf8 r.extra_json;
  constraints_json = buffer_to_json_string_or_null utf8 r.constraints_json;
}

unfoldable pub map_audit_event : AuditEvent → ResolverAuditEntry
map_audit_event e = record {
  occurred_at = or_else e.at (pos 0);
  orch_address = non_empty e.eth_address;
  kind = e.kind;
  mode = map_resolve_mode e.mode;
  detail = e.detail;
}
