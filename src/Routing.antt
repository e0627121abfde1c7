-- ===== src/Routing.antt =====
-- src/service/routing/index.ts, the routing service. Reads that the service memoizes are taken as
-- the loaders answer them (the cache is TtlCache); of several that fail together the model reports the first one written.
pub mod Stakes
pub mod Handlers
pub mod Roster
pub mod History
pub mod Examples
use mathlib.Core.List.{flat_map}
use livepeer_gateway_console.Common.{
  ℕ, zero, suc, ◌+◌, ◌-◌, ◌/◌, ◌%◌, Bool, true, false, not, ◌&&◌, ◌||◌, Option, none, some, List,
  [], ◌∷◌, ◌++◌, map, keep, head?, ltb, leb, ◌==◌, if◌then◌else◌,
}
use livepeer_gateway_console.Common.Int.{ℤ}
use livepeer_gateway_console.Common.Text.{Text, codes, text_eq, to_lower_case}
use livepeer_gateway_console.Common.Assoc.{map_get, map_set}
use livepeer_gateway_console.Common.Address.{is_eth_address}
use livepeer_gateway_console.Common.Result.{Failure, Result, ok, err, ◌>>=◌}
use livepeer_gateway_console.Dedupe.{includes, dedupe}
use livepeer_gateway_console.Repo.{Sqlite, Table, RoutingObservationRow, list_recent_for_orch}
use livepeer_gateway_console.Chain.{BondingManager, BondingPoolEntry, bonding_manager_list_pool}
use livepeer_gateway_console.Resolver.{
  Grpc, KnownOrch, ResolvedNode, ResolvedOrch, list_known, resolve_by_address, non_empty, or_else,
}
use livepeer_gateway_console.Resolver.Labels.{FreshnessLabel, SignatureLabel}

pub data SignatureStatus : Type 0 where
  signed unsigned unknown : SignatureStatus

pub data FreshnessStatus : Type 0 where
  fresh stale unknown : FreshnessStatus

-- src/types/routing.ts
pub record OrchRosterRow : Type 0 where
  pub address : Text
  pub service_uri : Option Text
  pub capabilities : List Text
  pub offerings : List Text
  pub signature_status : SignatureStatus
  pub freshness_status : FreshnessStatus
  pub active_pool_member : Bool
  pub total_stake_wei : Option Text
  pub last_observed_at : Option ℤ

pub record RoutingObservation : Type 0 where
  pub id : ℕ
  pub observed_at : ℤ
  pub orch_address : Text
  pub capability : Option Text
  pub offering : Option Text
  pub signature_status : Option Text
  pub freshness_status : Option Text
  pub details_json : Option Text

-- The chain behind the reader: the contracts that the controller names, and the registry's answers.
pub record RoutingServiceDeps : Type 0 where
  pub grpc : Grpc
  pub bonding_manager : Result BondingManager
  pub service_registry_address : Option Text
  pub resolve_service_registry : Result Text
  pub read_service_uri : Text → Text → Result Text
  pub db : Sqlite
  pub table : Table RoutingObservationRow

unfoldable pub narrow_freshness : FreshnessLabel → FreshnessStatus
narrow_freshness FreshnessLabel.fresh = FreshnessStatus.fresh
narrow_freshness FreshnessLabel.stale_recoverable = FreshnessStatus.stale
narrow_freshness FreshnessLabel.stale_failing = FreshnessStatus.stale
narrow_freshness FreshnessLabel.unknown = FreshnessStatus.unknown

unfoldable pub narrow_signature : SignatureLabel → SignatureStatus
narrow_signature SignatureLabel.verified = SignatureStatus.signed
narrow_signature SignatureLabel.unsigned = SignatureStatus.unsigned
narrow_signature _ = SignatureStatus.unknown

-- `poolEntriesToStakeMap`
stakes_from : List (Text × Text) → List BondingPoolEntry → List (Text × Text)
stakes_from m [] = m
stakes_from m (e ∷ es) = stakes_from (map_set (to_lower_case e.address) e.total_stake_wei m) es

pub pool_entries_to_stake_map : List BondingPoolEntry → List (Text × Text)
pool_entries_to_stake_map entries = stakes_from [] entries

-- `getServiceRegistry`; an address that is empty counts as none.
pub get_service_registry : RoutingServiceDeps → Result Text
get_service_registry deps = elim deps.service_registry_address [
  | none ↦ deps.resolve_service_registry
  | some address ↦ elim address [ [] ↦ deps.resolve_service_registry | c ∷ s ↦ ok (c ∷ s) ]
]

-- `getPoolStakeMap`
pub get_pool_stake_map : RoutingServiceDeps → Result (List (Text × Text))
get_pool_stake_map deps = do
  bm ← deps.bonding_manager
  entries ← bonding_manager_list_pool bm
  ok (pool_entries_to_stake_map entries)

-- `getServiceUri`: the registry must resolve; a read that fails is no service URI.
pub get_service_uri : RoutingServiceDeps → Text → Result (Option Text)
get_service_uri deps orch = do
  sr ← get_service_registry deps
  elim (deps.read_service_uri sr orch) [ ok uri ↦ ok (non_empty uri) | err e ↦ ok none ]

-- `Promise.all`
all_results : {A : Type 0} → List (Result A) → Result (List A)
all_results [] = ok []
all_results (r ∷ rs) = do a ← r; others ← all_results rs; ok (a ∷ others)

abbrev pub is_some : Option Text → Bool
is_some none = false
is_some (some a) = true

abbrev pub stake_of : List (Text × Text) → Text → Option Text
stake_of stakes address = map_get (to_lower_case address) stakes

pub roster_row : List (Text × Text) → KnownOrch → Option Text → OrchRosterRow
roster_row stakes k uri = record {
  address = k.address;
  service_uri = uri;
  capabilities = [];
  offerings = [];
  signature_status = SignatureStatus.unknown;
  freshness_status = narrow_freshness k.freshness_status;
  active_pool_member = is_some (stake_of stakes k.address);
  total_stake_wei = stake_of stakes k.address;
  last_observed_at = none;
}

-- `known.map((k, i) => ..)`; an index without a URI has `undefined ?? null`.
roster_rows : List (Text × Text) → List KnownOrch → List (Option Text) → List OrchRosterRow
roster_rows stakes [] uris = []
roster_rows stakes (k ∷ ks) [] = roster_row stakes k none ∷ roster_rows stakes ks []
roster_rows stakes (k ∷ ks) (u ∷ us) = roster_row stakes k u ∷ roster_rows stakes ks us

-- `listOrchs`
pub list_orchs : RoutingServiceDeps → Result (List OrchRosterRow)
list_orchs deps = do
  known ← list_known deps.grpc
  stakes ← get_pool_stake_map deps
  uris ← all_results (map (λ (k : KnownOrch). get_service_uri deps k.address) known)
  ok (roster_rows stakes known uris)

abbrev signature_of : List ResolvedNode → SignatureStatus
signature_of [] = SignatureStatus.unknown
signature_of (top ∷ nodes) = narrow_signature top.signature_status

pub record RosterEnrichment : Type 0 where
  pub service_uri : Option Text
  pub active_pool_member : Bool
  pub total_stake_wei : Option Text
  pub last_observed_at : Option ℤ

abbrev or_option : Option Text → Option Text → Option Text
or_option none b = b
or_option (some a) b = some a

pub roster_row_from_resolved : ResolvedOrch → RosterEnrichment → OrchRosterRow
roster_row_from_resolved r e = record {
  address = r.address;
  service_uri = or_option e.service_uri (non_empty r.resolved_uri);
  capabilities = dedupe (flat_map (λ (n : ResolvedNode). n.capabilities) r.nodes);
  offerings = dedupe (flat_map (λ (n : ResolvedNode). n.offerings) r.nodes);
  signature_status = signature_of r.nodes;
  freshness_status = narrow_freshness r.freshness_status;
  active_pool_member = e.active_pool_member;
  total_stake_wei = e.total_stake_wei;
  last_observed_at = e.last_observed_at;
}

pub record OrchView : Type 0 where
  pub orch : Option OrchRosterRow
  pub recent_observations : List RoutingObservation

pub row_to_observation : RoutingObservationRow → RoutingObservation
row_to_observation r = record {
  id = r.id;
  observed_at = r.observed_at;
  orch_address = r.orch_address;
  capability = r.capability;
  offering = r.offering;
  signature_status = r.signature_status;
  freshness_status = r.freshness_status;
  details_json = r.details_json;
}

abbrev observed_first : List RoutingObservation → Option ℤ
observed_first [] = none
observed_first (r ∷ rs) = some r.observed_at

-- The view of an orchestrator that the resolver knows or does not know.
orch_view :
    List RoutingObservation → List (Text × Text) → Option Text → Option ResolvedOrch → OrchView
orch_view recent stakes uri none = record { orch = none; recent_observations = recent }
orch_view recent stakes uri (some r) = record {
  orch = some (
      roster_row_from_resolved r (record {
        service_uri = uri;
        active_pool_member = is_some (stake_of stakes r.address);
        total_stake_wei = stake_of stakes r.address;
        last_observed_at = observed_first recent;
      }));
  recent_observations = recent;
}

-- `getOrch`
pub get_orch : RoutingServiceDeps → Text → Result OrchView
get_orch deps address = do
  resolved ← resolve_by_address deps.grpc address none
  stakes ← get_pool_stake_map deps
  uri ← get_service_uri deps address
  let recent = map row_to_observation (list_recent_for_orch deps.db address none deps.table)
  ok (orch_view recent stakes uri resolved)

-- `listObservations`
pub list_observations : RoutingServiceDeps → Text → Option ℕ → List RoutingObservation
list_observations deps address limit =
    map row_to_observation (list_recent_for_orch deps.db address limit deps.table)
