-- ===== src/Routing/Examples.antt =====
-- A console beside a daemon that knows one orchestrator, a pool of two, and an audit poll that has
-- stored one event.
use livepeer_gateway_console.Common.{
  ◌≡◌, ◌≢◌, refl, false, none, some, List, [], ◌∷◌, map, All, arith,
}
use livepeer_gateway_console.Common.Text.{codes, text_eq, text_eq_iff, to_lower_case, lower_code}
use livepeer_gateway_console.Common.Result.{error, ok, err}
use livepeer_gateway_console.Repo.Orders.{memory_database, sort_desc}
use livepeer_gateway_console.Repo.{empty_table, list_recent_for_orch}
use livepeer_gateway_console.AuditPoll.Examples.{
  options, new_system, new_system-IsSound, answered, answered-Reach,
}
use livepeer_gateway_console.Chain.{BondingManager, BondingPoolEntry, bonding_manager_list_pool}
use livepeer_gateway_console.Chain.Examples.{pair, two, lists_two}
use livepeer_gateway_console.Resolver.{KnownOrch, list_known}
use livepeer_gateway_console.Resolver.Examples.{
  orch, daemon, known, resolved, lists_known, resolves, stranger, resolves_nothing,
}
use livepeer_gateway_console.Routing.{
  OrchRosterRow, OrchView, row_to_observation, RoutingServiceDeps, pool_entries_to_stake_map,
  get_pool_stake_map, get_service_registry, get_service_uri, all_results, roster_rows, list_orchs,
  orch_view, get_orch,
}
use livepeer_gateway_console.Routing.Handlers.{filter_orchs, handle_list_orchs}
use livepeer_gateway_console.Routing.Roster.{IsStaked, roster_lem, capability_filter_empties}
use livepeer_gateway_console.Routing.History.{last_seen, mixed_case_history}

abbrev pub deps : RoutingServiceDeps
deps = record {
  grpc = daemon;
  bonding_manager = ok pair;
  service_registry_address = some (codes "0xcc");
  resolve_service_registry = err (error (codes "no controller"));
  read_service_uri = λ registry address. err (error (codes "reverted"));
  db = memory_database;
  table = answered.worker.table;
}

stakes_read : get_pool_stake_map deps ≡ ok (pool_entries_to_stake_map two)
unfolding get_pool_stake_map
stakes_read = rw lists_two refl

abbrev roster : List OrchRosterRow
roster = roster_rows (pool_entries_to_stake_map two) (known ∷ []) (none ∷ [])

lists_roster : list_orchs deps ≡ ok roster
unfolding list_orchs all_results get_service_uri get_service_registry
lists_roster = rw (lists_known, stakes_read) refl

roster_lem_example :
    (known : List KnownOrch) × (list_known daemon ≡ ok known)
    × (map (λ (r : OrchRosterRow). r.address) roster ≡ map (λ (k : KnownOrch). k.address) known)
    × ((bm : BondingManager) × (deps.bonding_manager ≡ ok bm)
        × ((entries : List BondingPoolEntry) × (bonding_manager_list_pool bm ≡ ok entries)
            × All (IsStaked entries) roster))
roster_lem_example = roster_lem deps roster lists_roster

filters_roster :
    handle_list_orchs deps (some (codes "video")) none
    ≡ ok (filter_orchs (some (codes "video")) none roster)
unfolding handle_list_orchs
filters_roster = rw lists_roster refl

capability_filter_empties_example : filter_orchs (some (codes "video")) none roster ≡ []
capability_filter_empties_example =
    capability_filter_empties deps (codes "video") none
      (filter_orchs (some (codes "video")) none roster) (λ e. cc) filters_roster

abbrev view : OrchView
view =
    orch_view
      (map row_to_observation
        (list_recent_for_orch memory_database orch none answered.worker.table))
      (pool_entries_to_stake_map two) none (some resolved)

views_orch : get_orch deps orch ≡ ok view
unfolding get_orch get_service_uri get_service_registry
views_orch = rw (resolves, stakes_read) refl

-- The same console before its first poll.
abbrev pub unpolled : RoutingServiceDeps
unpolled = record deps { table = empty_table }

stakes_unpolled : get_pool_stake_map unpolled ≡ ok (pool_entries_to_stake_map two)
unfolding get_pool_stake_map
stakes_unpolled = rw lists_two refl

pub views_nothing :
    get_orch unpolled stranger ≡ ok (record { orch = none; recent_observations = [] })
unfolding get_orch get_service_uri get_service_registry orch_view list_recent_for_orch sort_desc
views_nothing = rw (resolves_nothing, stakes_unpolled) refl

checksummed : to_lower_case orch ≢ orch
checksummed e =
    let differs : text_eq (to_lower_case orch) orch ≡ false =
      unfold to_lower_case lower_code in refl in
    absurd (ground (arith, (text_eq_iff (to_lower_case orch) orch).1 e))

mixed_case_history_example : (view.recent_observations ≡ []) × (last_seen view.orch ≡ none)
mixed_case_history_example =
    mixed_case_history deps options new_system answered orch view new_system-IsSound answered-Reach
      refl checksummed views_orch
