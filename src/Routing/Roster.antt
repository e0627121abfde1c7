-- ===== src/Routing/Roster.antt =====
-- `listOrchs` and the query filters over its rows.
use livepeer_gateway_console.Common.{
  ℕ, ◌≡◌, ◌≢◌, refl, sym, ap, ◌∙◌, Option, none, some, List, [], ◌∷◌, map, All,
}
use livepeer_gateway_console.Common.Text.{Text}
use livepeer_gateway_console.Common.Result.{ok, bind_ok, ok-injective}
use livepeer_gateway_console.Chain.{BondingManager, BondingPoolEntry, bonding_manager_list_pool}
use livepeer_gateway_console.Resolver.{KnownOrch, list_known}
use livepeer_gateway_console.Routing.{
  OrchRosterRow, RoutingServiceDeps, roster_row, roster_rows, is_some, all_results,
  get_pool_stake_map, pool_entries_to_stake_map, get_service_uri, list_orchs,
}
use livepeer_gateway_console.Routing.Handlers.{passes, filter_orchs, handle_list_orchs}
use livepeer_gateway_console.Dedupe.{includes}
use livepeer_gateway_console.Routing.Stakes.{last_stake, stake_map_lem}

-- A row that names no capability and no offering.
abbrev IsBare : OrchRosterRow → Type 0
IsBare r = (r.capabilities ≡ []) × (r.offerings ≡ [])

-- A row with the stake of the map for its address.
abbrev pub IsStaked : List BondingPoolEntry → OrchRosterRow → Type 0
IsStaked entries r =
    (r.total_stake_wei ≡ last_stake r.address none entries)
    × (r.active_pool_member ≡ is_some (last_stake r.address none entries))

roster_rows-IsBare :
    (stakes : List (Text × Text)) (known : List KnownOrch) (uris : List (Option Text))
    → All IsBare (roster_rows stakes known uris)
unfolding roster_rows roster_row
roster_rows-IsBare stakes [] uris = tt
roster_rows-IsBare stakes (k ∷ ks) [] = ((refl, refl), roster_rows-IsBare stakes ks [])
roster_rows-IsBare stakes (k ∷ ks) (u ∷ us) = ((refl, refl), roster_rows-IsBare stakes ks us)

roster_row-IsStaked :
    (entries : List BondingPoolEntry) (k : KnownOrch) (uri : Option Text)
    → IsStaked entries (roster_row (pool_entries_to_stake_map entries) k uri)
unfolding roster_row
roster_row-IsStaked entries k uri =
    (stake_map_lem k.address entries, ap is_some (stake_map_lem k.address entries))

roster_rows-IsStaked :
    (entries : List BondingPoolEntry) (known : List KnownOrch) (uris : List (Option Text))
    → All (IsStaked entries) (roster_rows (pool_entries_to_stake_map entries) known uris)
unfolding roster_rows
roster_rows-IsStaked entries [] uris = tt
roster_rows-IsStaked entries (k ∷ ks) [] =
    (roster_row-IsStaked entries k none, roster_rows-IsStaked entries ks [])
roster_rows-IsStaked entries (k ∷ ks) (u ∷ us) =
    (roster_row-IsStaked entries k u, roster_rows-IsStaked entries ks us)

address-roster_rows :
    (stakes : List (Text × Text)) (known : List KnownOrch) (uris : List (Option Text))
    → map (λ (r : OrchRosterRow). r.address) (roster_rows stakes known uris)
      ≡ map (λ (k : KnownOrch). k.address) known
unfolding roster_rows roster_row
address-roster_rows stakes [] uris = refl
address-roster_rows stakes (k ∷ ks) [] = ap (λ t. k.address ∷ t) (address-roster_rows stakes ks [])
address-roster_rows stakes (k ∷ ks) (u ∷ us) =
    ap (λ t. k.address ∷ t) (address-roster_rows stakes ks us)

-- What `listOrchs` read when it returned.
record Listed (deps : RoutingServiceDeps) (rows : List OrchRosterRow) : Type 0 where
  known : List KnownOrch
  answered : list_known deps.grpc ≡ ok known
  bm : BondingManager
  contract : deps.bonding_manager ≡ ok bm
  entries : List BondingPoolEntry
  walked : bonding_manager_list_pool bm ≡ ok entries
  uris : List (Option Text)
  same : roster_rows (pool_entries_to_stake_map entries) known uris ≡ rows

listed :
    (deps : RoutingServiceDeps) (rows : List OrchRosterRow)
    → list_orchs deps ≡ ok rows
    → Listed deps rows
unfolding list_orchs get_pool_stake_map
listed deps rows h =
    let (known, answered, a) = bind_ok (list_known deps.grpc) _ h in
    let (stakes, pooled, b) = bind_ok (get_pool_stake_map deps) _ a in
    let (bm, contract, c) = bind_ok deps.bonding_manager _ pooled in
    let (entries, walked, d) = bind_ok (bonding_manager_list_pool bm) _ c in
    let (uris, _, e) =
      bind_ok (all_results (map (λ (k : KnownOrch). get_service_uri deps k.address) known)) _ b in
    record {
      known = known;
      answered = answered;
      bm = bm;
      contract = contract;
      entries = entries;
      walked = walked;
      uris = uris;
      same =
          ap (λ m. roster_rows m known uris)
            (ok-injective (pool_entries_to_stake_map entries) stakes d)
          ∙ ok-injective _ _ e;
    }

-- A roster that is returned has one row for each orchestrator that the resolver knows, in its order;
-- each row has the stake of the last entry of the bonding pool for its address, in any letter case,
-- and is an active pool member exactly when there is such an entry.
pub roster_lem :
    (deps : RoutingServiceDeps) (rows : List OrchRosterRow)
    → list_orchs deps ≡ ok rows
    → (known : List KnownOrch) × (list_known deps.grpc ≡ ok known)
      × (map (λ (r : OrchRosterRow). r.address) rows ≡ map (λ (k : KnownOrch). k.address) known)
      × ((bm : BondingManager) × (deps.bonding_manager ≡ ok bm)
          × ((entries : List BondingPoolEntry) × (bonding_manager_list_pool bm ≡ ok entries)
              × All (IsStaked entries) rows))
roster_lem deps rows h =
    let l = listed deps rows h in
    (
      l.known,
      l.answered,
      rw (← l.same) (address-roster_rows (pool_entries_to_stake_map l.entries) l.known l.uris),
      (
        l.bm,
        l.contract,
        (l.entries, l.walked, rw (← l.same) (roster_rows-IsStaked l.entries l.known l.uris)),
      ),
    )

filter_bare :
    (c : ℕ) (s : Text) (offering : Option Text) (rows : List OrchRosterRow)
    → All IsBare rows
    → filter_orchs (some (c ∷ s)) offering rows ≡ []
unfolding filter_orchs passes includes
filter_bare c s offering [] h = refl
filter_bare c s offering (r ∷ rs) ((p, q), h) = rw p (filter_bare c s offering rs h)

-- The capability filter of the roster route keeps no row: whatever capability is asked for, and
-- whatever the orchestrators offer, a reply to a query that names one is empty.
pub capability_filter_empties :
    (deps : RoutingServiceDeps) (capability : Text) (offering : Option Text)
    (rows : List OrchRosterRow)
    → capability ≢ []
    → handle_list_orchs deps (some capability) offering ≡ ok rows
    → rows ≡ []
unfolding handle_list_orchs
capability_filter_empties deps [] offering rows n h = absurd (n refl)
capability_filter_empties deps (c ∷ s) offering rows n h =
    let (all, returned, kept) = bind_ok (list_orchs deps) _ h in
    let l = listed deps all returned in
    sym (ok-injective _ rows kept)
    ∙ filter_bare c s offering all
        (rw (← l.same) (roster_rows-IsBare (pool_entries_to_stake_map l.entries) l.known l.uris))
