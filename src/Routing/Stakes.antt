-- ===== src/Routing/Stakes.antt =====
-- The stake map, and the rows of the roster that it enriches.
use livepeer_gateway_console.Common.{
  ◌≡◌, refl, ap, ◌∙◌, Option, none, some, List, [], ◌∷◌, if◌then◌else◌,
}
use livepeer_gateway_console.Common.Text.{Text, text_eq, to_lower_case}
use livepeer_gateway_console.Common.Assoc.{map_get, map_set, get-set}
use livepeer_gateway_console.Chain.{BondingPoolEntry}
use livepeer_gateway_console.Routing.{stakes_from, pool_entries_to_stake_map}

-- The stake of the last entry of the pool with the address, in any case.
abbrev pub last_stake : Text → Option Text → List BondingPoolEntry → Option Text
last_stake address found [] = found
last_stake address found (e ∷ es) =
    last_stake address
      (if text_eq (to_lower_case e.address) (to_lower_case address)
        then some e.total_stake_wei
        else found)
      es

get-stakes_from :
    (address : Text) (m : List (Text × Text)) (es : List BondingPoolEntry)
    → map_get (to_lower_case address) (stakes_from m es)
      ≡ last_stake address (map_get (to_lower_case address) m) es
unfolding stakes_from
get-stakes_from address m [] = refl
get-stakes_from address m (e ∷ es) =
    get-stakes_from address (map_set (to_lower_case e.address) e.total_stake_wei m) es
    ∙ ap (λ o. last_stake address o es)
        (get-set (to_lower_case e.address) (to_lower_case address) e.total_stake_wei m)

-- The stake map answers an address with the stake of the pool's last entry for it, whatever the
-- letter case of either, and with nothing when the pool has no entry for it.
pub stake_map_lem :
    (address : Text) (entries : List BondingPoolEntry)
    → map_get (to_lower_case address) (pool_entries_to_stake_map entries)
      ≡ last_stake address none entries
stake_map_lem address entries =
    unfold pool_entries_to_stake_map in
    (get-stakes_from address [] entries
      ∙ ap (λ o. last_stake address o entries) (unfold map_get in refl))
