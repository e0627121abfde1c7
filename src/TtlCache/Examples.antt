-- ===== src/TtlCache/Examples.antt =====
-- A cache of numbers with a time to live of ten.
use livepeer_gateway_console.Common.{ℕ, ◌+◌, ◌≡◌, refl, none, some, List, [], ◌∷◌, arith, get_elem?}
use livepeer_gateway_console.Common.Text.{Text, codes}
use livepeer_gateway_console.Common.Assoc.{map_get, map_set, map_delete}
use livepeer_gateway_console.Common.Result.{Failure, error, ok, err}
use livepeer_gateway_console.TtlCache.{
  pending, Cache, Entry, settled, empty, get_or_load, hit_or_load, cached, start_load, loading,
  answer_of, settle, run, Event, called, step, value, settle_entry,
}
use livepeer_gateway_console.TtlCache.Past.{after, IsAllowed}
use livepeer_gateway_console.TtlCache.Freshness.{get_or_load-IsAllowed}
use livepeer_gateway_console.TtlCache.SingleFlight.{Holds, AllSpare, get_or_load-loads}
use livepeer_gateway_console.TtlCache.Served.{IsServed, single_flight}
use livepeer_gateway_console.TtlCache.Rejection.{late_failure_drops_live}

abbrev key : Text
key = codes "known"

abbrev no_entries : Cache ℕ
no_entries = empty

abbrev loaded : Cache ℕ
loaded = (get_or_load 10 0 key no_entries).0

first_loads : (get_or_load 10 0 key no_entries).1 ≡ loading 0
unfolding get_or_load hit_or_load cached start_load map_get
first_loads = refl

spare : AllSpare 10 key (0 + 10) loaded (settled 0 (ok 7) ∷ [])
spare = (λ f e h k. absurd (cc), tt)

single_flight_example :
    let after = run 10 loaded (settled 0 (ok 7) ∷ []) in
    ((get_or_load 10 4 key after).0 ≡ after)
    × IsServed 0 (settled 0 (ok 7) ∷ []) (get_or_load 10 4 key after).1
single_flight_example =
    single_flight 10 0 key no_entries 0 (settled 0 (ok 7) ∷ []) 4 first_loads spare (omega arith)

abbrev first_entry : Entry ℕ
first_entry = record { expires_at = 10; promise = pending; settled_value = none; key = key }

abbrev down : Failure
down = error (codes "down")

first_placed : get_elem? loaded.entries 0 ≡ some first_entry
unfolding get_or_load hit_or_load cached start_load map_get
first_placed = refl

-- The first load is still under way when its entry has expired and the key is loaded again.
abbrev reloaded : Cache ℕ
reloaded = (get_or_load 10 12 key loaded).0

again_loads : (get_or_load 10 12 key loaded).1 ≡ loading 1
unfolding get_or_load hit_or_load cached start_load map_get map_set map_delete
again_loads = refl

old_placed : get_elem? reloaded.entries 0 ≡ some first_entry
unfolding get_or_load hit_or_load cached start_load map_get map_set map_delete
old_placed = refl

reloaded-Holds : Holds key 1 22 reloaded
reloaded-Holds = get_or_load-loads 10 12 key loaded 1 again_loads

late_failure_drops_live_example :
    (get_or_load 10 13 key reloaded ≡ (reloaded, answer_of 1 reloaded-Holds.entry))
    × (get_or_load 10 13 key (settle 0 (err down) reloaded)
        ≡ start_load 10 13 key (settle 0 (err down) reloaded))
late_failure_drops_live_example =
    late_failure_drops_live 10 13 22 1 0 key down reloaded first_entry reloaded-Holds (omega arith)
      (λ e. absurd (omega arith)) old_placed refl

abbrev history : List (Event ℕ)
history = settled 0 (ok 7) ∷ called 0 key ∷ []

get_or_load-IsAllowed_example :
    IsAllowed 10 history 4 key (get_or_load 10 4 key (after 10 history)).1
get_or_load-IsAllowed_example = get_or_load-IsAllowed 10 history 4 key

-- The answer is the settled value.
serves_value : (get_or_load 10 4 key (after 10 history)).1 ≡ value 7
unfolding get_or_load hit_or_load cached start_load map_get map_set map_delete settle settle_entry
    step answer_of
serves_value = refl
