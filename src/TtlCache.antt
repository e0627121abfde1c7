-- ===== src/TtlCache.antt =====
-- src/service/routing/index.ts, `createTtlCache`: a cache of promises with a time to live. A call
-- and the settling of a loader are two events, and any others may come between them. The entries
-- are objects that the map and the loading closures share: they stand in a heap, and the map holds
-- their places.
pub mod SingleFlight
pub mod Served
pub mod Rejection
pub mod Past
pub mod Backed
pub mod Freshness
mod Examples
use livepeer_gateway_console.Common.{
  ℕ, ◌+◌, Bool, Option, none, some, List, [], ◌∷◌, ◌++◌, length, get_elem?, set, ltb, if◌then◌else◌,
}
use livepeer_gateway_console.Common.Text.{Text}
use livepeer_gateway_console.Common.Result.{Failure, Result, ok, err}
use livepeer_gateway_console.Common.Assoc.{map_get, map_set, map_delete}

pub data Promise (V : Type 0) : Type 0 where
  pending : Promise V
  fulfilled : V → Promise V
  rejected : Failure → Promise V

-- `settled_value` is `settledValue` while `settled` holds. `key` is the one that the closure of the
-- entry's load has captured.
pub record Entry (V : Type 0) : Type 0 where
  pub expires_at : ℕ
  pub promise : Promise V
  pub settled_value : Option V
  pub key : Text

pub record Cache (V : Type 0) : Type 0 where
  pub store : List (Text × ℕ)
  pub entries : List (Entry V)

-- What a call hands its caller: the settled value, the promise of an entry at hand, or that of a
-- new entry, whose loader it has called.
pub data Answer (V : Type 0) : Type 0 where
  value : V → Answer V
  awaiting : ℕ → Answer V
  loading : ℕ → Answer V

module _ {V : Type 0} where
  abbrev pub empty : Cache V
  empty = record { store = []; entries = [] }

  -- `store.get(key)`, with the entry's place.
  unfoldable pub cached : Text → Cache V → Option (ℕ × Entry V)
  cached key c = elim (map_get key c.store) [
    | none ↦ none
    | some id ↦ elim (get_elem? c.entries id) [ none ↦ none | some e ↦ some (id, e) ]
  ]

  unfoldable pub answer_of : ℕ → Entry V → Answer V
  answer_of id e = elim e.settled_value [ some v ↦ value v | none ↦ awaiting id ]

  unfoldable pub start_load : ℕ → ℕ → Text → Cache V → Cache V × Answer V
  start_load ttl_ms t key c =
      let id = length c.entries in
      (
        record {
          store = map_set key id c.store;
          entries =
              c.entries
              ++ record {
                expires_at = t + ttl_ms;
                promise = pending;
                settled_value = none;
                key = key;
              }
                ∷ [];
        },
        loading id,
      )

  hit_or_load : ℕ → ℕ → Text → Cache V → Option (ℕ × Entry V) → Cache V × Answer V
  hit_or_load ttl_ms t key c none = start_load ttl_ms t key c
  hit_or_load ttl_ms t key c (some (id, e)) =
      if ltb t e.expires_at then (c, answer_of id e) else start_load ttl_ms t key c

  -- `getOrLoad(key, loader)` at time `t`, up to its return.
  unfoldable pub get_or_load : ℕ → ℕ → Text → Cache V → Cache V × Answer V
  unfolding hit_or_load
  get_or_load ttl_ms t key c = hit_or_load ttl_ms t key c (cached key c)

  settle_entry : ℕ → Result V → Cache V → Option (Entry V) → Cache V
  settle_entry id res c none = c
  settle_entry id (ok v) c (some e) = record c {
    entries = set c.entries id (record e { promise = fulfilled v; settled_value = some v });
  }
  settle_entry id (err f) c (some e) = record {
    store = map_delete e.key c.store;
    entries = set c.entries id (record e { promise = rejected f });
  }

  -- The loader of an entry settles.
  unfoldable pub settle : ℕ → Result V → Cache V → Cache V
  unfolding settle_entry
  settle id res c = settle_entry id res c (get_elem? c.entries id)

-- What may happen to a cache.
pub data Event (V : Type 0) : Type 0 where
  called : (t : ℕ) → (key : Text) → Event V
  settled : (id : ℕ) → Result V → Event V

pub step : {V : Type 0} → ℕ → Cache V → Event V → Cache V
step ttl_ms c (called t key) = (get_or_load ttl_ms t key c).0
step ttl_ms c (settled id res) = settle id res c

pub run : {V : Type 0} → ℕ → Cache V → List (Event V) → Cache V
run ttl_ms c [] = c
run ttl_ms c (e ∷ es) = run ttl_ms (step ttl_ms c e) es
