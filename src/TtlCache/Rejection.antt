-- ===== src/TtlCache/Rejection.antt =====
-- The cache of `createTtlCache` after a load has failed and after an entry has expired.
use livepeer_gateway_console.Common.{
  ℕ, ◌+◌, ◌≤◌, ◌<◌, ◌≡◌, ◌≢◌, refl, none, some, get_elem?, if◌then◌else◌, arith,
}
use livepeer_gateway_console.Common.Text.{Text, text_eq, text_eq_refl}
use livepeer_gateway_console.Common.Result.{Failure, err}
use livepeer_gateway_console.Common.Assoc.{map_get, get-delete}
use livepeer_gateway_console.TtlCache.{
  Entry, Cache, cached, answer_of, loading, start_load, get_or_load, settle_entry, settle,
}
use livepeer_gateway_console.TtlCache.SingleFlight.{
  Holds, Holds-cached, get_or_load-hit, get_or_load-loads,
}

module _ {V : Type 0} where
  store-settle_err :
      (id : ℕ) (f : Failure) (c : Cache V) (e : Entry V) (j : Text)
      → get_elem? c.entries id ≡ some e
      → map_get j (settle id (err f) c).store
        ≡ (if text_eq e.key j then none else map_get j c.store)
  unfolding settle settle_entry
  store-settle_err id f c e j placed = rw placed (get-delete e.key j c.store)

  get_or_load-missing :
      (ttl_ms t : ℕ) (key : Text) (c : Cache V)
      → map_get key c.store ≡ none
      → get_or_load ttl_ms t key c ≡ start_load ttl_ms t key c
  unfolding get_or_load cached
  get_or_load-missing ttl_ms t key c missing = ground arith

  -- After a load has failed, the next call for its key starts a new load, at whatever time; the map
  -- has lost that key and no other.
  pub failed_load_retries :
      (ttl_ms t id : ℕ) (f : Failure) (c : Cache V) (e : Entry V)
      → get_elem? c.entries id ≡ some e
      → (get_or_load ttl_ms t e.key (settle id (err f) c)
          ≡ start_load ttl_ms t e.key (settle id (err f) c))
        × ((j : Text)
            → map_get j (settle id (err f) c).store
              ≡ (if text_eq e.key j then none else map_get j c.store))
  failed_load_retries ttl_ms t id f c e placed = (
    get_or_load-missing ttl_ms t e.key (settle id (err f) c)
        (rw (store-settle_err id f c e e.key placed, text_eq_refl) refl),
    λ j. store-settle_err id f c e j placed,
  )

  -- The failure of a load drops the key whichever entry it leads to: an older load of the key that
  -- fails late takes away a live entry, and the next call loads again where it was served before.
  pub late_failure_drops_live :
      (ttl_ms t expiry id old : ℕ) (key : Text) (f : Failure) (c : Cache V) (e : Entry V)
      → (h : Holds key id expiry c) → t < expiry
      → old ≢ id
      → get_elem? c.entries old ≡ some e
      → e.key ≡ key
      → (get_or_load ttl_ms t key c ≡ (c, answer_of id h.entry))
        × (get_or_load ttl_ms t key (settle old (err f) c)
            ≡ start_load ttl_ms t key (settle old (err f) c))
  late_failure_drops_live ttl_ms t expiry id old key f c e h early other placed same = (
    get_or_load-hit ttl_ms t key c id h.entry (Holds-cached key id expiry c h) (rw h.expires early),
    rw same at ((failed_load_retries ttl_ms t old f c e placed).0),
  )

  get_or_load-expired :
      (ttl_ms t : ℕ) (key : Text) (c : Cache V) (id : ℕ) (e : Entry V)
      → cached key c ≡ some (id, e)
      → e.expires_at ≤ t
      → get_or_load ttl_ms t key c ≡ start_load ttl_ms t key c
  unfolding get_or_load
  get_or_load-expired ttl_ms t key c id e found late = rw found (ground arith)

  -- From its expiry on, an entry serves no call: the next call for the key loads again. With a time
  -- to live of zero this is every call that follows the load.
  pub expired_reloads :
      (ttl_ms t t' : ℕ) (key : Text) (c : Cache V) (id : ℕ)
      → (get_or_load ttl_ms t key c).1 ≡ loading id
      → t + ttl_ms ≤ t'
      → get_or_load ttl_ms t' key (get_or_load ttl_ms t key c).0
        ≡ start_load ttl_ms t' key (get_or_load ttl_ms t key c).0
  expired_reloads ttl_ms t t' key c id loads late =
      let after = (get_or_load ttl_ms t key c).0 in
      let h = get_or_load-loads ttl_ms t key c id loads in
      get_or_load-expired ttl_ms t' key after id h.entry (Holds-cached key id (t + ttl_ms) after h)
        (rw h.expires late)
