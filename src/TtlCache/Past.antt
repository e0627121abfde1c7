-- ===== src/TtlCache/Past.antt =====
-- What has happened to a cache of `createTtlCache`: which calls loaded, what their loaders returned,
-- and what may be answered by it.
use livepeer_gateway_console.Common.{ℕ, ◌+◌, ◌<◌, ◌≡◌, List, [], ◌∷◌}
use livepeer_gateway_console.Common.Text.{Text}
use livepeer_gateway_console.Common.Result.{ok}
use livepeer_gateway_console.TtlCache.{
  Cache, Answer, value, awaiting, loading, empty, get_or_load, Event, called, settled, step,
}

module _ {V : Type 0} (ttl_ms : ℕ) where
  -- The cache after some events, of which the first is the latest.
  abbrev pub after : List (Event V) → Cache V
  after [] = empty
  after (ev ∷ past) = step ttl_ms (after past) ev

  -- The call at this time for this key made the entry and called its loader.
  pub data Loaded : List (Event V) → ℕ → Text → ℕ → Type 0 where
    loads :
        {past : List (Event V)} {t : ℕ} {key : Text} {id : ℕ}
        → (get_or_load ttl_ms t key (after past)).1 ≡ loading id
        → Loaded (called t key ∷ past) id key t
    earlier :
        {ev : Event V} {past : List (Event V)} {t : ℕ} {key : Text} {id : ℕ}
        → Loaded past id key t
        → Loaded (ev ∷ past) id key t

  -- The entry's loader has settled with this value.
  pub data Returned : List (Event V) → ℕ → V → Type 0 where
    returns : {past : List (Event V)} {id : ℕ} {v : V} → Returned (settled id (ok v) ∷ past) id v
    earlier :
        {ev : Event V} {past : List (Event V)} {id : ℕ} {v : V}
        → Returned past id v
        → Returned (ev ∷ past) id v

  -- The key's entry was made by a call for it less than the time to live ago.
  unfoldable pub IsRecent : List (Event V) → ℕ → Text → ℕ → Type 0
  IsRecent past t key id = (t₀ : ℕ) × Loaded past id key t₀ × (t < t₀ + ttl_ms)

  -- What the cache may answer: a value that a recent load for the key returned, the promise of a
  -- recent load for the key, or the promise of a load that was not made before.
  unfoldable pub IsAllowed : List (Event V) → ℕ → Text → Answer V → Type 0
  IsAllowed past t key (value v) = (id : ℕ) × IsRecent past t key id × Returned past id v
  IsAllowed past t key (awaiting id) = IsRecent past t key id
  IsAllowed past t key (loading id) = (k : Text) (t₀ : ℕ) → Loaded past id k t₀ → ⊥
