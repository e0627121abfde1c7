-- ===== src/TtlCache/Freshness.antt =====
-- What `createTtlCache` answers, against what its loaders were asked and returned before.
use livepeer_gateway_console.Common.{
  ℕ, ◌≤◌, ◌<◌, ◌≡◌, inl, inr, refl, ap, Option, none, some, List, [], ◌∷◌, length, get_elem?, set,
  ltb, arith, Bool-cases, Option-cases, length-append, lt_of_get_elem?, zero, suc,
}
use livepeer_gateway_console.Common.Text.{Text}
use livepeer_gateway_console.Common.Result.{Result, ok, err}
use livepeer_gateway_console.Common.Assoc.{map_get}
use livepeer_gateway_console.TtlCache.{
  Entry, Cache, cached, answer_of, start_load, hit_or_load, get_or_load, settle_entry, settle,
  Event, called, settled, step,
}
use livepeer_gateway_console.TtlCache.SingleFlight.{get_or_load-cases, get_or_load-loads}
use livepeer_gateway_console.TtlCache.Past.{after, Loaded, Returned, IsRecent, IsAllowed}
use livepeer_gateway_console.TtlCache.Backed.{IsBacked, after-IsBacked}

length-set : {A : Type 0} (xs : List A) (i : ℕ) (x : A) → length (set xs i x) ≡ length xs
length-set [] i x = refl
length-set (y ∷ ys) zero x = refl
length-set (y ∷ ys) (suc i) x = ap suc (length-set ys i x)

module _ {V : Type 0} (ttl_ms : ℕ) where
  length-settle_entry :
      (i : ℕ) (res : Result V) (c : Cache V) (o : Option (Entry V))
      → length (settle_entry i res c o).entries ≡ length c.entries
  unfolding settle_entry
  length-settle_entry i res c none = refl
  length-settle_entry i (ok v) c (some e) = length-set c.entries i _
  length-settle_entry i (err f) c (some e) = length-set c.entries i _

  length-called :
      (t : ℕ) (key : Text) (c : Cache V)
      → length c.entries ≤ length (get_or_load ttl_ms t key c).0.entries
  length-called t key c = elim (get_or_load-cases ttl_ms t key c) [
    | inl unchanged ↦ rw unchanged (omega arith)
    | inr starts ↦ rw starts (unfold start_load in omega (arith, length-append c.entries _))
  ]

  length-step : (ev : Event V) (c : Cache V) → length c.entries ≤ length (step ttl_ms c ev).entries
  unfolding step
  length-step (called t key) c = length-called t key c
  length-step (settled i res) c =
      unfold settle in omega (arith, length-settle_entry i res c (get_elem? c.entries i))

  Loaded-within :
      (past : List (Event V)) (id : ℕ) (key : Text) (t : ℕ)
      → Loaded ttl_ms past id key t
      → id < length (after ttl_ms past).entries
  unfolding step
  Loaded-within [] id key t l = elim l [ ]
  Loaded-within (called s k ∷ past) id key t (Loaded.loads started) =
      let h = get_or_load-loads ttl_ms s k (after ttl_ms past) id started in
      lt_of_get_elem? _ id h.entry h.placed
  Loaded-within (ev ∷ past) id key t (Loaded.earlier l) =
      omega (arith, Loaded-within past id key t l, length-step ev (after ttl_ms past))

  cached-backed :
      (past : List (Event V)) (c : Cache V) (key : Text) (id : ℕ) (e : Entry V)
      → IsBacked ttl_ms past c
      → cached key c ≡ some (id, e)
      → (get_elem? c.entries id ≡ some e) × (e.key ≡ key)
  cached-backed past c key id e b h = elim (Option-cases (map_get key c.store)) [
    | inl missing ↦
        let gone : cached key c ≡ none = unfold cached in ground (arith, missing) in absurd (cc)
    | inr (i, stored) ↦
        let (x, at, own) = b.keyed key i stored in
        let found : cached key c ≡ some (i, x) = unfold cached in ground (arith, stored, at) in
        let place : i ≡ id = ground arith in
        let same : x ≡ e = ground arith in (rw (← place, ← same) at, rw (← same) own)
  ]

  answer_of-IsAllowed :
      (past : List (Event V)) (t : ℕ) (key : Text) (id : ℕ) (e : Entry V) (o : Option V)
      → e.settled_value ≡ o
      → IsRecent ttl_ms past t key id
      → ((v : V) → e.settled_value ≡ some v → Returned ttl_ms past id v)
      → IsAllowed ttl_ms past t key (answer_of id e)
  unfolding answer_of IsAllowed
  answer_of-IsAllowed past t key id e none pending recent returned = rw pending recent
  answer_of-IsAllowed past t key id e (some v) done recent returned =
      rw done (id, recent, returned v done)

  hit_or_load-IsAllowed :
      (past : List (Event V)) (t : ℕ) (key : Text) (o : Option (ℕ × Entry V))
      → cached key (after ttl_ms past) ≡ o
      → IsBacked ttl_ms past (after ttl_ms past)
      → IsAllowed ttl_ms past t key (hit_or_load ttl_ms t key (after ttl_ms past) o).1
  unfolding hit_or_load start_load IsAllowed IsRecent
  hit_or_load-IsAllowed past t key none found b = λ k t₀ l.
      absurd (omega (arith, Loaded-within past (length (after ttl_ms past).entries) k t₀ l))
  hit_or_load-IsAllowed past t key (some (id, e)) found b = elim (Bool-cases (ltb t e.expires_at)) [
    | inl live ↦
        let (at, own) = cached-backed past (after ttl_ms past) key id e b found in
        let (t₀, l, x) = b.loaded id e at in
        rw live (
          answer_of-IsAllowed past t key id e e.settled_value refl (t₀, rw own at l, ground arith)
            (λ v done. b.returned id e v at done))
    | inr expired ↦ rw expired (λ k t₀ l.
        absurd (omega (arith, Loaded-within past (length (after ttl_ms past).entries) k t₀ l)))
  ]

-- Whatever calls and settlements came before, in any order, a call is answered with a value that a
-- load for its key returned which began less than the time to live ago, with the promise of such a
-- load, or with the promise of a new load.
pub get_or_load-IsAllowed :
    {V : Type 0} (ttl_ms : ℕ) (past : List (Event V)) (t : ℕ) (key : Text)
    → IsAllowed ttl_ms past t key (get_or_load ttl_ms t key (after ttl_ms past)).1
unfolding get_or_load
get_or_load-IsAllowed ttl_ms past t key =
    hit_or_load-IsAllowed ttl_ms past t key (cached key (after ttl_ms past)) refl
      (after-IsBacked ttl_ms past)
