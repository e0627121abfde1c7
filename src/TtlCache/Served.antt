-- ===== src/TtlCache/Served.antt =====
-- What a later call for a key of `createTtlCache` is answered with while an entry lives.
use livepeer_gateway_console.Common.{
  ℕ, ◌+◌, ◌<◌, ◌≡◌, ◌⊎◌, inl, inr, refl, sym, ◌∙◌, Option, none, some, List, [], ◌∷◌, length,
  get_elem?, set, arith, get_elem?-set_self, get_elem?-set_ne, get_elem?-append_left,
  get_elem?-append_end, lt_of_get_elem?,
}
use livepeer_gateway_console.Common.Text.{Text}
use livepeer_gateway_console.Common.Result.{Result, ok, err}
use livepeer_gateway_console.Common.Assoc.{map_delete}
use livepeer_gateway_console.TtlCache.{
  Entry, Cache, Answer, value, awaiting, loading, answer_of, start_load, get_or_load, settle_entry,
  settle, Event, called, settled, step, run,
}
use livepeer_gateway_console.TtlCache.SingleFlight.{
  Holds-cached, get_or_load-hit, get_or_load-cases, get_or_load-starts, get_or_load-loads, AllSpare,
  run-Holds,
}
use native.Mathlib.Decide.{ℕ_discrete}

module _ {V : Type 0} where
  -- One of the events is that the entry's loader returns the value.
  pub data Returns (id : ℕ) (v : V) : List (Event V) → Type 0 where
    now : {evs : List (Event V)} → Returns id v (settled id (ok v) ∷ evs)
    later : {ev : Event V} {evs : List (Event V)} → Returns id v evs → Returns id v (ev ∷ evs)

  -- The entry at its place, whose value is that of before unless it was returned now.
  Kept : ℕ → Entry V → Event V → Cache V → Type 0
  Kept id e ev c =
      (e' : Entry V) × (get_elem? c.entries id ≡ some e')
      × ((v : V)
          → e'.settled_value ≡ some v
          → (e.settled_value ≡ some v) ⊎ (ev ≡ settled id (ok v)))

  set-Kept :
      (id i : ℕ) (e x x' : Entry V) (ev : Event V) (c : Cache V) (store : List (Text × ℕ))
      → get_elem? c.entries id ≡ some e
      → get_elem? c.entries i ≡ some x
      → (i ≡ id
          → (v : V) → x'.settled_value ≡ some v
          → (x.settled_value ≡ some v) ⊎ (ev ≡ settled id (ok v)))
      → Kept id e ev (record { store = store; entries = set c.entries i x' })
  unfolding Kept
  set-Kept id i e x x' ev c store placed at written = elim (ℕ_discrete i id) [
    | yes here ↦
        let old : x ≡ e = ground (arith, placed, at, here) in
        (
          x',
          rw (← here) (get_elem?-set_self c.entries i x' (lt_of_get_elem? c.entries i x at)),
          λ v h. rw (← old) (written here v h),
        )
    | no other ↦ (e, get_elem?-set_ne c.entries i id x' other ∙ placed, λ v h. inl h)
  ]

  settle_entry-Kept :
      (id i : ℕ) (e : Entry V) (res : Result V) (c : Cache V) (o : Option (Entry V))
      → get_elem? c.entries id ≡ some e
      → get_elem? c.entries i ≡ o
      → Kept id e (settled i res) (settle_entry i res c o)
  unfolding settle_entry Kept
  settle_entry-Kept id i e res c none placed at = (e, placed, λ v h. inl h)
  settle_entry-Kept id i e (ok u) c (some x) placed at =
      set-Kept id i e x _ (settled i (ok u)) c c.store placed at
        (λ here v h. let same : u ≡ v = ground arith in inr (rw (here, same) refl))
  settle_entry-Kept id i e (err f) c (some x) placed at =
      set-Kept id i e x _ (settled i (err f)) c (map_delete x.key c.store) placed at
        (λ here v h. inl h)

  called-Kept :
      (ttl_ms t id : ℕ) (k : Text) (e : Entry V) (c : Cache V)
      → get_elem? c.entries id ≡ some e
      → Kept id e (called t k) (get_or_load ttl_ms t k c).0
  unfolding Kept
  called-Kept ttl_ms t id k e c placed = elim (get_or_load-cases ttl_ms t k c) [
    | inl unchanged ↦ rw unchanged (e, placed, λ v h. inl h)
    | inr loads ↦
        rw loads
          (e, unfold start_load in get_elem?-append_left c.entries _ id e placed, λ v h. inl h)
  ]

  step-Kept :
      (ttl_ms id : ℕ) (e : Entry V) (c : Cache V) (ev : Event V)
      → get_elem? c.entries id ≡ some e
      → Kept id e ev (step ttl_ms c ev)
  unfolding step settle
  step-Kept ttl_ms id e c (settled i res) placed =
      settle_entry-Kept id i e res c (get_elem? c.entries i) placed refl
  step-Kept ttl_ms id e c (called t k) placed = called-Kept ttl_ms t id k e c placed

  -- The entry at its place behind all events; its value, if it has one, was there or was returned.
  run-Kept :
      (ttl_ms id : ℕ) (e : Entry V) (c : Cache V) (evs : List (Event V))
      → get_elem? c.entries id ≡ some e
      → (e' : Entry V) × (get_elem? (run ttl_ms c evs).entries id ≡ some e')
        × ((v : V) → e'.settled_value ≡ some v → (e.settled_value ≡ some v) ⊎ Returns id v evs)
  unfolding run Kept
  run-Kept ttl_ms id e c [] placed = (e, placed, λ v h. inl h)
  run-Kept ttl_ms id e c (ev ∷ evs) placed =
      let (e₁, placed₁, from₁) = step-Kept ttl_ms id e c ev placed in
      let (e₂, placed₂, from₂) = run-Kept ttl_ms id e₁ (step ttl_ms c ev) evs placed₁ in
      (
        e₂,
        placed₂,
        λ v h. elim (from₂ v h) [
          | inr returned ↦ inr (Returns.later returned)
          | inl before ↦ elim (from₁ v before) [
            | inl first ↦ inl first
            | inr this ↦ inr (rw this Returns.now)
          ]
        ],
      )

  -- What a call may be answered with by an entry: its promise, or the value its loader returned.
  unfoldable pub IsServed : ℕ → List (Event V) → Answer V → Type 0
  IsServed id evs (value v) = Returns id v evs
  IsServed id evs (awaiting i) = i ≡ id
  IsServed id evs (loading i) = ⊥

  answer_of-IsServed :
      (id : ℕ) (evs : List (Event V)) (e : Entry V) (o : Option V)
      → e.settled_value ≡ o
      → ((v : V) → e.settled_value ≡ some v → Returns id v evs)
      → IsServed id evs (answer_of id e)
  unfolding answer_of IsServed
  answer_of-IsServed id evs e none unset from = rw unset refl
  answer_of-IsServed id evs e (some v) set from = rw set (from v set)

  start_load-unset :
      (ttl_ms t : ℕ) (key : Text) (c : Cache V)
      → (e : Entry V) × (get_elem? (start_load ttl_ms t key c).0.entries (length c.entries)
          ≡ some e)
        × (e.settled_value ≡ none)
  unfolding start_load
  start_load-unset ttl_ms t key c = (_, get_elem?-append_end c.entries _, refl)

  fresh-unset :
      (ttl_ms t : ℕ) (key : Text) (c : Cache V) (id : ℕ)
      → (get_or_load ttl_ms t key c).1 ≡ loading id
      → (e : Entry V) × (get_elem? (get_or_load ttl_ms t key c).0.entries id ≡ some e)
        × (e.settled_value ≡ none)
  fresh-unset ttl_ms t key c id loads =
      let (starts, place) = get_or_load-starts ttl_ms t key c id loads in
      rw (starts, ← place) (start_load-unset ttl_ms t key c)

-- A call that loads at time `t` makes an entry that serves every later call for the key before
-- `t + ttl`, whatever other calls and settlings come between, unless a load of the key fails: the
-- later call changes nothing, calls no loader, and is answered with the promise of that entry or
-- with a value that the entry's own loader has returned.
pub single_flight :
    {V : Type 0} (ttl_ms t : ℕ) (key : Text) (c : Cache V) (id : ℕ) (evs : List (Event V)) (t' : ℕ)
    → (get_or_load ttl_ms t key c).1 ≡ loading id
    → AllSpare ttl_ms key (t + ttl_ms) (get_or_load ttl_ms t key c).0 evs
    → t' < t + ttl_ms
    → let after = run ttl_ms (get_or_load ttl_ms t key c).0 evs in
      ((get_or_load ttl_ms t' key after).0 ≡ after)
      × IsServed id evs (get_or_load ttl_ms t' key after).1
single_flight ttl_ms t key c id evs t' loads spare early =
    let begun = (get_or_load ttl_ms t key c).0 in
    let after = run ttl_ms begun evs in
    let h =
      run-Holds ttl_ms key id (t + ttl_ms) begun evs spare
        (get_or_load-loads ttl_ms t key c id loads) in
    let (e, placed, unset) = fresh-unset ttl_ms t key c id loads in
    let (e', placed', from) = run-Kept ttl_ms id e begun evs placed in
    let same : e' ≡ h.entry = ground (arith, placed', h.placed) in
    let live : t' < h.entry.expires_at = rw h.expires early in
    rw
      (get_or_load-hit ttl_ms t' key after id h.entry (Holds-cached key id (t + ttl_ms) after h)
        live)
      (
        refl,
        answer_of-IsServed id evs h.entry h.entry.settled_value refl (λ v set.
            elim (from v (rw same set)) [
              | inl old ↦ let clash : none ≡ some v = sym unset ∙ old in absurd (cc)
              | inr returned ↦ returned
            ]),
      )
