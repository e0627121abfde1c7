-- ===== src/TtlCache/SingleFlight.antt =====
-- The calls for a key of `createTtlCache` while an entry lives.
use livepeer_gateway_console.Common.{
  ℕ, ◌+◌, ◌<◌, ◌≡◌, ◌⊎◌, inl, inr, refl, sym, ap, ◌∙◌, true, false, Option, none, some, List, [],
  ◌∷◌, length, get_elem?, set, ltb, arith, Bool-cases, get_elem?-set_self, get_elem?-set_ne,
  get_elem?-append_left, get_elem?-append_end, lt_of_get_elem?,
}
use livepeer_gateway_console.Common.Text.{Text, text_eq, text_eq_iff, text_eq_refl}
use livepeer_gateway_console.Common.Result.{Failure, Result, ok, err}
use livepeer_gateway_console.Common.Assoc.{map_get, map_delete, get-set, get-delete}
use livepeer_gateway_console.TtlCache.{
  Entry, Cache, loading, cached, answer_of, start_load, hit_or_load, get_or_load, settle_entry,
  settle, Event, called, settled, step, run,
}
use native.Mathlib.Decide.{ℕ_discrete}

module _ {V : Type 0} where
  -- The map holds the entry, which expires at the given time.
  pub record Holds (key : Text) (id : ℕ) (expiry : ℕ) (c : Cache V) : Type 0 where
    pub stored : map_get key c.store ≡ some id
    pub entry : Entry V
    pub placed : get_elem? c.entries id ≡ some entry
    pub expires : entry.expires_at ≡ expiry

  pub Holds-cached :
      (key : Text) (id expiry : ℕ) (c : Cache V)
      → (h : Holds key id expiry c) → cached key c ≡ some (id, h.entry)
  unfolding cached
  Holds-cached key id expiry c h = ground (arith, h.stored, h.placed)

  pub get_or_load-hit :
      (ttl_ms t : ℕ) (key : Text) (c : Cache V) (id : ℕ) (e : Entry V)
      → cached key c ≡ some (id, e)
      → t < e.expires_at
      → get_or_load ttl_ms t key c ≡ (c, answer_of id e)
  unfolding get_or_load
  get_or_load-hit ttl_ms t key c id e found live = rw found (ground arith)

  hit_or_load-cases :
      (ttl_ms t : ℕ) (key : Text) (c : Cache V) (o : Option (ℕ × Entry V))
      → ((hit_or_load ttl_ms t key c o).0 ≡ c)
        ⊎ (hit_or_load ttl_ms t key c o ≡ start_load ttl_ms t key c)
  unfolding hit_or_load
  hit_or_load-cases ttl_ms t key c none = inr refl
  hit_or_load-cases ttl_ms t key c (some (id, e)) = elim (Bool-cases (ltb t e.expires_at)) [
    | inl live ↦ inl (rw live refl)
    | inr expired ↦ inr (rw expired refl)
  ]

  -- A call returns what is at hand and changes nothing, or starts a load.
  pub get_or_load-cases :
      (ttl_ms t : ℕ) (key : Text) (c : Cache V)
      → ((get_or_load ttl_ms t key c).0 ≡ c)
        ⊎ (get_or_load ttl_ms t key c ≡ start_load ttl_ms t key c)
  get_or_load-cases ttl_ms t key c =
      unfold get_or_load in hit_or_load-cases ttl_ms t key c (cached key c)

  start_load-Holds :
      (ttl_ms t : ℕ) (key : Text) (c : Cache V)
      → Holds key (length c.entries) (t + ttl_ms) (start_load ttl_ms t key c).0
  unfolding start_load
  start_load-Holds ttl_ms t key c = record {
    stored = rw (get-set, text_eq_refl) refl;
    entry = _;
    placed = get_elem?-append_end c.entries _;
    expires = refl;
  }

  start_load-Holds_other :
      (ttl_ms t : ℕ) (k key : Text) (id expiry : ℕ) (c : Cache V)
      → text_eq k key ≡ false
      → Holds key id expiry c
      → Holds key id expiry (start_load ttl_ms t k c).0
  unfolding start_load
  start_load-Holds_other ttl_ms t k key id expiry c ne h = record {
    stored = rw (get-set, ne) h.stored;
    entry = h.entry;
    placed = get_elem?-append_left c.entries _ id h.entry h.placed;
    expires = h.expires;
  }

  -- A call for another key, or one for the key before it expires, leaves the entry in place.
  called-Holds :
      (ttl_ms t : ℕ) (k key : Text) (id expiry : ℕ) (c : Cache V)
      → (text_eq k key ≡ true → t < expiry)
      → Holds key id expiry c
      → Holds key id expiry (get_or_load ttl_ms t k c).0
  called-Holds ttl_ms t k key id expiry c early h = elim (Bool-cases (text_eq k key)) [
    | inl same ↦
        let e : k ≡ key = (text_eq_iff k key).0 same in
        let live : t < h.entry.expires_at = rw h.expires (early same) in
        rw (e, get_or_load-hit ttl_ms t key c id h.entry (Holds-cached key id expiry c h) live) h
    | inr ne ↦ elim (get_or_load-cases ttl_ms t k c) [
      | inl unchanged ↦ rw unchanged h
      | inr loads ↦ rw loads (start_load-Holds_other ttl_ms t k key id expiry c ne h)
    ]
  ]

  -- Writing an entry again with the same expiry.
  set-Holds :
      (key : Text) (id expiry : ℕ) (c : Cache V) (m : List (Text × ℕ)) (i : ℕ) (e e' : Entry V)
      → map_get key m ≡ some id
      → get_elem? c.entries i ≡ some e
      → e'.expires_at ≡ e.expires_at
      → Holds key id expiry c
      → Holds key id expiry (record { store = m; entries = set c.entries i e' })
  set-Holds key id expiry c m i e e' stored placed same h = elim (ℕ_discrete i id) [
    | yes here ↦
        let one : some e ≡ some h.entry = sym placed ∙ rw here h.placed in
        let old : e ≡ h.entry = cc in
        record {
          stored = stored;
          entry = e';
          placed =
              rw (← here)
                (get_elem?-set_self c.entries i e' (lt_of_get_elem? c.entries i e placed));
          expires = same ∙ ap (λ (x : Entry V). x.expires_at) old ∙ h.expires;
        }
    | no other ↦ record {
      stored = stored;
      entry = h.entry;
      placed = get_elem?-set_ne c.entries i id e' other ∙ h.placed;
      expires = h.expires;
    }
  ]

  settle_entry-Holds :
      (key : Text) (id expiry i : ℕ) (res : Result V) (c : Cache V) (o : Option (Entry V))
      → get_elem? c.entries i ≡ o
      → ((f : Failure) (e : Entry V) → res ≡ err f → o ≡ some e → text_eq e.key key ≡ false)
      → Holds key id expiry c
      → Holds key id expiry (settle_entry i res c o)
  unfolding settle_entry
  settle_entry-Holds key id expiry i (ok v) c none placed other h = h
  settle_entry-Holds key id expiry i (err f) c none placed other h = h
  settle_entry-Holds key id expiry i (ok v) c (some e) placed other h =
      set-Holds key id expiry c c.store i e _ h.stored placed refl h
  settle_entry-Holds key id expiry i (err f) c (some e) placed other h =
      set-Holds key id expiry c (map_delete e.key c.store) i e _
        (rw (get-delete, other f e refl refl) h.stored) placed refl h

  -- What an event must not be, for an entry to stay: a call for its key after it has expired, or
  -- the failure of a load of its key.
  abbrev pub Spares : Text → ℕ → Cache V → Event V → Type 0
  Spares key expiry c (called t k) = text_eq k key ≡ true → t < expiry
  Spares key expiry c (settled i res) =
      (f : Failure) (e : Entry V)
      → res ≡ err f
      → get_elem? c.entries i ≡ some e
      → text_eq e.key key ≡ false

  abbrev pub AllSpare : ℕ → Text → ℕ → Cache V → List (Event V) → Type 0
  AllSpare ttl_ms key expiry c [] = Unit
  AllSpare ttl_ms key expiry c (ev ∷ evs) =
      Spares key expiry c ev × AllSpare ttl_ms key expiry (step ttl_ms c ev) evs

  step-Holds :
      (ttl_ms : ℕ) (key : Text) (id expiry : ℕ) (c : Cache V) (ev : Event V)
      → Spares key expiry c ev
      → Holds key id expiry c
      → Holds key id expiry (step ttl_ms c ev)
  unfolding step
  step-Holds ttl_ms key id expiry c (called t k) spares h =
      called-Holds ttl_ms t k key id expiry c spares h
  step-Holds ttl_ms key id expiry c (settled i res) spares h =
      unfold settle in
      settle_entry-Holds key id expiry i res c (get_elem? c.entries i) refl spares h

  pub run-Holds :
      (ttl_ms : ℕ) (key : Text) (id expiry : ℕ) (c : Cache V) (evs : List (Event V))
      → AllSpare ttl_ms key expiry c evs
      → Holds key id expiry c
      → Holds key id expiry (run ttl_ms c evs)
  unfolding run
  run-Holds ttl_ms key id expiry c [] spare h = h
  run-Holds ttl_ms key id expiry c (ev ∷ evs) (s, spare) h =
      run-Holds ttl_ms key id expiry (step ttl_ms c ev) evs spare
        (step-Holds ttl_ms key id expiry c ev s h)

  answer_of-loads : (i id : ℕ) (e : Entry V) → answer_of i e ≡ loading id → ⊥
  unfolding answer_of
  answer_of-loads i id e h = ground arith

  hit_or_load-starts :
      (ttl_ms t : ℕ) (key : Text) (c : Cache V) (id : ℕ) (o : Option (ℕ × Entry V))
      → (hit_or_load ttl_ms t key c o).1 ≡ loading id
      → (hit_or_load ttl_ms t key c o ≡ start_load ttl_ms t key c) × (length c.entries ≡ id)
  unfolding hit_or_load
  hit_or_load-starts ttl_ms t key c id none h = (refl, unfold start_load in ground arith)
  hit_or_load-starts ttl_ms t key c id (some (i, e)) h = elim (Bool-cases (ltb t e.expires_at)) [
    | inl live ↦ absurd (answer_of-loads i id e (rw live at h))
    | inr expired ↦
        let started : (start_load ttl_ms t key c).1 ≡ loading id = rw expired at h in
        (rw expired refl, unfold start_load in ground arith)
  ]

  -- A call that loads makes the next entry.
  pub get_or_load-starts :
      (ttl_ms t : ℕ) (key : Text) (c : Cache V) (id : ℕ)
      → (get_or_load ttl_ms t key c).1 ≡ loading id
      → (get_or_load ttl_ms t key c ≡ start_load ttl_ms t key c) × (length c.entries ≡ id)
  unfolding get_or_load
  get_or_load-starts ttl_ms t key c id h = hit_or_load-starts ttl_ms t key c id (cached key c) h

  pub get_or_load-loads :
      (ttl_ms t : ℕ) (key : Text) (c : Cache V) (id : ℕ)
      → (get_or_load ttl_ms t key c).1 ≡ loading id
      → Holds key id (t + ttl_ms) (get_or_load ttl_ms t key c).0
  get_or_load-loads ttl_ms t key c id h =
      let (starts, place) = get_or_load-starts ttl_ms t key c id h in
      rw (starts, ← place) (start_load-Holds ttl_ms t key c)
