-- ===== src/TtlCache/Backed.antt =====
-- The entries of the cache, against the calls and settlements that made them.
use livepeer_gateway_console.Common.{
  ℕ, ◌+◌, ◌≡◌, ◌⊎◌, inl, inr, refl, sym, ap, ◌∙◌, Option, none, some, List, [], ◌∷◌, ◌++◌, length,
  get_elem?, set, arith, Bool-cases, get_elem?-set_self, get_elem?-set_ne, get_elem?-append_end,
  get_elem?-append_left, lt_of_get_elem?, zero, suc,
}
use livepeer_gateway_console.Common.Text.{Text, text_eq, text_eq→eq}
use livepeer_gateway_console.Common.Result.{Result, ok, err}
use livepeer_gateway_console.Common.Assoc.{map_get, map_delete, get-set, get-delete}
use livepeer_gateway_console.TtlCache.{
  Promise, Entry, Cache, Answer, loading, start_load, get_or_load, settle_entry, settle, Event,
  called, settled, step,
}
use livepeer_gateway_console.TtlCache.SingleFlight.{get_or_load-cases}
use native.Mathlib.Decide.{ℕ_discrete}
use livepeer_gateway_console.TtlCache.Past.{after, Loaded, Returned}

get_elem?-append_cases :
    {A : Type 0} (xs : List A) (x y : A) (i : ℕ)
    → get_elem? (xs ++ x ∷ []) i ≡ some y
    → (get_elem? xs i ≡ some y) ⊎ ((i ≡ length xs) × (x ≡ y))
get_elem?-append_cases [] x y zero h = inr (refl, ground arith)
get_elem?-append_cases [] x y (suc i) h = absurd (cc)
get_elem?-append_cases (z ∷ xs) x y zero h = inl h
get_elem?-append_cases (z ∷ xs) x y (suc i) h = elim (get_elem?-append_cases xs x y i h) [
  | inl old ↦ inl old
  | inr (end, new) ↦ inr (ap suc end, new)
]

no_key : (key : Text) (id : ℕ) → map_get {V = ℕ} key [] ≡ some id → ⊥
unfolding map_get
no_key key id h = cc

module _ {V : Type 0} (ttl_ms : ℕ) where
  -- Every entry of the cache goes back to a load, and every value in it to what that load returned.
  pub record IsBacked (past : List (Event V)) (c : Cache V) : Type 0 where
    pub loaded :
        (id : ℕ) (e : Entry V)
        → get_elem? c.entries id ≡ some e
        → (t : ℕ) × Loaded ttl_ms past id e.key t × (e.expires_at ≡ t + ttl_ms)
    pub returned :
        (id : ℕ) (e : Entry V) (v : V)
        → get_elem? c.entries id ≡ some e
        → e.settled_value ≡ some v
        → Returned ttl_ms past id v
    pub keyed :
        (key : Text) (id : ℕ)
        → map_get key c.store ≡ some id
        → (e : Entry V) × (get_elem? c.entries id ≡ some e) × (e.key ≡ key)

  IsBacked-earlier :
      (ev : Event V) (past : List (Event V)) (c : Cache V)
      → IsBacked past c
      → IsBacked (ev ∷ past) c
  IsBacked-earlier ev past c b = record {
    loaded = λ id e at. let (t, l, x) = b.loaded id e at in (t, Loaded.earlier l, x);
    returned = λ id e v at done. Returned.earlier (b.returned id e v at done);
    keyed = b.keyed;
  }

  -- The entry of a new load.
  abbrev fresh_entry : ℕ → Text → Entry V
  fresh_entry t key = record {
    expires_at = t + ttl_ms;
    promise = Promise.pending;
    settled_value = none;
    key = key;
  }

  start_load-IsBacked :
      (past : List (Event V)) (t : ℕ) (key : Text)
      → (get_or_load ttl_ms t key (after ttl_ms past)).1
        ≡ loading (length (after ttl_ms past).entries)
      → IsBacked past (after ttl_ms past)
      → IsBacked (called t key ∷ past) (start_load ttl_ms t key (after ttl_ms past)).0
  unfolding start_load
  start_load-IsBacked past t key started b =
      let c = after ttl_ms past in
      record {
        loaded = λ id e at. elim (get_elem?-append_cases c.entries (fresh_entry t key) e id at) [
          | inl old ↦ let (t₀, l, x) = b.loaded id e old in (t₀, Loaded.earlier l, x)
          | inr (end, new) ↦ rw (end, sym new) (t, Loaded.loads started, refl)
        ];
        returned = λ id e v at done.
            elim (get_elem?-append_cases c.entries (fresh_entry t key) e id at) [
              | inl old ↦ Returned.earlier (b.returned id e v old done)
              | inr (end, new) ↦
                  let unset : none ≡ some v = ap (λ (x : Entry V). x.settled_value) new ∙ done in
                  absurd (cc)
            ];
        keyed = λ k id stored. elim (Bool-cases (text_eq key k)) [
          | inl same ↦
              let end : some (length c.entries) ≡ some id = rw (get-set, same) at stored in
              let place : length c.entries ≡ id = ground arith in
              rw (← place) (
                fresh_entry t key,
                get_elem?-append_end c.entries (fresh_entry t key),
                text_eq→eq key k same,
              )
          | inr other ↦
              let (e, at, own) = b.keyed k id (rw (get-set, other) at stored) in
              (e, get_elem?-append_left c.entries _ id e at, own)
        ];
      }

  -- Writing an entry again with the same key and expiry.
  set-IsBacked :
      (past past' : List (Event V)) (c : Cache V) (m : List (Text × ℕ)) (i : ℕ) (e e' : Entry V)
      → IsBacked past c
      → ((id : ℕ) (k : Text) (t : ℕ) → Loaded ttl_ms past id k t → Loaded ttl_ms past' id k t)
      → ((id : ℕ) (v : V) → Returned ttl_ms past id v → Returned ttl_ms past' id v)
      → ((k : Text) (id : ℕ) → map_get k m ≡ some id → map_get k c.store ≡ some id)
      → get_elem? c.entries i ≡ some e
      → e'.key ≡ e.key
      → e'.expires_at ≡ e.expires_at
      → ((v : V) → e'.settled_value ≡ some v → Returned ttl_ms past' i v)
      → IsBacked past' (record { store = m; entries = set c.entries i e' })
  set-IsBacked past past' c m i e e' b l_mono r_mono m_mono placed key expiry value_of =
      let within = lt_of_get_elem? c.entries i e placed in
      let written = get_elem?-set_self c.entries i e' within in
      record {
        loaded = λ id x at. elim (ℕ_discrete i id) [
          | yes here ↦
              let now : e' ≡ x = ground (arith, written, at, here) in
              let (t, l, old) = b.loaded i e placed in
              rw (← here, ← now, key, expiry) (t, l_mono i e.key t l, old)
          | no other ↦
              let (t, l, old) =
                b.loaded id x (sym (get_elem?-set_ne c.entries i id e' other) ∙ at) in
              (t, l_mono id x.key t l, old)
        ];
        returned = λ id x v at done. elim (ℕ_discrete i id) [
          | yes here ↦
              let now : e' ≡ x = ground (arith, written, at, here) in
              rw (← here) (value_of v (rw now done))
          | no other ↦
              r_mono id v
                (b.returned id x v (sym (get_elem?-set_ne c.entries i id e' other) ∙ at) done)
        ];
        keyed = λ k id stored.
            let (x, at, same) = b.keyed k id (m_mono k id stored) in
            elim (ℕ_discrete i id) [
              | yes here ↦
                  let old : e ≡ x = ground (arith, placed, at, here) in
                  (e', rw (← here) written, key ∙ rw old same)
              | no other ↦ (x, get_elem?-set_ne c.entries i id e' other ∙ at, same)
            ];
      }

  deleted_stays :
      (key k : Text) (id : ℕ) (c : Cache V)
      → map_get k (map_delete key c.store) ≡ some id
      → map_get k c.store ≡ some id
  deleted_stays key k id c h = elim (Bool-cases (text_eq key k)) [
    | inl same ↦ let gone : none ≡ some id = rw (get-delete, same) at h in absurd (cc)
    | inr other ↦ rw (get-delete, other) at h
  ]

  settle_entry-IsBacked :
      (past : List (Event V)) (c : Cache V) (i : ℕ) (res : Result V) (o : Option (Entry V))
      → get_elem? c.entries i ≡ o
      → IsBacked past c
      → IsBacked (settled i res ∷ past) (settle_entry i res c o)
  unfolding settle_entry
  settle_entry-IsBacked past c i res none placed b = IsBacked-earlier (settled i res) past c b
  settle_entry-IsBacked past c i (ok v) (some e) placed b =
      set-IsBacked past (settled i (ok v) ∷ past) c c.store i e _ b (λ id k t l. Loaded.earlier l)
        (λ id u r. Returned.earlier r) (λ k id h. h) placed refl refl
        (λ u h. let same : v ≡ u = ground arith in rw (← same) Returned.returns)
  settle_entry-IsBacked past c i (err f) (some e) placed b =
      set-IsBacked past (settled i (err f) ∷ past) c _ i e _ b (λ id k t l. Loaded.earlier l)
        (λ id u r. Returned.earlier r) (λ k id h. deleted_stays e.key k id c h) placed refl refl
        (λ u h. Returned.earlier (b.returned i e u placed h))

  settle-IsBacked :
      (past : List (Event V)) (c : Cache V) (i : ℕ) (res : Result V)
      → IsBacked past c
      → IsBacked (settled i res ∷ past) (settle i res c)
  unfolding settle
  settle-IsBacked past c i res b = settle_entry-IsBacked past c i res (get_elem? c.entries i) refl b

  get_or_load-IsBacked :
      (past : List (Event V)) (t : ℕ) (key : Text)
      → IsBacked past (after ttl_ms past)
      → IsBacked (called t key ∷ past) (get_or_load ttl_ms t key (after ttl_ms past)).0
  get_or_load-IsBacked past t key b = elim (get_or_load-cases ttl_ms t key (after ttl_ms past)) [
    | inl unchanged ↦ rw unchanged (IsBacked-earlier (called t key) past (after ttl_ms past) b)
    | inr starts ↦ rw starts (
        start_load-IsBacked past t key
          (ap (λ (r : Cache V × Answer V). r.1) starts ∙ unfold start_load in refl) b)
  ]

  pub after-IsBacked : (past : List (Event V)) → IsBacked past (after ttl_ms past)
  unfolding step
  after-IsBacked [] = record {
    loaded = λ id e at. absurd (cc);
    returned = λ id e v at done. absurd (cc);
    keyed = λ key id stored. absurd (no_key key id stored);
  }
  after-IsBacked (called t key ∷ past) = get_or_load-IsBacked past t key (after-IsBacked past)
  after-IsBacked (settled id res ∷ past) =
      settle-IsBacked past (after ttl_ms past) id res (after-IsBacked past)
