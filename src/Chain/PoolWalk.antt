-- ===== src/Chain/PoolWalk.antt =====
-- The pool walk against the linked list that the BondingManager keeps.
use mathlib.Core.List.{append-nil, append_assoc}
use livepeer_gateway_console.Common.{
  ℕ, zero, suc, ◌≤◌, ◌<◌, ◌≡◌, ◌↔◌, refl, sym, ap, ◌∙◌, Bool, true, false, List, [], ◌∷◌, ◌++◌,
  length, arith, Bool-cases, inl, inr,
}
use livepeer_gateway_console.Common.Text.{Text, text_eq, to_lower_case}
use livepeer_gateway_console.Common.Result.{ok, err, bind_ok, ok-injective}
use livepeer_gateway_console.Chain.{
  BondingManager, BondingPoolEntry, pool_entry, zero_address, pool_walk_safety_limit, walk_failure,
  walk, bonding_manager_list_pool,
}

abbrev is_end : Text → Bool
is_end addr = text_eq (to_lower_case addr) zero_address

-- The list that begins at an address: it ends at the zero address, in any case, and an entry has
-- the stake of its address and is followed by the list of the next one.
pub data LinkedFrom (bm : BondingManager) : Text → List BondingPoolEntry → Type 0 where
  done : (addr : Text) → is_end addr ≡ true → LinkedFrom bm addr []
  link :
      (addr : Text) (delegated : ℕ) (addr' : Text) {es : List BondingPoolEntry}
      → is_end addr ≡ false
      → bm.delegated_amount addr ≡ ok delegated
      → bm.next_transcoder addr ≡ ok addr'
      → LinkedFrom bm addr' es
      → LinkedFrom bm addr (pool_entry addr delegated ∷ es)

module _ (bm : BondingManager) where
  walk_complete :
      (rounds : ℕ) (out : List BondingPoolEntry) {addr : Text} {es : List BondingPoolEntry}
      → LinkedFrom bm addr es
      → length es ≤ rounds
      → walk bm rounds addr out ≡ ok (out ++ es)
  unfolding walk
  walk_complete zero out (done addr e) h = rw (e, append-nil) refl
  walk_complete (suc rounds) out (done addr e) h = rw (e, append-nil) refl
  walk_complete zero out (link addr d addr' e p q pool) h = absurd (omega arith)
  walk_complete (suc rounds) out (link addr d addr' {es} e p q pool) h =
      rw (e, p, q)
        (walk_complete rounds (out ++ pool_entry addr d ∷ []) pool (omega arith)
          ∙ ap ok (append_assoc out (pool_entry addr d ∷ []) es))

  walk_too_long :
      (rounds : ℕ) (out : List BondingPoolEntry) {addr : Text} {es : List BondingPoolEntry}
      → LinkedFrom bm addr es
      → rounds < length es
      → walk bm rounds addr out ≡ err walk_failure
  unfolding walk
  walk_too_long rounds out (done addr e) h = absurd (omega arith)
  walk_too_long zero out (link addr d addr' e p q pool) h = rw e refl
  walk_too_long (suc rounds) out (link addr d addr' e p q pool) h =
      rw (e, p, q) (walk_too_long rounds (out ++ pool_entry addr d ∷ []) pool (omega arith))

  walk_sound :
      (rounds : ℕ) (addr : Text) (out es : List BondingPoolEntry)
      → walk bm rounds addr out ≡ ok es
      → (more : List BondingPoolEntry) × (es ≡ out ++ more)
        × LinkedFrom bm addr more
        × (length more ≤ rounds)
  unfolding walk
  walk_sound zero addr out es h = elim (Bool-cases (is_end addr)) [
    | inl e ↦
        ([], sym (ok-injective out es (rw e at h)) ∙ sym (append-nil out), done addr e, omega arith)
    | inr e ↦ absurd (cc (rw e at h))
  ]
  walk_sound (suc rounds) addr out es h = elim (Bool-cases (is_end addr)) [
    | inl e ↦
        ([], sym (ok-injective out es (rw e at h)) ∙ sym (append-nil out), done addr e, omega arith)
    | inr e ↦
        let (d, p, rest) = bind_ok (bm.delegated_amount addr) _ (rw e at h) in
        let (addr', q, later) = bind_ok (bm.next_transcoder addr) _ rest in
        let (more, same, pool, short) =
          walk_sound rounds addr' (out ++ pool_entry addr d ∷ []) es later in
        (
          pool_entry addr d ∷ more,
          same ∙ append_assoc out (pool_entry addr d ∷ []) more,
          link addr d addr' e p q pool,
          omega arith,
        )
  ]

  -- The walk returns the list of the pool, in its order and with its stakes, exactly when the reads
  -- lead from the first address to the zero address over at most 1000 entries. On any other chain,
  -- a cyclic one too, it ends with a failure.
  pub list_pool_iff :
      (es : List BondingPoolEntry)
      → (bonding_manager_list_pool bm ≡ ok es) ↔ (
          (addr : Text) × (bm.first_transcoder ≡ ok addr)
          × LinkedFrom bm addr es
          × (length es ≤ pool_walk_safety_limit))
  unfolding bonding_manager_list_pool
  list_pool_iff es = (
    λ h.
        let (addr, p, walked) = bind_ok bm.first_transcoder _ h in
        let (more, same, pool, short) = walk_sound pool_walk_safety_limit addr [] es walked in
        (addr, p, rw same pool, rw same short),
    λ (addr, p, pool, short). simp p (walk_complete pool_walk_safety_limit [] pool short),
  )

  -- A pool of more than 1000 entries is refused with the guard's failure.
  pub list_pool_too_long :
      (addr : Text) (es : List BondingPoolEntry)
      → bm.first_transcoder ≡ ok addr
      → LinkedFrom bm addr es
      → pool_walk_safety_limit < length es
      → bonding_manager_list_pool bm ≡ err walk_failure
  unfolding bonding_manager_list_pool
  list_pool_too_long addr es p pool long =
      simp p (walk_too_long pool_walk_safety_limit [] pool long)
