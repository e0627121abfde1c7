-- ===== src/Repo/Falling.antt =====
-- The order of a query by a unique key: rows by falling key, which is the reverse of their
-- insertion order, whatever way the database sorts.
use mathlib.Core.Logic.Or
use mathlib.Core.List.{append-nil, Perm, Mem, mem-cons, not-mem-nil, perm_middle}
use mathlib.Core.List.Perm
use livepeer_gateway_console.Common.{
  ℕ, suc, ◌≤◌, ◌<◌, ◌≡◌, refl, sym, ap, Bool, List, [], ◌∷◌, ◌++◌, All, All-append, All-mono, keep,
  arith, Bool-cases, inl, inr,
}
use livepeer_gateway_console.Common.Int.{pos, ◌≤ℤ◌}
use livepeer_gateway_console.Repo.{IsDescending}
use livepeer_gateway_console.Repo.Inserts.{IsAscending}
use native.Mathlib.Bridge.{le_prop}
use mathlib.Core.Path.{subst}

module _ {A : Type 0} where
  -- The last inserted first.
  abbrev pub newest_first : List A → List A
  newest_first [] = []
  newest_first (x ∷ xs) = newest_first xs ++ x ∷ []

  pub newest_first-Perm : (xs : List A) → Perm (newest_first xs) xs
  newest_first-Perm [] = Perm.refl []
  newest_first-Perm (x ∷ xs) =
      let ih : Perm (x ∷ newest_first xs) (x ∷ xs) = Perm.cons x (newest_first-Perm xs) in
      Perm.trans (perm_middle (newest_first xs) []) (rw append-nil ih)

  pub newest_first-All : (P : A → Type 0) (xs : List A) → All P xs → All P (newest_first xs)
  newest_first-All P [] h = tt
  newest_first-All P (x ∷ xs) (p, h) =
      All-append P (newest_first xs) (x ∷ []) (newest_first-All P xs h) (p, tt)

  pub keep-append : (p : A → Bool) (xs ys : List A) → keep p (xs ++ ys) ≡ keep p xs ++ keep p ys
  keep-append p [] ys = refl
  keep-append p (x ∷ xs) ys = ground (arith, keep-append p xs ys)

  pub keep-newest_first :
      (p : A → Bool) (xs : List A) → keep p (newest_first xs) ≡ newest_first (keep p xs)
  keep-newest_first p [] = refl
  keep-newest_first p (x ∷ xs) = elim (Bool-cases (p x)) [
    | inl kept ↦ rw (keep-append, kept, keep-newest_first p xs) refl
    | inr left ↦ rw (keep-append, left, keep-newest_first p xs) (append-nil _)
  ]

  pub keep-All_of : (P : A → Type 0) (p : A → Bool) (xs : List A) → All P xs → All P (keep p xs)
  keep-All_of P p [] h = tt
  keep-All_of P p (x ∷ xs) (q, h) = elim (Bool-cases (p x)) [
    | inl kept ↦ rw kept (q, keep-All_of P p xs h)
    | inr left ↦ rw left (keep-All_of P p xs h)
  ]

le_of_mem :
    {A : Type 0} (key : A → ℕ) {a : A} (n : ℕ) (xs : List A)
    → All (λ y. key y ≤ n) xs
    → Mem a xs
    → key a ≤ n
le_of_mem key n [] h m = absurd (not-mem-nil m)
le_of_mem key n (x ∷ xs) (p, h) m =
    Or.elim le_prop (mem-cons.0 m) (λ e. rw e p) (λ later. le_of_mem key n xs h later)

module _ {A : Type 0} (id : A → ℕ) where
  -- Every key is above those that stand behind it.
  abbrev pub IsFalling : List A → Type 0
  IsFalling [] = Unit
  IsFalling (x ∷ xs) = All (λ y. id y < id x) xs × IsFalling xs

  IsFalling-concat :
      (xs : List A) (x : A) → IsFalling xs → All (λ y. id x < id y) xs → IsFalling (xs ++ x ∷ [])
  IsFalling-concat [] x h k = (tt, tt)
  IsFalling-concat (y ∷ ys) x (q, h) (p, k) =
      (All-append (λ z. id z < id y) ys (x ∷ []) q (p, tt), IsFalling-concat ys x h k)

  above_low : (low : ℕ) (xs : List A) → IsAscending id low xs → All (λ y. low < id y) xs
  above_low low [] h = tt
  above_low low (x ∷ xs) (p, h) = (
    p,
    All-mono (λ y. id x < id y) (λ y. low < id y) (λ y q. omega arith) xs (above_low (id x) xs h),
  )

  pub newest_first-IsFalling :
      (low : ℕ) (xs : List A) → IsAscending id low xs → IsFalling (newest_first xs)
  newest_first-IsFalling low [] h = tt
  newest_first-IsFalling low (x ∷ xs) (p, h) =
      IsFalling-concat (newest_first xs) x (newest_first-IsFalling (id x) xs h)
        (newest_first-All (λ y. id x < id y) xs (above_low (id x) xs h))

  pub keep-IsFalling : (p : A → Bool) (xs : List A) → IsFalling xs → IsFalling (keep p xs)
  keep-IsFalling p [] h = tt
  keep-IsFalling p (x ∷ xs) (q, h) = elim (Bool-cases (p x)) [
    | inl kept ↦ rw kept (keep-All_of (λ y. id y < id x) p xs q, keep-IsFalling p xs h)
    | inr left ↦ rw left (keep-IsFalling p xs h)
  ]

  module _ (is_set : IsSet A) where
    -- Two orders of the same rows by falling key begin with one row.
    same_head :
        (y z : A) (ys zs : List A)
        → Perm (y ∷ ys) (z ∷ zs)
        → All (λ x. id x ≤ id y) ys
        → All (λ x. suc (id x) ≤ id z) zs
        → y ≡ z
    same_head y z ys zs p hy hz =
        Or.elim (is_set y z) (mem-cons.0 ((Perm.mem_iff p).0 (mem-cons.1 (Or.inl refl)))) (λ e. e)
          (λ behind_z.
            Or.elim (is_set y z) (mem-cons.0 ((Perm.mem_iff p).1 (mem-cons.1 (Or.inl refl))))
              (λ e. sym e)
              (λ behind_y.
                let low : id z ≤ id y = le_of_mem id (id y) ys hy behind_y in
                let high : suc (id y) ≤ id z = le_of_mem (λ x. suc (id x)) (id z) zs hz behind_z in
                absurd (omega arith)))

    pub falling_unique :
        (ys zs : List A) → Perm ys zs → IsDescending (λ x. pos (id x)) ys → IsFalling zs → ys ≡ zs
    falling_unique [] [] p hy hz = refl
    falling_unique [] (z ∷ zs) p hy hz =
        absurd (not-mem-nil ((Perm.mem_iff p).1 (mem-cons.1 (Or.inl refl))))
    falling_unique (y ∷ ys) [] p hy hz =
        absurd (not-mem-nil ((Perm.mem_iff p).0 (mem-cons.1 (Or.inl refl))))
    falling_unique (y ∷ ys) (z ∷ zs) p (qy, hy) (qz, hz) =
        let below : All (λ x. id x ≤ id y) ys =
          All-mono (λ x. pos (id x) ≤ℤ pos (id y)) (λ x. id x ≤ id y) (λ x h. omega arith) ys qy in
        let head : y ≡ z = same_head y z ys zs p below qz in
        let tails : Perm (y ∷ ys) (y ∷ zs) = subst (λ t. Perm (y ∷ ys) (t ∷ zs)) (sym head) p in
        rw head (ap (λ t. z ∷ t) (falling_unique ys zs (Perm.cons_inv tails) hy hz))

pub newest_first-concat :
    {A : Type 0} (xs : List A) (x : A) → newest_first (xs ++ x ∷ []) ≡ x ∷ newest_first xs
newest_first-concat [] x = refl
newest_first-concat (y ∷ xs) x = ap (λ t. t ++ y ∷ []) (newest_first-concat xs x)
