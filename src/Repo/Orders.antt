-- ===== src/Repo/Orders.antt =====
-- A database that meets the interface of Repo: keys by counting, and ORDER BY by insertion.
use livepeer_gateway_console.Common.{
  ℕ, ◌+◌, ◌<◌, List, [], ◌∷◌, All, All-mono, arith, Bool-cases, inl, inr, if◌then◌else◌,
}
use livepeer_gateway_console.Common.Int.{ℤ, ◌≤ℤ◌, leb_ℤ}
use livepeer_gateway_console.Repo.{IsDescending, OrderBy, Sqlite}
use mathlib.Core.List.{Perm}
use mathlib.Core.List.Perm

module _ {A : Type 0} (key : A → ℤ) where
  unfoldable pub insert_desc : A → List A → List A
  insert_desc x [] = x ∷ []
  insert_desc x (y ∷ ys) =
      let rest = insert_desc x ys in if leb_ℤ (key y) (key x) then x ∷ y ∷ ys else y ∷ rest

  unfoldable pub sort_desc : List A → List A
  unfolding insert_desc
  sort_desc [] = []
  sort_desc (x ∷ xs) = insert_desc x (sort_desc xs)

  insert_desc-Perm : (x : A) (xs : List A) → Perm (insert_desc x xs) (x ∷ xs)
  unfolding insert_desc
  insert_desc-Perm x [] = Perm.refl (x ∷ [])
  insert_desc-Perm x (y ∷ ys) = elim (Bool-cases (leb_ℤ (key y) (key x))) [
    | inl first ↦ rw first (Perm.refl (x ∷ y ∷ ys))
    | inr later ↦ rw later (Perm.trans (Perm.cons y (insert_desc-Perm x ys)) (Perm.swap x y ys))
  ]

  pub sort_desc-Perm : (xs : List A) → Perm (sort_desc xs) xs
  unfolding sort_desc
  sort_desc-Perm [] = Perm.refl []
  sort_desc-Perm (x ∷ xs) =
      Perm.trans (insert_desc-Perm x (sort_desc xs)) (Perm.cons x (sort_desc-Perm xs))

  insert_desc-All :
      (P : A → Type 0) (x : A) (xs : List A) → P x → All P xs → All P (insert_desc x xs)
  unfolding insert_desc
  insert_desc-All P x [] p h = (p, tt)
  insert_desc-All P x (y ∷ ys) p (q, h) = elim (Bool-cases (leb_ℤ (key y) (key x))) [
    | inl first ↦ rw first (p, (q, h))
    | inr later ↦ rw later (q, insert_desc-All P x ys p h)
  ]

  insert_desc-IsDescending :
      (x : A) (xs : List A) → IsDescending key xs → IsDescending key (insert_desc x xs)
  unfolding insert_desc
  insert_desc-IsDescending x [] h = (tt, tt)
  insert_desc-IsDescending x (y ∷ ys) (q, h) = elim (Bool-cases (leb_ℤ (key y) (key x))) [
    | inl first ↦
        let top : key y ≤ℤ key x = ground arith in
        rw first (
          (top, All-mono (λ z. key z ≤ℤ key y) (λ z. key z ≤ℤ key x) (λ z below. omega arith) ys q),
          (q, h),
        )
    | inr later ↦
        let top : key x ≤ℤ key y = ground arith in
        rw later (insert_desc-All (λ z. key z ≤ℤ key y) x ys top q, insert_desc-IsDescending x ys h)
  ]

  pub sort_desc-IsDescending : (xs : List A) → IsDescending key (sort_desc xs)
  unfolding sort_desc
  sort_desc-IsDescending [] = tt
  sort_desc-IsDescending (x ∷ xs) =
      insert_desc-IsDescending x (sort_desc xs) (sort_desc-IsDescending xs)

abbrev pub insertion_order : {A : Type 0} → OrderBy A
insertion_order = record {
  desc = sort_desc;
  desc-Perm = sort_desc-Perm;
  desc-IsDescending = sort_desc-IsDescending;
}

pub suc-grows : (n : ℕ) → n < n + 1
suc-grows n = omega arith

abbrev pub memory_database : Sqlite
memory_database = record {
  next_id = λ n. n + 1;
  next_id-lt = suc-grows;
  audit_order = insertion_order;
  routing_order = insertion_order;
}
