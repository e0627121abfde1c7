-- ===== src/Dedupe/Sorted.antt =====
-- `dedupe`: the values, each once, in order.
use livepeer_gateway_console.Common.{
  ℕ, ◌≡◌, refl, ap, ◌∙◌, Bool, true, false, not, ◌&&◌, ◌||◌, List, [], ◌∷◌, arith, All, All-mono,
  Bool-cases, inl, inr,
}
use livepeer_gateway_console.Common.Text.{Text, text_eq, text_eq_iff, text_eq_refl}
use livepeer_gateway_console.Dedupe.{
  includes, unique_from, utf16_units, lex_leb, text_leb, insert_sorted, sort_texts, dedupe,
}

-- No value stands in the list twice.
abbrev pub IsDistinct : List Text → Type 0
IsDistinct [] = Unit
IsDistinct (x ∷ xs) = (includes xs x ≡ false) × IsDistinct xs

-- Each value is at most those behind it, in the order of UTF-16 units.
abbrev pub IsSorted : List Text → Type 0
IsSorted [] = Unit
IsSorted (x ∷ xs) = All (λ y. text_leb x y ≡ true) xs × IsSorted xs

lex_leb_total : (s t : List ℕ) → lex_leb s t ≡ false → lex_leb t s ≡ true
unfolding lex_leb
lex_leb_total [] t h = absurd (cc)
lex_leb_total (a ∷ s) [] h = refl
lex_leb_total (a ∷ s) (b ∷ t) h = ground (arith, lex_leb_total s t)

lex_leb_trans : (s t u : List ℕ) → lex_leb s t ≡ true → lex_leb t u ≡ true → lex_leb s u ≡ true
unfolding lex_leb
lex_leb_trans [] t u h k = refl
lex_leb_trans (a ∷ s) [] u h k = absurd (cc)
lex_leb_trans (a ∷ s) (b ∷ t) [] h k = absurd (cc)
lex_leb_trans (a ∷ s) (b ∷ t) (c ∷ u) h k = ground (arith, lex_leb_trans s t u)

text_leb_total : (s t : Text) → text_leb s t ≡ false → text_leb t s ≡ true
text_leb_total s t h = unfold text_leb in lex_leb_total (utf16_units s) (utf16_units t) h

text_leb_trans : (s t u : Text) → text_leb s t ≡ true → text_leb t u ≡ true → text_leb s u ≡ true
text_leb_trans s t u h k =
    unfold text_leb in lex_leb_trans (utf16_units s) (utf16_units t) (utf16_units u) h k

insert_sorted-All :
    (P : Text → Type 0) (x : Text) (xs : List Text) → P x → All P xs → All P (insert_sorted x xs)
unfolding insert_sorted
insert_sorted-All P x [] p h = (p, tt)
insert_sorted-All P x (y ∷ ys) p (q, h) = elim (Bool-cases (text_leb x y)) [
  | inl first ↦ rw first (p, (q, h))
  | inr later ↦ rw later (q, insert_sorted-All P x ys p h)
]

insert_sorted-IsSorted : (x : Text) (xs : List Text) → IsSorted xs → IsSorted (insert_sorted x xs)
unfolding insert_sorted
insert_sorted-IsSorted x [] h = (tt, tt)
insert_sorted-IsSorted x (y ∷ ys) (q, h) = elim (Bool-cases (text_leb x y)) [
  | inl first ↦ rw first (
    (
      first,
      All-mono (λ z. text_leb y z ≡ true) (λ z. text_leb x z ≡ true)
          (λ z k. text_leb_trans x y z first k) ys q,
    ),
    (q, h),
  )
  | inr later ↦ rw later (
    insert_sorted-All (λ z. text_leb y z ≡ true) x ys (text_leb_total x y later) q,
    insert_sorted-IsSorted x ys h,
  )
]

sort_texts-IsSorted : (xs : List Text) → IsSorted (sort_texts xs)
unfolding sort_texts
sort_texts-IsSorted [] = tt
sort_texts-IsSorted (x ∷ xs) = insert_sorted-IsSorted x (sort_texts xs) (sort_texts-IsSorted xs)

includes-insert_sorted :
    (x : Text) (xs : List Text) (t : Text)
    → includes (insert_sorted x xs) t ≡ (text_eq x t || includes xs t)
unfolding insert_sorted includes
includes-insert_sorted x [] t = refl
includes-insert_sorted x (y ∷ ys) t = ground (arith, includes-insert_sorted x ys t)

includes-sort_texts : (xs : List Text) (t : Text) → includes (sort_texts xs) t ≡ includes xs t
unfolding sort_texts includes
includes-sort_texts [] t = refl
includes-sort_texts (x ∷ xs) t =
    includes-insert_sorted x (sort_texts xs) t
    ∙ ap (λ b. text_eq x t || b) (includes-sort_texts xs t)

insert_sorted-IsDistinct :
    (x : Text) (xs : List Text)
    → includes xs x ≡ false
    → IsDistinct xs
    → IsDistinct (insert_sorted x xs)
unfolding insert_sorted includes
insert_sorted-IsDistinct x [] n h = (refl, tt)
insert_sorted-IsDistinct x (y ∷ ys) n (m, h) = elim (Bool-cases (text_leb x y)) [
  | inl first ↦ rw first (n, (m, h))
  | inr later ↦ rw later (
    ground (arith, includes-insert_sorted x ys y, text_eq_iff x y, text_eq_iff y x),
    insert_sorted-IsDistinct x ys (ground arith) h,
  )
]

sort_texts-IsDistinct : (xs : List Text) → IsDistinct xs → IsDistinct (sort_texts xs)
unfolding sort_texts
sort_texts-IsDistinct [] h = tt
sort_texts-IsDistinct (x ∷ xs) (n, h) =
    insert_sorted-IsDistinct x (sort_texts xs) (includes-sort_texts xs x ∙ n)
      (sort_texts-IsDistinct xs h)

includes-unique_from :
    (seen vs : List Text) (t : Text)
    → includes (unique_from seen vs) t ≡ (includes vs t && not (includes seen t))
unfolding unique_from includes
includes-unique_from seen [] t = refl
includes-unique_from seen (v ∷ vs) t =
    ground
      (arith, includes-unique_from seen vs t, includes-unique_from (v ∷ seen) vs t, text_eq_iff v t)

not_again : (v : Text) (seen vs : List Text) → includes (unique_from (v ∷ seen) vs) v ≡ false
unfolding includes
not_again v seen vs = ground (arith, includes-unique_from (v ∷ seen) vs v, text_eq_refl v)

unique_from-IsDistinct : (seen vs : List Text) → IsDistinct (unique_from seen vs)
unfolding unique_from
unique_from-IsDistinct seen [] = tt
unique_from-IsDistinct seen (v ∷ vs) = elim (Bool-cases (includes seen v)) [
  | inl old ↦ rw old (unique_from-IsDistinct seen vs)
  | inr new ↦ rw new (not_again v seen vs, unique_from-IsDistinct (v ∷ seen) vs)
]

none_seen : (b : Bool) (t : Text) → (b && not (includes [] t)) ≡ b
unfolding includes
none_seen true t = refl
none_seen false t = refl

-- `dedupe` keeps which values there are, and returns each once, sorted.
pub dedupe_lem :
    (values : List Text)
    → ((t : Text) → includes (dedupe values) t ≡ includes values t)
      × IsDistinct (dedupe values)
      × IsSorted (dedupe values)
unfolding dedupe
dedupe_lem values = (
  λ t.
      includes-sort_texts (unique_from [] values) t
      ∙ includes-unique_from [] values t
      ∙ none_seen (includes values t) t,
  sort_texts-IsDistinct (unique_from [] values) (unique_from-IsDistinct [] values),
  sort_texts-IsSorted (unique_from [] values),
)
