-- ===== src/Wire/Plain.antt =====
-- A format that meets the laws of the reader and the writer: a number is one entry, and a text or
-- bytes stand behind their length.
use livepeer_gateway_console.Common.{
  ℕ, zero, suc, ◌<◌, ◌≡◌, refl, Bool, true, false, List, [], ◌∷◌, ◌++◌, leb, ltb, ◌==◌, ltb→lt,
  le→leb, length, length-append, take, drop, if◌then◌else◌, arith, Bool-cases, inl, inr,
}
use livepeer_gateway_console.Common.Int.{ℤ, pos, negsuc, pos_part, neg_part}
use livepeer_gateway_console.Common.Text.{codes}
use livepeer_gateway_console.Common.Result.{Failure, error, Result, ok, err, ◌>>=◌, ok-injective}
use livepeer_gateway_console.Wire.{WireFormat, Read}
use livepeer_gateway_console.Wire.Reads.{limit, IsFaithful, ReadsBack}

take-append_left {ℓ} : {A : Type ℓ} (xs ys : List A) → take (length xs) (xs ++ ys) ≡ xs
take-append_left [] ys = refl
take-append_left (x ∷ xs) ys = rw (take-append_left xs ys)

drop-append_left {ℓ} : {A : Type ℓ} (xs ys : List A) → drop (length xs) (xs ++ ys) ≡ ys
drop-append_left [] ys = refl
drop-append_left (x ∷ xs) ys = drop-append_left xs ys

abbrev ended : Failure
ended = error (codes "premature EOF")

unfoldable pub get_one : {A : Type 0} → (ℕ → A) → List ℕ → Read A
get_one value [] = err ended
get_one value (n ∷ rest) = ok (value n, rest)

-- A list behind its length.
unfoldable pub get_counted : List ℕ → Read (List ℕ)
get_counted [] = err ended
get_counted (n ∷ rest) = if leb n (length rest) then ok (take n rest, drop n rest) else err ended

-- A number as its positive and its negative part.
unfoldable pub get_signed : List ℕ → Read ℤ
get_signed (p ∷ zero ∷ rest) = ok (pos p, rest)
get_signed (p ∷ suc n ∷ rest) = ok (negsuc n, rest)
get_signed _ = err ended

unfoldable pub put_signed : ℤ → Result (List ℕ)
put_signed n = ok (pos_part n ∷ neg_part n ∷ [])

unfoldable pub put_counted : List ℕ → Result (List ℕ)
put_counted s = ok (length s ∷ s)

unfoldable pub put_framed : List ℕ → Result (List ℕ)
put_framed body = if ltb (length body) limit then ok (length body ∷ body) else err ended

unfoldable pub bool_entry : Bool → ℕ
bool_entry true = 1
bool_entry false = 0

unfoldable pub past : {A : Type 0} → Read A → Result (List ℕ)
past read = read >>= λ (value, rest). ok rest

unfoldable pub skip_entry : ℕ → List ℕ → Result (List ℕ)
unfolding past
skip_entry type input =
    if type == 2 then past (get_counted input) else past (get_one (λ n. n) input)

abbrev pub plain : WireFormat
plain = record {
  put_uint32 = λ n. n ∷ [];
  put_string = put_counted;
  put_bytes = put_counted;
  put_bool = λ b. ok (bool_entry b ∷ []);
  put_int32 = put_signed;
  put_int64 = put_signed;
  join = put_framed;
  get_uint32 = get_one (λ n. n);
  get_string = get_counted;
  get_bytes = get_counted;
  get_bool = get_one (λ n. n == 1);
  get_int32 = get_signed;
  get_int64 = get_signed;
  skip = skip_entry;
  reaches_next = λ seconds nanos. false;
}

pub counted_back : (s rest : List ℕ) → get_counted (length s ∷ s ++ rest) ≡ ok (s, rest)
unfolding get_counted
counted_back s rest =
    let within : leb (length s) (length (s ++ rest)) ≡ true =
      le→leb _ _ (omega (arith, length-append s rest)) in
    rw (within, get_counted) (rw (take-append_left s rest) (rw (drop-append_left s rest)))

counted_read : ReadsBack put_counted get_counted
unfolding put_counted
counted_read s bytes rest e = rw (← ok-injective _ _ e) (counted_back s rest)

signed_back : (n : ℤ) (rest : List ℕ) → get_signed (pos_part n ∷ neg_part n ∷ rest) ≡ ok (n, rest)
unfolding get_signed
signed_back (pos n) rest = refl
signed_back (negsuc n) rest = refl

signed_read : ReadsBack put_signed get_signed
unfolding put_signed
signed_read n bytes rest e = rw (← ok-injective _ _ e) (signed_back n rest)

bool_read : ReadsBack (λ b. ok (bool_entry b ∷ [])) (get_one (λ n. n == 1))
unfolding bool_entry get_one
bool_read true bytes rest e = rw (← ok-injective _ _ e)
bool_read false bytes rest e = rw (← ok-injective _ _ e)

one_taken :
    (input : List ℕ) (n : ℕ) (rest : List ℕ)
    → get_one (λ n. n) input ≡ ok (n, rest)
    → length rest < length input
unfolding get_one
one_taken [] n rest e = absurd (cc)
one_taken (m ∷ input) n rest e = ground arith

framed :
    (body bytes : List ℕ)
    → put_framed body ≡ ok bytes
    → (length body < limit) × (bytes ≡ length body ∷ body)
unfolding put_framed
framed body bytes e = elim (Bool-cases (ltb (length body) limit)) [
  | inl small ↦ (ltb→lt _ _ small, cc (rw small at e))
  | inr large ↦ absurd (cc (rw large at e))
]

pub plain-IsFaithful : IsFaithful plain
unfolding get_one
plain-IsFaithful = record {
  uint32_read = λ n rest small. refl;
  uint32_taken = one_taken;
  string_read = counted_read;
  bytes_read = counted_read;
  bool_read = bool_read;
  int32_read = signed_read;
  int64_read = signed_read;
  whole_exact = λ seconds nanos near whole. refl;
  join_framed = framed;
}
