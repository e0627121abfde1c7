-- ===== src/Wire/Times.antt =====
-- gen/google/protobuf/timestamp.ts, and `toTimestamp` and `fromTimestamp`, which the registry's
-- messages pass their dates through. A `Date` is its epoch milliseconds.
use livepeer_gateway_console.Common.{
  ℕ, zero, suc, ◌+◌, ◌-◌, ◌*◌, ◌/◌, ◌%◌, ◌≤◌, ◌<◌, ◌≡◌, refl, sym, ap, Bool, false, ◌&&◌, Option,
  none, some, List, [], ◌∷◌, ltb, leb, ◌==◌, if◌then◌else◌, arith, Bool-cases, inl, inr,
}
use livepeer_gateway_console.Common.Int.{ℤ, pos, negsuc, pos_part, neg_part}
use livepeer_gateway_console.Common.Text.{codes}
use livepeer_gateway_console.Common.Result.{Failure, error, Result, ok, err}
use livepeer_gateway_console.Wire.{
  WireFormat, Read, assign, Fields, decode_nested, tagged, put_int_field, put_message, writes,
}
use livepeer_gateway_console.Wire.Reads.{
  limit, IsFaithful, Writes, Writes-nil, Encodes, Encodes-end, ◌▸◌,
}
use livepeer_gateway_console.Wire.Fields.{int, message, tagged_value}

pub record Timestamp : Type 0 where
  pub seconds : ℤ
  pub nanos : ℤ

unfoldable pub neg : ℕ → ℤ
neg zero = pos 0
neg (suc n) = negsuc n

-- `Math.trunc(ms / 1000)` and `ms % 1000 * 1000000`: both go towards zero.
unfoldable pub to_timestamp : ℤ → Timestamp
unfolding neg
to_timestamp (pos n) = record { seconds = pos (n / 1000); nanos = pos (n % 1000 * 1000000) }
to_timestamp (negsuc n) = record {
  seconds = neg (suc n / 1000);
  nanos = neg (suc n % 1000 * 1000000);
}

-- `new Date(seconds * 1000 + nanos / 1000000)`, which cuts a fraction of a millisecond off, unless
-- the sum in doubles comes out at the next whole number.
unfoldable pub from_timestamp : WireFormat → Timestamp → ℤ
unfolding neg
from_timestamp w t =
    let ahead = pos_part t.seconds * 1000000000 + pos_part t.nanos in
    let behind = neg_part t.seconds * 1000000000 + neg_part t.nanos in
    let more : ℕ = if w.reaches_next t.seconds t.nanos then 1 else 0 in
    if leb behind ahead
    then pos ((ahead - behind) / 1000000 + more)
    else neg ((behind - ahead) / 1000000 + more)

-- `BigInt.asIntN(64, n) === n`
is_int64 : ℤ → Bool
is_int64 n = ltb (pos_part n) 0x8000000000000000 && leb (neg_part n) 0x8000000000000000

abbrev too_large : Failure
too_large = error (codes "value provided for field message.seconds of type int64 too large")

put_seconds : WireFormat → ℤ → Result (List ℕ)
unfolding is_int64
put_seconds w (pos zero) = ok []
put_seconds w n = if is_int64 n then tagged w 8 (w.put_int64 n) else err too_large

abbrev pub base_timestamp : Timestamp
base_timestamp = record { seconds = pos 0; nanos = pos 0 }

unfoldable pub encode_timestamp : WireFormat → Timestamp → Result (List ℕ)
unfolding put_seconds
encode_timestamp w t = writes (put_seconds w t.seconds ∷ put_int_field w 16 t.nanos ∷ [])

unfoldable pub timestamp_fields : WireFormat → Fields Timestamp
timestamp_fields w tag t input =
    if tag == 8
    then assign (w.get_int64 input) (λ n. record t { seconds = n })
    else if tag == 16
    then assign (w.get_int32 input) (λ n. record t { nanos = n })
    else none

-- `if (date !== undefined) Timestamp.encode(toTimestamp(date), ..)`
unfoldable pub put_date_field : WireFormat → ℕ → Option ℤ → Result (List ℕ)
put_date_field w tag none = ok []
put_date_field w tag (some date) = put_message w tag (encode_timestamp w (to_timestamp date))

-- `fromTimestamp(Timestamp.decode(reader, reader.uint32()))`
unfoldable pub assign_date : {A : Type 0} → WireFormat → List ℕ → (Option ℤ → A) → Option (Read A)
assign_date w input update =
    assign (decode_nested w (timestamp_fields w) base_timestamp input)
      (λ t. update (some (from_timestamp w t)))

-- What a `Date` can hold.
abbrev pub IsDate : ℤ → Type 0
IsDate date = pos_part date + neg_part date ≤ 8640000000000000

neg_parts : (n : ℕ) → (pos_part (neg n) ≡ 0) × (neg_part (neg n) ≡ n)
unfolding neg
neg_parts zero = (refl, refl)
neg_parts (suc n) = (refl, refl)

-- The sum of the two parts, as `fromTimestamp` makes it where no fraction is rounded.
from_parts :
    (w : WireFormat) (t : Timestamp)
    → w.reaches_next t.seconds t.nanos ≡ false
    → (n : ℕ)
    → ((pos_part t.seconds * 1000000000 + pos_part t.nanos ≡ n * 1000000)
          × (neg_part t.seconds * 1000000000 + neg_part t.nanos ≡ 0)
        → from_timestamp w t ≡ pos n)
      × ((neg_part t.seconds * 1000000000 + neg_part t.nanos ≡ suc n * 1000000)
            × (pos_part t.seconds * 1000000000 + pos_part t.nanos ≡ 0)
          → from_timestamp w t ≡ negsuc n)
unfolding from_timestamp neg
from_parts w t exact n = (λ (p, q). rw exact (ground arith), λ (p, q). rw exact (ground arith))

abbrev pub IsDated : Option ℤ → Type 0
IsDated none = Unit
IsDated (some date) = IsDate date

module _ {w : WireFormat} (faithful : IsFaithful w) where
  -- A date comes back from its timestamp, before 1970 too.
  pub date_roundtrip : (date : ℤ) → IsDate date → from_timestamp w (to_timestamp date) ≡ date
  unfolding to_timestamp
  date_roundtrip (pos n) h =
      (from_parts w _ (faithful.whole_exact _ _ (omega arith) (omega arith)) n).0
        (omega arith, omega arith)
  date_roundtrip (negsuc n) h =
      let (a, b) = neg_parts (suc n / 1000) in
      let (c, d) = neg_parts (suc n % 1000 * 1000000) in
      (from_parts w _ (faithful.whole_exact _ _ (omega arith) (omega arith)) n).1
        (omega arith, omega arith)

  seconds_put :
      (n : ℤ) (bytes : List ℕ)
      → (if is_int64 n then tagged w 8 (w.put_int64 n) else err too_large) ≡ ok bytes
      → tagged w 8 (w.put_int64 n) ≡ ok bytes
  seconds_put n bytes h = elim (Bool-cases (is_int64 n)) [
    | inl fits ↦ rw fits at h
    | inr wide ↦ absurd (cc (rw wide at h))
  ]

  big-Writes :
      (n : ℤ) (nanos : ℤ)
      → Writes w
          (timestamp_fields w)
          (tagged w 8 (w.put_int64 n))
          (record { seconds = pos 0; nanos = nanos })
          (record { seconds = n; nanos = nanos })
  unfolding timestamp_fields
  big-Writes n nanos =
      tagged_value faithful (w.put_int64 n) w.get_int64 n (faithful.int64_read n) 8 _
        (λ m. record { seconds = m; nanos = nanos }) (omega arith) (λ input. refl)

  seconds-Writes :
      (n : ℤ) (nanos : ℤ)
      → Writes w
          (timestamp_fields w)
          (put_seconds w n)
          (record { seconds = pos 0; nanos = nanos })
          (record { seconds = n; nanos = nanos })
  unfolding put_seconds
  seconds-Writes (pos zero) nanos = Writes-nil _
  seconds-Writes (pos (suc n)) nanos = record {
    reads =
        λ bytes written. (big-Writes (pos (suc n)) nanos).reads bytes (seconds_put _ bytes written);
  }
  seconds-Writes (negsuc n) nanos = record {
    reads =
        λ bytes written. (big-Writes (negsuc n) nanos).reads bytes (seconds_put _ bytes written);
  }

  pub timestamp-Encodes :
      (t : Timestamp) → Writes w (timestamp_fields w) (encode_timestamp w t) base_timestamp t
  unfolding encode_timestamp timestamp_fields
  timestamp-Encodes t =
      let chain : Encodes w (timestamp_fields w) _ base_timestamp t =
        seconds-Writes t.seconds (pos 0)
        ▸ int faithful 16 (λ a n. record a { nanos = n }) (omega arith) (λ a input. refl) t.nanos
            refl
        ▸ Encodes-end in
      chain.all

  -- A field with a date.
  pub date :
      {A : Type 0} {fields : Fields A} (tag : ℕ) (set : A → Option ℤ → A)
      → tag < limit
      → ((a : A) (input : List ℕ) → fields tag a input ≡ assign_date w input (set a))
      → (when : Option ℤ) → IsDated when
      → {a : A} → set a none ≡ a
      → Writes w fields (put_date_field w tag when) a (set a when)
  unfolding put_date_field assign_date
  date tag set small known none h {a} default = rw default (Writes-nil a)
  date tag set small known (some d) h {a} default =
      rw (ap (λ k. set a (some k)) (sym (date_roundtrip d h))) (
        message faithful base_timestamp tag a (λ t. set a (some (from_timestamp w t))) small
          (known a) (timestamp-Encodes (to_timestamp d)))
