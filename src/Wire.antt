-- ===== src/Wire.antt =====
-- The coding of messages on the wire, as every `encode` and `decode` under
-- src/providers/resolver/gen and src/providers/payerDaemon/gen is written. The writer and the reader
-- of @bufbuild/protobuf/wire are parameters. A text is taken to hold no lone surrogate.
pub mod Reads
pub mod Fields
pub mod Times
pub mod Enums
pub mod Nodes
pub mod Requests
pub mod Replies
pub mod Health
pub mod Unknown
pub mod Service
pub mod Plain
pub mod Examples
use livepeer_gateway_console.Common.{
  ℕ, zero, suc, ◌+◌, ◌%◌, Bool, true, false, ◌||◌, Option, none, some, List, [], ◌∷◌, ◌++◌, ltb,
  ◌==◌, length, if◌then◌else◌,
}
use livepeer_gateway_console.Common.Int.{ℤ, pos}
use livepeer_gateway_console.Common.Text.{Text, codes}
use livepeer_gateway_console.Common.Result.{Failure, error, Result, ok, err, ◌>>=◌}

-- What a `BinaryWriter` appends for a value, where it does not throw, and what a `BinaryReader`
-- reads, with the input that is left. `join` gives what `fork` and `join` append for the message
-- that is written between them. `reaches_next` is of JavaScript's doubles: whether
-- `seconds * 1000 + nanos / 1000000` comes out at the next whole number.
pub record WireFormat : Type 0 where
  pub put_uint32 : ℕ → List ℕ
  pub put_string : Text → Result (List ℕ)
  pub put_bytes : List ℕ → Result (List ℕ)
  pub put_bool : Bool → Result (List ℕ)
  pub put_int32 : ℤ → Result (List ℕ)
  pub put_int64 : ℤ → Result (List ℕ)
  pub join : List ℕ → Result (List ℕ)
  pub get_uint32 : List ℕ → Result (ℕ × List ℕ)
  pub get_string : List ℕ → Result (Text × List ℕ)
  pub get_bytes : List ℕ → Result (List ℕ × List ℕ)
  pub get_bool : List ℕ → Result (Bool × List ℕ)
  pub get_int32 : List ℕ → Result (ℤ × List ℕ)
  pub get_int64 : List ℕ → Result (ℤ × List ℕ)
  pub skip : ℕ → List ℕ → Result (List ℕ)
  pub reaches_next : ℤ → ℤ → Bool

-- A read takes the input and leaves a value and the rest.
abbrev pub Read : Type 0 → Type 0
Read A = Result (A × List ℕ)

-- A `case` that assigns what it reads to the message.
abbrev pub assign : {V A : Type 0} → Read V → (V → A) → Option (Read A)
assign value update = some (do (v, rest) ← value; ok (update v, rest))

-- The `switch` of a message: the `case` whose tag is read, or none.
abbrev pub Fields : Type 0 → Type 0
Fields A = ℕ → A → List ℕ → Option (Read A)

module _ (w : WireFormat) where
  module _ {A : Type 0} (fields : Fields A) where
    -- What stands behind the `switch`: an end of group or a zero tag ends the message, any other
    -- field is skipped.
    unfoldable pub unknown_field : (A → List ℕ → Read A) → ℕ → A → List ℕ → Read A
    unknown_field again tag message input =
        if (tag % 8 == 4) || (tag == 0)
        then ok (message, input)
        else do rest ← w.skip (tag % 8) input; again message rest

    unfoldable pub after_tag : (A → List ℕ → Read A) → ℕ → A → List ℕ → Option (Read A) → Read A
    unfolding unknown_field
    after_tag again tag message input none = unknown_field again tag message input
    after_tag again tag message input (some read) = do (message', rest) ← read; again message' rest

    -- `while (reader.pos < end)`, on fuel: `whole` is how much was left where the message began and
    -- `size` its length, so `end` is reached when no more than `whole - size` is left.
    unfoldable pub decode_loop : ℕ → ℕ → ℕ → A → List ℕ → Read A
    decode_loop zero whole size message input =
        if ltb whole (size + length input)
        then err (error (codes "out of fuel"))
        else ok (message, input)
    decode_loop (suc fuel) whole size message input = elim (ltb whole (size + length input)) [
      | true ↦ do
        (tag, rest) ← w.get_uint32 input
        after_tag (decode_loop fuel whole size) tag message rest (fields tag message rest)
      | false ↦ ok (message, input)
    ]

    -- `decode(reader, length)`; each round takes a tag, so the input is fuel enough.
    unfoldable pub decode_from : A → ℕ → List ℕ → Read A
    decode_from base size input = decode_loop (length input) (length input) size base input

    -- `decode(reader, reader.uint32())`
    unfoldable pub decode_nested : A → List ℕ → Read A
    unfolding decode_from
    decode_nested base input = do (size, rest) ← w.get_uint32 input; decode_from base size rest

    -- `decode(input)` on the whole input.
    unfoldable pub decode_all : A → List ℕ → Result A
    unfolding decode_from
    decode_all base input = do (message, rest) ← decode_from base (length input) input; ok message

  -- `writer.uint32(tag)` and the value.
  abbrev pub tagged : ℕ → Result (List ℕ) → Result (List ℕ)
  tagged tag value = do bytes ← value; ok (w.put_uint32 tag ++ bytes)

  -- The fields that are written only if they differ from the default.
  unfoldable pub put_text_field : ℕ → Text → Result (List ℕ)
  put_text_field tag [] = ok []
  put_text_field tag (c ∷ s) = tagged tag (w.put_string (c ∷ s))

  unfoldable pub put_bytes_field : ℕ → List ℕ → Result (List ℕ)
  put_bytes_field tag [] = ok []
  put_bytes_field tag (b ∷ bs) = tagged tag (w.put_bytes (b ∷ bs))

  unfoldable pub put_bool_field : ℕ → Bool → Result (List ℕ)
  put_bool_field tag false = ok []
  put_bool_field tag true = tagged tag (w.put_bool true)

  unfoldable pub put_int_field : ℕ → ℤ → Result (List ℕ)
  put_int_field tag (pos zero) = ok []
  put_int_field tag n = tagged tag (w.put_int32 n)

  -- `X.encode(v, writer.uint32(tag).fork()).join()`
  unfoldable pub put_message : ℕ → Result (List ℕ) → Result (List ℕ)
  put_message tag body = do bytes ← body; tagged tag (w.join bytes)

-- The writes of a `for` loop, one behind the other.
unfoldable pub put_each : {V : Type 0} → (V → Result (List ℕ)) → List V → Result (List ℕ)
put_each put [] = ok []
put_each put (v ∷ vs) = do first ← put v; rest ← put_each put vs; ok (first ++ rest)

-- The writes of an `encode`, in order.
abbrev pub writes : List (Result (List ℕ)) → Result (List ℕ)
writes = put_each (λ r. r)
