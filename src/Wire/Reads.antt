-- ===== src/Wire/Reads.antt =====
-- What one `encode` writes, the loop of `decode` reads: the laws of the library's writer and reader,
-- and the rules for the fields of a message.
use mathlib.Core.List.{append_assoc, append-nil}
use livepeer_gateway_console.Common.{
  ℕ, zero, suc, ◌+◌, ◌%◌, ◌≤◌, ◌<◌, ◌≡◌, refl, ◌∙◌, false, List, [], ◌∷◌, ◌++◌, ltb, length,
  length-append, All, arith,
}
use livepeer_gateway_console.Common.Int.{ℤ, pos_part, neg_part}
use livepeer_gateway_console.Common.Result.{Result, ok, bind_ok, ok-injective}
use livepeer_gateway_console.Wire.{
  WireFormat, Read, Fields, decode_loop, decode_from, decode_all, put_each, writes,
}

-- The tags and the lengths that a `uint32` holds.
abbrev pub limit : ℕ
limit = 0x100000000

-- A value that was written is read back, with whatever stands behind it.
abbrev pub ReadsBack : {V : Type 0} → (V → Result (List ℕ)) → (List ℕ → Read V) → Type 0
ReadsBack {V} put get =
    (v : V) (bytes rest : List ℕ) → put v ≡ ok bytes → get (bytes ++ rest) ≡ ok (v, rest)

le→ltb : (a b : ℕ) → b ≤ a → ltb a b ≡ false
le→ltb a b h = ground arith

pub All-unit : {V : Type 0} (vs : List V) → All (λ v. Unit {0}) vs
All-unit [] = tt
All-unit (v ∷ vs) = (tt, All-unit vs)

-- The library's reader reads what its writer wrote; a message between `fork` and `join` stands
-- behind its length.
pub record IsFaithful (w : WireFormat) : Type 0 where
  pub uint32_read :
      (n : ℕ) (rest : List ℕ) → n < limit → w.get_uint32 (w.put_uint32 n ++ rest) ≡ ok (n, rest)
  pub uint32_taken :
      (input : List ℕ) (n : ℕ) (rest : List ℕ)
      → w.get_uint32 input ≡ ok (n, rest)
      → length rest < length input
  pub string_read : ReadsBack w.put_string w.get_string
  pub bytes_read : ReadsBack w.put_bytes w.get_bytes
  pub bool_read : ReadsBack w.put_bool w.get_bool
  pub int32_read : ReadsBack w.put_int32 w.get_int32
  pub int64_read : ReadsBack w.put_int64 w.get_int64
  -- Whole milliseconds within the range of a `Date` come out exactly in doubles.
  pub whole_exact :
      (seconds nanos : ℤ)
      → pos_part seconds + neg_part seconds ≤ 8640000000000
      → (pos_part nanos + neg_part nanos) % 1000000 ≡ 0
      → w.reaches_next seconds nanos ≡ false
  pub join_framed :
      (body bytes : List ℕ)
      → w.join body ≡ ok bytes
      → (length body < limit) × (bytes ≡ w.put_uint32 (length body) ++ body)

module _ (w : WireFormat) {A : Type 0} (fields : Fields A) where
  -- Where the message does not end within the bytes, the loop comes from `a` to `b` over them, with
  -- fuel enough for the rest.
  abbrev pub Reads : A → List ℕ → A → Type 0
  Reads a bytes b =
      (whole size fuel : ℕ) (rest : List ℕ)
      → whole ≤ size + length rest
      → length (bytes ++ rest) ≤ fuel
      → (left : ℕ) × (length rest ≤ left)
        × (decode_loop w fields fuel whole size a (bytes ++ rest)
            ≡ decode_loop w fields left whole size b rest)

  pub Reads-nil : (a : A) → Reads a [] a
  Reads-nil a whole size fuel rest h enough = (fuel, enough, refl)

  pub Reads-append :
      (a b c : A) (xs ys : List ℕ) → Reads a xs b → Reads b ys c → Reads a (xs ++ ys) c
  Reads-append a b c xs ys first second whole size fuel rest h enough =
      let (f, f_enough, e) =
        first whole size fuel (ys ++ rest) (omega (arith, length-append ys rest))
          (rw (append_assoc xs ys rest) at enough) in
      let (g, g_enough, k) = second whole size f rest h f_enough in
      (g, g_enough, rw (append_assoc xs ys rest) (e ∙ k))

  stops :
      (fuel whole size : ℕ) (message : A) (input : List ℕ)
      → ltb whole (size + length input) ≡ false
      → decode_loop w fields fuel whole size message input ≡ ok (message, input)
  unfolding decode_loop
  stops zero whole size message input h = rw (h, decode_loop)
  stops (suc fuel) whole size message input h = rw (h, decode_loop)

  pub decode_from_body :
      (base message : A) (body rest : List ℕ)
      → Reads base body message
      → decode_from w fields base (length body) (body ++ rest) ≡ ok (message, rest)
  unfolding decode_from
  decode_from_body base message body rest reads =
      let (left, enough, e) =
        reads (length (body ++ rest)) (length body) (length (body ++ rest)) rest
          (omega (arith, length-append body rest)) (omega arith) in
      e
      ∙ stops left (length (body ++ rest)) (length body) message rest
          (le→ltb _ _ (omega (arith, length-append body rest)))

-- Whatever the write appends takes the message from `a` to `b`.
pub record Writes (w : WireFormat) {A : Type 0} (fields : Fields A) (written : Result (List ℕ))
    (a b : A) : Type 0 where
  pub reads : (bytes : List ℕ) → written ≡ ok bytes → Reads w fields a bytes b

-- The same of the writes of an `encode`.
pub record Encodes (w : WireFormat) {A : Type 0} (fields : Fields A)
    (parts : List (Result (List ℕ))) (a b : A) : Type 0 where
  pub all : Writes w fields (writes parts) a b

module _ {w : WireFormat} {A : Type 0} {fields : Fields A} where
  pub Writes-nil : (a : A) → Writes w fields (ok []) a a
  Writes-nil a = record {
    reads = λ bytes written. rw (← ok-injective _ _ written) (Reads-nil w fields a);
  }

  pub Encodes-end : {a : A} → Encodes w fields [] a a
  unfolding put_each
  Encodes-end {a} = record { all = Writes-nil a }

  -- One write, and those behind it.
  infixr 5 ◌▸◌
  pub ◌▸◌ :
      {a b c : A} {first : Result (List ℕ)} {more : List (Result (List ℕ))}
      → Writes w fields first a b
      → Encodes w fields more b c
      → Encodes w fields (first ∷ more) a c
  unfolding put_each
  ◌▸◌ {a} {b} {c} {first} {more} one others = record {
    all = record {
      reads = λ bytes written.
          let (xs, e, next) = bind_ok first _ written in
          let (ys, k, end) = bind_ok (writes more) _ next in
          rw (← ok-injective _ _ end)
            (Reads-append w fields a b c xs ys (one.reads xs e) (others.all.reads ys k));
    };
  }

  -- A loop of writes, each of which adds its value behind those before it.
  pub Writes-each :
      {V : Type 0} (P : V → Type 0) (put : V → Result (List ℕ)) (with_values : List V → A)
      → ((before : List V) (v : V)
          → P v
          → Writes w fields (put v) (with_values before) (with_values (before ++ v ∷ [])))
      → (before vs : List V) → All P vs
      → Writes w fields (put_each put vs) (with_values before) (with_values (before ++ vs))
  unfolding put_each
  Writes-each P put with_values one before [] h =
      rw (append-nil before) (Writes-nil (with_values before))
  Writes-each P put with_values one before (v ∷ vs) (p, h) =
      let rest = Writes-each P put with_values one (before ++ v ∷ []) vs h in
      record {
        reads = λ bytes written.
            let (xs, e, next) = bind_ok (put v) _ written in
            let (ys, k, end) = bind_ok (put_each put vs) _ next in
            rw (← ok-injective _ _ end) (
              Reads-append w fields (with_values before) (with_values (before ++ v ∷ []))
                (with_values (before ++ v ∷ vs)) xs ys ((one before v p).reads xs e)
                (rw (append_assoc before (v ∷ []) vs) at (rest.reads ys k)));
      }

  -- A whole message is read back from what it was written to.
  pub decode_all-writes :
      (base message : A) (written : Result (List ℕ)) (bytes : List ℕ)
      → Writes w fields written base message
      → written ≡ ok bytes
      → decode_all w fields base bytes ≡ ok message
  unfolding decode_all
  decode_all-writes base message written bytes written_reads done =
      let e : decode_from w fields base (length bytes) bytes ≡ ok (message, []) =
        rw append-nil at
          (decode_from_body w fields base message bytes [] (written_reads.reads bytes done)) in
      rw e
