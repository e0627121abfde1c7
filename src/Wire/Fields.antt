-- ===== src/Wire/Fields.antt =====
-- The fields of a message: what an `encode` writes for one, the `case` of its tag reads.
use mathlib.Core.List.{append_assoc}
use livepeer_gateway_console.Common.{
  ℕ, zero, suc, ◌+◌, ◌≤◌, ◌<◌, ◌≡◌, sym, ap, ◌∙◌, Bool, true, false, some, List, [], ◌∷◌, ◌++◌, ltb,
  lt→ltb, length, length-append, All, arith,
}
use livepeer_gateway_console.Common.Int.{ℤ, pos, negsuc}
use livepeer_gateway_console.Common.Text.{Text}
use livepeer_gateway_console.Common.Result.{Result, ok, bind_ok, ok-injective}
use livepeer_gateway_console.Wire.{
  WireFormat, Read, assign, Fields, after_tag, decode_loop, decode_nested, tagged, put_text_field,
  put_bytes_field, put_bool_field, put_int_field, put_message, put_each,
}
use livepeer_gateway_console.Wire.Reads.{
  limit, IsFaithful, Reads, Writes, Writes-nil, Writes-each, All-unit, decode_from_body,
}

-- A `case` for the tag, which reads with `get` and assigns by `set`.
abbrev pub Has : {A V : Type 0} → Fields A → ℕ → (List ℕ → Read V) → (A → V → A) → Type 0
Has {A} fields tag get set =
    (message : A) (input : List ℕ) → fields tag message input ≡ assign (get input) (set message)

module _ {w : WireFormat} (faithful : IsFaithful w) {A : Type 0} (fields : Fields A) where
  -- Before a tag that is still of the message, the loop goes on.
  pub before_end :
      (whole size tag : ℕ) (payload rest : List ℕ)
      → whole ≤ size + length rest
      → tag < limit
      → ltb whole (size + length (w.put_uint32 tag ++ (payload ++ rest))) ≡ true
  before_end whole size tag payload rest h small = lt→ltb _ _ (
      omega (
        arith,
        length-append payload rest,
        faithful.uint32_taken _ tag (payload ++ rest)
            (faithful.uint32_read tag (payload ++ rest) small),
      ))

  -- A round of the loop takes a tag at least, so fuel is left for the rest.
  pub Reads-round :
      (tag : ℕ) (a b : A) (payload : List ℕ)
      → tag < limit
      → ((whole size fuel : ℕ) (rest : List ℕ)
          → whole ≤ size + length rest
          → decode_loop w fields (suc fuel) whole size a (w.put_uint32 tag ++ (payload ++ rest))
            ≡ decode_loop w fields fuel whole size b rest)
      → Reads w fields a (w.put_uint32 tag ++ payload) b
  Reads-round tag a b payload small round whole size zero rest h enough = absurd (
      omega (
        arith,
        length-append (w.put_uint32 tag ++ payload) rest,
        length-append (w.put_uint32 tag) payload,
        length-append payload rest,
        length-append (w.put_uint32 tag) (payload ++ rest),
        faithful.uint32_taken _ tag (payload ++ rest)
            (faithful.uint32_read tag (payload ++ rest) small),
      ))
  Reads-round tag a b payload small round whole size (suc fuel) rest h enough = (
    fuel,
    omega (
      arith,
      length-append (w.put_uint32 tag ++ payload) rest,
      length-append (w.put_uint32 tag) payload,
      length-append payload rest,
      length-append (w.put_uint32 tag) (payload ++ rest),
      faithful.uint32_taken _ tag (payload ++ rest)
          (faithful.uint32_read tag (payload ++ rest) small),
    ),
    rw (append_assoc (w.put_uint32 tag) payload rest) (round whole size fuel rest h),
  )

  -- One round at a tag that the `switch` knows.
  known_round :
      (tag : ℕ) (a b : A) (payload : List ℕ)
      → tag < limit
      → ((rest : List ℕ) → fields tag a (payload ++ rest) ≡ some (ok (b, rest)))
      → (whole size fuel : ℕ) (rest : List ℕ) → whole ≤ size + length rest
      → decode_loop w fields (suc fuel) whole size a (w.put_uint32 tag ++ (payload ++ rest))
        ≡ decode_loop w fields fuel whole size b rest
  unfolding decode_loop after_tag
  known_round tag a b payload small reads whole size fuel rest h =
      rw (before_end whole size tag payload rest h small, decode_loop)
        (rw (faithful.uint32_read tag (payload ++ rest) small) (rw (reads rest)))

module _ {w : WireFormat} (faithful : IsFaithful w) {B : Type 0} {inner : Fields B} where
  -- A message within a message.
  nested :
      (base m : B) (written : Result (List ℕ))
      → Writes w inner written base m
      → (body framed_body rest : List ℕ) → written ≡ ok body
      → w.join body ≡ ok framed_body
      → decode_nested w inner base (framed_body ++ rest) ≡ ok (m, rest)
  unfolding decode_nested
  nested base m written reads body framed_body rest encoded joined =
      let (small, e) = faithful.join_framed body framed_body joined in
      let framed : framed_body ++ rest ≡ w.put_uint32 (length body) ++ (body ++ rest) =
        rw e (append_assoc (w.put_uint32 (length body)) body rest) in
      rw framed (
        rw (faithful.uint32_read (length body) (body ++ rest) small)
          (decode_from_body w inner base m body rest (reads.reads body encoded)))

module _ {w : WireFormat} (faithful : IsFaithful w) {A : Type 0} {fields : Fields A} where
  -- A tag and a value, where the `switch` reads the value and assigns it.
  pub tagged_value :
      {V : Type 0} (put : Result (List ℕ)) (get : List ℕ → Read V) (v : V)
      → ((payload rest : List ℕ) → put ≡ ok payload → get (payload ++ rest) ≡ ok (v, rest))
      → (tag : ℕ) (a : A) (update : V → A) → tag < limit
      → ((input : List ℕ) → fields tag a input ≡ assign (get input) update)
      → Writes w fields (tagged w tag put) a (update v)
  tagged_value put get v back tag a update small known = record {
    reads = λ bytes written.
        let (payload, done, e) = bind_ok put _ written in
        let value = λ (rest : List ℕ). known (payload ++ rest) ∙ rw (back payload rest done) in
        rw (← ok-injective _ _ e) (
          Reads-round faithful fields tag a (update v) payload small
            (known_round faithful fields tag a (update v) payload small value));
  }

  -- The fields that are written only if they differ from the default, which the message holds.
  pub text :
      (tag : ℕ) (set : A → Text → A)
      → tag < limit
      → Has fields tag w.get_string set
      → (s : Text) {a : A} → set a [] ≡ a
      → Writes w fields (put_text_field w tag s) a (set a s)
  unfolding put_text_field
  text tag set small known [] {a} default = rw default (Writes-nil a)
  text tag set small known (c ∷ s) {a} default =
      tagged_value (w.put_string (c ∷ s)) w.get_string (c ∷ s) (faithful.string_read (c ∷ s)) tag a
        (set a) small (known a)

  pub bytes :
      (tag : ℕ) (set : A → List ℕ → A)
      → tag < limit
      → Has fields tag w.get_bytes set
      → (s : List ℕ) {a : A} → set a [] ≡ a
      → Writes w fields (put_bytes_field w tag s) a (set a s)
  unfolding put_bytes_field
  bytes tag set small known [] {a} default = rw default (Writes-nil a)
  bytes tag set small known (c ∷ s) {a} default =
      tagged_value (w.put_bytes (c ∷ s)) w.get_bytes (c ∷ s) (faithful.bytes_read (c ∷ s)) tag a
        (set a) small (known a)

  pub bool :
      (tag : ℕ) (set : A → Bool → A)
      → tag < limit
      → Has fields tag w.get_bool set
      → (b : Bool) {a : A} → set a false ≡ a
      → Writes w fields (put_bool_field w tag b) a (set a b)
  unfolding put_bool_field
  bool tag set small known false {a} default = rw default (Writes-nil a)
  bool tag set small known true {a} default =
      tagged_value (w.put_bool true) w.get_bool true (faithful.bool_read true) tag a (set a) small
        (known a)

  pub int :
      (tag : ℕ) (set : A → ℤ → A)
      → tag < limit
      → Has fields tag w.get_int32 set
      → (n : ℤ) {a : A} → set a (pos 0) ≡ a
      → Writes w fields (put_int_field w tag n) a (set a n)
  unfolding put_int_field
  int tag set small known (pos zero) {a} default = rw default (Writes-nil a)
  int tag set small known (pos (suc n)) {a} default =
      tagged_value (w.put_int32 (pos (suc n))) w.get_int32 (pos (suc n))
        (faithful.int32_read (pos (suc n))) tag a (set a) small (known a)
  int tag set small known (negsuc n) {a} default =
      tagged_value (w.put_int32 (negsuc n)) w.get_int32 (negsuc n) (faithful.int32_read (negsuc n))
        tag a (set a) small (known a)

  -- An enum travels as its number.
  pub enum :
      {E : Type 0} (code : E → ℤ) (of : ℤ → E) (tag : ℕ) (set : A → E → A)
      → tag < limit
      → Has fields tag w.get_int32 (λ a n. set a (of n))
      → (e : E) → of (code e) ≡ e
      → {a : A} → set a (of (pos 0)) ≡ a
      → Writes w fields (put_int_field w tag (code e)) a (set a e)
  enum code of tag set small known e member {a} default =
      rw (ap (set a) (sym member)) (int tag (λ b n. set b (of n)) small known (code e) default)

  -- `for (const v of ..) writer.uint32(tag).string(v)`, and a `case` that pushes.
  pub texts :
      (tag : ℕ) (with_values : List Text → A)
      → tag < limit
      → ((before : List Text) (input : List ℕ)
          → fields tag (with_values before) input
            ≡ assign (w.get_string input) (λ v. with_values (before ++ v ∷ [])))
      → (vs : List Text)
      → Writes w fields
          (put_each (λ v. tagged w tag (w.put_string v)) vs)
          (with_values [])
          (with_values vs)
  texts tag with_values small known vs =
      Writes-each (λ v. Unit) (λ v. tagged w tag (w.put_string v)) with_values
        (λ before v p.
          tagged_value (w.put_string v) w.get_string v (faithful.string_read v) tag
            (with_values before) (λ v'. with_values (before ++ v' ∷ [])) small (known before))
        [] vs (All-unit vs)

  module _ {B : Type 0} {inner : Fields B} where
    pub message :
        (base : B) (tag : ℕ) (a : A) (update : B → A)
        → tag < limit
        → ((input : List ℕ) → fields tag a input ≡ assign (decode_nested w inner base input) update)
        → {m : B} {written : Result (List ℕ)} → Writes w inner written base m
        → Writes w fields (put_message w tag written) a (update m)
    unfolding put_message
    message base tag a update small known {m} {written} reads = record {
      reads = λ bytes done.
          let (body, encoded, framed) = bind_ok written _ done in
          (tagged_value (w.join body) (decode_nested w inner base) m
              (λ payload rest joined.
                nested faithful base m written reads body payload rest encoded joined)
              tag a update small known).reads
            bytes framed;
    }

    -- `for (const v of ..) X.encode(v, writer.uint32(tag).fork()).join()`, and a `case` that pushes.
    pub messages :
        (P : B → Type 0) (encode : B → Result (List ℕ)) (base : B)
        → ((m : B) → P m → Writes w inner (encode m) base m)
        → (tag : ℕ) (with_values : List B → A) → tag < limit
        → ((before : List B) (input : List ℕ)
            → fields tag (with_values before) input
              ≡ assign (decode_nested w inner base input) (λ v. with_values (before ++ v ∷ [])))
        → (ms : List B) → All P ms
        → Writes w fields
            (put_each (λ v. put_message w tag (encode v)) ms)
            (with_values [])
            (with_values ms)
    messages P encode base back tag with_values small known ms h =
        Writes-each P (λ v. put_message w tag (encode v)) with_values
          (λ before v p.
            message base tag (with_values before) (λ v'. with_values (before ++ v' ∷ [])) small
              (known before) (back v p))
          [] ms h
