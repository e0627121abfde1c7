-- ===== src/Wire/Unknown.antt =====
-- What `decode` makes of more than one `encode` wrote: fields of a later version of the messages,
-- and a second message behind the first.
use livepeer_gateway_console.Common.{
  ℕ, suc, ◌+◌, ◌%◌, ◌≤◌, ◌<◌, ◌≡◌, ◌≢◌, refl, false, ◌||◌, none, List, ◌++◌, ◌==◌, length, arith,
}
use livepeer_gateway_console.Common.Result.{Result, ok, ok-injective}
use livepeer_gateway_console.Wire.{
  WireFormat, Fields, unknown_field, after_tag, decode_loop, decode_all,
}
use livepeer_gateway_console.Wire.Reads.{
  limit, IsFaithful, Reads, Reads-append, Writes, decode_all-writes,
}
use livepeer_gateway_console.Wire.Fields.{before_end, Reads-round}
use livepeer_gateway_console.Resolver.Messages.{ResolveResult}
use livepeer_gateway_console.Wire.Replies.{
  base_resolve_result, encode_resolve_result, resolve_result_fields,
}
use livepeer_gateway_console.Wire.Replies.Back.{IsResolveResult, resolve_result-Writes}

-- A field whose tag no `case` has, and which the reader skips.
pub record IsUnknown (w : WireFormat) {A : Type 0} (fields : Fields A) (tag : ℕ) (payload : List ℕ)
    : Type 0 where
  pub small : tag < limit
  pub no_end : (tag % 8 ≢ 4) × (tag ≢ 0)
  pub no_case : (message : A) (input : List ℕ) → fields tag message input ≡ none
  pub skipped : (rest : List ℕ) → w.skip (tag % 8) (payload ++ rest) ≡ ok rest

module _ {w : WireFormat} (faithful : IsFaithful w) {A : Type 0} (fields : Fields A) where
  unknown_round :
      (tag : ℕ) (a : A) (payload : List ℕ)
      → IsUnknown w fields tag payload
      → (whole size fuel : ℕ) (rest : List ℕ) → whole ≤ size + length rest
      → decode_loop w fields (suc fuel) whole size a (w.put_uint32 tag ++ (payload ++ rest))
        ≡ decode_loop w fields fuel whole size a rest
  unfolding decode_loop after_tag unknown_field
  unknown_round tag a payload u whole size fuel rest h =
      let goes_on : ((tag % 8 == 4) || (tag == 0)) ≡ false = ground (arith, u.no_end) in
      rw (before_end faithful fields whole size tag payload rest h u.small, decode_loop)
        (rw (faithful.uint32_read tag (payload ++ rest) u.small)
          (rw (u.no_case a (payload ++ rest)) (rw goes_on (rw (u.skipped rest)))))

  unknown-Reads :
      (tag : ℕ) (payload : List ℕ)
      → IsUnknown w fields tag payload
      → (a : A) → Reads w fields a (w.put_uint32 tag ++ payload) a
  unknown-Reads tag payload u a =
      Reads-round faithful fields tag a a payload u.small (unknown_round tag a payload u)

  -- An unknown field in front of a message and behind it changes nothing of what is read.
  decode_all-unknown :
      (base message : A) (written : Result (List ℕ)) (bytes : List ℕ)
      → Writes w fields written base message
      → written ≡ ok bytes
      → (tag : ℕ) (payload : List ℕ) → IsUnknown w fields tag payload
      → decode_all w fields base
          ((w.put_uint32 tag ++ payload) ++ (bytes ++ (w.put_uint32 tag ++ payload)))
        ≡ ok message
  decode_all-unknown base message written bytes writes done tag payload u =
      let more = w.put_uint32 tag ++ payload in
      let padded : Writes w fields (ok (more ++ (bytes ++ more))) base message = record {
        reads = λ all e. rw (← ok-injective _ _ e) (
            Reads-append w fields base base message more (bytes ++ more)
              (unknown-Reads tag payload u base)
              (Reads-append w fields base message message bytes more (writes.reads bytes done)
                (unknown-Reads tag payload u message)));
      } in
      decode_all-writes base message (ok (more ++ (bytes ++ more))) (more ++ (bytes ++ more)) padded
        refl

module _ {w : WireFormat} (faithful : IsFaithful w) (tag : ℕ) (payload bytes : List ℕ) where
  -- `ResolveResult.decode` returns the message that `encode` wrote, also when a field without a
  -- `case`, whose tag ends no message and which the reader skips, stands before the bytes and again
  -- behind them.
  pub later_fields_ignored :
      (m : ResolveResult)
      → IsResolveResult m
      → encode_resolve_result w m ≡ ok bytes
      → IsUnknown w (resolve_result_fields w) tag payload
      → decode_all w
          (resolve_result_fields w)
          base_resolve_result
          ((w.put_uint32 tag ++ payload) ++ (bytes ++ (w.put_uint32 tag ++ payload)))
        ≡ ok m
  later_fields_ignored m h done u =
      decode_all-unknown faithful (resolve_result_fields w) base_resolve_result m _ bytes
        (resolve_result-Writes faithful m h) done tag payload u
