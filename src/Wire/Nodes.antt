-- ===== src/Wire/Nodes.antt =====
-- gen/livepeer/registry/v1/types.ts: the coding of `Offering`, `Capability` and `Node`.
pub mod Back
use livepeer_gateway_console.Common.{
  ℕ, zero, suc, ◌+◌, ◌≤◌, ◌<◌, ◌≡◌, refl, Bool, true, false, Option, none, some, List, [], ◌∷◌,
  ◌++◌, ◌==◌, if◌then◌else◌, All, arith,
}
use livepeer_gateway_console.Common.Int.{ℤ, pos}
use livepeer_gateway_console.Common.Result.{Result, ok}
use livepeer_gateway_console.Resolver.Labels.{ResolveMode, SignatureStatus, FreshnessStatus, Source}
use livepeer_gateway_console.Resolver.Messages.{Capability, Node, Offering}
use livepeer_gateway_console.Wire.{
  WireFormat, assign, Fields, decode_nested, tagged, put_text_field, put_bytes_field,
  put_bool_field, put_int_field, put_message, put_each, writes,
}
use livepeer_gateway_console.Wire.Enums.{
  resolve_mode_code, resolve_mode_of, signature_status_code, signature_status_of,
  freshness_status_code, freshness_status_of, source_code, source_of, IsResolveMode,
  IsSignatureStatus, IsFreshnessStatus, IsSource,
}
use livepeer_gateway_console.Wire.Times.{put_date_field, assign_date}

abbrev pub base_offering : Offering
base_offering = record { id = []; price_per_work_unit_wei = []; constraints_json = [] }

unfoldable pub encode_offering : WireFormat → Offering → Result (List ℕ)
encode_offering w m = writes (
    put_text_field w 10 m.id
    ∷ put_text_field w 18 m.price_per_work_unit_wei
    ∷ put_bytes_field w 26 m.constraints_json
    ∷ [])

unfoldable pub offering_fields : WireFormat → Fields Offering
offering_fields w tag m input =
    if tag == 10
    then assign (w.get_string input) (λ v. record m { id = v })
    else if tag == 18
    then assign (w.get_string input) (λ v. record m { price_per_work_unit_wei = v })
    else if tag == 26
    then assign (w.get_bytes input) (λ v. record m { constraints_json = v })
    else none

abbrev pub base_capability : Capability
base_capability = record { name = []; work_unit = []; offerings = []; extra_json = [] }

unfoldable pub encode_capability : WireFormat → Capability → Result (List ℕ)
encode_capability w m = writes (
    put_text_field w 10 m.name
    ∷ put_text_field w 18 m.work_unit
    ∷ put_each (λ v. put_message w 26 (encode_offering w v)) m.offerings
    ∷ put_bytes_field w 34 m.extra_json
    ∷ [])

unfoldable pub capability_fields : WireFormat → Fields Capability
capability_fields w tag m input =
    if tag == 10
    then assign (w.get_string input) (λ v. record m { name = v })
    else if tag == 18
    then assign (w.get_string input) (λ v. record m { work_unit = v })
    else if tag == 26
    then assign (decode_nested w (offering_fields w) base_offering input)
        (λ v. record m { offerings = m.offerings ++ v ∷ [] })
    else if tag == 34
    then assign (w.get_bytes input) (λ v. record m { extra_json = v })
    else none

abbrev pub base_node : Node
base_node = record {
  id = [];
  url = [];
  worker_eth_address = [];
  extra_json = [];
  capabilities = [];
  source = Source.unspecified;
  signature_status = SignatureStatus.unspecified;
  operator_address = [];
  enabled = false;
  tier_allowed = [];
  weight = pos 0;
}

unfoldable pub encode_node : WireFormat → Node → Result (List ℕ)
encode_node w m = writes (
    put_text_field w 10 m.id
    ∷ put_text_field w 18 m.url
    ∷ put_text_field w 26 m.worker_eth_address
    ∷ put_bytes_field w 34 m.extra_json
    ∷ put_each (λ v. put_message w 42 (encode_capability w v)) m.capabilities
    ∷ put_int_field w 48 (source_code m.source)
    ∷ put_int_field w 56 (signature_status_code m.signature_status)
    ∷ put_text_field w 66 m.operator_address
    ∷ put_bool_field w 72 m.enabled
    ∷ put_each (λ v. tagged w 82 (w.put_string v)) m.tier_allowed
    ∷ put_int_field w 88 m.weight
    ∷ [])

unfoldable pub node_fields : WireFormat → Fields Node
node_fields w tag m input =
    if tag == 10
    then assign (w.get_string input) (λ v. record m { id = v })
    else if tag == 18
    then assign (w.get_string input) (λ v. record m { url = v })
    else if tag == 26
    then assign (w.get_string input) (λ v. record m { worker_eth_address = v })
    else if tag == 34
    then assign (w.get_bytes input) (λ v. record m { extra_json = v })
    else if tag == 42
    then assign (decode_nested w (capability_fields w) base_capability input)
        (λ v. record m { capabilities = m.capabilities ++ v ∷ [] })
    else if tag == 48
    then assign (w.get_int32 input) (λ v. record m { source = source_of v })
    else if tag == 56
    then assign (w.get_int32 input) (λ v. record m { signature_status = signature_status_of v })
    else if tag == 66
    then assign (w.get_string input) (λ v. record m { operator_address = v })
    else if tag == 72
    then assign (w.get_bool input) (λ v. record m { enabled = v })
    else if tag == 82
    then assign (w.get_string input) (λ v. record m { tier_allowed = m.tier_allowed ++ v ∷ [] })
    else if tag == 88
    then assign (w.get_int32 input) (λ v. record m { weight = v })
    else none
