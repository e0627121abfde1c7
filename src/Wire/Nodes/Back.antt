-- ===== src/Wire/Nodes/Back.antt =====
-- What the `encode` functions of the parent write, their `decode` functions read back.
use livepeer_gateway_console.Common.{refl, [], arith}
use livepeer_gateway_console.Common.Int.{pos}
use livepeer_gateway_console.Resolver.Messages.{Capability, Node, Offering}
use livepeer_gateway_console.Wire.{WireFormat}
use livepeer_gateway_console.Wire.Enums.{
  signature_status_code, signature_status_of, source_code, source_of, IsSignatureStatus, IsSource,
}
use livepeer_gateway_console.Wire.Reads.{IsFaithful, Writes, Encodes, Encodes-end, ◌▸◌, All-unit}
use livepeer_gateway_console.Wire.Fields.{text, bytes, bool, int, enum, texts, messages}
use livepeer_gateway_console.Wire.Nodes.{
  base_offering, encode_offering, offering_fields, base_capability, encode_capability,
  capability_fields, base_node, encode_node, node_fields,
}

pub record IsNode (m : Node) : Type 0 where
  pub source : IsSource m.source
  pub signature_status : IsSignatureStatus m.signature_status

module _ {w : WireFormat} (faithful : IsFaithful w) where
  pub offering-Writes :
      (m : Offering) → Writes w (offering_fields w) (encode_offering w m) base_offering m
  unfolding encode_offering offering_fields
  offering-Writes m =
      let chain : Encodes w (offering_fields w) _ base_offering m =
        text faithful 10 (λ a v. record a { id = v }) (omega arith) (λ a input. refl) m.id refl
        ▸ text faithful 18 (λ a v. record a { price_per_work_unit_wei = v }) (omega arith)
            (λ a input. refl) m.price_per_work_unit_wei refl
        ▸ bytes faithful 26 (λ a v. record a { constraints_json = v }) (omega arith)
            (λ a input. refl) m.constraints_json refl
        ▸ Encodes-end in
      chain.all

  pub capability-Writes :
      (m : Capability) → Writes w (capability_fields w) (encode_capability w m) base_capability m
  unfolding encode_capability capability_fields
  capability-Writes m =
      let chain : Encodes w (capability_fields w) _ base_capability m =
        text faithful 10 (λ a v. record a { name = v }) (omega arith) (λ a input. refl) m.name refl
        ▸ text faithful 18 (λ a v. record a { work_unit = v }) (omega arith) (λ a input. refl)
            m.work_unit refl
        ▸ messages faithful (λ v. Unit) (encode_offering w) base_offering
            (λ v unit. offering-Writes v) 26 (λ vs. record m { offerings = vs; extra_json = [] })
            (omega arith) (λ before input. refl) m.offerings (All-unit m.offerings)
        ▸ bytes faithful 34 (λ a v. record a { extra_json = v }) (omega arith) (λ a input. refl)
            m.extra_json refl
        ▸ Encodes-end in
      chain.all

  pub node-Writes : (m : Node) → IsNode m → Writes w (node_fields w) (encode_node w m) base_node m
  unfolding encode_node node_fields signature_status_of source_of
  node-Writes m h =
      let chain : Encodes w (node_fields w) _ base_node m =
        text faithful 10 (λ a v. record a { id = v }) (omega arith) (λ a input. refl) m.id refl
        ▸ text faithful 18 (λ a v. record a { url = v }) (omega arith) (λ a input. refl) m.url refl
        ▸ text faithful 26 (λ a v. record a { worker_eth_address = v }) (omega arith)
            (λ a input. refl) m.worker_eth_address refl
        ▸ bytes faithful 34 (λ a v. record a { extra_json = v }) (omega arith) (λ a input. refl)
            m.extra_json refl
        ▸ messages faithful (λ v. Unit) (encode_capability w) base_capability
            (λ v unit. capability-Writes v) 42
            (λ vs. record base_node {
              id = m.id;
              url = m.url;
              worker_eth_address = m.worker_eth_address;
              extra_json = m.extra_json;
              capabilities = vs;
            })
            (omega arith) (λ before input. refl) m.capabilities (All-unit m.capabilities)
        ▸ enum faithful source_code source_of 48 (λ a v. record a { source = v }) (omega arith)
            (λ a input. refl) m.source h.source refl
        ▸ enum faithful signature_status_code signature_status_of 56
            (λ a v. record a { signature_status = v }) (omega arith) (λ a input. refl)
            m.signature_status h.signature_status refl
        ▸ text faithful 66 (λ a v. record a { operator_address = v }) (omega arith)
            (λ a input. refl) m.operator_address refl
        ▸ bool faithful 72 (λ a v. record a { enabled = v }) (omega arith) (λ a input. refl)
            m.enabled refl
        ▸ texts faithful 82 (λ vs. record m { tier_allowed = vs; weight = pos 0 }) (omega arith)
            (λ before input. refl) m.tier_allowed
        ▸ int faithful 88 (λ a v. record a { weight = v }) (omega arith) (λ a input. refl) m.weight
            refl
        ▸ Encodes-end in
      chain.all
