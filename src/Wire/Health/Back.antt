-- ===== src/Wire/Health/Back.antt =====
-- What the `encode` functions of the parent write, their `decode` functions read back.
use livepeer_gateway_console.Common.{refl, arith}
use livepeer_gateway_console.Resolver.Messages.{HealthResult}
use livepeer_gateway_console.Wire.{WireFormat}
use livepeer_gateway_console.Wire.Times.{IsDated, date}
use livepeer_gateway_console.Wire.Reads.{IsFaithful, Writes, Encodes, Encodes-end, ◌▸◌}
use livepeer_gateway_console.Wire.Fields.{text, bool, int}
use livepeer_gateway_console.Wire.Health.{
  base_health_result, encode_health_result, health_result_fields,
}

pub record IsHealthResult (m : HealthResult) : Type 0 where
  pub last_chain_success : IsDated m.last_chain_success

module _ {w : WireFormat} (faithful : IsFaithful w) where
  pub health_result-Writes :
      (m : HealthResult)
      → IsHealthResult m
      → Writes w (health_result_fields w) (encode_health_result w m) base_health_result m
  unfolding encode_health_result health_result_fields
  health_result-Writes m h =
      let chain : Encodes w (health_result_fields w) _ base_health_result m =
        text faithful 10 (λ a v. record a { mode = v }) (omega arith) (λ a input. refl) m.mode refl
        ▸ bool faithful 16 (λ a v. record a { chain_ok = v }) (omega arith) (λ a input. refl)
            m.chain_ok refl
        ▸ bool faithful 24 (λ a v. record a { manifest_fetcher_ok = v }) (omega arith)
            (λ a input. refl) m.manifest_fetcher_ok refl
        ▸ int faithful 32 (λ a v. record a { cache_size = v }) (omega arith) (λ a input. refl)
            m.cache_size refl
        ▸ date faithful 42 (λ a v. record a { last_chain_success = v }) (omega arith)
            (λ a input. refl) m.last_chain_success h.last_chain_success refl
        ▸ Encodes-end in
      chain.all
