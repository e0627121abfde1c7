-- ===== src/Wire/Requests/Back.antt =====
-- What the `encode` functions of the parent write, their `decode` functions read back.
use livepeer_gateway_console.Common.{refl, arith}
use livepeer_gateway_console.Resolver.Messages.{
  GetAuditLogRequest, RefreshRequest, ResolveByAddressRequest, SelectRequest,
}
use livepeer_gateway_console.Wire.{WireFormat}
use livepeer_gateway_console.Wire.Times.{IsDated, date}
use livepeer_gateway_console.Wire.Reads.{IsFaithful, Writes, Encodes, Encodes-end, ◌▸◌}
use livepeer_gateway_console.Wire.Fields.{text, bool, int}
use livepeer_gateway_console.Wire.Requests.{
  base_resolve_by_address_request, encode_resolve_by_address_request,
  resolve_by_address_request_fields, base_select_request, encode_select_request,
  select_request_fields, base_refresh_request, encode_refresh_request, refresh_request_fields,
  base_get_audit_log_request, encode_get_audit_log_request, get_audit_log_request_fields,
}

pub record IsAuditLogRequest (m : GetAuditLogRequest) : Type 0 where
  pub since : IsDated m.since

module _ {w : WireFormat} (faithful : IsFaithful w) where
  pub resolve_by_address_request-Writes :
      (m : ResolveByAddressRequest)
      → Writes w
          (resolve_by_address_request_fields w)
          (encode_resolve_by_address_request w m)
          base_resolve_by_address_request
          m
  unfolding encode_resolve_by_address_request resolve_by_address_request_fields
  resolve_by_address_request-Writes m =
      let chain : Encodes w (resolve_by_address_request_fields w) _ base_resolve_by_address_request
          m =
        text faithful 10 (λ a v. record a { eth_address = v }) (omega arith) (λ a input. refl)
          m.eth_address refl
        ▸ bool faithful 16 (λ a v. record a { allow_legacy_fallback = v }) (omega arith)
            (λ a input. refl) m.allow_legacy_fallback refl
        ▸ bool faithful 24 (λ a v. record a { allow_unsigned = v }) (omega arith) (λ a input. refl)
            m.allow_unsigned refl
        ▸ bool faithful 32 (λ a v. record a { force_refresh = v }) (omega arith) (λ a input. refl)
            m.force_refresh refl
        ▸ Encodes-end in
      chain.all

  pub select_request-Writes :
      (m : SelectRequest)
      → Writes w (select_request_fields w) (encode_select_request w m) base_select_request m
  unfolding encode_select_request select_request_fields
  select_request-Writes m =
      let chain : Encodes w (select_request_fields w) _ base_select_request m =
        text faithful 10 (λ a v. record a { capability = v }) (omega arith) (λ a input. refl)
          m.capability refl
        ▸ text faithful 18 (λ a v. record a { offering = v }) (omega arith) (λ a input. refl)
            m.offering refl
        ▸ text faithful 26 (λ a v. record a { tier = v }) (omega arith) (λ a input. refl) m.tier
            refl
        ▸ int faithful 32 (λ a v. record a { min_weight = v }) (omega arith) (λ a input. refl)
            m.min_weight refl
        ▸ Encodes-end in
      chain.all

  pub refresh_request-Writes :
      (m : RefreshRequest)
      → Writes w (refresh_request_fields w) (encode_refresh_request w m) base_refresh_request m
  unfolding encode_refresh_request refresh_request_fields
  refresh_request-Writes m =
      let chain : Encodes w (refresh_request_fields w) _ base_refresh_request m =
        text faithful 10 (λ a v. record a { eth_address = v }) (omega arith) (λ a input. refl)
          m.eth_address refl
        ▸ bool faithful 16 (λ a v. record a { force = v }) (omega arith) (λ a input. refl) m.force
            refl
        ▸ Encodes-end in
      chain.all

  pub get_audit_log_request-Writes :
      (m : GetAuditLogRequest)
      → IsAuditLogRequest m
      → Writes w
          (get_audit_log_request_fields w)
          (encode_get_audit_log_request w m)
          base_get_audit_log_request
          m
  unfolding encode_get_audit_log_request get_audit_log_request_fields
  get_audit_log_request-Writes m h =
      let chain : Encodes w (get_audit_log_request_fields w) _ base_get_audit_log_request m =
        text faithful 10 (λ a v. record a { eth_address = v }) (omega arith) (λ a input. refl)
          m.eth_address refl
        ▸ date faithful 18 (λ a v. record a { since = v }) (omega arith) (λ a input. refl) m.since
            h.since refl
        ▸ int faithful 24 (λ a v. record a { limit = v }) (omega arith) (λ a input. refl) m.limit
            refl
        ▸ Encodes-end in
      chain.all
