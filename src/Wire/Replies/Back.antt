-- ===== src/Wire/Replies/Back.antt =====
-- What the `encode` functions of the parent write, their `decode` functions read back.
use livepeer_gateway_console.Common.{refl, Option, none, some, List, [], All, arith}
use livepeer_gateway_console.Resolver.Messages.{
  AuditEvent, KnownEntry, ProtoSelectedRoute, ResolveResult,
}
use livepeer_gateway_console.Wire.{WireFormat}
use livepeer_gateway_console.Wire.Enums.{
  resolve_mode_code, resolve_mode_of, freshness_status_code, freshness_status_of, IsResolveMode,
  IsFreshnessStatus,
}
use livepeer_gateway_console.Wire.Times.{IsDated, date}
use livepeer_gateway_console.Wire.Reads.{IsFaithful, Writes, Writes-nil, Encodes, Encodes-end, ◌▸◌}
use livepeer_gateway_console.Wire.Fields.{text, bytes, enum, message, messages}
use livepeer_gateway_console.Wire.Replies.{
  base_resolve_result, encode_resolve_result, resolve_result_fields, base_selected_route,
  encode_selected_route, selected_route_fields, base_known_entry, encode_known_entry,
  known_entry_fields, base_audit_event, encode_audit_event, audit_event_fields,
  encode_select_result, select_result_fields, encode_list_known_result, list_known_result_fields,
  encode_audit_log_result, audit_log_result_fields,
}
use livepeer_gateway_console.Wire.Nodes.{base_node, encode_node}
use livepeer_gateway_console.Wire.Nodes.Back.{IsNode, node-Writes}

pub record IsResolveResult (m : ResolveResult) : Type 0 where
  pub mode : IsResolveMode m.mode
  pub nodes : All IsNode m.nodes
  pub freshness_status : IsFreshnessStatus m.freshness_status
  pub cached_at : IsDated m.cached_at
  pub fetched_at : IsDated m.fetched_at

pub record IsKnownEntry (m : KnownEntry) : Type 0 where
  pub mode : IsResolveMode m.mode
  pub freshness_status : IsFreshnessStatus m.freshness_status
  pub cached_at : IsDated m.cached_at

pub record IsAuditEvent (m : AuditEvent) : Type 0 where
  pub at : IsDated m.at
  pub mode : IsResolveMode m.mode

module _ {w : WireFormat} (faithful : IsFaithful w) where
  pub resolve_result-Writes :
      (m : ResolveResult)
      → IsResolveResult m
      → Writes w (resolve_result_fields w) (encode_resolve_result w m) base_resolve_result m
  unfolding encode_resolve_result resolve_result_fields freshness_status_of resolve_mode_of
  resolve_result-Writes m h =
      let chain : Encodes w (resolve_result_fields w) _ base_resolve_result m =
        text faithful 10 (λ a v. record a { eth_address = v }) (omega arith) (λ a input. refl)
          m.eth_address refl
        ▸ text faithful 18 (λ a v. record a { resolved_uri = v }) (omega arith) (λ a input. refl)
            m.resolved_uri refl
        ▸ enum faithful resolve_mode_code resolve_mode_of 24 (λ a v. record a { mode = v })
            (omega arith) (λ a input. refl) m.mode h.mode refl
        ▸ messages faithful IsNode (encode_node w) base_node (node-Writes faithful) 34
            (λ vs. record base_resolve_result {
              eth_address = m.eth_address;
              resolved_uri = m.resolved_uri;
              mode = m.mode;
              nodes = vs;
            })
            (omega arith) (λ before input. refl) m.nodes h.nodes
        ▸ enum faithful freshness_status_code freshness_status_of 40
            (λ a v. record a { freshness_status = v }) (omega arith) (λ a input. refl)
            m.freshness_status h.freshness_status refl
        ▸ date faithful 50 (λ a v. record a { cached_at = v }) (omega arith) (λ a input. refl)
            m.cached_at h.cached_at refl
        ▸ date faithful 58 (λ a v. record a { fetched_at = v }) (omega arith) (λ a input. refl)
            m.fetched_at h.fetched_at refl
        ▸ text faithful 66 (λ a v. record a { schema_version = v }) (omega arith) (λ a input. refl)
            m.schema_version refl
        ▸ Encodes-end in
      chain.all

  pub selected_route-Writes :
      (m : ProtoSelectedRoute)
      → Writes w (selected_route_fields w) (encode_selected_route w m) base_selected_route m
  unfolding encode_selected_route selected_route_fields
  selected_route-Writes m =
      let chain : Encodes w (selected_route_fields w) _ base_selected_route m =
        text faithful 10 (λ a v. record a { worker_url = v }) (omega arith) (λ a input. refl)
          m.worker_url refl
        ▸ text faithful 18 (λ a v. record a { eth_address = v }) (omega arith) (λ a input. refl)
            m.eth_address refl
        ▸ text faithful 26 (λ a v. record a { capability = v }) (omega arith) (λ a input. refl)
            m.capability refl
        ▸ text faithful 34 (λ a v. record a { offering = v }) (omega arith) (λ a input. refl)
            m.offering refl
        ▸ text faithful 42 (λ a v. record a { price_per_work_unit_wei = v }) (omega arith)
            (λ a input. refl) m.price_per_work_unit_wei refl
        ▸ text faithful 50 (λ a v. record a { work_unit = v }) (omega arith) (λ a input. refl)
            m.work_unit refl
        ▸ bytes faithful 58 (λ a v. record a { extra_json = v }) (omega arith) (λ a input. refl)
            m.extra_json refl
        ▸ bytes faithful 66 (λ a v. record a { constraints_json = v }) (omega arith)
            (λ a input. refl) m.constraints_json refl
        ▸ Encodes-end in
      chain.all

  pub known_entry-Writes :
      (m : KnownEntry)
      → IsKnownEntry m
      → Writes w (known_entry_fields w) (encode_known_entry w m) base_known_entry m
  unfolding encode_known_entry known_entry_fields freshness_status_of resolve_mode_of
  known_entry-Writes m h =
      let chain : Encodes w (known_entry_fields w) _ base_known_entry m =
        text faithful 10 (λ a v. record a { eth_address = v }) (omega arith) (λ a input. refl)
          m.eth_address refl
        ▸ enum faithful resolve_mode_code resolve_mode_of 16 (λ a v. record a { mode = v })
            (omega arith) (λ a input. refl) m.mode h.mode refl
        ▸ enum faithful freshness_status_code freshness_status_of 24
            (λ a v. record a { freshness_status = v }) (omega arith) (λ a input. refl)
            m.freshness_status h.freshness_status refl
        ▸ date faithful 34 (λ a v. record a { cached_at = v }) (omega arith) (λ a input. refl)
            m.cached_at h.cached_at refl
        ▸ Encodes-end in
      chain.all

  pub audit_event-Writes :
      (m : AuditEvent)
      → IsAuditEvent m
      → Writes w (audit_event_fields w) (encode_audit_event w m) base_audit_event m
  unfolding encode_audit_event audit_event_fields resolve_mode_of
  audit_event-Writes m h =
      let chain : Encodes w (audit_event_fields w) _ base_audit_event m =
        date faithful 10 (λ a v. record a { at = v }) (omega arith) (λ a input. refl) m.at h.at refl
        ▸ text faithful 18 (λ a v. record a { eth_address = v }) (omega arith) (λ a input. refl)
            m.eth_address refl
        ▸ text faithful 26 (λ a v. record a { kind = v }) (omega arith) (λ a input. refl) m.kind
            refl
        ▸ enum faithful resolve_mode_code resolve_mode_of 32 (λ a v. record a { mode = v })
            (omega arith) (λ a input. refl) m.mode h.mode refl
        ▸ text faithful 42 (λ a v. record a { detail = v }) (omega arith) (λ a input. refl) m.detail
            refl
        ▸ Encodes-end in
      chain.all

  pub select_result-Writes :
      (o : Option ProtoSelectedRoute)
      → Writes w (select_result_fields w) (encode_select_result w o) none o
  unfolding encode_select_result select_result_fields
  select_result-Writes none = Writes-nil none
  select_result-Writes (some m) =
      message faithful base_selected_route 10 none some (omega arith) (λ input. refl)
        (selected_route-Writes m)

  pub list_known_result-Writes :
      (ms : List KnownEntry)
      → All IsKnownEntry ms
      → Writes w (list_known_result_fields w) (encode_list_known_result w ms) [] ms
  unfolding encode_list_known_result list_known_result_fields
  list_known_result-Writes ms h =
      messages faithful IsKnownEntry (encode_known_entry w) base_known_entry (known_entry-Writes) 10
        (λ vs. vs) (omega arith) (λ before input. refl) ms h

  pub audit_log_result-Writes :
      (ms : List AuditEvent)
      → All IsAuditEvent ms
      → Writes w (audit_log_result_fields w) (encode_audit_log_result w ms) [] ms
  unfolding encode_audit_log_result audit_log_result_fields
  audit_log_result-Writes ms h =
      messages faithful IsAuditEvent (encode_audit_event w) base_audit_event (audit_event-Writes) 10
        (λ vs. vs) (omega arith) (λ before input. refl) ms h
