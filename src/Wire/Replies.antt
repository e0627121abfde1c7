-- ===== src/Wire/Replies.antt =====
-- gen/livepeer/registry/v1/resolver.ts: the coding of the replies. A `SelectResult` is its `route`,
-- a `ListKnownResult` its `entries` and an `AuditLogResult` its `events`.
pub mod Back
use livepeer_gateway_console.Common.{
  ℕ, zero, suc, ◌+◌, ◌≤◌, ◌<◌, ◌≡◌, refl, Bool, true, false, Option, none, some, List, [], ◌∷◌,
  ◌++◌, ◌==◌, if◌then◌else◌, All, arith,
}
use livepeer_gateway_console.Common.Int.{ℤ, pos}
use livepeer_gateway_console.Common.Result.{Result, ok}
use livepeer_gateway_console.Resolver.Labels.{ResolveMode, SignatureStatus, FreshnessStatus, Source}
use livepeer_gateway_console.Resolver.Messages.{
  AuditEvent, KnownEntry, ProtoSelectedRoute, ResolveResult,
}
use livepeer_gateway_console.Wire.{
  WireFormat, assign, Fields, decode_nested, tagged, put_text_field, put_bytes_field,
  put_bool_field, put_int_field, put_message, put_each, writes,
}
use livepeer_gateway_console.Wire.Enums.{
  resolve_mode_code, resolve_mode_of, signature_status_code, signature_status_of,
  freshness_status_code, freshness_status_of, source_code, source_of, IsResolveMode,
  IsSignatureStatus, IsFreshnessStatus, IsSource,
}
use livepeer_gateway_console.Wire.Times.{put_date_field, assign_date}
use livepeer_gateway_console.Wire.Nodes.{base_node, encode_node, node_fields}

abbrev pub base_resolve_result : ResolveResult
base_resolve_result = record {
  eth_address = [];
  resolved_uri = [];
  mode = ResolveMode.unspecified;
  nodes = [];
  freshness_status = FreshnessStatus.unspecified;
  cached_at = none;
  fetched_at = none;
  schema_version = [];
}

unfoldable pub encode_resolve_result : WireFormat → ResolveResult → Result (List ℕ)
encode_resolve_result w m = writes (
    put_text_field w 10 m.eth_address
    ∷ put_text_field w 18 m.resolved_uri
    ∷ put_int_field w 24 (resolve_mode_code m.mode)
    ∷ put_each (λ v. put_message w 34 (encode_node w v)) m.nodes
    ∷ put_int_field w 40 (freshness_status_code m.freshness_status)
    ∷ put_date_field w 50 m.cached_at
    ∷ put_date_field w 58 m.fetched_at
    ∷ put_text_field w 66 m.schema_version
    ∷ [])

unfoldable pub resolve_result_fields : WireFormat → Fields ResolveResult
resolve_result_fields w tag m input =
    if tag == 10
    then assign (w.get_string input) (λ v. record m { eth_address = v })
    else if tag == 18
    then assign (w.get_string input) (λ v. record m { resolved_uri = v })
    else if tag == 24
    then assign (w.get_int32 input) (λ v. record m { mode = resolve_mode_of v })
    else if tag == 34
    then assign (decode_nested w (node_fields w) base_node input)
        (λ v. record m { nodes = m.nodes ++ v ∷ [] })
    else if tag == 40
    then assign (w.get_int32 input) (λ v. record m { freshness_status = freshness_status_of v })
    else if tag == 50
    then assign_date w input (λ date. record m { cached_at = date })
    else if tag == 58
    then assign_date w input (λ date. record m { fetched_at = date })
    else if tag == 66
    then assign (w.get_string input) (λ v. record m { schema_version = v })
    else none

abbrev pub base_selected_route : ProtoSelectedRoute
base_selected_route = record {
  worker_url = [];
  eth_address = [];
  capability = [];
  offering = [];
  price_per_work_unit_wei = [];
  work_unit = [];
  extra_json = [];
  constraints_json = [];
}

unfoldable pub encode_selected_route : WireFormat → ProtoSelectedRoute → Result (List ℕ)
encode_selected_route w m = writes (
    put_text_field w 10 m.worker_url
    ∷ put_text_field w 18 m.eth_address
    ∷ put_text_field w 26 m.capability
    ∷ put_text_field w 34 m.offering
    ∷ put_text_field w 42 m.price_per_work_unit_wei
    ∷ put_text_field w 50 m.work_unit
    ∷ put_bytes_field w 58 m.extra_json
    ∷ put_bytes_field w 66 m.constraints_json
    ∷ [])

unfoldable pub selected_route_fields : WireFormat → Fields ProtoSelectedRoute
selected_route_fields w tag m input =
    if tag == 10
    then assign (w.get_string input) (λ v. record m { worker_url = v })
    else if tag == 18
    then assign (w.get_string input) (λ v. record m { eth_address = v })
    else if tag == 26
    then assign (w.get_string input) (λ v. record m { capability = v })
    else if tag == 34
    then assign (w.get_string input) (λ v. record m { offering = v })
    else if tag == 42
    then assign (w.get_string input) (λ v. record m { price_per_work_unit_wei = v })
    else if tag == 50
    then assign (w.get_string input) (λ v. record m { work_unit = v })
    else if tag == 58
    then assign (w.get_bytes input) (λ v. record m { extra_json = v })
    else if tag == 66
    then assign (w.get_bytes input) (λ v. record m { constraints_json = v })
    else none

abbrev pub base_known_entry : KnownEntry
base_known_entry = record {
  eth_address = [];
  mode = ResolveMode.unspecified;
  freshness_status = FreshnessStatus.unspecified;
  cached_at = none;
}

unfoldable pub encode_known_entry : WireFormat → KnownEntry → Result (List ℕ)
encode_known_entry w m = writes (
    put_text_field w 10 m.eth_address
    ∷ put_int_field w 16 (resolve_mode_code m.mode)
    ∷ put_int_field w 24 (freshness_status_code m.freshness_status)
    ∷ put_date_field w 34 m.cached_at
    ∷ [])

unfoldable pub known_entry_fields : WireFormat → Fields KnownEntry
known_entry_fields w tag m input =
    if tag == 10
    then assign (w.get_string input) (λ v. record m { eth_address = v })
    else if tag == 16
    then assign (w.get_int32 input) (λ v. record m { mode = resolve_mode_of v })
    else if tag == 24
    then assign (w.get_int32 input) (λ v. record m { freshness_status = freshness_status_of v })
    else if tag == 34
    then assign_date w input (λ date. record m { cached_at = date })
    else none

abbrev pub base_audit_event : AuditEvent
base_audit_event = record {
  at = none;
  eth_address = [];
  kind = [];
  mode = ResolveMode.unspecified;
  detail = [];
}

unfoldable pub encode_audit_event : WireFormat → AuditEvent → Result (List ℕ)
encode_audit_event w m = writes (
    put_date_field w 10 m.at
    ∷ put_text_field w 18 m.eth_address
    ∷ put_text_field w 26 m.kind
    ∷ put_int_field w 32 (resolve_mode_code m.mode)
    ∷ put_text_field w 42 m.detail
    ∷ [])

unfoldable pub audit_event_fields : WireFormat → Fields AuditEvent
audit_event_fields w tag m input =
    if tag == 10
    then assign_date w input (λ date. record m { at = date })
    else if tag == 18
    then assign (w.get_string input) (λ v. record m { eth_address = v })
    else if tag == 26
    then assign (w.get_string input) (λ v. record m { kind = v })
    else if tag == 32
    then assign (w.get_int32 input) (λ v. record m { mode = resolve_mode_of v })
    else if tag == 42
    then assign (w.get_string input) (λ v. record m { detail = v })
    else none

unfoldable pub encode_select_result : WireFormat → Option ProtoSelectedRoute → Result (List ℕ)
encode_select_result w none = ok []
encode_select_result w (some v) = put_message w 10 (encode_selected_route w v)

unfoldable pub select_result_fields : WireFormat → Fields (Option ProtoSelectedRoute)
select_result_fields w tag m input =
    if tag == 10
    then assign (decode_nested w (selected_route_fields w) base_selected_route input) some
    else none

unfoldable pub encode_list_known_result : WireFormat → List KnownEntry → Result (List ℕ)
encode_list_known_result w = put_each (λ v. put_message w 10 (encode_known_entry w v))

unfoldable pub list_known_result_fields : WireFormat → Fields (List KnownEntry)
list_known_result_fields w tag m input =
    if tag == 10
    then assign (decode_nested w (known_entry_fields w) base_known_entry input) (λ v. m ++ v ∷ [])
    else none

unfoldable pub encode_audit_log_result : WireFormat → List AuditEvent → Result (List ℕ)
encode_audit_log_result w = put_each (λ v. put_message w 10 (encode_audit_event w v))

unfoldable pub audit_log_result_fields : WireFormat → Fields (List AuditEvent)
audit_log_result_fields w tag m input =
    if tag == 10
    then assign (decode_nested w (audit_event_fields w) base_audit_event input) (λ v. m ++ v ∷ [])
    else none
