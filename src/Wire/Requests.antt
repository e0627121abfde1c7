-- ===== src/Wire/Requests.antt =====
-- gen/livepeer/registry/v1/resolver.ts: the coding of the requests.
pub mod Back
use livepeer_gateway_console.Common.{
  ℕ, zero, suc, ◌+◌, ◌≤◌, ◌<◌, ◌≡◌, refl, Bool, true, false, Option, none, some, List, [], ◌∷◌,
  ◌++◌, ◌==◌, if◌then◌else◌, All, arith,
}
use livepeer_gateway_console.Common.Int.{ℤ, pos}
use livepeer_gateway_console.Common.Result.{Result, ok}
use livepeer_gateway_console.Resolver.Labels.{ResolveMode, SignatureStatus, FreshnessStatus, Source}
use livepeer_gateway_console.Resolver.Messages.{
  GetAuditLogRequest, RefreshRequest, ResolveByAddressRequest, SelectRequest,
}
use livepeer_gateway_console.Wire.{
  WireFormat, assign, Fields, decode_nested, tagged, put_text_field, put_bytes_field,
  put_bool_field, put_int_field, put_message, put_each, writes,
}
use livepeer_gateway_console.Wire.Enums.{
  resolve_mode_code, resolve_mode_of, signature_status_code, signature_status_of,
  freshness_status_code, freshness_status_of, source_code, source_of, IsResolveMode,
  IsSignatureStatus, IsFreshnessStatus, IsSource,
}
use livepeer_gateway_console.Wire.Times.{put_date_field, assign_date}

abbrev pub base_resolve_by_address_request : ResolveByAddressRequest
base_resolve_by_address_request = record {
  eth_address = [];
  allow_legacy_fallback = false;
  allow_unsigned = false;
  force_refresh = false;
}

unfoldable pub encode_resolve_by_address_request :
    WireFormat → ResolveByAddressRequest → Result (List ℕ)
encode_resolve_by_address_request w m = writes (
    put_text_field w 10 m.eth_address
    ∷ put_bool_field w 16 m.allow_legacy_fallback
    ∷ put_bool_field w 24 m.allow_unsigned
    ∷ put_bool_field w 32 m.force_refresh
    ∷ [])

unfoldable pub resolve_by_address_request_fields : WireFormat → Fields ResolveByAddressRequest
resolve_by_address_request_fields w tag m input =
    if tag == 10
    then assign (w.get_string input) (λ v. record m { eth_address = v })
    else if tag == 16
    then assign (w.get_bool input) (λ v. record m { allow_legacy_fallback = v })
    else if tag == 24
    then assign (w.get_bool input) (λ v. record m { allow_unsigned = v })
    else if tag == 32
    then assign (w.get_bool input) (λ v. record m { force_refresh = v })
    else none

abbrev pub base_select_request : SelectRequest
base_select_request = record { capability = []; offering = []; tier = []; min_weight = pos 0 }

unfoldable pub encode_select_request : WireFormat → SelectRequest → Result (List ℕ)
encode_select_request w m = writes (
    put_text_field w 10 m.capability
    ∷ put_text_field w 18 m.offering
    ∷ put_text_field w 26 m.tier
    ∷ put_int_field w 32 m.min_weight
    ∷ [])

unfoldable pub select_request_fields : WireFormat → Fields SelectRequest
select_request_fields w tag m input =
    if tag == 10
    then assign (w.get_string input) (λ v. record m { capability = v })
    else if tag == 18
    then assign (w.get_string input) (λ v. record m { offering = v })
    else if tag == 26
    then assign (w.get_string input) (λ v. record m { tier = v })
    else if tag == 32
    then assign (w.get_int32 input) (λ v. record m { min_weight = v })
    else none

abbrev pub base_refresh_request : RefreshRequest
base_refresh_request = record { eth_address = []; force = false }

unfoldable pub encode_refresh_request : WireFormat → RefreshRequest → Result (List ℕ)
encode_refresh_request w m =
    writes (put_text_field w 10 m.eth_address ∷ put_bool_field w 16 m.force ∷ [])

unfoldable pub refresh_request_fields : WireFormat → Fields RefreshRequest
refresh_request_fields w tag m input =
    if tag == 10
    then assign (w.get_string input) (λ v. record m { eth_address = v })
    else if tag == 16
    then assign (w.get_bool input) (λ v. record m { force = v })
    else none

abbrev pub base_get_audit_log_request : GetAuditLogRequest
base_get_audit_log_request = record { eth_address = []; since = none; limit = pos 0 }

unfoldable pub encode_get_audit_log_request : WireFormat → GetAuditLogRequest → Result (List ℕ)
encode_get_audit_log_request w m = writes (
    put_text_field w 10 m.eth_address
    ∷ put_date_field w 18 m.since
    ∷ put_int_field w 24 m.limit
    ∷ [])

unfoldable pub get_audit_log_request_fields : WireFormat → Fields GetAuditLogRequest
get_audit_log_request_fields w tag m input =
    if tag == 10
    then assign (w.get_string input) (λ v. record m { eth_address = v })
    else if tag == 18
    then assign_date w input (λ date. record m { since = date })
    else if tag == 24
    then assign (w.get_int32 input) (λ v. record m { limit = v })
    else none
