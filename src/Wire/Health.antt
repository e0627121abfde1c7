-- ===== src/Wire/Health.antt =====
-- gen/livepeer/registry/v1/resolver.ts: the coding of `HealthResult`.
pub mod Back
use livepeer_gateway_console.Common.{
  ℕ, zero, suc, ◌+◌, ◌≤◌, ◌<◌, ◌≡◌, refl, Bool, true, false, Option, none, some, List, [], ◌∷◌,
  ◌++◌, ◌==◌, if◌then◌else◌, All, arith,
}
use livepeer_gateway_console.Common.Int.{ℤ, pos}
use livepeer_gateway_console.Common.Result.{Result, ok}
use livepeer_gateway_console.Resolver.Labels.{ResolveMode, SignatureStatus, FreshnessStatus, Source}
use livepeer_gateway_console.Resolver.Messages.{HealthResult}
use livepeer_gateway_console.Wire.{
  WireFormat, assign, Fields, decode_nested, tagged, put_text_field, put_bytes_field,
  put_bool_field, put_int_field, put_message, put_each, writes,
}
use livepeer_gateway_console.Wire.Enums.{
  resolve_mode_code, resolve_mode_of, signature_status_code, signature_status_of,
  freshness_status_code, freshness_status_of, source_code, source_of, IsResolveMode,
  IsSignatureStatus, IsFreshnessStatus, IsSource,
}
use livepeer_gateway_console.Wire.Times.{put_date_field, assign_date}

abbrev pub base_health_result : HealthResult
base_health_result = record {
  mode = [];
  chain_ok = false;
  manifest_fetcher_ok = false;
  cache_size = pos 0;
  last_chain_success = none;
}

unfoldable pub encode_health_result : WireFormat → HealthResult → Result (List ℕ)
encode_health_result w m = writes (
    put_text_field w 10 m.mode
    ∷ put_bool_field w 16 m.chain_ok
    ∷ put_bool_field w 24 m.manifest_fetcher_ok
    ∷ put_int_field w 32 m.cache_size
    ∷ put_date_field w 42 m.last_chain_success
    ∷ [])

unfoldable pub health_result_fields : WireFormat → Fields HealthResult
health_result_fields w tag m input =
    if tag == 10
    then assign (w.get_string input) (λ v. record m { mode = v })
    else if tag == 16
    then assign (w.get_bool input) (λ v. record m { chain_ok = v })
    else if tag == 24
    then assign (w.get_bool input) (λ v. record m { manifest_fetcher_ok = v })
    else if tag == 32
    then assign (w.get_int32 input) (λ v. record m { cache_size = v })
    else if tag == 42
    then assign_date w input (λ date. record m { last_chain_success = date })
    else none
