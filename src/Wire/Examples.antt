-- ===== src/Wire/Examples.antt =====
-- A daemon behind a channel in the plain format.
use livepeer_gateway_console.Common.{
  ℕ, ◌≡◌, refl, true, false, none, some, List, [], ◌∷◌, ◌++◌, if◌then◌else◌, arith,
}
use livepeer_gateway_console.Common.Int.{pos, negsuc}
use livepeer_gateway_console.Common.Text.{Text, codes, text_eq}
use livepeer_gateway_console.Common.Result.{Result, ok, err}
use livepeer_gateway_console.Common.Result.{service_error}
use livepeer_gateway_console.Resolver.Labels.{ResolveMode, SignatureStatus, FreshnessStatus, Source}
use livepeer_gateway_console.Resolver.Messages.{
  KnownEntry, Node, ResolveResult, ResolveByAddressRequest, SelectRequest, RefreshRequest,
  GetAuditLogRequest,
}
use livepeer_gateway_console.Wire.{
  decode_all, put_text_field, put_bytes_field, put_bool_field, put_int_field, put_message, put_each,
}
use livepeer_gateway_console.Wire.Enums.{
  resolve_mode_of, resolve_mode_code, freshness_status_of, freshness_status_code, source_of,
  source_code, signature_status_of, signature_status_code,
}
use livepeer_gateway_console.Wire.Times.{
  to_timestamp, from_timestamp, encode_timestamp, put_date_field, date_roundtrip, neg,
}
use livepeer_gateway_console.Wire.Nodes.{encode_offering, encode_capability, encode_node}
use livepeer_gateway_console.Wire.Requests.{
  encode_resolve_by_address_request, encode_select_request, encode_refresh_request,
  encode_get_audit_log_request,
}
use livepeer_gateway_console.Wire.Replies.{
  base_resolve_result, encode_resolve_result, resolve_result_fields, encode_known_entry,
  encode_select_result, encode_list_known_result, encode_audit_log_result,
}
use livepeer_gateway_console.Wire.Replies.Back.{IsKnownEntry, IsResolveResult}
use livepeer_gateway_console.Wire.Service.{
  Channel, encode_empty, resolve_by_address_method, select_method, list_known_method,
  refresh_method, get_audit_log_method, health_method, resolver_stub,
}
use livepeer_gateway_console.Wire.Service.Transparent.{
  Daemon, serve_call, Serves, Sends, RepliesWell, resolver_stub-transparent,
}
use livepeer_gateway_console.Wire.Unknown.{IsUnknown, later_fields_ignored}
use livepeer_gateway_console.Wire.Plain.{
  plain, plain-IsFaithful, counted_back, put_signed, put_counted, put_framed, bool_entry,
  skip_entry, past,
}

abbrev entry : KnownEntry
entry = record {
  eth_address = codes "0xaa";
  mode = ResolveMode.csv;
  freshness_status = FreshnessStatus.unrecognized (pos 9);
  cached_at = some (pos 1700000000123);
}

abbrev node : Node
node = record {
  id = codes "n";
  url = codes "https://n";
  worker_eth_address = [];
  extra_json = 123 ∷ 125 ∷ [];
  capabilities =
      record {
        name = codes "chat";
        work_unit = [];
        offerings =
            record { id = codes "o"; price_per_work_unit_wei = codes "7"; constraints_json = [] }
            ∷ [];
        extra_json = [];
      }
      ∷ [];
  source = Source.manifest;
  signature_status = SignatureStatus.verified;
  operator_address = [];
  enabled = true;
  tier_allowed = codes "a" ∷ codes "b" ∷ [];
  weight = negsuc 4;
}

abbrev resolution : ResolveResult
resolution = record {
  eth_address = codes "0xaa";
  resolved_uri = codes "https://o";
  mode = ResolveMode.well_known;
  nodes = node ∷ [];
  freshness_status = FreshnessStatus.fresh;
  cached_at = none;
  fetched_at = some (negsuc 1500);
  schema_version = codes "1";
}

abbrev console_daemon : Daemon
console_daemon = record {
  health = err (service_error 14 (codes "down"));
  list_known = ok (entry ∷ []);
  resolve_by_address = λ q. ok resolution;
  select = λ q. ok none;
  refresh = λ q. ok tt;
  get_audit_log = λ q. ok [];
}

answer : Text → List ℕ → Result (List ℕ)
answer path bytes =
    if text_eq path (health_method plain).path
    then serve_call (health_method plain) (λ q. console_daemon.health) bytes
    else if text_eq path (list_known_method plain).path
    then serve_call (list_known_method plain) (λ q. console_daemon.list_known) bytes
    else if text_eq path (resolve_by_address_method plain).path
    then serve_call (resolve_by_address_method plain) console_daemon.resolve_by_address bytes
    else if text_eq path (select_method plain).path
    then serve_call (select_method plain) console_daemon.select bytes
    else if text_eq path (refresh_method plain).path
    then serve_call (refresh_method plain) console_daemon.refresh bytes
    else serve_call (get_audit_log_method plain) console_daemon.get_audit_log bytes

abbrev channel : Channel
channel = record { call = answer; internal = λ e. e }

channel-Serves : Serves plain channel console_daemon
unfolding answer
channel-Serves = record {
  health = λ bytes. refl;
  list_known = λ bytes. refl;
  resolve_by_address = λ bytes. refl;
  select = λ bytes. refl;
  refresh = λ bytes. refl;
  get_audit_log = λ bytes. refl;
}

abbrev asked : ResolveByAddressRequest
asked = record {
  eth_address = codes "0xaa";
  allow_legacy_fallback = true;
  allow_unsigned = false;
  force_refresh = true;
}

abbrev wanted : SelectRequest
wanted = record { capability = codes "chat"; offering = codes "o"; tier = []; min_weight = pos 0 }

abbrev all_again : RefreshRequest
all_again = record { eth_address = codes "*"; force = true }

abbrev newest : GetAuditLogRequest
newest = record { eth_address = []; since = some (pos 1700000000123); limit = pos 100 }

entry-IsKnownEntry : IsKnownEntry entry
unfolding resolve_mode_of resolve_mode_code freshness_status_of freshness_status_code
entry-IsKnownEntry = record { mode = refl; freshness_status = refl; cached_at = omega arith }

resolution-IsResolveResult : IsResolveResult resolution
unfolding resolve_mode_of resolve_mode_code freshness_status_of freshness_status_code source_of
    source_code signature_status_of signature_status_code
resolution-IsResolveResult = record {
  mode = refl;
  nodes = (record { source = refl; signature_status = refl }, tt);
  freshness_status = refl;
  cached_at = tt;
  fetched_at = omega arith;
}

asked-Sends : Sends (resolve_by_address_method plain).request asked
unfolding encode_resolve_by_address_request put_each put_text_field put_counted put_bool_field
    bool_entry
asked-Sends = (_, refl)

wanted-Sends : Sends (select_method plain).request wanted
unfolding encode_select_request put_each put_text_field put_counted put_int_field
wanted-Sends = (_, refl)

all_again-Sends : Sends (refresh_method plain).request all_again
unfolding encode_refresh_request put_each put_text_field put_counted put_bool_field
all_again-Sends = (_, refl)

newest-Sends : Sends (get_audit_log_method plain).request newest
unfolding encode_get_audit_log_request put_date_field encode_timestamp to_timestamp put_each
    put_text_field put_message put_signed put_int_field put_framed
newest-Sends = (_, refl)

resolution-Sends : Sends (resolve_by_address_method plain).reply resolution
unfolding encode_resolve_result put_date_field put_each put_text_field put_counted put_int_field
    resolve_mode_code put_signed put_message encode_node put_bytes_field encode_capability
    encode_offering put_framed source_code signature_status_code put_bool_field
    freshness_status_code encode_timestamp neg to_timestamp
resolution-Sends = (_, refl)

replies : RepliesWell plain console_daemon asked wanted all_again newest
unfolding encode_empty encode_list_known_result encode_known_entry encode_select_result
    encode_audit_log_result put_date_field put_each put_message put_text_field put_counted
    put_int_field resolve_mode_code put_signed freshness_status_code encode_timestamp to_timestamp
    put_framed
replies = record {
  health = tt;
  list_known = ((entry-IsKnownEntry, tt), (_, refl));
  resolve_by_address = (resolution-IsResolveResult, resolution-Sends);
  select = (tt, (_, refl));
  refresh = (tt, (_, refl));
  get_audit_log = (tt, (_, refl));
}

resolver_stub-transparent_example :
    ((resolver_stub plain channel 5 (λ b. b)).list_known ≡ ok (entry ∷ []))
    × ((resolver_stub plain channel 5 (λ b. b)).resolve_by_address asked ≡ ok resolution)
    × ((resolver_stub plain channel 5 (λ b. b)).select wanted ≡ ok none)
    × ((resolver_stub plain channel 5 (λ b. b)).refresh all_again ≡ ok tt)
    × ((resolver_stub plain channel 5 (λ b. b)).get_audit_log newest ≡ ok [])
    × ((resolver_stub plain channel 5 (λ b. b)).health ≡ err (service_error 14 (codes "down")))
resolver_stub-transparent_example =
    resolver_stub-transparent plain-IsFaithful channel console_daemon 5 (λ b. b) asked wanted
      all_again newest channel-Serves replies asked-Sends wanted-Sends all_again-Sends (omega arith)
      newest-Sends

date_roundtrip_example : from_timestamp plain (to_timestamp (negsuc 1500)) ≡ negsuc 1500
date_roundtrip_example = date_roundtrip plain-IsFaithful (negsuc 1500) (omega arith)

-- A field with the number 12, and one that later versions may give it.
abbrev later : List ℕ
later = 3 ∷ 7 ∷ 7 ∷ 7 ∷ []

later-IsUnknown : IsUnknown plain (resolve_result_fields plain) 98 later
unfolding resolve_result_fields skip_entry past
later-IsUnknown = record {
  small = omega arith;
  no_end = (omega arith, omega arith);
  no_case = λ message input. refl;
  skipped = λ rest. rw (counted_back (7 ∷ 7 ∷ 7 ∷ []) rest);
}

later_fields_ignored_example :
    decode_all plain
      (resolve_result_fields plain)
      base_resolve_result
      ((98 ∷ later) ++ (resolution-Sends.0 ++ (98 ∷ later)))
    ≡ ok resolution
later_fields_ignored_example =
    later_fields_ignored plain-IsFaithful 98 later resolution-Sends.0 resolution
      resolution-IsResolveResult resolution-Sends.1 later-IsUnknown
