-- ===== src/Wire/Service.antt =====
-- gen/livepeer/registry/v1/resolver.ts: `ResolverService` and the stub that is made of it, over a
-- channel that carries bytes; gen/google/protobuf/empty.ts.
pub mod Transparent
use livepeer_gateway_console.Common.{ℕ, Option, none, some, List, [], ◌∷◌, ◌++◌}
use livepeer_gateway_console.Common.Text.{Text, codes}
use livepeer_gateway_console.Common.Result.{Failure, Result, ok, err, ◌>>=◌}
use livepeer_gateway_console.Resolver.Messages.{
  KnownEntry, ResolveResult, ProtoSelectedRoute, AuditEvent, ResolveByAddressRequest, SelectRequest,
  RefreshRequest, GetAuditLogRequest, HealthResult,
}
use livepeer_gateway_console.Resolver.{Grpc}
use livepeer_gateway_console.Wire.{WireFormat, Fields, decode_all}
use livepeer_gateway_console.Wire.Requests.{
  base_resolve_by_address_request, encode_resolve_by_address_request,
  resolve_by_address_request_fields, base_select_request, encode_select_request,
  select_request_fields, base_refresh_request, encode_refresh_request, refresh_request_fields,
  base_get_audit_log_request, encode_get_audit_log_request, get_audit_log_request_fields,
}
use livepeer_gateway_console.Wire.Replies.{
  base_resolve_result, encode_resolve_result, resolve_result_fields, encode_select_result,
  select_result_fields, encode_list_known_result, list_known_result_fields, encode_audit_log_result,
  audit_log_result_fields,
}
use livepeer_gateway_console.Wire.Health.{
  base_health_result, encode_health_result, health_result_fields,
}

-- `Empty` and `ListKnownRequest`, which have no fields.
unfoldable pub encode_empty : Unit {0} → Result (List ℕ)
encode_empty tt = ok []

unfoldable pub empty_fields : Fields (Unit {0})
empty_fields tag message input = none

-- How a message is made bytes and bytes a message: one side of a method of `ResolverService`.
pub record MessageFns (A : Type 0) : Type 0 where
  pub encode : A → Result (List ℕ)
  pub decode : List ℕ → Result A

-- A method: its `requestSerialize` and `requestDeserialize`, and those of the reply.
pub record MethodDefinition (Q R : Type 0) : Type 0 where
  pub path : Text
  pub request : MessageFns Q
  pub reply : MessageFns R

-- The channel of the library: how a call to a path ends for the bytes of the request, and what
-- becomes of a failure to serialize or to parse.
pub record Channel : Type 0 where
  pub call : Text → List ℕ → Result (List ℕ)
  pub internal : Failure → Failure

unfoldable pub as_internal : {A : Type 0} → Channel → Result A → Result A
as_internal c (ok a) = ok a
as_internal c (err e) = err (c.internal e)

-- A method of the stub: the request is serialized, sent to the path, and the reply parsed.
unfoldable pub stub_call : {Q R : Type 0} → Channel → MethodDefinition Q R → Q → Result R
stub_call c m q = do
  bytes ← as_internal c (m.request.encode q)
  reply ← c.call m.path bytes
  as_internal c (m.reply.decode reply)

module _ (w : WireFormat) where
  abbrev pub empty : MessageFns (Unit {0})
  empty = record { encode = encode_empty; decode = decode_all w empty_fields tt }

  abbrev pub resolve_by_address_method : MethodDefinition ResolveByAddressRequest ResolveResult
  resolve_by_address_method = record {
    path = codes "/livepeer.registry.v1.Resolver/ResolveByAddress";
    request = record {
      encode = encode_resolve_by_address_request w;
      decode = decode_all w (resolve_by_address_request_fields w) base_resolve_by_address_request;
    };
    reply = record {
      encode = encode_resolve_result w;
      decode = decode_all w (resolve_result_fields w) base_resolve_result;
    };
  }

  abbrev pub select_method : MethodDefinition SelectRequest (Option ProtoSelectedRoute)
  select_method = record {
    path = codes "/livepeer.registry.v1.Resolver/Select";
    request = record {
      encode = encode_select_request w;
      decode = decode_all w (select_request_fields w) base_select_request;
    };
    reply = record {
      encode = encode_select_result w;
      decode = decode_all w (select_result_fields w) none;
    };
  }

  abbrev pub list_known_method : MethodDefinition (Unit {0}) (List KnownEntry)
  list_known_method = record {
    path = codes "/livepeer.registry.v1.Resolver/ListKnown";
    request = empty;
    reply = record {
      encode = encode_list_known_result w;
      decode = decode_all w (list_known_result_fields w) [];
    };
  }

  abbrev pub refresh_method : MethodDefinition RefreshRequest (Unit {0})
  refresh_method = record {
    path = codes "/livepeer.registry.v1.Resolver/Refresh";
    request = record {
      encode = encode_refresh_request w;
      decode = decode_all w (refresh_request_fields w) base_refresh_request;
    };
    reply = empty;
  }

  abbrev pub get_audit_log_method : MethodDefinition GetAuditLogRequest (List AuditEvent)
  get_audit_log_method = record {
    path = codes "/livepeer.registry.v1.Resolver/GetAuditLog";
    request = record {
      encode = encode_get_audit_log_request w;
      decode = decode_all w (get_audit_log_request_fields w) base_get_audit_log_request;
    };
    reply = record {
      encode = encode_audit_log_result w;
      decode = decode_all w (audit_log_result_fields w) [];
    };
  }

  abbrev pub health_method : MethodDefinition (Unit {0}) HealthResult
  health_method = record {
    path = codes "/livepeer.registry.v1.Resolver/Health";
    request = empty;
    reply = record {
      encode = encode_health_result w;
      decode = decode_all w (health_result_fields w) base_health_result;
    };
  }

  -- `new ResolverClient(..)` over the channel; the client reads nothing of a reply to `health`.
  unfoldable pub resolver_stub : Channel → ℕ → (List ℕ → Text) → Grpc
  resolver_stub c not_found utf8 = record {
    health = do
      health ← stub_call c health_method tt
      ok tt;
    list_known = stub_call c list_known_method tt;
    resolve_by_address = stub_call c resolve_by_address_method;
    select = stub_call c select_method;
    refresh = stub_call c refresh_method;
    get_audit_log = stub_call c get_audit_log_method;
    not_found = not_found;
    utf8 = utf8;
  }
