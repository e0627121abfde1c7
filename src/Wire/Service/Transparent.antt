-- ===== src/Wire/Service/Transparent.antt =====
-- The stub against a daemon behind the channel: what comes back is what the daemon returned.
use livepeer_gateway_console.Common.{ℕ, ◌≡◌, refl, ap, Option, none, List, [], All}
use livepeer_gateway_console.Common.Text.{Text}
use livepeer_gateway_console.Common.Result.{Result, ok, err, ◌>>=◌}
use livepeer_gateway_console.Resolver.Messages.{
  KnownEntry, ResolveResult, ProtoSelectedRoute, AuditEvent, ResolveByAddressRequest, SelectRequest,
  RefreshRequest, GetAuditLogRequest, HealthResult,
}
use livepeer_gateway_console.Wire.{WireFormat, Fields, decode_all}
use livepeer_gateway_console.Wire.Reads.{IsFaithful, Writes, Writes-nil, decode_all-writes}
use livepeer_gateway_console.Wire.Requests.Back.{
  IsAuditLogRequest, resolve_by_address_request-Writes, select_request-Writes,
  refresh_request-Writes, get_audit_log_request-Writes,
}
use livepeer_gateway_console.Wire.Replies.Back.{
  IsResolveResult, IsKnownEntry, IsAuditEvent, resolve_result-Writes, select_result-Writes,
  list_known_result-Writes, audit_log_result-Writes,
}
use livepeer_gateway_console.Wire.Health.Back.{IsHealthResult, health_result-Writes}
use livepeer_gateway_console.Wire.Service.{
  encode_empty, MessageFns, MethodDefinition, Channel, as_internal, stub_call,
  resolve_by_address_method, select_method, list_known_method, refresh_method, get_audit_log_method,
  health_method, resolver_stub, empty,
}

-- The answers of a daemon to the messages themselves.
pub record Daemon : Type 0 where
  pub health : Result HealthResult
  pub list_known : Result (List KnownEntry)
  pub resolve_by_address : ResolveByAddressRequest → Result ResolveResult
  pub select : SelectRequest → Result (Option ProtoSelectedRoute)
  pub refresh : RefreshRequest → Result (Unit {0})
  pub get_audit_log : GetAuditLogRequest → Result (List AuditEvent)

-- A server parses the request, has it answered, and serializes the reply.
unfoldable pub serve_call :
    {Q R : Type 0} → MethodDefinition Q R → (Q → Result R) → List ℕ → Result (List ℕ)
serve_call m answer bytes = do q ← m.request.decode bytes; r ← answer q; m.reply.encode r

-- The daemon stands behind the channel, each method at its path.
pub record Serves (w : WireFormat) (c : Channel) (d : Daemon) : Type 0 where
  pub health :
      (bytes : List ℕ)
      → c.call (health_method w).path bytes ≡ serve_call (health_method w) (λ q. d.health) bytes
  pub list_known :
      (bytes : List ℕ)
      → c.call (list_known_method w).path bytes
        ≡ serve_call (list_known_method w) (λ q. d.list_known) bytes
  pub resolve_by_address :
      (bytes : List ℕ)
      → c.call (resolve_by_address_method w).path bytes
        ≡ serve_call (resolve_by_address_method w) d.resolve_by_address bytes
  pub select :
      (bytes : List ℕ)
      → c.call (select_method w).path bytes ≡ serve_call (select_method w) d.select bytes
  pub refresh :
      (bytes : List ℕ)
      → c.call (refresh_method w).path bytes ≡ serve_call (refresh_method w) d.refresh bytes
  pub get_audit_log :
      (bytes : List ℕ)
      → c.call (get_audit_log_method w).path bytes
        ≡ serve_call (get_audit_log_method w) d.get_audit_log bytes

-- A message that is serialized without a failure.
abbrev pub Sends : {A : Type 0} → MessageFns A → A → Type 0
Sends fns a = (bytes : List ℕ) × (fns.encode a ≡ ok bytes)

-- A reply of the daemon that is serialized and keeps the predicate, or a failure.
abbrev pub Replies : {A : Type 0} → MessageFns A → (A → Type 0) → Result A → Type 0
Replies fns P (ok a) = P a × Sends fns a
Replies fns P (err e) = Unit

-- What is sent is parsed to what it was.
Carries : {A : Type 0} → MessageFns A → A → Type 0
Carries fns a = (bytes : List ℕ) × (fns.encode a ≡ ok bytes) × (fns.decode bytes ≡ ok a)

reply_returned :
    {R : Type 0} (c : Channel) (fns : MessageFns R) (P : R → Type 0)
    → ((r : R) → P r → Sends fns r → Carries fns r)
    → (answer : Result R) → Replies fns P answer
    → ((answer >>= fns.encode) >>= λ bytes. as_internal c (fns.decode bytes)) ≡ answer
unfolding as_internal Carries
reply_returned c fns P back (ok r) (p, sends) =
    let (bytes, sent, parsed) = back r p sends in rw sent (rw parsed)
reply_returned c fns P back (err e) h = refl

stub-serve :
    {Q R : Type 0} (c : Channel) (m : MethodDefinition Q R) (answer : Q → Result R)
    → ((bytes : List ℕ) → c.call m.path bytes ≡ serve_call m answer bytes)
    → (P : R → Type 0) → ((r : R) → P r → Sends m.reply r → Carries m.reply r)
    → (q : Q) → Carries m.request q
    → Replies m.reply P (answer q)
    → stub_call c m q ≡ answer q
unfolding stub_call serve_call as_internal Carries
stub-serve c m answer served P back q (bytes, sent, parsed) replies =
    rw sent (rw (served bytes) (rw parsed (reply_returned c m.reply P back (answer q) replies)))

-- The replies of the daemon to four requests are well formed and serialized.
pub record RepliesWell (w : WireFormat) (d : Daemon) (q : ResolveByAddressRequest)
    (s : SelectRequest) (r : RefreshRequest) (a : GetAuditLogRequest) : Type 0 where
  pub health : Replies (health_method w).reply IsHealthResult d.health
  pub list_known : Replies (list_known_method w).reply (All IsKnownEntry) d.list_known
  pub resolve_by_address :
      Replies (resolve_by_address_method w).reply IsResolveResult (d.resolve_by_address q)
  pub select : Replies (select_method w).reply (λ m. Unit) (d.select s)
  pub refresh : Replies (refresh_method w).reply (λ m. Unit) (d.refresh r)
  pub get_audit_log : Replies (get_audit_log_method w).reply (All IsAuditEvent) (d.get_audit_log a)

-- Whatever was written for a message is what `decode` makes it of.
carried :
    {A : Type 0} {w : WireFormat} {fields : Fields A} (base : A) (encode : A → Result (List ℕ))
    (a : A)
    → Writes w fields (encode a) base a
    → Sends (record { encode = encode; decode = decode_all w fields base }) a
    → Carries (record { encode = encode; decode = decode_all w fields base }) a
unfolding Carries
carried base encode a written (bytes, sent) =
    (bytes, sent, decode_all-writes base a (encode a) bytes written sent)

module _ {w : WireFormat} (faithful : IsFaithful w) where
  empty-Carries : (u : Unit {0}) → Carries (empty w) u
  unfolding encode_empty
  empty-Carries tt = carried tt encode_empty tt (Writes-nil tt) ([], refl)

  -- Behind the channel stands a daemon, whose replies are well formed. Then each method of the stub,
  -- called with a request that is serialized, ends as the daemon answers the request itself, with the
  -- same message or the same failure; of `health` only whether it is answered is kept.
  pub resolver_stub-transparent :
      (c : Channel) (d : Daemon) (not_found : ℕ) (utf8 : List ℕ → Text)
      (q : ResolveByAddressRequest) (s : SelectRequest) (r : RefreshRequest)
      (a : GetAuditLogRequest)
      → Serves w c d
      → RepliesWell w d q s r a
      → Sends (resolve_by_address_method w).request q
      → Sends (select_method w).request s
      → Sends (refresh_method w).request r
      → IsAuditLogRequest a
      → Sends (get_audit_log_method w).request a
      → ((resolver_stub w c not_found utf8).list_known ≡ d.list_known)
        × ((resolver_stub w c not_found utf8).resolve_by_address q ≡ d.resolve_by_address q)
        × ((resolver_stub w c not_found utf8).select s ≡ d.select s)
        × ((resolver_stub w c not_found utf8).refresh r ≡ d.refresh r)
        × ((resolver_stub w c not_found utf8).get_audit_log a ≡ d.get_audit_log a)
        × ((resolver_stub w c not_found utf8).health ≡ (d.health >>= λ health. ok tt))
  unfolding resolver_stub
  resolver_stub-transparent c d not_found utf8 q s r a serves well send_q send_s send_r dated
        send_a =
      (
        stub-serve c (list_known_method w) (λ u. d.list_known) serves.list_known (All IsKnownEntry)
            (λ m p. carried [] _ m (list_known_result-Writes faithful m p)) tt (empty-Carries tt)
            well.list_known,
        stub-serve c (resolve_by_address_method w) d.resolve_by_address serves.resolve_by_address
            IsResolveResult (λ m p. carried _ _ m (resolve_result-Writes faithful m p)) q
            (carried _ _ q (resolve_by_address_request-Writes faithful q) send_q)
            well.resolve_by_address,
        stub-serve c (select_method w) d.select serves.select (λ m. Unit)
            (λ m p. carried none _ m (select_result-Writes faithful m)) s
            (carried _ _ s (select_request-Writes faithful s) send_s) well.select,
        stub-serve c (refresh_method w) d.refresh serves.refresh (λ m. Unit)
            (λ m p sends. empty-Carries m) r
            (carried _ _ r (refresh_request-Writes faithful r) send_r) well.refresh,
        stub-serve c (get_audit_log_method w) d.get_audit_log serves.get_audit_log
            (All IsAuditEvent) (λ m p. carried [] _ m (audit_log_result-Writes faithful m p)) a
            (carried _ _ a (get_audit_log_request-Writes faithful a dated) send_a)
            well.get_audit_log,
        ap (λ (h : Result HealthResult). h >>= λ health. ok tt)
            (stub-serve c (health_method w) (λ u. d.health) serves.health IsHealthResult
              (λ m p. carried _ _ m (health_result-Writes faithful m p)) tt (empty-Carries tt)
              well.health),
      )
