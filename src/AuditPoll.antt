-- ===== src/AuditPoll.antt =====
-- src/runtime/workers/auditPoll.ts: the worker that mirrors the resolver's audit log into
-- `routing_observations`. A tick waits once, for the resolver's answer, so it is two steps:
-- `begin_tick` up to the call and `finish_tick` from the answer on. Other ticks, `start` and `stop`
-- may come between them. (After the insert the source waits for a promise that is settled already;
-- `inFlight` stays set over that wait, and the model makes the insert and the rest one step.)
mod Scan
pub mod Tick
pub mod Runs
pub mod Order
pub mod Watermark
pub mod Repeats
pub mod Examples
use livepeer_gateway_console.Common.{
  ℕ, zero, suc, Bool, true, false, not, ◌&&◌, Option, none, some, List, [], ◌∷◌, ◌++◌, ◌≡◌, length,
  leb, All, if◌then◌else◌,
}
use livepeer_gateway_console.Common.Int.{ℤ, pos, negsuc, ◌≤ℤ◌, ltb_ℤ, leb_ℤ, suc_ℤ}
use livepeer_gateway_console.Common.Text.{Text, codes, to_lower_case}
use livepeer_gateway_console.Common.Json.{json_object}
use livepeer_gateway_console.Common.Result.{Failure, message_of, Result, ok, err}
use livepeer_gateway_console.Repo.{
  Sqlite, Table, RoutingObservationInsert, RoutingObservationRow, append_batch,
}
use livepeer_gateway_console.Resolver.{or_else, ResolverAuditEntry, AuditLogOptions}
use livepeer_gateway_console.Resolver.Labels.{ResolveModeLabel}

pub record AuditPollWorkerOptions : Type 0 where
  pub interval_ms : ℕ
  pub fetch_limit : Option ℕ

pub data Log : Type 0 where
  info : Text → Log
  warn : Text → Text → Option ℤ → Log

-- The variables of the closure, and the table that the worker writes.
pub record Worker : Type 0 where
  pub watermark_ms : Option ℤ
  pub timer : Bool
  pub in_flight : Bool
  pub table : Table RoutingObservationRow
  pub logs : List Log

pub record Outcome : Type 0 where
  pub inserted : ℕ
  pub watermark : Option ℤ

-- What a tick does first: return at once, or call the resolver.
pub data Begin : Type 0 where
  returned : Outcome → Begin
  fetching : AuditLogOptions → Begin

unfoldable pub mode_text : ResolveModeLabel → Text
mode_text ResolveModeLabel.well_known = codes "well-known"
mode_text ResolveModeLabel.csv = codes "csv"
mode_text ResolveModeLabel.legacy = codes "legacy"
mode_text ResolveModeLabel.unspecified = codes "unspecified"

unfoldable pub event_to_observation : ResolverAuditEntry → RoutingObservationInsert
unfolding mode_text
event_to_observation e = record {
  observed_at = e.occurred_at;
  orch_address = to_lower_case (or_else e.orch_address []);
  capability = none;
  offering = none;
  signature_status = none;
  freshness_status = none;
  details_json = some (
      json_object (
        (codes "kind", e.kind)
        ∷ (codes "mode", mode_text e.mode)
        ∷ (codes "detail", e.detail)
        ∷ []));
}

-- `!e.orchAddress`
abbrev is_blank : Option Text → Bool
is_blank none = true
is_blank (some []) = true
is_blank (some (c ∷ s)) = false

pub record Batch : Type 0 where
  pub rows : List RoutingObservationInsert
  pub max_at : ℤ

-- One round of the loop over the events.
scan_event : Batch → ResolverAuditEntry → Batch
scan_event b e =
    if is_blank e.orch_address then b else if leb_ℤ e.occurred_at (pos 0) then b else record {
      rows = b.rows ++ event_to_observation e ∷ [];
      max_at = if ltb_ℤ b.max_at e.occurred_at then e.occurred_at else b.max_at;
    }

-- `watermarkMs ?? -1`
abbrev pub floor_of : Option ℤ → ℤ
floor_of w = or_else w (negsuc 0)

scan_events : Batch → List ResolverAuditEntry → Batch
scan_events b [] = b
scan_events b (e ∷ es) = scan_events (scan_event b e) es

unfoldable pub scan : Option ℤ → List ResolverAuditEntry → Batch
unfolding scan_event scan_events
scan watermark events = scan_events (record { rows = []; max_at = floor_of watermark }) events

-- The watermark after a batch.
unfoldable pub advance : Option ℤ → ℤ → Option ℤ
unfolding suc_ℤ
advance watermark max_at =
    if ltb_ℤ (floor_of watermark) max_at then some (suc_ℤ max_at) else watermark

-- What a tick asks the resolver for.
abbrev pub fetch_query : AuditPollWorkerOptions → Worker → AuditLogOptions
fetch_query opts w = record {
  eth_address = none;
  since = w.watermark_ms;
  limit = some (or_else opts.fetch_limit 1000);
}

-- `tick` up to the answer of the resolver.
unfoldable pub begin_tick : AuditPollWorkerOptions → Worker → Worker × Begin
begin_tick opts w =
    if w.in_flight
    then (w, returned (record { inserted = 0; watermark = w.watermark_ms }))
    else (record w { in_flight = true }, fetching (fetch_query opts w))

-- The `catch` and `finally` blocks.
unfoldable pub fail_tick : Worker → Failure → Worker × Result Outcome
unfolding message_of
fail_tick w e = (
  record w {
    in_flight = false;
    logs = w.logs ++ warn (codes "auditPoll tick failed") (message_of e) w.watermark_ms ∷ [];
  },
  err e,
)

-- The `try` block after the insert, and `finally`.
complete_tick : Worker → Batch → Table RoutingObservationRow → Worker × Result Outcome
unfolding advance
complete_tick w b table =
    let watermark = advance w.watermark_ms b.max_at in
    (
      record w { watermark_ms = watermark; in_flight = false; table = table },
      ok (record { inserted = length b.rows; watermark = watermark }),
    )

store_batch :
    Worker → Batch → Result (Unit {0}) × Table RoutingObservationRow → Worker × Result Outcome
unfolding complete_tick fail_tick
store_batch w b (ok _, table) = complete_tick w b table
store_batch w b (err e, table) = fail_tick (record w { table = table }) e

-- `tick` from the answer of the resolver on; `fault` is what the insert throws.
unfoldable pub finish_tick :
    Sqlite → Option Failure → Worker → Result (List ResolverAuditEntry) → Worker × Result Outcome
unfolding store_batch
finish_tick db fault w (err e) = fail_tick w e
finish_tick db fault w (ok events) =
    let b = scan w.watermark_ms events in store_batch w b (append_batch db fault b.rows w.table)

unfoldable pub start : AuditPollWorkerOptions → Worker → Worker
start opts w =
    if w.timer
    then w
    else if leb opts.interval_ms 0
    then record w { logs = w.logs ++ info (codes "auditPoll disabled (interval=0)") ∷ [] }
    else record w { timer = true; logs = w.logs ++ info (codes "auditPoll started") ∷ [] }

unfoldable pub stop : Worker → Worker
stop w =
    if w.timer
    then record w { timer = false; logs = w.logs ++ info (codes "auditPoll stopped") ∷ [] }
    else w
