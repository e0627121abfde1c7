-- ===== src/AuditPoll/Repeats.antt =====
-- Events that are not later than the watermark of the audit poll.
use livepeer_gateway_console.Common.{
  ◌≡◌, refl, sym, ◌∙◌, false, Option, none, List, [], ◌∷◌, ◌++◌, map, All, arith, if◌then◌else◌,
}
use livepeer_gateway_console.Common.Int.{ℤ, ◌≤ℤ◌}
use livepeer_gateway_console.Common.Result.{ok}
use livepeer_gateway_console.Repo.{Sqlite}
use livepeer_gateway_console.Repo.Inserts.{content}
use livepeer_gateway_console.Resolver.{ResolverAuditEntry}
use livepeer_gateway_console.AuditPoll.{
  AuditPollWorkerOptions, Worker, floor_of, advance, begin_tick, finish_tick,
}
use livepeer_gateway_console.AuditPoll.Scan.{is_wanted, max_ℤ, latest, wanted_rows}
use livepeer_gateway_console.AuditPoll.Tick.{finish_tick_ok, finish_tick-idle}
use mathlib.Core.List.{map-append, append_assoc}

-- A whole tick: the call, the answer and an insert that is accepted.
abbrev pub poll : Sqlite → AuditPollWorkerOptions → Worker → List ResolverAuditEntry → Worker
poll db opts w events = (finish_tick db none (begin_tick opts w).0 (ok events)).0

latest_of_old :
    (floor : ℤ) (es : List ResolverAuditEntry)
    → All (λ e. e.occurred_at ≤ℤ floor) es
    → latest floor es ≡ floor
latest_of_old floor [] h = refl
latest_of_old floor (e ∷ es) (p, h) =
    let same : (if is_wanted e then max_ℤ floor e.occurred_at else floor) ≡ floor = ground arith in
    rw same (latest_of_old floor es h)

advance_of_old : (w : Option ℤ) → advance w (floor_of w) ≡ w
unfolding advance
advance_of_old w = ground arith

module _ (db : Sqlite) (opts : AuditPollWorkerOptions) (w : Worker) where
  watermark-begin : (begin_tick opts w).0.watermark_ms ≡ w.watermark_ms
  unfolding begin_tick
  watermark-begin = ground arith

  table-begin : (begin_tick opts w).0.table ≡ w.table
  unfolding begin_tick
  table-begin = ground arith

  content-poll :
      (events : List ResolverAuditEntry)
      → map content (poll db opts w events).table.rows
        ≡ map content w.table.rows ++ wanted_rows events
  content-poll events =
      let (new, stored, same, _, _) = finish_tick_ok db (begin_tick opts w).0 events in
      rw (stored, table-begin, map-append, same) refl

  watermark-poll_old :
      (events : List ResolverAuditEntry)
      → All (λ e. e.occurred_at ≤ℤ floor_of w.watermark_ms) events
      → (poll db opts w events).watermark_ms ≡ w.watermark_ms
  watermark-poll_old events old =
      let (_, _, _, moved, _) = finish_tick_ok db (begin_tick opts w).0 events in
      rw (moved, watermark-begin, latest_of_old (floor_of w.watermark_ms) events old)
        (advance_of_old w.watermark_ms)

  in_flight-poll : (events : List ResolverAuditEntry) → (poll db opts w events).in_flight ≡ false
  in_flight-poll events = finish_tick-idle db none (begin_tick opts w).0 (ok events)

asks_again :
    (opts : AuditPollWorkerOptions) (v w : Worker)
    → v.in_flight ≡ w.in_flight
    → v.watermark_ms ≡ w.watermark_ms
    → (begin_tick opts v).1 ≡ (begin_tick opts w).1
unfolding begin_tick
asks_again opts v w p q = ground arith

-- When no event of an answer is later than the watermark, the tick stores the events and leaves the
-- watermark where it was. The next tick asks the resolver the same question again; on the same
-- answer it stores the same events a second time.
pub old_events_repeat :
    (db : Sqlite) (opts : AuditPollWorkerOptions) (w : Worker) (events : List ResolverAuditEntry)
    → w.in_flight ≡ false
    → All (λ e. e.occurred_at ≤ℤ floor_of w.watermark_ms) events
    → ((begin_tick opts (poll db opts w events)).1 ≡ (begin_tick opts w).1)
      × (map content (poll db opts (poll db opts w events) events).table.rows
          ≡ map content w.table.rows ++ (wanted_rows events ++ wanted_rows events))
old_events_repeat db opts w events idle old = (
  asks_again opts (poll db opts w events) w (in_flight-poll db opts w events ∙ sym idle)
      (watermark-poll_old db opts w events old),
  rw (content-poll db opts (poll db opts w events) events, content-poll db opts w events)
      (append_assoc (map content w.table.rows) (wanted_rows events) (wanted_rows events)),
)
