-- ===== src/AuditPoll/Watermark.antt =====
-- How far a batch moves the watermark.
use livepeer_gateway_console.Common.{
  ◌++◌, All-map, Bool-cases, inl, inr, ◌≡◌, true, Option, none, List, [], ◌∷◌, All, All-mono, arith,
  if◌then◌else◌,
}
use livepeer_gateway_console.Common.Int.{ℤ, ◌≤ℤ◌}
use livepeer_gateway_console.Repo.{Sqlite, RoutingObservationRow, RoutingObservationInsert}
use livepeer_gateway_console.Repo.Inserts.{content}
use livepeer_gateway_console.Common.Result.{ok}
use livepeer_gateway_console.Resolver.{ResolverAuditEntry}
use livepeer_gateway_console.AuditPoll.{
  Worker, floor_of, advance, finish_tick, event_to_observation,
}
use livepeer_gateway_console.AuditPoll.Scan.{is_wanted, max_ℤ, latest, wanted_rows}
use livepeer_gateway_console.AuditPoll.Tick.{finish_tick_ok}

step_floor-le :
    (floor : ℤ) (e : ResolverAuditEntry)
    → floor ≤ℤ (if is_wanted e then max_ℤ floor e.occurred_at else floor)
step_floor-le floor e = ground arith

floor-le-latest : (floor : ℤ) (es : List ResolverAuditEntry) → floor ≤ℤ latest floor es
floor-le-latest floor [] = omega arith
floor-le-latest floor (e ∷ es) = omega (
  arith,
  step_floor-le floor e,
  floor-le-latest (if is_wanted e then max_ℤ floor e.occurred_at else floor) es,
)

occurred-le :
    (floor : ℤ) (e : ResolverAuditEntry)
    → is_wanted e ≡ true
    → e.occurred_at ≤ℤ (if is_wanted e then max_ℤ floor e.occurred_at else floor)
occurred-le floor e h = ground arith

pub wanted-le-latest :
    (floor : ℤ) (es : List ResolverAuditEntry)
    → All (λ e. is_wanted e ≡ true → e.occurred_at ≤ℤ latest floor es) es
wanted-le-latest floor [] = tt
wanted-le-latest floor (e ∷ es) =
    let next : ℤ = if is_wanted e then max_ℤ floor e.occurred_at else floor in
    (λ h. omega (arith, occurred-le floor e h, floor-le-latest next es), wanted-le-latest next es)

pub advance_bounds :
    (w : Option ℤ) (max_at : ℤ)
    → (floor_of w ≤ℤ floor_of (advance w max_at)) × (max_at ≤ℤ floor_of (advance w max_at))
unfolding advance
advance_bounds w max_at = ground arith

pub events_covered :
    (db : Sqlite) (w : Worker) (events : List ResolverAuditEntry)
    → (floor_of w.watermark_ms ≤ℤ floor_of (finish_tick db none w (ok events)).0.watermark_ms)
      × All
          (λ e.
            is_wanted e ≡ true
            → e.occurred_at ≤ℤ floor_of (finish_tick db none w (ok events)).0.watermark_ms)
          events
events_covered db w events =
    let (new, _, _, moved, _) = finish_tick_ok db w events in
    let floor = floor_of w.watermark_ms in
    let max_at = latest floor events in
    rw moved (
      omega (arith, advance_bounds w.watermark_ms max_at),
      All-mono _ _ (λ e h wanted. omega (arith, h wanted, advance_bounds w.watermark_ms max_at))
          events (wanted-le-latest floor events),
    )

rows_below :
    (bound : ℤ) (events : List ResolverAuditEntry)
    → All (λ e. is_wanted e ≡ true → e.occurred_at ≤ℤ bound) events
    → All (λ (r : RoutingObservationInsert). r.observed_at ≤ℤ bound) (wanted_rows events)
unfolding event_to_observation
rows_below bound [] h = tt
rows_below bound (e ∷ es) (p, h) = elim (Bool-cases (is_wanted e)) [
  | inl wanted ↦ rw wanted (p wanted, rows_below bound es h)
  | inr skipped ↦ rw skipped (rows_below bound es h)
]

-- A tick whose insert is accepted appends rows to the table, and leaves the watermark no lower than
-- it was and no lower than the time of any of these rows.
pub watermark_covers :
    (db : Sqlite) (w : Worker) (events : List ResolverAuditEntry)
    → (new : List RoutingObservationRow) × ((finish_tick db none w (ok events)).0.table.rows
        ≡ w.table.rows ++ new)
      × (floor_of w.watermark_ms ≤ℤ floor_of (finish_tick db none w (ok events)).0.watermark_ms)
      × All
          (λ (r : RoutingObservationRow).
            r.observed_at ≤ℤ floor_of (finish_tick db none w (ok events)).0.watermark_ms)
          new
watermark_covers db w events =
    let (new, stored, same, _, _) = finish_tick_ok db w events in
    let (rises, covers) = events_covered db w events in
    let after = floor_of (finish_tick db none w (ok events)).0.watermark_ms in
    (
      new,
      stored,
      rises,
      All-map (λ (r : RoutingObservationInsert). r.observed_at ≤ℤ after) content new
          (rw same (rows_below after events covers)),
    )
