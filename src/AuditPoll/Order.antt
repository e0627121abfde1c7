-- ===== src/AuditPoll/Order.antt =====
-- The order of the stored rows: what a tick adds stands behind, and is not older.
use mathlib.Core.List.{append-nil}
use livepeer_gateway_console.Common.{
  ◌≡◌, sym, Option, some, List, [], ◌∷◌, ◌++◌, All, All-map, All-mono, arith, Bool-cases, inl, inr,
}
use livepeer_gateway_console.Common.Int.{ℤ, ◌≤ℤ◌}
use livepeer_gateway_console.Common.Result.{Failure, ok}
use livepeer_gateway_console.Repo.{Sqlite, RoutingObservationRow, RoutingObservationInsert}
use livepeer_gateway_console.Repo.Inserts.{content}
use livepeer_gateway_console.Resolver.{ResolverAuditEntry}
use livepeer_gateway_console.AuditPoll.{finish_tick, fail_tick, floor_of, event_to_observation}
use livepeer_gateway_console.AuditPoll.Scan.{is_wanted, wanted_rows}
use livepeer_gateway_console.AuditPoll.Tick.{finish_tick_ok, finish_tick-cases}
use livepeer_gateway_console.AuditPoll.Runs.{System, AskedRight, IsSound, IsStored, AllStored}

-- An answer with events no older than it was asked for.
abbrev pub NoneOlder : Option ℤ → List ResolverAuditEntry → Type 0
NoneOlder since events = All (λ e. floor_of since ≤ℤ e.occurred_at) events

abbrev pub NoneLater : List RoutingObservationRow → RoutingObservationInsert → Type 0
NoneLater old r = All (λ (o : RoutingObservationRow). o.observed_at ≤ℤ r.observed_at) old

wanted_rows_follow :
    (old : List RoutingObservationRow) (bound : ℤ) (events : List ResolverAuditEntry)
    → AllStored bound old
    → All (λ e. bound ≤ℤ e.occurred_at) events
    → All (NoneLater old) (wanted_rows events)
unfolding event_to_observation
wanted_rows_follow old bound [] h k = tt
wanted_rows_follow old bound (e ∷ es) h (p, k) = elim (Bool-cases (is_wanted e)) [
  | inl wanted ↦ rw wanted (
    All-mono (λ r. IsStored bound (content r)) (λ o. o.observed_at ≤ℤ e.occurred_at)
        (λ o stored. omega (arith, stored.within)) old h,
    wanted_rows_follow old bound es h k,
  )
  | inr skipped ↦ rw skipped (wanted_rows_follow old bound es h k)
]

-- While the resolver answers with events no older than it was asked for, what a tick adds to a sound
-- state stands behind the rows that were there, and none of it is older
-- than any of them: only rows of one millisecond can come twice.
new_rows_follow :
    (db : Sqlite) (fault : Option Failure) (s : System) (since : Option ℤ)
    (events : List ResolverAuditEntry)
    → IsSound s
    → s.asked ≡ some since
    → NoneOlder since events
    → (new : List RoutingObservationRow) × ((finish_tick db fault s.worker (ok events)).0.table.rows
        ≡ s.worker.table.rows ++ new)
      × All (λ r. NoneLater s.worker.table.rows (content r)) new
new_rows_follow db fault s since events h asked answer =
    elim (finish_tick-cases db fault s.worker events) [
      | inl accepted ↦
          let (new, stored, same, _, _) = finish_tick_ok db s.worker events in
          let right : AskedRight (some since) s.worker = rw asked at h.asked_right in
          let later : All (λ e. floor_of s.worker.watermark_ms ≤ℤ e.occurred_at) events =
            rw right.1 at answer in
          (
            new,
            rw accepted stored,
            All-map (NoneLater s.worker.table.rows) content new (
                rw same (
                  wanted_rows_follow s.worker.table.rows (floor_of s.worker.watermark_ms) events
                    h.stored later)),
          )
      | inr (e, failed) ↦
          ([], rw failed (unfold fail_tick in sym (append-nil s.worker.table.rows)), tt)
    ]
