-- ===== src/AuditPoll/Tick.antt =====
-- One tick of the audit poll, from the answer of the resolver on.
use livepeer_gateway_console.Common.{
  ◌≡◌, refl, ap, false, Option, none, List, ◌++◌, map, length, inl, inr, ◌⊎◌, arith,
}
use livepeer_gateway_console.Common.Result.{Failure, Result, ok, err}
use livepeer_gateway_console.Repo.{Sqlite, Table, RoutingObservationRow, append_batch}
use livepeer_gateway_console.Repo.Inserts.{
  content, append_batch_ok, append_batch_err, append_batch-cases, IsKeyed, observation_id,
  append_batch-IsKeyed,
}
use livepeer_gateway_console.Resolver.{ResolverAuditEntry}
use livepeer_gateway_console.AuditPoll.{
  Worker, Batch, scan, advance, floor_of, fail_tick, store_batch, finish_tick,
}
use livepeer_gateway_console.AuditPoll.Scan.{latest, wanted_rows, scan_lem}

-- The tick settles with a result, and the worker after it.
module _ (db : Sqlite) (fault : Option Failure) (w : Worker) where
  store_batch_err :
      (b : Batch) (r : Result (Unit {0}) × Table RoutingObservationRow) {e : Failure}
      → (r.0 ≡ err e → r.1 ≡ w.table)
      → (store_batch w b r).1 ≡ err e
      → ((store_batch w b r).0.watermark_ms ≡ w.watermark_ms)
        × ((store_batch w b r).0.table ≡ w.table)
        × ((store_batch w b r).0.in_flight ≡ false)
  unfolding store_batch
  store_batch_err b (ok u, table) same h = cc
  store_batch_err b (err e, table) same h = (refl, same (ground arith), refl)

  store_batch-idle :
      (b : Batch) (r : Result (Unit {0}) × Table RoutingObservationRow)
      → (store_batch w b r).0.in_flight ≡ false
  unfolding store_batch
  store_batch-idle b (ok u, table) = refl
  store_batch-idle b (err e, table) = refl

  -- However a tick ends, the next one may run.
  pub finish_tick-idle :
      (res : Result (List ResolverAuditEntry)) → (finish_tick db fault w res).0.in_flight ≡ false
  unfolding finish_tick
  finish_tick-idle (err f) = refl
  finish_tick-idle (ok events) =
      store_batch-idle (scan w.watermark_ms events)
        (append_batch db fault (scan w.watermark_ms events).rows w.table)

  -- A failed tick leaves the watermark and the table, and lets the next tick run.
  pub failed_tick_keeps :
      (res : Result (List ResolverAuditEntry)) (e : Failure)
      → (finish_tick db fault w res).1 ≡ err e
      → ((finish_tick db fault w res).0.watermark_ms ≡ w.watermark_ms)
        × ((finish_tick db fault w res).0.table ≡ w.table)
        × ((finish_tick db fault w res).0.in_flight ≡ false)
  unfolding finish_tick
  failed_tick_keeps (err f) e h = (refl, refl, refl)
  failed_tick_keeps (ok events) e h =
      store_batch_err (scan w.watermark_ms events) _
        (append_batch_err db fault (scan w.watermark_ms events).rows w.table _) h

  -- With the answer at hand, a tick ends as if the insert were accepted, or fails.
  pub finish_tick-cases :
      (events : List ResolverAuditEntry)
      → (finish_tick db fault w (ok events) ≡ finish_tick db none w (ok events))
        ⊎ ((e : Failure) × (finish_tick db fault w (ok events) ≡ fail_tick w e))
  unfolding finish_tick
  finish_tick-cases events =
      let b = scan w.watermark_ms events in
      elim (append_batch-cases db fault b.rows w.table) [
        | inl same ↦ inl (ap (store_batch w b) same)
        | inr (e, failed) ↦ inr (e, ap (store_batch w b) failed)
      ]

-- A tick whose insert is accepted.
pub finish_tick_ok :
    (db : Sqlite) (w : Worker) (events : List ResolverAuditEntry)
    → (new : List RoutingObservationRow) × ((finish_tick db none w (ok events)).0.table.rows
        ≡ w.table.rows ++ new)
      × (map content new ≡ wanted_rows events)
      × ((finish_tick db none w (ok events)).0.watermark_ms
          ≡ advance w.watermark_ms (latest (floor_of w.watermark_ms) events))
      × ((finish_tick db none w (ok events)).1
          ≡ ok (record {
            inserted = length (wanted_rows events);
            watermark = advance w.watermark_ms (latest (floor_of w.watermark_ms) events);
          }))
unfolding finish_tick
finish_tick_ok db w events =
    let (new, stored, same) = append_batch_ok db (wanted_rows events) w.table in
    (new, rw (scan_lem, stored) refl, same, rw (scan_lem, stored) refl, rw (scan_lem, stored) refl)

store_batch-table :
    (w : Worker) (b : Batch) (r : Result (Unit {0}) × Table RoutingObservationRow)
    → (store_batch w b r).0.table ≡ r.1
unfolding store_batch
store_batch-table w b (ok u, table) = refl
store_batch-table w b (err e, table) = refl

-- However a tick ends, the keys of the table are ascending and unique.
pub finish_tick-IsKeyed :
    (db : Sqlite) (fault : Option Failure) (w : Worker) (res : Result (List ResolverAuditEntry))
    → IsKeyed observation_id w.table
    → IsKeyed observation_id (finish_tick db fault w res).0.table
unfolding finish_tick
finish_tick-IsKeyed db fault w (err e) k = k
finish_tick-IsKeyed db fault w (ok events) k =
    rw store_batch-table (append_batch-IsKeyed db fault (scan w.watermark_ms events).rows w.table k)
