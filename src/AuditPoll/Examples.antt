-- ===== src/AuditPoll/Examples.antt =====
-- The audit poll on small answers of the resolver.
use livepeer_gateway_console.Common.{
  ◌≡◌, refl, false, none, some, List, [], ◌∷◌, ◌++◌, map, All, arith,
}
use livepeer_gateway_console.Common.Int.{pos, ◌≤ℤ◌}
use livepeer_gateway_console.Common.Text.{codes}
use livepeer_gateway_console.Common.Result.{Failure, error, ok, err}
use livepeer_gateway_console.Repo.{empty_table, RoutingObservationRow, append_batch}
use livepeer_gateway_console.Repo.Inserts.{content}
use livepeer_gateway_console.Repo.Orders.{memory_database}
use livepeer_gateway_console.Resolver.{ResolverAuditEntry}
use livepeer_gateway_console.Resolver.Labels.{ResolveModeLabel}
use livepeer_gateway_console.AuditPoll.{
  AuditPollWorkerOptions, Worker, scan, scan_events, scan_event, store_batch, fail_tick, begin_tick,
  finish_tick, floor_of,
}
use livepeer_gateway_console.AuditPoll.Scan.{wanted_rows}
use livepeer_gateway_console.AuditPoll.Tick.{failed_tick_keeps}
use livepeer_gateway_console.AuditPoll.Watermark.{watermark_covers}
use livepeer_gateway_console.AuditPoll.Repeats.{poll, old_events_repeat}
use livepeer_gateway_console.AuditPoll.Runs.{
  System, after_begin, Reach, here, next, tick, settle, IsSound, Reach-IsSound,
}

abbrev pub options : AuditPollWorkerOptions
options = record { interval_ms = 30000; fetch_limit = none }

abbrev pub event : ResolverAuditEntry
event = record {
  occurred_at = pos 5;
  orch_address = some (codes "0xAb");
  kind = codes "refresh";
  mode = ResolveModeLabel.csv;
  detail = [];
}

abbrev undated : ResolverAuditEntry
undated = record event { occurred_at = pos 0 }

abbrev pub new_worker : Worker
new_worker = record {
  watermark_ms = none;
  timer = false;
  in_flight = false;
  table = empty_table;
  logs = [];
}

abbrev pub new_system : System
new_system = record { worker = new_worker; asked = none }

pub new_system-IsSound : IsSound new_system
new_system-IsSound = record {
  asked_right = refl;
  stored = tt;
  keyed = record { ascending = tt; within = tt };
}

abbrev pub called : System
called = after_begin none (begin_tick options new_worker)

abbrev pub answered : System
answered = record {
  worker = (finish_tick memory_database none called.worker (ok (event ∷ []))).0;
  asked = none;
}

called-Reach : Reach memory_database options new_system called
called-Reach = next here (tick new_system)

called-asked : called.asked ≡ some none
unfolding begin_tick
called-asked = refl

pub answered-Reach : Reach memory_database options new_system answered
answered-Reach = next called-Reach (settle called none none (ok (event ∷ [])) called-asked)

Reach-IsSound_example : IsSound answered
Reach-IsSound_example =
    Reach-IsSound memory_database options new_system new_system-IsSound answered-Reach

called-IsSound : IsSound called
called-IsSound = Reach-IsSound memory_database options new_system new_system-IsSound called-Reach

abbrev disk_full : Failure
disk_full = error (codes "disk full")

insert_fails :
    (finish_tick memory_database (some disk_full) new_worker (ok (event ∷ []))).1 ≡ err disk_full
unfolding finish_tick scan scan_events scan_event store_batch fail_tick append_batch
insert_fails = refl

failed_tick_keeps_example :
    ((finish_tick memory_database (some disk_full) new_worker (ok (event ∷ []))).0.watermark_ms
      ≡ none)
    × ((finish_tick memory_database (some disk_full) new_worker (ok (event ∷ []))).0.table
        ≡ empty_table)
    × ((finish_tick memory_database (some disk_full) new_worker (ok (event ∷ []))).0.in_flight
        ≡ false)
failed_tick_keeps_example =
    failed_tick_keeps memory_database (some disk_full) new_worker (ok (event ∷ [])) disk_full
      insert_fails

watermark_covers_example :
    (new : List RoutingObservationRow) × ((finish_tick memory_database none new_worker
        (ok (event ∷ undated ∷ []))).0.table.rows
      ≡ [] ++ new)
    × (floor_of none
        ≤ℤ floor_of
            (finish_tick memory_database none new_worker
              (ok (event ∷ undated ∷ []))).0.watermark_ms)
    × All
        (λ (r : RoutingObservationRow).
          r.observed_at
          ≤ℤ floor_of
              (finish_tick memory_database none new_worker
                (ok (event ∷ undated ∷ []))).0.watermark_ms)
        new
watermark_covers_example = watermark_covers memory_database new_worker (event ∷ undated ∷ [])

abbrev late_worker : Worker
late_worker = record new_worker { watermark_ms = some (pos 5) }

old_events_repeat_example :
    ((begin_tick options (poll memory_database options late_worker (event ∷ []))).1
      ≡ (begin_tick options late_worker).1)
    × (map content
          (poll memory_database options
            (poll memory_database options late_worker (event ∷ []))
            (event ∷ [])).table.rows
        ≡ [] ++ (wanted_rows (event ∷ []) ++ wanted_rows (event ∷ [])))
old_events_repeat_example =
    old_events_repeat memory_database options late_worker (event ∷ []) refl (omega arith, tt)
