-- ===== src/Repo/Examples.antt =====
-- Tables of a few rows in the database of Repo.Orders.
use livepeer_gateway_console.Common.{ℕ, none, some, [], ◌∷◌, arith}
use livepeer_gateway_console.Common.Int.{pos}
use livepeer_gateway_console.Common.Text.{codes}
use livepeer_gateway_console.Repo.{
  Table, AuditEventRow, RoutingObservationRow, RoutingObservationInsert, empty_table, append_batch,
  list_recent,
}
use livepeer_gateway_console.Repo.Falling.{newest_first}
use livepeer_gateway_console.Repo.Inserts.{IsKeyed, event_id}
use livepeer_gateway_console.Repo.Orders.{memory_database}
use livepeer_gateway_console.Repo.Paging.{IsPage, list_recent-IsPage}

abbrev event : ℕ → AuditEventRow
event id = record {
  id = id;
  occurred_at = 9;
  actor = codes "alice";
  action = codes "resolver.refresh";
  target = none;
  ok = 1;
  message = none;
}

abbrev log : Table AuditEventRow
log = record { rows = event 1 ∷ event 2 ∷ event 4 ∷ []; seq = 4 }

log-IsKeyed : IsKeyed event_id log
log-IsKeyed = record {
  ascending = (omega arith, (omega arith, (omega arith, tt)));
  within = (omega arith, (omega arith, (omega arith, tt)));
}

list_recent-IsPage_example :
    IsPage 1
      (some 4)
      (newest_first log.rows)
      (list_recent memory_database (record { limit = some 1; before = some 4 }) log)
list_recent-IsPage_example =
    list_recent-IsPage memory_database (record { limit = some 1; before = some 4 }) log log-IsKeyed

abbrev seen : RoutingObservationInsert
seen = record {
  observed_at = pos 5;
  orch_address = codes "0xab";
  capability = none;
  offering = none;
  signature_status = none;
  freshness_status = none;
  details_json = none;
}

abbrev no_rows : Table RoutingObservationRow
no_rows = empty_table

abbrev two_rows : Table RoutingObservationRow
two_rows =
    (append_batch memory_database none (seen ∷ record seen { observed_at = pos 7 } ∷ []) no_rows).1
