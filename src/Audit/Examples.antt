-- ===== src/Audit/Examples.antt =====
-- An event in an empty log.
use livepeer_gateway_console.Common.{none, true}
use livepeer_gateway_console.Common.Text.{codes}
use livepeer_gateway_console.Repo.{empty_table, Table, AuditEventRow}
use livepeer_gateway_console.Repo.Inserts.{IsKeyed, event_id}
use livepeer_gateway_console.Audit.{AppendAuditEventInput}

abbrev pub input : AppendAuditEventInput
input = record {
  actor = codes "alice";
  action = codes "resolver.refresh";
  target = none;
  ok = true;
  message = none;
}

abbrev pub log : Table AuditEventRow
log = empty_table

pub log-IsKeyed : IsKeyed event_id log
log-IsKeyed = record { ascending = tt; within = tt }
