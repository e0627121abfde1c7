-- ===== src/Audit.antt =====
-- src/service/audit/index.ts: the console's own audit log, over the repository.
pub mod RoundTrip
pub mod Examples
use livepeer_gateway_console.Common.{
  ℕ, Bool, true, false, Option, none, some, List, [], ◌∷◌, map, ◌==◌, if◌then◌else◌,
}
use livepeer_gateway_console.Common.Text.{Text}
use livepeer_gateway_console.Common.Result.{Failure, Result, ok, err}
use livepeer_gateway_console.Repo.{
  Sqlite, Table, AuditEventRow, AuditEventInsert, ListRecentOptions, list_recent, append,
}

-- src/types/audit.ts
pub record AuditEvent : Type 0 where
  pub id : ℕ
  pub occurred_at : ℕ
  pub actor : Text
  pub action : Text
  pub target : Option Text
  pub ok : Bool
  pub message : Option Text

pub record AppendAuditEventInput : Type 0 where
  pub actor : Text
  pub action : Text
  pub target : Option Text
  pub ok : Bool
  pub message : Option Text

unfoldable pub row_to_domain : AuditEventRow → AuditEvent
row_to_domain r = record {
  id = r.id;
  occurred_at = r.occurred_at;
  actor = r.actor;
  action = r.action;
  target = r.target;
  ok = r.ok == 1;
  message = r.message;
}

-- `listRecent(options)`
unfoldable pub list_events : Sqlite → ListRecentOptions → Table AuditEventRow → List AuditEvent
unfolding row_to_domain
list_events db options t = map row_to_domain (list_recent db options t)

unfoldable pub input_to_row : AppendAuditEventInput → AuditEventInsert
input_to_row input = record {
  actor = input.actor;
  action = input.action;
  target = input.target;
  ok = if input.ok then 1 else 0;
  message = input.message;
}

-- `append(input)`; `now` and `fault` are the repository's.
unfoldable pub append_event :
    Sqlite
    → ℕ
    → Option Failure
    → AppendAuditEventInput
    → Table AuditEventRow
    → Result (Unit {0}) × Table AuditEventRow
append_event db now fault input t = append db now fault (input_to_row input) t
