-- ===== src/Repo.antt =====
-- src/repo: the two tables of the state database, their inserts and queries. SQLite stands behind
-- an interface: what it documents of AUTOINCREMENT keys and of ORDER BY.
pub mod Orders
pub mod Inserts
pub mod Falling
pub mod Paging
mod Examples
use mathlib.Core.List.{Perm}
use livepeer_gateway_console.Common.{
  ℕ, zero, suc, ◌<◌, Bool, true, false, ◌&&◌, Option, none, some, List, [], ◌∷◌, ◌++◌, All, keep,
  take, ltb, if◌then◌else◌,
}
use livepeer_gateway_console.Common.Int.{ℤ, pos, ◌≤ℤ◌}
use livepeer_gateway_console.Common.Text.{Text, text_eq}
use livepeer_gateway_console.Common.Result.{Failure, Result, ok, err}

-- `audit_events`; the flag `ok` is an integer column.
pub record AuditEventRow : Type 0 where
  pub id : ℕ
  pub occurred_at : ℕ
  pub actor : Text
  pub action : Text
  pub target : Option Text
  pub ok : ℕ
  pub message : Option Text

pub record AuditEventInsert : Type 0 where
  pub actor : Text
  pub action : Text
  pub target : Option Text
  pub ok : ℕ
  pub message : Option Text

-- `routing_observations`
pub record RoutingObservationRow : Type 0 where
  pub id : ℕ
  pub observed_at : ℤ
  pub orch_address : Text
  pub capability : Option Text
  pub offering : Option Text
  pub signature_status : Option Text
  pub freshness_status : Option Text
  pub details_json : Option Text

pub record RoutingObservationInsert : Type 0 where
  pub observed_at : ℤ
  pub orch_address : Text
  pub capability : Option Text
  pub offering : Option Text
  pub signature_status : Option Text
  pub freshness_status : Option Text
  pub details_json : Option Text

-- A table: its rows in insertion order, and the largest key ever given out.
pub record Table (A : Type 0) : Type 0 where
  pub rows : List A
  pub seq : ℕ

abbrev pub empty_table : {A : Type 0} → Table A
empty_table = record { rows = []; seq = 0 }

-- Nothing later in the list has a larger key.
abbrev pub IsDescending : {A : Type 0} → (A → ℤ) → List A → Type 0
IsDescending key [] = Unit
IsDescending key (x ∷ xs) = All (λ y. key y ≤ℤ key x) xs × IsDescending key xs

-- `ORDER BY key DESC`: the selected rows by falling key, rows of one key in any order.
pub record OrderBy (A : Type 0) : Type 0 where
  pub desc : (A → ℤ) → List A → List A
  pub desc-Perm : (key : A → ℤ) (xs : List A) → Perm (desc key xs) xs
  pub desc-IsDescending : (key : A → ℤ) (xs : List A) → IsDescending key (desc key xs)

-- An AUTOINCREMENT key is larger than every key that the table ever had.
pub record Sqlite : Type 0 where
  pub next_id : ℕ → ℕ
  pub next_id-lt : (n : ℕ) → n < next_id n
  pub audit_order : OrderBy AuditEventRow
  pub routing_order : OrderBy RoutingObservationRow

-- `auditEventsRepo.append`; `now` is the column's default, and `fault` what the statement throws.
unfoldable pub append :
    Sqlite
    → ℕ
    → Option Failure
    → AuditEventInsert
    → Table AuditEventRow
    → Result (Unit {0}) × Table AuditEventRow
append db now (some e) input t = (err e, t)
append db now none input t =
    let id = db.next_id t.seq in
    (
      ok tt,
      record {
        rows =
            t.rows
            ++ record {
              id = id;
              occurred_at = now;
              actor = input.actor;
              action = input.action;
              target = input.target;
              ok = input.ok;
              message = input.message;
            }
              ∷ [];
        seq = id;
      },
    )

pub record ListRecentOptions : Type 0 where
  pub limit : Option ℕ
  pub before : Option ℕ

abbrev pub limit_or : ℕ → Option ℕ → ℕ
limit_or d none = d
limit_or d (some n) = n

abbrev pub event_key : AuditEventRow → ℤ
event_key r = pos r.id

unfoldable pub is_before : Option ℕ → AuditEventRow → Bool
is_before none r = true
is_before (some n) r = ltb r.id n

-- `auditEventsRepo.listRecent`
unfoldable pub list_recent : Sqlite → ListRecentOptions → Table AuditEventRow → List AuditEventRow
unfolding is_before
list_recent db options t =
    take (limit_or 50 options.limit)
      (db.audit_order.desc event_key (keep (is_before options.before) t.rows))

unfoldable pub to_row : ℕ → RoutingObservationInsert → RoutingObservationRow
to_row id r = record {
  id = id;
  observed_at = r.observed_at;
  orch_address = r.orch_address;
  capability = r.capability;
  offering = r.offering;
  signature_status = r.signature_status;
  freshness_status = r.freshness_status;
  details_json = r.details_json;
}

-- The rows of one INSERT take their keys in order.
pub insert_rows :
    Sqlite
    → List RoutingObservationInsert
    → Table RoutingObservationRow
    → Table RoutingObservationRow
unfolding to_row
insert_rows db [] t = t
insert_rows db (r ∷ rs) t =
    let id = db.next_id t.seq in
    insert_rows db rs (record { rows = t.rows ++ to_row id r ∷ []; seq = id })

-- `routingObservationsRepo.appendBatch`: one statement, all rows or none.
unfoldable pub append_batch :
    Sqlite
    → Option Failure
    → List RoutingObservationInsert
    → Table RoutingObservationRow
    → Result (Unit {0}) × Table RoutingObservationRow
append_batch db fault [] t = (ok tt, t)
append_batch db (some e) (r ∷ rs) t = (err e, t)
append_batch db none (r ∷ rs) t = (ok tt, insert_rows db (r ∷ rs) t)

abbrev pub observation_key : RoutingObservationRow → ℤ
observation_key r = r.observed_at

-- `routingObservationsRepo.listRecentForOrch`
unfoldable pub list_recent_for_orch :
    Sqlite → Text → Option ℕ → Table RoutingObservationRow → List RoutingObservationRow
list_recent_for_orch db orch_address limit t = take (limit_or 200 limit) (
    db.routing_order.desc observation_key
      (keep (λ (r : RoutingObservationRow). text_eq r.orch_address orch_address) t.rows))

is_capability : Text → Option Text → Bool
is_capability capability none = false
is_capability capability (some c) = text_eq c capability

-- `routingObservationsRepo.listRecentForOrchAndCapability`
unfoldable pub list_recent_for_orch_and_capability :
    Sqlite → Text → Text → Option ℕ → Table RoutingObservationRow → List RoutingObservationRow
unfolding is_capability
list_recent_for_orch_and_capability db orch_address capability limit t = take (limit_or 200 limit) (
    db.routing_order.desc observation_key (
      keep
        (λ (r : RoutingObservationRow).
          text_eq r.orch_address orch_address && is_capability capability r.capability)
        t.rows))
