-- ===== src/Audit/RoundTrip.antt =====
-- Appends to the audit log and reads of it.
use livepeer_gateway_console.Common.{
  ℕ, zero, suc, ◌≡◌, refl, ap, Option, none, some, List, [], ◌∷◌, ◌++◌, map, take, keep, length,
  ◌≤◌, arith,
}
use livepeer_gateway_console.Common.Result.{Failure, ok, err}
use livepeer_gateway_console.Repo.{
  Sqlite, Table, AuditEventRow, append, is_before, limit_or, list_recent, ListRecentOptions,
}
use livepeer_gateway_console.Repo.Inserts.{IsKeyed, event_id, append-IsKeyed}
use livepeer_gateway_console.Repo.Falling.{newest_first, newest_first-concat}
use livepeer_gateway_console.Repo.Paging.{list_recent_newest}
use livepeer_gateway_console.Audit.{
  AuditEvent, AppendAuditEventInput, row_to_domain, list_events, input_to_row, append_event,
}

-- The events of a table, newest first.
abbrev pub log_of : Table AuditEventRow → List AuditEvent
log_of t = map row_to_domain (newest_first t.rows)

-- An event under the key and the time that the database gives it.
abbrev pub event_of : ℕ → ℕ → AppendAuditEventInput → AuditEvent
event_of id now input = record {
  id = id;
  occurred_at = now;
  actor = input.actor;
  action = input.action;
  target = input.target;
  ok = input.ok;
  message = input.message;
}

appended_row : ℕ → ℕ → AppendAuditEventInput → AuditEventRow
unfolding input_to_row
appended_row id now input = record {
  id = id;
  occurred_at = now;
  actor = input.actor;
  action = input.action;
  target = input.target;
  ok = (input_to_row input).ok;
  message = input.message;
}

row_to_domain-appended :
    (id now : ℕ) (input : AppendAuditEventInput)
    → row_to_domain (appended_row id now input) ≡ event_of id now input
unfolding row_to_domain appended_row
row_to_domain-appended id now input = ground arith

append_event_ok :
    (db : Sqlite) (now : ℕ) (input : AppendAuditEventInput) (t : Table AuditEventRow)
    → append_event db now none input t ≡ (
      ok tt,
      record {
        rows = t.rows ++ appended_row (db.next_id t.seq) now input ∷ [];
        seq = db.next_id t.seq;
      },
    )
unfolding append_event append input_to_row appended_row
append_event_ok db now input t = refl

pub append_event-IsKeyed :
    (db : Sqlite) (now : ℕ) (fault : Option Failure) (input : AppendAuditEventInput)
    (t : Table AuditEventRow)
    → IsKeyed event_id t
    → IsKeyed event_id (append_event db now fault input t).1
unfolding append_event
append_event-IsKeyed db now fault input t k = append-IsKeyed db now fault (input_to_row input) t k

-- An accepted append puts the event in front of the log.
pub log-append_event :
    (db : Sqlite) (now : ℕ) (input : AppendAuditEventInput) (t : Table AuditEventRow)
    → log_of (append_event db now none input t).1 ≡ event_of (db.next_id t.seq) now input ∷ log_of t
log-append_event db now input t =
    rw
      (
        append_event_ok db now input t,
        newest_first-concat t.rows (appended_row (db.next_id t.seq) now input),
      )
      (ap (λ e. e ∷ log_of t) (row_to_domain-appended (db.next_id t.seq) now input))

keep_every : (rows : List AuditEventRow) → keep (is_before none) rows ≡ rows
unfolding is_before
keep_every [] = refl
keep_every (r ∷ rows) = ap (λ t. r ∷ t) (keep_every rows)

pub map-take :
    {A B : Type 0} (f : A → B) (n : ℕ) (xs : List A) → map f (take n xs) ≡ take n (map f xs)
map-take f zero xs = refl
map-take f (suc n) [] = refl
map-take f (suc n) (x ∷ xs) = ap (λ t. f x ∷ t) (map-take f n xs)

-- A read with no cursor lists the newest events of the log, within the limit.
pub list_events_lem :
    (db : Sqlite) (limit : Option ℕ) (t : Table AuditEventRow)
    → IsKeyed event_id t
    → list_events db (record { limit = limit; before = none }) t
      ≡ take (limit_or 50 limit) (log_of t)
unfolding list_events
list_events_lem db limit t k =
    rw (list_recent_newest db (record { limit = limit; before = none }) t k, keep_every)
      (map-take row_to_domain (limit_or 50 limit) (newest_first t.rows))

-- An event that is appended is listed first by the next read, as it was given, its flag as the
-- Boolean that it was, under the time of the insert; behind it stands what was listed before.
pub appended_is_listed :
    (db : Sqlite) (now : ℕ) (input : AppendAuditEventInput) (t : Table AuditEventRow) (n : ℕ)
    → IsKeyed event_id t
    → list_events db
        (record { limit = some (suc n); before = none })
        (append_event db now none input t).1
      ≡ event_of (db.next_id t.seq) now input
        ∷ list_events db (record { limit = some n; before = none }) t
appended_is_listed db now input t n k =
    rw
      (
        list_events_lem db (some (suc n)) (append_event db now none input t).1
            (append_event-IsKeyed db now none input t k),
        log-append_event,
        list_events_lem db (some n) t k,
      )
      refl

pub append_event_result :
    (db : Sqlite) (now : ℕ) (input : AppendAuditEventInput) (t : Table AuditEventRow)
    → append_event db now none input t ≡ (ok tt, (append_event db now none input t).1)
append_event_result db now input t = rw (append_event_ok db now input t) refl

pub append_event_refused :
    (db : Sqlite) (now : ℕ) (e : Failure) (input : AppendAuditEventInput) (t : Table AuditEventRow)
    → append_event db now (some e) input t ≡ (err e, t)
unfolding append_event append
append_event_refused db now e input t = refl

length-map-take-le :
    {A B : Type 0} (f : A → B) (n : ℕ) (xs : List A) → length (map f (take n xs)) ≤ n
length-map-take-le f zero xs = omega arith
length-map-take-le f (suc n) [] = omega arith
length-map-take-le f (suc n) (x ∷ xs) = omega (arith, length-map-take-le f n xs)

pub length-list_events-le :
    (db : Sqlite) (options : ListRecentOptions) (t : Table AuditEventRow)
    → length (list_events db options t) ≤ limit_or 50 options.limit
unfolding list_events list_recent
length-list_events-le db options t = length-map-take-le row_to_domain (limit_or 50 options.limit) _
