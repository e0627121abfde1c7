-- ===== src/Refresh/Keys.antt =====
-- What a refresh leaves of the audit table's keys, and the routes when their input is accepted.
use livepeer_gateway_console.Common.{◌≡◌, refl, true, false, Option, none, some}
use livepeer_gateway_console.Common.Text.{Text}
use livepeer_gateway_console.Common.Address.{is_eth_address}
use livepeer_gateway_console.Common.Result.{Failure, message_of, Result, ok, err}
use livepeer_gateway_console.Repo.{Table, AuditEventRow}
use livepeer_gateway_console.Repo.Inserts.{IsKeyed, event_id}
use livepeer_gateway_console.Audit.RoundTrip.{append_event-IsKeyed}
use livepeer_gateway_console.Refresh.{
  Surroundings, World, wildcard, refresh_event, rethrow, caught, after_send, after_append,
  after_refresh, run_refresh, handle_resolver_refresh, handle_resolver_refresh_one,
}

rethrow-table :
    (w : World) (e : Failure) (r : Result (Unit {0}) × Table AuditEventRow)
    → (rethrow w e r).1.table ≡ r.1
unfolding rethrow
rethrow-table w e (ok _, table) = refl
rethrow-table w e (err f, table) = refl

module _ (env : Surroundings) (actor target : Text) where
  caught-IsKeyed :
      (w : World) (e : Failure)
      → IsKeyed event_id w.table
      → IsKeyed event_id (caught env actor target w e).1.table
  unfolding caught
  caught-IsKeyed w e k = rw rethrow-table (
      append_event-IsKeyed env.db env.now env.second_append
        (refresh_event actor target false (some (message_of e))) w.table k)

  after_send-IsKeyed :
      (w : World) (o : Option Failure)
      → IsKeyed event_id w.table
      → IsKeyed event_id (after_send env actor target w o).1.table
  unfolding after_send
  after_send-IsKeyed w none k = k
  after_send-IsKeyed w (some e) k = caught-IsKeyed w e k

  after_append-IsKeyed :
      (w : World) (r : Result (Unit {0}) × Table AuditEventRow)
      → IsKeyed event_id w.table
      → IsKeyed event_id r.1
      → IsKeyed event_id (after_append env actor target w r).1.table
  unfolding after_append
  after_append-IsKeyed w (ok _, table) k l =
      after_send-IsKeyed (record w { table = table }) env.send l
  after_append-IsKeyed w (err e, table) k l = caught-IsKeyed (record w { table = table }) e l

  after_refresh-IsKeyed :
      (w : World) (answer : Result (Unit {0}))
      → IsKeyed event_id w.table
      → IsKeyed event_id (after_refresh env actor target w answer).1.table
  unfolding after_refresh
  after_refresh-IsKeyed w (ok _) k = after_append-IsKeyed w _ k (
      append_event-IsKeyed env.db env.now env.first_append (refresh_event actor target true none)
        w.table k)
  after_refresh-IsKeyed w (err e) k = caught-IsKeyed w e k

  pub run_refresh-IsKeyed :
      (w : World)
      → IsKeyed event_id w.table
      → IsKeyed event_id (run_refresh env actor target w).1.table
  unfolding run_refresh
  run_refresh-IsKeyed w k = after_refresh-IsKeyed _ _ k

pub refresh_all_accepted :
    (env : Surroundings) (actor : Text) (w : World)
    → handle_resolver_refresh env actor true w ≡ run_refresh env actor wildcard w
unfolding handle_resolver_refresh
refresh_all_accepted env actor w = refl

pub refresh_one_accepted :
    (env : Surroundings) (actor address : Text) (w : World)
    → is_eth_address address ≡ true
    → handle_resolver_refresh_one env actor address w ≡ run_refresh env actor address w
unfolding handle_resolver_refresh_one
refresh_one_accepted env actor address w valid = rw valid refl
