-- ===== src/Refresh/Examples.antt =====
-- Refreshes of a daemon that accepts every call, over an empty audit log.
use livepeer_gateway_console.Common.{◌≡◌, refl, none, some, [], ◌∷◌, ◌++◌}
use livepeer_gateway_console.Common.Text.{Text, codes}
use livepeer_gateway_console.Common.Result.{Failure, error, ok, err}
use livepeer_gateway_console.Repo.{empty_table}
use livepeer_gateway_console.Repo.Orders.{memory_database}
use livepeer_gateway_console.Audit.RoundTrip.{log_of}
use livepeer_gateway_console.Refresh.{Surroundings, World, wildcard, run_refresh}
use livepeer_gateway_console.Refresh.Audited.{
  request_for, event_for, outcome_for, refresh_audited, accepted_refresh_logged_failed,
}

abbrev pub calm : Surroundings
calm = record {
  db = memory_database;
  now = 9;
  daemon = λ request. ok tt;
  first_append = none;
  second_append = none;
  send = none;
}

abbrev busy : Failure
busy = error (codes "database is locked")

abbrev locked : Surroundings
locked = record calm { first_append = some busy }

abbrev pub begin : World
begin = record { table = empty_table; refreshes = [] }

refresh_audited_example :
    ((run_refresh calm (codes "alice") wildcard begin).0
      ≡ outcome_for wildcard (calm.daemon (request_for wildcard)))
    × (log_of (run_refresh calm (codes "alice") wildcard begin).1.table
        ≡ event_for calm (codes "alice") wildcard begin (calm.daemon (request_for wildcard))
          ∷ log_of begin.table)
    × ((run_refresh calm (codes "alice") wildcard begin).1.refreshes
        ≡ begin.refreshes ++ request_for wildcard ∷ [])
refresh_audited_example = refresh_audited calm (codes "alice") wildcard begin refl refl refl

accepted_refresh_logged_failed_example :
    log_of (run_refresh locked (codes "alice") wildcard begin).1.table
    ≡ event_for locked (codes "alice") wildcard begin (err busy) ∷ log_of begin.table
accepted_refresh_logged_failed_example =
    accepted_refresh_logged_failed locked (codes "alice") wildcard begin busy refl refl refl

abbrev pub address : Text
address = codes "0x00000000000000000000000000000000000000aB"
