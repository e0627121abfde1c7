-- ===== src/Process.antt =====
-- src/main.ts from `await listen` on: the process as it serves and shuts down. What it awaits settles
-- as an event, between which signals and the timer may come.
pub mod Shutdown
pub mod Exit
mod Examples
use livepeer_gateway_console.Common.{
  ℕ, Bool, true, false, Option, none, some, List, [], ◌∷◌, if◌then◌else◌,
}
use livepeer_gateway_console.Common.Result.{Result, ok, err}

-- What the process does to its parts, the latest first.
pub data Action : Type 0 where
  stop_worker start_worker close_http close_db : Action
  exit : ℕ → Action

-- `listen_pending` says that `listen` has not settled, `closing` that a shutdown awaits
-- `http.close()`, `armed` that the timer of 30 seconds is set.
pub record Process : Type 0 where
  pub listen_pending : Bool
  pub shutting_down : Bool
  pub closing : Bool
  pub armed : Bool
  pub exited : Option ℕ
  pub actions : List Action

-- SIGTERM or SIGINT, the settling of `listen` and of `http.close()`, and the timer.
pub data Event : Type 0 where
  signal : Event
  listen_settled : Result (Unit {0}) → Event
  http_settled : Result (Unit {0}) → Event
  hard_kill : Event

-- `process.exit(code)`
pub exit_with : ℕ → Process → Process
exit_with code p = record p { exited = some code; actions = exit code ∷ p.actions }

-- `shutdown`, up to its `await`.
shutdown : Process → Process
shutdown p = if p.shutting_down then p else record p {
  shutting_down = true;
  closing = true;
  armed = true;
  actions = close_http ∷ stop_worker ∷ p.actions;
}

-- `sqlite.close()`, which returns or throws, and the exit.
close_database : Result (Unit {0}) → Process → Process
close_database (ok _) p = exit_with 0 (record p { actions = close_db ∷ p.actions })
close_database (err e) p = exit_with 1 (record p { actions = close_db ∷ p.actions })

-- `shutdown` from its `await` on.
after_close : Result (Unit {0}) → Result (Unit {0}) → Process → Process
unfolding close_database exit_with
after_close db_close (ok _) p = close_database db_close (record p { closing = false })
after_close db_close (err e) p = exit_with 1 (record p { closing = false })

-- `main` from `await listen` on.
after_listen : Result (Unit {0}) → Process → Process
unfolding exit_with
after_listen (ok _) p = record p { listen_pending = false; actions = start_worker ∷ p.actions }
after_listen (err e) p = exit_with 1 (record p { listen_pending = false })

-- An event while the process lives; `db_close` is how `sqlite.close()` ends.
pub live_step : Result (Unit {0}) → Process → Event → Process
unfolding shutdown after_close after_listen exit_with
live_step db_close p signal = shutdown p
live_step db_close p (listen_settled r) = if p.listen_pending then after_listen r p else p
live_step db_close p (http_settled r) = if p.closing then after_close db_close r p else p
live_step db_close p hard_kill = if p.armed then exit_with 1 p else p

-- After its exit nothing happens to the process.
pub step : Result (Unit {0}) → Process → Event → Process
unfolding live_step
step db_close p e = elim p.exited [ none ↦ live_step db_close p e | some code ↦ p ]

pub run : Result (Unit {0}) → Process → List Event → Process
unfolding step
run db_close p [] = p
run db_close p (e ∷ es) = run db_close (step db_close p e) es

-- The process when `main` awaits `listen`.
abbrev pub booted : Process
booted = record {
  listen_pending = true;
  shutting_down = false;
  closing = false;
  armed = false;
  exited = none;
  actions = [];
}
