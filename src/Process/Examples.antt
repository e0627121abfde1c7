-- ===== src/Process/Examples.antt =====
-- A shutdown that is clean, and one that comes early.
use livepeer_gateway_console.Common.{◌≡◌, refl, List, [], ◌∷◌}
use livepeer_gateway_console.Common.Result.{Result, ok}
use livepeer_gateway_console.Process.{
  Event, signal, listen_settled, http_settled, hard_kill, run, booted, step, live_step, shutdown,
  after_listen, after_close, close_database, exit_with, exit, close_db, start_worker, close_http,
  stop_worker,
}
use livepeer_gateway_console.Process.Shutdown.{Stage, shutdown_stages}
use livepeer_gateway_console.Process.Exit.{HasExited, IsLast, signal_exits}

abbrev fine : Result (Unit {0})
fine = ok tt

abbrev events : List Event
events = listen_settled fine ∷ signal ∷ signal ∷ http_settled fine ∷ hard_kill ∷ []

shutdown_stages_example : Stage fine (run fine booted events)
shutdown_stages_example = shutdown_stages fine events

-- The second signal and the timer behind the exit do nothing.
clean :
    (run fine booted events).actions
    ≡ exit 0 ∷ close_db ∷ close_http ∷ stop_worker ∷ start_worker ∷ []
unfolding run step live_step shutdown after_listen after_close close_database exit_with
clean = refl

-- A signal that comes before the server listens: the worker is started behind its stop.
worker_outlives_stop :
    (run fine booted (signal ∷ listen_settled fine ∷ http_settled fine ∷ [])).actions
    ≡ exit 0 ∷ close_db ∷ start_worker ∷ close_http ∷ stop_worker ∷ []
unfolding run step live_step shutdown after_listen after_close close_database exit_with
worker_outlives_stop = refl

signal_exits_example :
    HasExited (run fine booted (listen_settled fine ∷ signal ∷ (signal ∷ hard_kill ∷ [])))
unfolding IsLast
signal_exits_example = signal_exits fine (listen_settled fine ∷ []) (signal ∷ []) hard_kill tt
