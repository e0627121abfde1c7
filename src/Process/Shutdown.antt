-- ===== src/Process/Shutdown.antt =====
-- The shutdown of the process, over all orders of signals, settlings and the timer.
use livepeer_gateway_console.Common.{
  ℕ, ◌≡◌, refl, ap, Bool, true, false, none, some, List, [], ◌∷◌, if-elim,
}
use livepeer_gateway_console.Common.Result.{Result, ok, err}
use livepeer_gateway_console.Process.{
  Action, stop_worker, start_worker, close_http, close_db, exit, Process, Event, signal,
  listen_settled, http_settled, hard_kill, exit_with, shutdown, close_database, after_close,
  after_listen, live_step, step, run, booted,
}

-- The actions but the start of the worker, which may come between any two of the others.
pub ending : List Action → List Action
ending [] = []
ending (start_worker ∷ done) = ending done
ending (stop_worker ∷ done) = stop_worker ∷ ending done
ending (close_http ∷ done) = close_http ∷ ending done
ending (close_db ∷ done) = close_db ∷ ending done
ending (exit code ∷ done) = exit code ∷ ending done

-- The code of an exit behind `sqlite.close()`.
pub code_of : Result (Unit {0}) → ℕ
code_of (ok _) = 0
code_of (err e) = 1

-- How far the process has come: it serves; it has failed to listen; it waits for the server to
-- close; it was ended while it waited; or it has closed the database and exited.
pub data Stage (db_close : Result (Unit {0})) (p : Process) : Type 0 where
  serving :
      p.exited ≡ none
      → p.shutting_down ≡ false
      → p.closing ≡ false
      → p.armed ≡ false
      → ending p.actions ≡ []
      → Stage db_close p
  failed : p.exited ≡ some 1 → ending p.actions ≡ exit 1 ∷ [] → Stage db_close p
  draining :
      p.exited ≡ none
      → p.shutting_down ≡ true
      → p.closing ≡ true
      → p.armed ≡ true
      → ending p.actions ≡ close_http ∷ stop_worker ∷ []
      → Stage db_close p
  aborted :
      p.exited ≡ some 1
      → ending p.actions ≡ exit 1 ∷ close_http ∷ stop_worker ∷ []
      → Stage db_close p
  finished :
      p.exited ≡ some (code_of db_close)
      → ending p.actions ≡ exit (code_of db_close) ∷ close_db ∷ close_http ∷ stop_worker ∷ []
      → Stage db_close p

pub step-exited :
    (db_close : Result (Unit {0})) (p : Process) (e : Event) (code : ℕ)
    → p.exited ≡ some code
    → step db_close p e ≡ p
unfolding step
step-exited db_close p e code gone = rw gone refl

pub step-live :
    (db_close : Result (Unit {0})) (p : Process) (e : Event)
    → p.exited ≡ none
    → step db_close p e ≡ live_step db_close p e
unfolding step
step-live db_close p e alive = rw alive refl

pub clash : {A : Type 0} (b : Bool) → b ≡ true → b ≡ false → A
clash b h k = absurd (cc)

module _ (db_close : Result (Unit {0})) where
  after_listen-serving :
      (r : Result (Unit {0})) (p : Process)
      → p.exited ≡ none
      → p.shutting_down ≡ false
      → p.closing ≡ false
      → p.armed ≡ false
      → ending p.actions ≡ []
      → Stage db_close (after_listen r p)
  unfolding after_listen exit_with ending
  after_listen-serving (ok _) p alive s c a quiet = Stage.serving alive s c a quiet
  after_listen-serving (err e) p alive s c a quiet = Stage.failed refl (ap (λ l. exit 1 ∷ l) quiet)

  serving-step :
      (p : Process) (e : Event)
      → p.exited ≡ none
      → p.shutting_down ≡ false
      → p.closing ≡ false
      → p.armed ≡ false
      → ending p.actions ≡ []
      → Stage db_close (live_step db_close p e)
  unfolding live_step shutdown exit_with ending
  serving-step p signal alive s c a quiet =
      if-elim (Stage db_close) p.shutting_down _ _ (λ t. clash p.shutting_down t s)
        (λ f. Stage.draining alive refl refl refl (ap (λ l. close_http ∷ stop_worker ∷ l) quiet))
  serving-step p (listen_settled r) alive s c a quiet =
      if-elim (Stage db_close) p.listen_pending _ _
        (λ t. after_listen-serving r p alive s c a quiet) (λ f. Stage.serving alive s c a quiet)
  serving-step p (http_settled r) alive s c a quiet =
      if-elim (Stage db_close) p.closing _ _ (λ t. clash p.closing t c)
        (λ f. Stage.serving alive s c a quiet)
  serving-step p hard_kill alive s c a quiet =
      if-elim (Stage db_close) p.armed _ _ (λ t. clash p.armed t a)
        (λ f. Stage.serving alive s c a quiet)

  after_listen-draining :
      (r : Result (Unit {0})) (p : Process)
      → p.exited ≡ none
      → p.shutting_down ≡ true
      → p.closing ≡ true
      → p.armed ≡ true
      → ending p.actions ≡ close_http ∷ stop_worker ∷ []
      → Stage db_close (after_listen r p)
  unfolding after_listen exit_with ending
  after_listen-draining (ok _) p alive s c a held = Stage.draining alive s c a held
  after_listen-draining (err e) p alive s c a held = Stage.aborted refl (ap (λ l. exit 1 ∷ l) held)

  after_close-draining :
      (db r : Result (Unit {0})) (p : Process)
      → ending p.actions ≡ close_http ∷ stop_worker ∷ []
      → db ≡ db_close
      → Stage db_close (after_close db r p)
  unfolding after_close close_database exit_with ending code_of
  after_close-draining (ok _) (ok _) p held same =
      rw (← same) (Stage.finished refl (ap (λ l. exit 0 ∷ close_db ∷ l) held))
  after_close-draining (err e) (ok _) p held same =
      rw (← same) (Stage.finished refl (ap (λ l. exit 1 ∷ close_db ∷ l) held))
  after_close-draining db (err e) p held same = Stage.aborted refl (ap (λ l. exit 1 ∷ l) held)

  draining-step :
      (p : Process) (e : Event)
      → p.exited ≡ none
      → p.shutting_down ≡ true
      → p.closing ≡ true
      → p.armed ≡ true
      → ending p.actions ≡ close_http ∷ stop_worker ∷ []
      → Stage db_close (live_step db_close p e)
  unfolding live_step shutdown exit_with ending
  draining-step p signal alive s c a held =
      if-elim (Stage db_close) p.shutting_down _ _ (λ t. Stage.draining alive s c a held)
        (λ f. clash p.shutting_down s f)
  draining-step p (listen_settled r) alive s c a held =
      if-elim (Stage db_close) p.listen_pending _ _
        (λ t. after_listen-draining r p alive s c a held) (λ f. Stage.draining alive s c a held)
  draining-step p (http_settled r) alive s c a held =
      if-elim (Stage db_close) p.closing _ _ (λ t. after_close-draining db_close r p held refl)
        (λ f. clash p.closing c f)
  draining-step p hard_kill alive s c a held =
      if-elim (Stage db_close) p.armed _ _ (λ t. Stage.aborted refl (ap (λ l. exit 1 ∷ l) held))
        (λ f. clash p.armed a f)

  pub step-Stage : (p : Process) (e : Event) → Stage db_close p → Stage db_close (step db_close p e)
  step-Stage p e (Stage.serving alive s c a quiet) =
      rw (step-live db_close p e alive) (serving-step p e alive s c a quiet)
  step-Stage p e (Stage.draining alive s c a held) =
      rw (step-live db_close p e alive) (draining-step p e alive s c a held)
  step-Stage p e (Stage.failed gone acts) =
      rw (step-exited db_close p e 1 gone) (Stage.failed gone acts)
  step-Stage p e (Stage.aborted gone acts) =
      rw (step-exited db_close p e 1 gone) (Stage.aborted gone acts)
  step-Stage p e (Stage.finished gone acts) =
      rw (step-exited db_close p e (code_of db_close) gone) (Stage.finished gone acts)

  pub run-Stage :
      (p : Process) (es : List Event) → Stage db_close p → Stage db_close (run db_close p es)
  unfolding run
  run-Stage p [] h = h
  run-Stage p (e ∷ es) h = run-Stage (step db_close p e) es (step-Stage p e h)

-- Whatever signals, settlings and timeouts come after `main` has begun to listen, and in any order,
-- the process is at one of five stages, which fix what it has done but for the start of the worker:
-- it stops the worker and closes the server once at most, it closes the database once at most and
-- only behind these, it exits once at most, and with code 0 only behind a close that did not fail.
pub shutdown_stages :
    (db_close : Result (Unit {0})) (es : List Event) → Stage db_close (run db_close booted es)
unfolding ending
shutdown_stages db_close es = run-Stage db_close booted es (Stage.serving refl refl refl refl refl)
