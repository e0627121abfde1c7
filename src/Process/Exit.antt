-- ===== src/Process/Exit.antt =====
-- The end of the process once a signal has come.
use livepeer_gateway_console.Common.{
  ℕ, ◌≡◌, ◌⊎◌, inl, inr, refl, ap, ◌∙◌, true, none, some, List, [], ◌∷◌, ◌++◌, if-elim,
}
use livepeer_gateway_console.Common.Result.{Result, ok, err}
use livepeer_gateway_console.Process.{
  Process, Event, signal, listen_settled, http_settled, hard_kill, exit_with, shutdown,
  close_database, after_close, after_listen, live_step, step, run, booted,
}
use livepeer_gateway_console.Process.Shutdown.{
  Stage, code_of, clash, step-exited, step-live, step-Stage, run-Stage, shutdown_stages,
}

pub HasExited : Process → Type 0
HasExited p = (code : ℕ) × (p.exited ≡ some code)

module _ (db_close : Result (Unit {0})) where
  run-append :
      (p : Process) (es fs : List Event)
      → run db_close p (es ++ fs) ≡ run db_close (run db_close p es) fs
  unfolding run
  run-append p [] fs = refl
  run-append p (e ∷ es) fs = run-append (step db_close p e) es fs

  after_listen-down :
      (r : Result (Unit {0})) (p : Process)
      → p.shutting_down ≡ true
      → (after_listen r p).shutting_down ≡ true
  unfolding after_listen exit_with
  after_listen-down (ok _) p down = down
  after_listen-down (err e) p down = down

  after_close-down :
      (db r : Result (Unit {0})) (p : Process)
      → p.shutting_down ≡ true
      → (after_close db r p).shutting_down ≡ true
  unfolding after_close close_database exit_with
  after_close-down (ok _) (ok _) p down = down
  after_close-down (err e) (ok _) p down = down
  after_close-down db (err e) p down = down

  live_step-down :
      (p : Process) (e : Event)
      → p.shutting_down ≡ true
      → (live_step db_close p e).shutting_down ≡ true
  unfolding live_step shutdown exit_with
  live_step-down p signal down =
      if-elim (λ (q : Process). q.shutting_down ≡ true) p.shutting_down _ _ (λ t. down) (λ f. refl)
  live_step-down p (listen_settled r) down =
      if-elim (λ (q : Process). q.shutting_down ≡ true) p.listen_pending _ _
        (λ t. after_listen-down r p down) (λ f. down)
  live_step-down p (http_settled r) down =
      if-elim (λ (q : Process). q.shutting_down ≡ true) p.closing _ _
        (λ t. after_close-down db_close r p down) (λ f. down)
  live_step-down p hard_kill down =
      if-elim (λ (q : Process). q.shutting_down ≡ true) p.armed _ _ (λ t. down) (λ f. down)

  -- The process has exited or a shutdown has begun.
  IsEnding : Process → Type 0
  IsEnding p = HasExited p ⊎ (p.shutting_down ≡ true)

  step-IsEnding : (p : Process) (e : Event) → IsEnding p → IsEnding (step db_close p e)
  unfolding IsEnding HasExited
  step-IsEnding p e (inl (code, gone)) =
      inl (code, ap (λ (q : Process). q.exited) (step-exited db_close p e code gone) ∙ gone)
  step-IsEnding p e (inr down) =
      elim p.exited as (λ o. p.exited ≡ o → IsEnding (step db_close p e)) [
        | none ↦ λ alive. inr (rw (step-live db_close p e alive) (live_step-down p e down))
        | some code ↦ λ gone.
            inl (code, ap (λ (q : Process). q.exited) (step-exited db_close p e code gone) ∙ gone)
      ]
        refl

  run-IsEnding : (p : Process) (es : List Event) → IsEnding p → IsEnding (run db_close p es)
  unfolding run
  run-IsEnding p [] h = h
  run-IsEnding p (e ∷ es) h = run-IsEnding (step db_close p e) es (step-IsEnding p e h)

  shutdown-down : (p : Process) → (live_step db_close p signal).shutting_down ≡ true
  unfolding live_step shutdown
  shutdown-down p =
      if-elim (λ (q : Process). q.shutting_down ≡ true) p.shutting_down _ _ (λ t. t) (λ f. refl)

  signal-IsEnding : (p : Process) → IsEnding (step db_close p signal)
  unfolding IsEnding HasExited
  signal-IsEnding p =
      elim p.exited as (λ o. p.exited ≡ o → IsEnding (step db_close p signal)) [
        | none ↦ λ alive. inr (rw (step-live db_close p signal alive) (shutdown-down p))
        | some code ↦ λ gone.
            inl (
              code,
              ap (λ (q : Process). q.exited) (step-exited db_close p signal code gone) ∙ gone,
            )
      ]
        refl

  after_close-exits : (db r : Result (Unit {0})) (p : Process) → HasExited (after_close db r p)
  unfolding after_close close_database exit_with HasExited
  after_close-exits (ok _) (ok _) p = (0, refl)
  after_close-exits (err e) (ok _) p = (1, refl)
  after_close-exits db (err e) p = (1, refl)

  -- An event that ends a shutdown.
  unfoldable pub IsLast : Event → Type 0
  IsLast hard_kill = Unit
  IsLast (http_settled r) = Unit
  IsLast _ = ⊥

  drained :
      (p : Process) (e : Event)
      → p.closing ≡ true
      → p.armed ≡ true
      → IsLast e
      → HasExited (live_step db_close p e)
  unfolding live_step exit_with HasExited IsLast
  drained p signal c a l = elim l [ ]
  drained p (listen_settled r) c a l = elim l [ ]
  drained p (http_settled r) c a l =
      if-elim HasExited p.closing _ _ (λ t. after_close-exits db_close r p)
        (λ f. absurd (clash p.closing c f))
  drained p hard_kill c a l =
      if-elim HasExited p.armed _ _ (λ t. (1, refl)) (λ f. absurd (clash p.armed a f))

  stays_exited :
      (p : Process) (e : Event) (code : ℕ) → p.exited ≡ some code → HasExited (step db_close p e)
  unfolding HasExited
  stays_exited p e code gone =
      (code, ap (λ (q : Process). q.exited) (step-exited db_close p e code gone) ∙ gone)

  last-exits :
      (p : Process) (e : Event)
      → Stage db_close p
      → IsEnding p
      → IsLast e
      → HasExited (step db_close p e)
  unfolding IsEnding HasExited
  last-exits p e (Stage.serving alive s c a quiet) (inl (code, gone)) l = absurd (cc)
  last-exits p e (Stage.serving alive s c a quiet) (inr down) l =
      absurd (clash p.shutting_down down s)
  last-exits p e (Stage.draining alive s c a held) h l =
      rw (step-live db_close p e alive) (drained p e c a l)
  last-exits p e (Stage.failed gone acts) h l = stays_exited p e 1 gone
  last-exits p e (Stage.aborted gone acts) h l = stays_exited p e 1 gone
  last-exits p e (Stage.finished gone acts) h l = stays_exited p e (code_of db_close) gone

-- After a signal, at whatever time it comes and whatever other events come before and after it, the
-- process has exited as soon as the server's close has settled, in either way, or the timer has run
-- out.
pub signal_exits :
    (db_close : Result (Unit {0})) (before after : List Event) (last : Event)
    → IsLast db_close last
    → HasExited (run db_close booted (before ++ signal ∷ (after ++ last ∷ [])))
unfolding run
signal_exits db_close before after last l =
    let p = run db_close booted before in
    let q = run db_close (step db_close p signal) after in
    rw (run-append db_close booted before (signal ∷ (after ++ last ∷ []))) (
      rw (run-append db_close (step db_close p signal) after (last ∷ [])) (
        last-exits db_close q last
          (run-Stage db_close (step db_close p signal) after
            (step-Stage db_close p signal (shutdown_stages db_close before)))
          (run-IsEnding db_close (step db_close p signal) after (signal-IsEnding db_close p)) l))
