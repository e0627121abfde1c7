-- ===== src/Refresh/Audited.antt =====
-- `runRefresh`: the calls of the daemon and the events in the audit log.
use livepeer_gateway_console.Common.{
  ◌≡◌, ◌≢◌, refl, ap, ◌∙◌, Bool, true, false, Option, none, some, [], ◌∷◌, ◌++◌, Bool-cases, inl,
  inr, ◌⊎◌,
}
use livepeer_gateway_console.Common.Text.{Text, text_eq, text_eq→eq}
use livepeer_gateway_console.Common.Address.{is_eth_address}
use livepeer_gateway_console.Common.Result.{Failure, message_of, Result, ok, err}
use livepeer_gateway_console.Audit.{AuditEvent, append_event}
use livepeer_gateway_console.Audit.RoundTrip.{
  log_of, event_of, log-append_event, append_event_result, append_event_refused,
}
use livepeer_gateway_console.Resolver.Messages.{RefreshRequest}
use livepeer_gateway_console.Refresh.{
  Surroundings, World, Outcome, replied, invalid_input, threw, wildcard, service_refresh,
  call_target, refresh_event, rethrow, caught, after_send, after_append, after_refresh, run_refresh,
  handle_resolver_refresh_one,
}

-- The request for a target: for the wildcard and for an address alike it names the target.
pub request_for : Text → RefreshRequest
request_for target = record { eth_address = target; force = true }

service_refresh-call_target :
    (target : Text) → service_refresh (call_target target) ≡ request_for target
unfolding service_refresh call_target request_for
service_refresh-call_target target = elim (Bool-cases (text_eq target wildcard)) [
  | inl same ↦ rw (text_eq→eq target wildcard same) refl
  | inr other ↦ rw other refl
]

-- The event that a refresh leaves, and how the request ends, by the daemon's answer.
abbrev pub event_for : Surroundings → Text → Text → World → Result (Unit {0}) → AuditEvent
event_for env actor target w (ok _) =
    event_of (env.db.next_id w.table.seq) env.now (refresh_event actor target true none)
event_for env actor target w (err e) =
    event_of (env.db.next_id w.table.seq) env.now
      (refresh_event actor target false (some (message_of e)))

abbrev pub outcome_for : Text → Result (Unit {0}) → Outcome
outcome_for target (ok _) = replied target
outcome_for target (err e) = threw e

not_wildcard : is_eth_address wildcard ≡ true → ⊥
unfolding is_eth_address
not_wildcard h = cc

module _ (env : Surroundings) (actor target : Text) where
  -- The log after one more event.
  abbrev logged : World → Bool → Option Text → World
  logged w success message = record w {
    table =
        (append_event env.db env.now none (refresh_event actor target success message) w.table).1;
  }

  caught_lem :
      (w : World) (e : Failure)
      → env.second_append ≡ none
      → caught env actor target w e ≡ (threw e, logged w false (some (message_of e)))
  unfolding caught rethrow
  caught_lem w e q =
      let event = refresh_event actor target false (some (message_of e)) in
      ap (λ o. rethrow w e (append_event env.db env.now o event w.table)) q
      ∙ ap (rethrow w e) (append_event_result env.db env.now event w.table)

  appended_lem :
      (w : World)
      → env.first_append ≡ none
      → after_refresh env actor target w (ok tt)
        ≡ after_send env actor target (logged w true none) env.send
  unfolding after_refresh after_append
  appended_lem w p =
      let event = refresh_event actor target true none in
      ap (λ o. after_append env actor target w (append_event env.db env.now o event w.table)) p
      ∙ ap (after_append env actor target w) (append_event_result env.db env.now event w.table)

  refused_lem :
      (w : World) (e : Failure)
      → env.first_append ≡ some e
      → env.second_append ≡ none
      → after_refresh env actor target w (ok tt) ≡ (threw e, logged w false (some (message_of e)))
  unfolding after_refresh after_append
  refused_lem w e p q =
      let event = refresh_event actor target true none in
      ap (λ o. after_append env actor target w (append_event env.db env.now o event w.table)) p
      ∙ ap (after_append env actor target w) (append_event_refused env.db env.now e event w.table)
      ∙ caught_lem w e q

  after_refresh_lem :
      (w : World) (answer : Result (Unit {0}))
      → env.first_append ≡ none
      → env.second_append ≡ none
      → env.send ≡ none
      → ((after_refresh env actor target w answer).0 ≡ outcome_for target answer)
        × (log_of (after_refresh env actor target w answer).1.table
            ≡ event_for env actor target w answer ∷ log_of w.table)
        × ((after_refresh env actor target w answer).1.refreshes ≡ w.refreshes)
  after_refresh_lem w (ok tt) p q s =
      let ends : after_refresh env actor target w (ok tt) ≡ (replied target, logged w true none) =
        appended_lem w p
        ∙ unfold after_send in ap (after_send env actor target (logged w true none)) s in
      rw ends
        (refl, log-append_event env.db env.now (refresh_event actor target true none) w.table, refl)
  after_refresh_lem w (err e) p q s =
      let event = refresh_event actor target false (some (message_of e)) in
      let ends : after_refresh env actor target w (err e)
          ≡ (threw e, logged w false (some (message_of e))) =
        unfold after_refresh in caught_lem w e q in
      rw ends (refl, log-append_event env.db env.now event w.table, refl)

-- While the database and the reply do not fail, a refresh calls the daemon once, for its target and
-- with force, and puts one event in front of the audit log: the actor, the target, and whether the
-- daemon accepted, with the failure's message if it did not. The request ends with the reply if the
-- daemon accepted, and with the daemon's failure if it did not.
pub refresh_audited :
    (env : Surroundings) (actor target : Text) (w : World)
    → env.first_append ≡ none
    → env.second_append ≡ none
    → env.send ≡ none
    → ((run_refresh env actor target w).0 ≡ outcome_for target (env.daemon (request_for target)))
      × (log_of (run_refresh env actor target w).1.table
          ≡ event_for env actor target w (env.daemon (request_for target)) ∷ log_of w.table)
      × ((run_refresh env actor target w).1.refreshes ≡ w.refreshes ++ request_for target ∷ [])
unfolding run_refresh
refresh_audited env actor target w p q s = rw (service_refresh-call_target target) (
    after_refresh_lem env actor target
      (record w { refreshes = w.refreshes ++ request_for target ∷ [] })
      (env.daemon (request_for target)) p q s)

-- A refresh that the daemon accepted, and whose own event the database refused once, is logged as
-- failed: the one new event has the flag false and the message of the database.
pub accepted_refresh_logged_failed :
    (env : Surroundings) (actor target : Text) (w : World) (e : Failure)
    → env.daemon (request_for target) ≡ ok tt
    → env.first_append ≡ some e
    → env.second_append ≡ none
    → log_of (run_refresh env actor target w).1.table
      ≡ event_for env actor target w (err e) ∷ log_of w.table
unfolding run_refresh
accepted_refresh_logged_failed env actor target w e accepted p q =
    let called = record w { refreshes = w.refreshes ++ request_for target ∷ [] } in
    rw (service_refresh-call_target target, accepted, refused_lem env actor target called e p q)
      (log-append_event env.db env.now (refresh_event actor target false (some (message_of e)))
        w.table)

-- The route for one orchestrator refreshes that orchestrator alone: it calls the daemon for the
-- address that it was given, which is no wildcard, or does nothing.
pub refresh_one_target :
    (env : Surroundings) (actor address : Text) (w : World)
    → (handle_resolver_refresh_one env actor address w ≡ (invalid_input, w))
      ⊎ ((handle_resolver_refresh_one env actor address w ≡ run_refresh env actor address w)
          × (address ≢ wildcard))
unfolding handle_resolver_refresh_one
refresh_one_target env actor address w = elim (Bool-cases (is_eth_address address)) [
  | inl valid ↦ inr (rw valid refl, λ same. not_wildcard (rw same at valid))
  | inr invalid ↦ inl (rw invalid refl)
]
