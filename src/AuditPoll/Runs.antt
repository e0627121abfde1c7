-- ===== src/AuditPoll/Runs.antt =====
-- The worker among its events: the timer and manual calls, the resolver's answers, `start` and
-- `stop`, in any order.
use livepeer_gateway_console.Common.{
  ◌≡◌, refl, sym, ◌∙◌, true, false, Option, none, some, List, [], ◌∷◌, All, All-append, All-map,
  All-mono, arith, Bool-cases, inl, inr,
}
use livepeer_gateway_console.Common.Int.{ℤ, pos, ◌≤ℤ◌, ◌<ℤ◌}
use livepeer_gateway_console.Common.Text.{to_lower_case, to_lower_case_idem}
use livepeer_gateway_console.Common.Result.{Failure, Result, ok, err}
use livepeer_gateway_console.Repo.{Sqlite, RoutingObservationRow, RoutingObservationInsert}
use livepeer_gateway_console.Repo.Inserts.{content, IsKeyed, observation_id}
use livepeer_gateway_console.Resolver.{ResolverAuditEntry}
use livepeer_gateway_console.AuditPoll.{
  AuditPollWorkerOptions, Worker, Begin, returned, fetching, begin_tick, fetch_query, finish_tick,
  fail_tick, start, stop, floor_of, event_to_observation,
}
use livepeer_gateway_console.AuditPoll.Scan.{is_wanted, wanted_rows}
use livepeer_gateway_console.AuditPoll.Tick.{
  finish_tick_ok, finish_tick-idle, finish_tick-cases, finish_tick-IsKeyed,
}
use livepeer_gateway_console.AuditPoll.Watermark.{events_covered}

-- The worker, and the `since` of the call that the resolver has not answered yet.
pub record System : Type 0 where
  pub worker : Worker
  pub asked : Option (Option ℤ)

abbrev pub after_begin : Option (Option ℤ) → Worker × Begin → System
after_begin asked (w, returned outcome) = record { worker = w; asked = asked }
after_begin asked (w, fetching query) = record { worker = w; asked = some query.since }

pub data Step (db : Sqlite) (opts : AuditPollWorkerOptions) : System → System → Type 0 where
  tick : (s : System) → Step db opts s (after_begin s.asked (begin_tick opts s.worker))
  settle :
      (s : System) (since : Option ℤ) (fault : Option Failure)
      (res : Result (List ResolverAuditEntry))
      → s.asked ≡ some since
      → Step db opts s (record { worker = (finish_tick db fault s.worker res).0; asked = none })
  started : (s : System) → Step db opts s (record s { worker = start opts s.worker })
  stopped : (s : System) → Step db opts s (record s { worker = stop s.worker })

pub data Reach (db : Sqlite) (opts : AuditPollWorkerOptions) (s : System) : System → Type 0 where
  here : Reach db opts s s
  next : {t u : System} → Reach db opts s t → Step db opts t u → Reach db opts s u

-- A stored row: dated, no later than the bound, under a lower-case address.
pub record IsStored (bound : ℤ) (r : RoutingObservationInsert) : Type 0 where
  pub dated : pos 0 <ℤ r.observed_at
  pub within : r.observed_at ≤ℤ bound
  pub lower : to_lower_case r.orch_address ≡ r.orch_address

abbrev pub AllStored : ℤ → List RoutingObservationRow → Type 0
AllStored bound rows = All (λ r. IsStored bound (content r)) rows

-- One call at most is under way, exactly while `inFlight` is set, and it asked for the watermark.
abbrev pub AskedRight : Option (Option ℤ) → Worker → Type 0
AskedRight none w = w.in_flight ≡ false
AskedRight (some since) w = (w.in_flight ≡ true) × (since ≡ w.watermark_ms)

pub record IsSound (s : System) : Type 0 where
  pub asked_right : AskedRight s.asked s.worker
  pub stored : AllStored (floor_of s.worker.watermark_ms) s.worker.table.rows
  pub keyed : IsKeyed observation_id s.worker.table

begin_tick-busy :
    (opts : AuditPollWorkerOptions) (w : Worker)
    → w.in_flight ≡ true
    → begin_tick opts w ≡ (w, returned (record { inserted = 0; watermark = w.watermark_ms }))
unfolding begin_tick
begin_tick-busy opts w h = ground arith

begin_tick-idle :
    (opts : AuditPollWorkerOptions) (w : Worker)
    → w.in_flight ≡ false
    → begin_tick opts w ≡ (record w { in_flight = true }, fetching (fetch_query opts w))
unfolding begin_tick
begin_tick-idle opts w h = ground arith

tick-IsSound :
    (opts : AuditPollWorkerOptions) (s : System)
    → IsSound s
    → IsSound (after_begin s.asked (begin_tick opts s.worker))
tick-IsSound opts s h = elim (Bool-cases s.worker.in_flight) [
  | inl busy ↦ rw (begin_tick-busy opts s.worker busy) h
  | inr idle ↦
      rw (begin_tick-idle opts s.worker idle)
        (record { asked_right = (refl, refl); stored = h.stored; keyed = h.keyed })
]

-- What an event makes a row of.
wanted_row :
    (bound : ℤ) (e : ResolverAuditEntry)
    → is_wanted e ≡ true
    → e.occurred_at ≤ℤ bound
    → IsStored bound (event_to_observation e)
unfolding event_to_observation
wanted_row bound e wanted le = record {
  dated = ground arith;
  within = le;
  lower = to_lower_case_idem _;
}

wanted_rows-IsStored :
    (bound : ℤ) (events : List ResolverAuditEntry)
    → All (λ e. is_wanted e ≡ true → e.occurred_at ≤ℤ bound) events
    → All (IsStored bound) (wanted_rows events)
wanted_rows-IsStored bound [] h = tt
wanted_rows-IsStored bound (e ∷ es) (p, h) = elim (Bool-cases (is_wanted e)) [
  | inl wanted ↦ rw wanted (wanted_row bound e wanted (p wanted), wanted_rows-IsStored bound es h)
  | inr skipped ↦ rw skipped (wanted_rows-IsStored bound es h)
]

IsStored-mono : (a b : ℤ) → a ≤ℤ b → (r : RoutingObservationInsert) → IsStored a r → IsStored b r
IsStored-mono a b le r h = record {
  dated = h.dated;
  within = omega (arith, h.within);
  lower = h.lower;
}

accepted_stored :
    (db : Sqlite) (w : Worker) (events : List ResolverAuditEntry)
    → AllStored (floor_of w.watermark_ms) w.table.rows
    → let w' = (finish_tick db none w (ok events)).0 in
      AllStored (floor_of w'.watermark_ms) w'.table.rows
accepted_stored db w events h =
    let (rises, covers) = events_covered db w events in
    let (new, stored, same, _, _) = finish_tick_ok db w events in
    let after = floor_of (finish_tick db none w (ok events)).0.watermark_ms in
    rw stored (
      All-append (λ r. IsStored after (content r)) w.table.rows new
        (All-mono (λ r. IsStored (floor_of w.watermark_ms) (content r))
          (λ r. IsStored after (content r))
          (λ r. IsStored-mono (floor_of w.watermark_ms) after rises (content r)) w.table.rows h)
        (All-map (IsStored after) content new (rw same (wanted_rows-IsStored after events covers))))

finish_tick-IsSound :
    (db : Sqlite) (fault : Option Failure) (w : Worker) (res : Result (List ResolverAuditEntry))
    → AllStored (floor_of w.watermark_ms) w.table.rows
    → let w' = (finish_tick db fault w res).0 in AllStored (floor_of w'.watermark_ms) w'.table.rows
finish_tick-IsSound db fault w (err e) h = unfold finish_tick fail_tick in h
finish_tick-IsSound db fault w (ok events) h = elim (finish_tick-cases db fault w events) [
  | inl accepted ↦ rw accepted (accepted_stored db w events h)
  | inr (e, failed) ↦ rw failed (unfold fail_tick in h)
]

AskedRight-same :
    (asked : Option (Option ℤ)) (v w : Worker)
    → v.watermark_ms ≡ w.watermark_ms
    → v.in_flight ≡ w.in_flight
    → AskedRight asked w
    → AskedRight asked v
AskedRight-same none v w p q h = q ∙ h
AskedRight-same (some since) v w p q h = (q ∙ h.0, h.1 ∙ sym p)

-- `start` and `stop` touch the timer and the log alone.
IsSound-same :
    (s : System) (v : Worker)
    → v.watermark_ms ≡ s.worker.watermark_ms
    → v.in_flight ≡ s.worker.in_flight
    → v.table ≡ s.worker.table
    → IsSound s
    → IsSound (record { worker = v; asked = s.asked })
IsSound-same s v p q t h = record {
  asked_right = AskedRight-same s.asked v s.worker p q h.asked_right;
  stored = rw (p, t) h.stored;
  keyed = rw t h.keyed;
}

Step-IsSound :
    {db : Sqlite} {opts : AuditPollWorkerOptions} {s t : System}
    → Step db opts s t
    → IsSound s
    → IsSound t
unfolding start stop
Step-IsSound {opts} (tick s) h = tick-IsSound opts s h
Step-IsSound {db} (settle s since fault res asked) h = record {
  asked_right = finish_tick-idle db fault s.worker res;
  stored = finish_tick-IsSound db fault s.worker res h.stored;
  keyed = finish_tick-IsKeyed db fault s.worker res h.keyed;
}
Step-IsSound {opts} (started s) h =
    IsSound-same s (start opts s.worker) (ground arith) (ground arith) (ground arith) h
Step-IsSound (stopped s) h =
    IsSound-same s (stop s.worker) (ground arith) (ground arith) (ground arith) h

-- Whatever ticks, answers, failures, starts and stops follow a sound state, the state is sound: at
-- most one call is under way and it asked from the watermark; every stored row is dated, lies at or
-- below the watermark and has a lower-case address; the keys of the rows ascend.
pub Reach-IsSound :
    (db : Sqlite) (opts : AuditPollWorkerOptions) (s : System) {t : System}
    → IsSound s
    → Reach db opts s t
    → IsSound t
Reach-IsSound db opts s h here = h
Reach-IsSound db opts s h (next r st) = Step-IsSound st (Reach-IsSound db opts s h r)
