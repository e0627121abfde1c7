-- ===== src/AuditPoll/Scan.antt =====
-- The loop over a batch of events against its description: which events make rows, and how far the
-- watermark goes.
use mathlib.Core.List.{append-nil, append_assoc}
use livepeer_gateway_console.Common.{
  Bool, true, false, not, ◌&&◌, Option, List, [], ◌∷◌, ◌++◌, ◌≡◌, refl, map, keep, arith,
  Bool-cases, inl, inr, if◌then◌else◌,
}
use livepeer_gateway_console.Common.Int.{ℤ, pos, ltb_ℤ, leb_ℤ}
use livepeer_gateway_console.Repo.{RoutingObservationInsert}
use livepeer_gateway_console.Resolver.{ResolverAuditEntry}
use livepeer_gateway_console.AuditPoll.{
  is_blank, scan_event, scan_events, scan, event_to_observation, floor_of,
}

-- An event that names an orchestrator and has a date.
abbrev pub is_wanted : ResolverAuditEntry → Bool
is_wanted e = not (is_blank e.orch_address) && not (leb_ℤ e.occurred_at (pos 0))

abbrev pub max_ℤ : ℤ → ℤ → ℤ
max_ℤ a b = if ltb_ℤ a b then b else a

-- The latest time among the events, at least the floor.
abbrev pub latest : ℤ → List ResolverAuditEntry → ℤ
latest floor [] = floor
latest floor (e ∷ es) = latest (if is_wanted e then max_ℤ floor e.occurred_at else floor) es

abbrev pub wanted_rows : List ResolverAuditEntry → List RoutingObservationInsert
wanted_rows es = map event_to_observation (keep is_wanted es)

module _ (rows : List RoutingObservationInsert) (max_at : ℤ) (e : ResolverAuditEntry) where
  scan_event_wanted :
      is_wanted e ≡ true
      → scan_event (record { rows = rows; max_at = max_at }) e
        ≡ record { rows = rows ++ event_to_observation e ∷ []; max_at = max_ℤ max_at e.occurred_at }
  unfolding scan_event
  scan_event_wanted h = ground arith

  scan_event_skipped :
      is_wanted e ≡ false
      → scan_event (record { rows = rows; max_at = max_at }) e
        ≡ record { rows = rows; max_at = max_at }
  unfolding scan_event
  scan_event_skipped h = ground arith

scan_events_lem :
    (rows : List RoutingObservationInsert) (max_at : ℤ) (es : List ResolverAuditEntry)
    → scan_events (record { rows = rows; max_at = max_at }) es
      ≡ record { rows = rows ++ wanted_rows es; max_at = latest max_at es }
unfolding scan_events
scan_events_lem rows max_at [] = rw append-nil refl
scan_events_lem rows max_at (e ∷ es) = elim (Bool-cases (is_wanted e)) [
  | inl wanted ↦
      rw (scan_event_wanted rows max_at e wanted, wanted)
        (rw (append_assoc rows) at
          (scan_events_lem (rows ++ event_to_observation e ∷ []) (max_ℤ max_at e.occurred_at) es))
  | inr skipped ↦
      rw (scan_event_skipped rows max_at e skipped, skipped) (scan_events_lem rows max_at es)
]

pub scan_lem :
    (w : Option ℤ) (es : List ResolverAuditEntry)
    → scan w es ≡ record { rows = wanted_rows es; max_at = latest (floor_of w) es }
unfolding scan
scan_lem w es = scan_events_lem [] (floor_of w) es
