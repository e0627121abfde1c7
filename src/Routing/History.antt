-- ===== src/Routing/History.antt =====
-- `getOrch` and its handler over the observations that the audit poll stores.
use mathlib.Core.List.{Perm}
use mathlib.Core.List.Perm
use mathlib.Core.Path.{subst}
use livepeer_gateway_console.Common.{
  ℕ, zero, suc, ◌≡◌, ◌≢◌, refl, sym, ap, ◌∙◌, Option, none, some, List, [], ◌∷◌, keep, map, take,
  Bool-cases, inl, inr,
}
use livepeer_gateway_console.Common.Text.{Text, text_eq, text_eq→eq, to_lower_case}
use livepeer_gateway_console.Common.Result.{ok, bind_ok, ok-injective}
use livepeer_gateway_console.Repo.{
  Sqlite, RoutingObservationRow, observation_key, list_recent_for_orch, limit_or,
}
use livepeer_gateway_console.AuditPoll.{AuditPollWorkerOptions, floor_of}
use livepeer_gateway_console.AuditPoll.Runs.{System, Reach, IsSound, AllStored, Reach-IsSound}
use livepeer_gateway_console.Routing.{
  RoutingServiceDeps, OrchRosterRow, OrchView, RoutingObservation, row_to_observation,
  roster_row_from_resolved, get_orch, get_pool_stake_map, get_service_uri, orch_view,
}
use livepeer_gateway_console.Resolver.{ResolvedOrch, resolve_by_address}
use livepeer_gateway_console.Common.Int.{ℤ}

none_under :
    (bound : ℤ) (address : Text) (rows : List RoutingObservationRow)
    → to_lower_case address ≢ address
    → AllStored bound rows
    → keep (λ (r : RoutingObservationRow). text_eq r.orch_address address) rows ≡ []
none_under bound address [] mixed h = refl
none_under bound address (r ∷ rs) mixed (p, h) =
    elim (Bool-cases (text_eq r.orch_address address)) [
      | inl same ↦
          let e = text_eq→eq r.orch_address address same in absurd (mixed (rw e at p.lower))
      | inr other ↦ rw other (none_under bound address rs mixed h)
    ]

take-nil : {A : Type 0} (n : ℕ) {xs : List A} → xs ≡ [] → take n xs ≡ []
take-nil zero h = refl
take-nil (suc n) h = rw h refl

none_recent :
    (db : Sqlite) (opts : AuditPollWorkerOptions) (s t : System) (address : Text) (limit : Option ℕ)
    → IsSound s
    → Reach db opts s t
    → to_lower_case address ≢ address
    → list_recent_for_orch db address limit t.worker.table ≡ []
unfolding list_recent_for_orch
none_recent db opts s t address limit h r mixed =
    let rows =
      keep (λ (o : RoutingObservationRow). text_eq o.orch_address address) t.worker.table.rows in
    let sorted = db.routing_order.desc observation_key rows in
    let nothing : rows ≡ [] =
      none_under (floor_of t.worker.watermark_ms) address t.worker.table.rows mixed
        (Reach-IsSound db opts s h r).stored in
    take-nil (limit_or 200 limit) (
      Perm.eq-nil
        (subst (λ x. Perm sorted x) nothing (db.routing_order.desc-Perm observation_key rows)))

-- The time of the row of a view.
abbrev pub last_seen : Option OrchRosterRow → Option ℤ
last_seen none = none
last_seen (some row) = row.last_observed_at

view_of_nothing :
    (stakes : List (Text × Text)) (uri : Option Text) (resolved : Option ResolvedOrch)
    → ((orch_view [] stakes uri resolved).recent_observations ≡ [])
      × (last_seen (orch_view [] stakes uri resolved).orch ≡ none)
unfolding orch_view roster_row_from_resolved
view_of_nothing stakes uri none = (refl, refl)
view_of_nothing stakes uri (some r) = (refl, refl)

empty_view :
    (recent : List RoutingObservation) (stakes : List (Text × Text)) (uri : Option Text)
    (resolved : Option ResolvedOrch) (v : OrchView)
    → recent ≡ []
    → ok (orch_view recent stakes uri resolved) ≡ ok v
    → (v.recent_observations ≡ []) × (last_seen v.orch ≡ none)
empty_view recent stakes uri resolved v p h =
    let same : orch_view [] stakes uri resolved ≡ v =
      sym (ap (λ o. orch_view o stakes uri resolved) p) ∙ ok-injective _ v h in
    subst (λ (o : OrchView). (o.recent_observations ≡ []) × (last_seen o.orch ≡ none)) same
      (view_of_nothing stakes uri resolved)

-- Over a table that only the audit poll writes, an address with a capital letter, such as a
-- checksummed one, has no history: whatever events were stored for the orchestrator, a view that
-- `getOrch` returns for that spelling has no observation and no time of the last one.
pub mixed_case_history :
    (deps : RoutingServiceDeps) (opts : AuditPollWorkerOptions) (s t : System) (address : Text)
    (v : OrchView)
    → IsSound s
    → Reach deps.db opts s t
    → deps.table ≡ t.worker.table
    → to_lower_case address ≢ address
    → get_orch deps address ≡ ok v
    → (v.recent_observations ≡ []) × (last_seen v.orch ≡ none)
unfolding get_orch
mixed_case_history deps opts s t address v sound r same mixed h =
    let (resolved, _, a) = bind_ok (resolve_by_address deps.grpc address none) _ h in
    let (stakes, _, b) = bind_ok (get_pool_stake_map deps) _ a in
    let (uri, _, c) = bind_ok (get_service_uri deps address) _ b in
    empty_view (map row_to_observation (list_recent_for_orch deps.db address none deps.table))
      stakes uri resolved v
      (rw (same, none_recent deps.db opts s t address none sound r mixed) refl) c
