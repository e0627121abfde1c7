-- ===== src/Routing/Handlers.antt =====
-- src/runtime/http/handlers: handleListOrchs.ts with its query filters, and handleGetOrch.ts.
use livepeer_gateway_console.Common.{
  Bool, true, ◌&&◌, Option, none, some, List, [], ◌∷◌, keep, if◌then◌else◌,
}
use livepeer_gateway_console.Common.Text.{Text}
use livepeer_gateway_console.Common.Address.{is_eth_address}
use livepeer_gateway_console.Common.Result.{Failure, Result, ok, err, ◌>>=◌}
use livepeer_gateway_console.Dedupe.{includes}
use livepeer_gateway_console.Routing.{
  RoutingServiceDeps, OrchRosterRow, OrchView, list_orchs, get_orch,
}

-- `filterOrchs`: an empty query text filters nothing.
unfoldable pub passes : Option Text → List Text → Bool
passes none values = true
passes (some []) values = true
passes (some (c ∷ s)) values = includes values (c ∷ s)

unfoldable pub filter_orchs : Option Text → Option Text → List OrchRosterRow → List OrchRosterRow
filter_orchs capability offering rows =
    keep (λ (r : OrchRosterRow). passes capability r.capabilities && passes offering r.offerings)
      rows

-- `handleListOrchs`, for a query that zod accepts.
unfoldable pub handle_list_orchs :
    RoutingServiceDeps → Option Text → Option Text → Result (List OrchRosterRow)
handle_list_orchs deps capability offering = do
  rows ← list_orchs deps
  ok (filter_orchs capability offering rows)

-- How `handleGetOrch` ends.
pub data GetOrchReply : Type 0 where
  invalid_input : GetOrchReply
  orch_not_found : Text → GetOrchReply
  view : OrchView → GetOrchReply
  failed : Failure → GetOrchReply

unfoldable pub reply_view : Text → OrchView → GetOrchReply
reply_view address v = elim v.orch [
  | some row ↦ view v
  | none ↦ elim v.recent_observations [ [] ↦ orch_not_found address | r ∷ rs ↦ view v ]
]

unfoldable pub reply_orch : Text → Result OrchView → GetOrchReply
reply_orch address (ok v) = reply_view address v
reply_orch address (err e) = failed e

-- `handleGetOrch`
unfoldable pub handle_get_orch : RoutingServiceDeps → Text → GetOrchReply
handle_get_orch deps address =
    if is_eth_address address then reply_orch address (get_orch deps address) else invalid_input
