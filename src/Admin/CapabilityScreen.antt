-- ===== src/Admin/CapabilityScreen.antt =====
-- src/admin-ui/admin/components/admin-capabilities.js: the form of the capability search. `_submit`
-- is cut at its await.
pub mod Submits
use livepeer_gateway_console.Common.{
  Bool, true, false, Option, none, some, List, [], ◌∷◌, if◌then◌else◌,
}
use livepeer_gateway_console.Common.Text.{Text, codes, trim}
use livepeer_gateway_console.Resolver.{SelectQuery, SelectResult}
use livepeer_gateway_console.Admin.Payload.{Payload}
use livepeer_gateway_console.Admin.Api.{Settled, value, failed}

pub record Form : Type 0 where
  pub capability : Text
  pub offering : Text
  pub tier : Text

-- The properties of the element, and the queries that are not answered yet.
pub record CapabilityScreen : Type 0 where
  pub form : Form
  pub result : Option (Payload SelectResult)
  pub loading : Bool
  pub error : Text
  pub in_flight : List SelectQuery

-- `new AdminCapabilities()`
abbrev pub new_screen : CapabilityScreen
new_screen = record {
  form = record { capability = []; offering = []; tier = [] };
  result = none;
  loading = false;
  error = [];
  in_flight = [];
}

-- A tier that is blank is left out.
unfoldable pub tier_of : Text → Option Text
tier_of [] = none
tier_of (c ∷ s) = some (c ∷ s)

-- `_submit` behind its first guard, with the texts of the form trimmed, up to its await.
unfoldable pub submit_trimmed : Text → Text → Text → CapabilityScreen → CapabilityScreen
unfolding tier_of
submit_trimmed [] offering tier s = record s { error = codes "capability is required" }
submit_trimmed (c ∷ cs) [] tier s = record s { error = codes "offering is required" }
submit_trimmed (c ∷ cs) (o ∷ os) tier s = record s {
  loading = true;
  error = [];
  result = none;
  in_flight = record { capability = c ∷ cs; offering = o ∷ os; tier = tier_of tier } ∷ s.in_flight;
}

-- `_submit`, up to its await.
unfoldable pub begin_submit : CapabilityScreen → CapabilityScreen
unfolding submit_trimmed
begin_submit s =
    if s.loading
    then s
    else submit_trimmed (trim s.form.capability) (trim s.form.offering) (trim s.form.tier) s

-- `_submit`, from its await on.
unfoldable pub end_submit : Settled (Payload SelectResult) → CapabilityScreen → CapabilityScreen
end_submit (value r) s = record s { result = r; loading = false }
end_submit (failed e) s = record s { error = e.message; loading = false }

-- The first query in flight is answered.
unfoldable pub after_search :
    Settled (Payload SelectResult) → CapabilityScreen → List SelectQuery → CapabilityScreen
unfolding end_submit
after_search r s [] = s
after_search r s (q ∷ qs) = end_submit r (record s { in_flight = qs })

-- What may happen to the screen.
pub data Event : Type 0 where
  typed : Form → Event
  submitted : Event
  search_settled : Settled (Payload SelectResult) → Event

unfoldable pub step : CapabilityScreen → Event → CapabilityScreen
unfolding begin_submit after_search
step s (typed form) = record s { form = form }
step s submitted = begin_submit s
step s (search_settled r) = after_search r s s.in_flight

unfoldable pub run : CapabilityScreen → List Event → CapabilityScreen
run s [] = s
run s (e ∷ es) = run (step s e) es
