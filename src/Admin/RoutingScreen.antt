-- ===== src/Admin/RoutingScreen.antt =====
-- src/admin-ui/admin/components/admin-routing.js: the state of the routing screen. An operation is
-- cut at its awaits: what it does up to the next one is a step, and other steps may come between.
pub mod Races
use livepeer_gateway_console.Common.{
  ℕ, Bool, true, false, Option, none, some, List, [], ◌∷◌, if◌then◌else◌,
}
use livepeer_gateway_console.Common.Text.{Text, text_eq}
use livepeer_gateway_console.Common.Result.{Failure, message_of, Result, ok, err}
use livepeer_gateway_console.Routing.{OrchRosterRow, OrchView}

-- `_detail`: nothing yet, the view of an orchestrator, or an error.
pub data Detail : Type 0 where
  no_detail : Detail
  view : OrchView → Detail
  failed : Text → Detail

-- How far a `_refreshAll` has come.
pub data RefreshAll : Type 0 where
  refreshing reloading : RefreshAll

-- The properties of the element, and the refreshes of all that are under way. The filter only goes
-- into the requests.
pub record RoutingScreen : Type 0 where
  pub orchs : List OrchRosterRow
  pub selected : Option Text
  pub detail : Detail
  pub loading : Bool
  pub error : Text
  pub is_refreshing : Bool
  pub refreshes : List RefreshAll

-- `new AdminRouting()`
abbrev pub new_screen : RoutingScreen
new_screen = record {
  orchs = [];
  selected = none;
  detail = no_detail;
  loading = true;
  error = [];
  is_refreshing = false;
  refreshes = [];
}

is_selected : Text → Option Text → Bool
is_selected address none = false
is_selected address (some a) = text_eq a address

-- `_reload`, up to its await.
begin_reload : RoutingScreen → RoutingScreen
begin_reload s = record s { loading = true; error = [] }

-- `_reload`, from its await on.
end_reload : Result (List OrchRosterRow) → RoutingScreen → RoutingScreen
end_reload (ok orchs) s = record s { orchs = orchs; loading = false }
end_reload (err e) s = record s { error = message_of e; loading = false }

-- `_select(address)`, up to its await; a second click closes the detail.
begin_select : Text → RoutingScreen → RoutingScreen
unfolding is_selected
begin_select address s =
    if is_selected address s.selected
    then record s { selected = none; detail = no_detail }
    else record s { selected = some address; detail = no_detail }

-- `_select(address)`, from its await on.
end_select : Result OrchView → RoutingScreen → RoutingScreen
end_select (ok v) s = record s { detail = view v }
end_select (err e) s = record s { detail = failed (message_of e) }

-- `_refreshAll`, up to its first await, with the operator's answer to `confirm`.
begin_refresh_all : Bool → RoutingScreen → RoutingScreen
begin_refresh_all confirmed s =
    if s.is_refreshing
    then s
    else if confirmed
    then record s { is_refreshing = true; refreshes = refreshing ∷ s.refreshes }
    else s

-- The first of the refreshes of all ends.
drop_first : List RefreshAll → List RefreshAll
drop_first [] = []
drop_first (r ∷ rs) = rs

end_refresh_all : RoutingScreen → RoutingScreen
unfolding drop_first
end_refresh_all s = record s { is_refreshing = false; refreshes = drop_first s.refreshes }

after_refresh : Result (Unit {0}) → RoutingScreen → List RefreshAll → RoutingScreen
unfolding begin_reload end_refresh_all
after_refresh r s [] = s
after_refresh r s (reloading ∷ rs) = s
after_refresh (ok _) s (RefreshAll.refreshing ∷ rs) =
    begin_reload (record s { refreshes = reloading ∷ rs })
after_refresh (err e) s (RefreshAll.refreshing ∷ rs) =
    end_refresh_all (record s { error = message_of e })

after_reload : Result (List OrchRosterRow) → RoutingScreen → List RefreshAll → RoutingScreen
unfolding end_reload end_refresh_all
after_reload r s [] = s
after_reload r s (RefreshAll.refreshing ∷ rs) = s
after_reload r s (reloading ∷ rs) = end_refresh_all (end_reload r s)

-- `_refreshOne(address)`, from its first await on: the detail of a row that is still selected is
-- asked for before the reload.
after_refresh_one : Text → Result (Unit {0}) → RoutingScreen → RoutingScreen
unfolding is_selected begin_reload
after_refresh_one address (ok _) s = if is_selected address s.selected then s else begin_reload s
after_refresh_one address (err e) s = record s { error = message_of e }

-- `_refreshOne(address)`, from the await of the detail on.
after_one_detail : Result OrchView → RoutingScreen → RoutingScreen
unfolding begin_reload
after_one_detail (ok v) s = begin_reload (record s { detail = view v })
after_one_detail (err e) s = record s { error = message_of e }

-- What may happen to the screen. Responses come in any order, and to a screen that has gone on.
pub data Event : Type 0 where
  reload_called : Event
  reload_settled : Result (List OrchRosterRow) → Event
  clicked : Text → Event
  detail_settled : Result OrchView → Event
  refresh_all_clicked : (confirmed : Bool) → Event
  refresh_settled : Result (Unit {0}) → Event
  refresh_reload_settled : Result (List OrchRosterRow) → Event
  refresh_one_settled : (address : Text) → Result (Unit {0}) → Event
  one_detail_settled : Result OrchView → Event

pub step : RoutingScreen → Event → RoutingScreen
unfolding begin_reload end_reload begin_select end_select begin_refresh_all after_refresh
    after_reload after_refresh_one after_one_detail
step s reload_called = begin_reload s
step s (reload_settled r) = end_reload r s
step s (clicked address) = begin_select address s
step s (detail_settled r) = end_select r s
step s (refresh_all_clicked confirmed) = begin_refresh_all confirmed s
step s (refresh_settled r) = after_refresh r s s.refreshes
step s (refresh_reload_settled r) = after_reload r s s.refreshes
step s (refresh_one_settled address r) = after_refresh_one address r s
step s (one_detail_settled r) = after_one_detail r s

pub run : RoutingScreen → List Event → RoutingScreen
run s [] = s
run s (e ∷ es) = run (step s e) es
