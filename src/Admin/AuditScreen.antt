-- ===== src/Admin/AuditScreen.antt =====
-- src/admin-ui/admin/components/admin-audit.js: the pages of the audit log, each of which asks for
-- the events before the last one shown.
pub mod Pages
use livepeer_gateway_console.Common.{ℕ, Bool, true, false, Option, none, some, List, [], ◌∷◌, ◌++◌}
use livepeer_gateway_console.Common.Text.{Text}
use livepeer_gateway_console.Common.Result.{message_of, Result, ok, err}
use livepeer_gateway_console.Repo.{ListRecentOptions}
use livepeer_gateway_console.Audit.{AuditEvent}

pub record AuditScreen : Type 0 where
  pub events : List AuditEvent
  pub cursor : Option ℕ
  pub loading : Bool
  pub error : Text

-- `new AdminAudit()`
abbrev pub new_screen : AuditScreen
new_screen = record { events = []; cursor = none; loading = false; error = [] }

-- How `listAuditLog` settles.
abbrev pub Api : Type 0
Api = ListRecentOptions → Result (List AuditEvent)

abbrev pub page_size : ℕ
page_size = 50

-- `events.at(-1)?.id ?? null`
pub last_id : List AuditEvent → Option ℕ
last_id [] = none
last_id (e ∷ []) = some e.id
last_id (e ∷ f ∷ events) = last_id (f ∷ events)

show_first : AuditScreen → Result (List AuditEvent) → AuditScreen
unfolding last_id
show_first s (ok events) = record {
  events = events;
  cursor = last_id events;
  loading = false;
  error = [];
}
show_first s (err e) = record s { loading = false; error = message_of e }

-- `_loadFirstPage`
pub load_first_page : Api → AuditScreen → AuditScreen
unfolding show_first
load_first_page api s = show_first s (api (record { limit = some page_size; before = none }))

show_more : AuditScreen → Result (List AuditEvent) → AuditScreen
show_more s (ok more) = record {
  events = s.events ++ more;
  cursor = last_id more;
  loading = false;
  error = [];
}
show_more s (err e) = record s { loading = false; error = message_of e }

load_before : Api → AuditScreen → Option ℕ → AuditScreen
unfolding show_more
load_before api s none = s
load_before api s (some cursor) =
    show_more s (api (record { limit = some page_size; before = some cursor }))

-- `_loadOlder`
pub load_older : Api → AuditScreen → AuditScreen
unfolding load_before
load_older api s = load_before api s s.cursor

-- The button pressed once for each way in which the server answers.
pub press_older : List Api → AuditScreen → AuditScreen
press_older [] s = s
press_older (api ∷ apis) s = press_older apis (load_older api s)
