-- ===== src/Admin/App.antt =====
-- src/admin-ui/shared/lib/route.js and src/admin-ui/admin/components/admin-app.js: the path in the
-- fragment of the URL, and the screen that the application shows for it. The fragment holds
-- characters that the browser does not escape.
pub mod Navigation
use livepeer_gateway_console.Common.{
  ℕ, Bool, true, false, not, ◌||◌, Option, none, some, List, [], ◌∷◌, ◌++◌, ◌==◌, if◌then◌else◌,
}
use livepeer_gateway_console.Common.Text.{Text, codes, text_eq, starts_with}

-- `current()`, for the text of `window.location.hash`.
unfoldable pub current : Text → Text
current [] = codes "/"
current (c ∷ []) = if c == b'#' then codes "/" else c ∷ []
current (c ∷ d ∷ s) = if c == b'#' then d ∷ s else c ∷ d ∷ s

-- `navigate(path)`: what `window.location.hash` is then.
unfoldable pub navigate : Text → Text
navigate path = b'#' ∷ (if starts_with (codes "/") path then path else b'/' ∷ path)

-- `.split(/[?#]/)[0]`
unfoldable pub before_query : Text → Text
before_query [] = []
before_query (c ∷ s) =
    let rest = c ∷ before_query s in if (c == b'?') || (c == b'#') then [] else rest

pub data Screen : Type 0 where
  login routing capabilities sender audit : Screen
  orch_detail : (address : Text) → Screen
  unknown_route : (path : Text) → Screen

-- `"/orchs/".length` characters are cut off.
after_orchs : Text → Text
after_orchs (a ∷ b ∷ c ∷ d ∷ e ∷ f ∷ g ∷ s) = s
after_orchs _ = []

-- `_renderRoute`, of a path that is not empty.
unfoldable pub render_route : Text → Screen
unfolding after_orchs before_query
render_route path =
    if text_eq path (codes "/") || starts_with (codes "/routing") path
    then routing
    else if starts_with (codes "/orchs/") path
    then orch_detail (before_query (after_orchs path))
    else if starts_with (codes "/capabilities") path
    then capabilities
    else if starts_with (codes "/sender") path
    then sender
    else if starts_with (codes "/audit") path
    then audit
    else unknown_route path

-- The links of the header.
pub data Link : Type 0 where
  routing_link capabilities_link sender_link audit_link : Link

-- Whether a link is marked as the active one.
unfoldable pub is_active : Link → Text → Bool
is_active routing_link path =
    text_eq path (codes "/")
    || (starts_with (codes "/routing") path || starts_with (codes "/orchs") path)
is_active capabilities_link path = starts_with (codes "/capabilities") path
is_active sender_link path = starts_with (codes "/sender") path
is_active audit_link path = starts_with (codes "/audit") path

-- `AdminApp`, with the hash of the window.
pub record App : Type 0 where
  pub authed : Bool
  pub path : Text
  pub hash : Text

-- `new AdminApp()`, in a tab that has a token or none.
unfoldable pub new_app : (has_token : Bool) (hash : Text) → App
new_app has_token hash = record { authed = has_token; path = current hash; hash = hash }

pub data Event : Type 0 where
  authenticated unauthorized signed_out hash_changed : Event
  followed : (href : Text) → Event

-- A path that shows the application at its root.
is_root : Text → Bool
is_root [] = true
is_root (c ∷ s) = text_eq (c ∷ s) (codes "/")

-- A change of the hash is heard later, as `hash_changed`.
unfoldable pub step : App → Event → App
unfolding is_root
step a authenticated =
    if is_root a.path
    then record a { authed = true; hash = navigate (codes "/routing") }
    else record a { authed = true }
step a unauthorized = record a { authed = false }
step a signed_out = record a { authed = false }
step a hash_changed = record a { path = current a.hash }
step a (followed href) = record a { hash = href }

unfoldable pub run : App → List Event → App
run a [] = a
run a (e ∷ es) = run (step a e) es

-- `render`
unfoldable pub shown_screen : App → Screen
shown_screen a = if a.authed then render_route a.path else login
