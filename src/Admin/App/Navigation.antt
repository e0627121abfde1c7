-- ===== src/Admin/App/Navigation.antt =====
-- What the application shows after its links are followed, and to whom.
use livepeer_gateway_console.Common.{◌≡◌, ◌≢◌, refl, ap, true, [], ◌∷◌, ◌++◌, All, arith}
use livepeer_gateway_console.Common.Text.{Text, codes, starts_with}
use livepeer_gateway_console.Admin.App.{
  current, before_query, orch_detail, after_orchs, render_route, App, followed, hash_changed, step,
  run, shown_screen,
}

-- A text without the characters that end an address in a path.
abbrev pub IsPlain : Text → Type 0
IsPlain s = All (λ c. (c ≢ b'?') × (c ≢ b'#')) s

before_query_plain : (s : Text) → IsPlain s → before_query s ≡ s
unfolding before_query
before_query_plain [] h = refl
before_query_plain (c ∷ s) (h, hs) = ground (arith, before_query_plain s hs)

-- In a tab that is signed in, whatever it shows: once the link of an orchestrator is followed and the
-- change of the hash is heard, the detail of that orchestrator is shown.
orch_link_shown :
    (a : App) (address : Text)
    → a.authed ≡ true
    → IsPlain address
    → shown_screen (run a (followed (b'#' ∷ codes "/orchs/" ++ address) ∷ hash_changed ∷ []))
      ≡ orch_detail address
unfolding shown_screen run step current render_route after_orchs starts_with
orch_link_shown a address authed plain =
    rw authed (ap orch_detail (before_query_plain address plain))
