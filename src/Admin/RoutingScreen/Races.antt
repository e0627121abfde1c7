-- ===== src/Admin/RoutingScreen/Races.antt =====
-- The routing screen when operations overlap.
use livepeer_gateway_console.Common.{
  ◌≡◌, ◌≢◌, inl, inr, refl, sym, ap, ◌∙◌, Bool, true, false, none, some, List, [], ◌∷◌, Bool-cases,
  if-elim,
}
use livepeer_gateway_console.Common.Text.{Text, text_eq, text_eq_iff}
use livepeer_gateway_console.Common.Result.{message_of, Result, ok, err}
use livepeer_gateway_console.Routing.{OrchRosterRow, OrchView}
use livepeer_gateway_console.Admin.RoutingScreen.{
  view, RefreshAll, RoutingScreen, new_screen, is_selected, begin_reload, end_reload, begin_select,
  end_select, begin_refresh_all, drop_first, end_refresh_all, after_refresh, after_reload,
  after_refresh_one, after_one_detail, Event, reload_called, reload_settled, clicked,
  detail_settled, refresh_all_clicked, refresh_settled, refresh_reload_settled, refresh_one_settled,
  one_detail_settled, step, run,
}

-- The button is disabled exactly while a refresh of all is under way, and there is one at most.
pub data Guarded (s : RoutingScreen) : Type 0 where
  idle : s.is_refreshing ≡ false → s.refreshes ≡ [] → Guarded s
  busy : {r : RefreshAll} → s.is_refreshing ≡ true → s.refreshes ≡ r ∷ [] → Guarded s

Guarded-same :
    (s s' : RoutingScreen)
    → s'.is_refreshing ≡ s.is_refreshing
    → s'.refreshes ≡ s.refreshes
    → Guarded s
    → Guarded s'
Guarded-same s s' e f (Guarded.idle p q) = Guarded.idle (e ∙ p) (f ∙ q)
Guarded-same s s' e f (Guarded.busy p q) = Guarded.busy (e ∙ p) (f ∙ q)

started :
    (s : RoutingScreen)
    → s.is_refreshing ≡ false
    → Guarded s
    → Guarded (record s { is_refreshing = true; refreshes = RefreshAll.refreshing ∷ s.refreshes })
started s f (Guarded.idle p q) = Guarded.busy refl (ap (λ rs. RefreshAll.refreshing ∷ rs) q)
started s f (Guarded.busy p q) = absurd (cc)

begin_refresh_all-Guarded :
    (confirmed : Bool) (s : RoutingScreen) → Guarded s → Guarded (begin_refresh_all confirmed s)
unfolding begin_refresh_all
begin_refresh_all-Guarded confirmed s g =
    if-elim Guarded s.is_refreshing _ _ (λ t. g)
      (λ f. if-elim Guarded confirmed _ _ (λ t. started s f g) (λ f'. g))

end_refresh_all-Guarded :
    (s : RoutingScreen) (r : RefreshAll) → s.refreshes ≡ r ∷ [] → Guarded (end_refresh_all s)
unfolding end_refresh_all drop_first
end_refresh_all-Guarded s r one = Guarded.idle refl (ap drop_first one)

tail_of : {r r' : RefreshAll} {rs : List RefreshAll} → r ∷ rs ≡ r' ∷ [] → rs ≡ []
tail_of {rs = []} e = refl
tail_of {rs = q ∷ rs} e = absurd (cc)

after_refresh-Guarded :
    (r : Result (Unit {0})) (s : RoutingScreen) (rs : List RefreshAll)
    → s.refreshes ≡ rs
    → Guarded s
    → Guarded (after_refresh r s rs)
unfolding after_refresh
after_refresh-Guarded r s [] e g = g
after_refresh-Guarded r s (RefreshAll.reloading ∷ rs) e g = g
after_refresh-Guarded (ok _) s (RefreshAll.refreshing ∷ rs) e (Guarded.idle p q) = absurd (cc)
after_refresh-Guarded (ok _) s (RefreshAll.refreshing ∷ rs) e (Guarded.busy p q) =
    let rest : rs ≡ [] = tail_of (sym e ∙ q) in
    unfold begin_reload in Guarded.busy p (ap (λ l. RefreshAll.reloading ∷ l) rest)
after_refresh-Guarded (err f) s (RefreshAll.refreshing ∷ rs) e (Guarded.idle p q) = absurd (cc)
after_refresh-Guarded (err f) s (RefreshAll.refreshing ∷ rs) e (Guarded.busy p q) =
    end_refresh_all-Guarded (record s { error = message_of f }) _ q

end_reload-Guarded :
    (r : Result (List OrchRosterRow)) (s : RoutingScreen) → Guarded s → Guarded (end_reload r s)
unfolding end_reload
end_reload-Guarded (ok orchs) s g = Guarded-same s _ refl refl g
end_reload-Guarded (err e) s g = Guarded-same s _ refl refl g

end_reload-refreshes :
    (r : Result (List OrchRosterRow)) (s : RoutingScreen) → (end_reload r s).refreshes ≡ s.refreshes
unfolding end_reload
end_reload-refreshes (ok orchs) s = refl
end_reload-refreshes (err e) s = refl

after_reload-Guarded :
    (r : Result (List OrchRosterRow)) (s : RoutingScreen) (rs : List RefreshAll)
    → s.refreshes ≡ rs
    → Guarded s
    → Guarded (after_reload r s rs)
unfolding after_reload
after_reload-Guarded r s [] e g = g
after_reload-Guarded r s (RefreshAll.refreshing ∷ rs) e g = g
after_reload-Guarded r s (RefreshAll.reloading ∷ rs) e (Guarded.idle p q) = absurd (cc)
after_reload-Guarded r s (RefreshAll.reloading ∷ rs) e (Guarded.busy p q) =
    end_refresh_all-Guarded (end_reload r s) _ (end_reload-refreshes r s ∙ q)

after_refresh_one-Guarded :
    (address : Text) (r : Result (Unit {0})) (s : RoutingScreen)
    → Guarded s
    → Guarded (after_refresh_one address r s)
unfolding after_refresh_one begin_reload
after_refresh_one-Guarded address (ok _) s g =
    if-elim Guarded (is_selected address s.selected) _ _ (λ t. g)
      (λ f. Guarded-same s _ refl refl g)
after_refresh_one-Guarded address (err e) s g = Guarded-same s _ refl refl g

step-Guarded : (s : RoutingScreen) (e : Event) → Guarded s → Guarded (step s e)
unfolding step begin_reload begin_select
step-Guarded s reload_called g = Guarded-same s _ refl refl g
step-Guarded s (reload_settled r) g = end_reload-Guarded r s g
step-Guarded s (clicked address) g =
    if-elim Guarded (is_selected address s.selected) _ _ (λ t. Guarded-same s _ refl refl g)
      (λ f. Guarded-same s _ refl refl g)
step-Guarded s (detail_settled (ok v)) g = unfold end_select in Guarded-same s _ refl refl g
step-Guarded s (detail_settled (err e)) g = unfold end_select in Guarded-same s _ refl refl g
step-Guarded s (refresh_all_clicked confirmed) g = begin_refresh_all-Guarded confirmed s g
step-Guarded s (refresh_settled r) g = after_refresh-Guarded r s s.refreshes refl g
step-Guarded s (refresh_reload_settled r) g = after_reload-Guarded r s s.refreshes refl g
step-Guarded s (refresh_one_settled address r) g = after_refresh_one-Guarded address r s g
step-Guarded s (one_detail_settled (ok v)) g =
    unfold after_one_detail in Guarded-same s _ refl refl g
step-Guarded s (one_detail_settled (err e)) g =
    unfold after_one_detail in Guarded-same s _ refl refl g

run-Guarded_from : (s : RoutingScreen) (es : List Event) → Guarded s → Guarded (run s es)
unfolding run
run-Guarded_from s [] g = g
run-Guarded_from s (e ∷ es) g = run-Guarded_from (step s e) es (step-Guarded s e g)

-- Whatever is clicked, confirmed and answered, and in any order, at most one refresh of all is under
-- way, and the screen says that it is refreshing exactly while one is.
pub run-Guarded : (es : List Event) → Guarded (run new_screen es)
run-Guarded es = run-Guarded_from new_screen es (Guarded.idle refl refl)

select_other :
    (address : Text) (s : RoutingScreen)
    → is_selected address s.selected ≡ false
    → (begin_select address s).selected ≡ some address
unfolding begin_select
select_other address s other =
    if-elim (λ (q : RoutingScreen). q.selected ≡ some address) (is_selected address s.selected) _ _
      (λ t. absurd (cc)) (λ f. refl)

-- While nothing is selected: when two orchestrators are clicked and the answer for the first one
-- comes last, the screen shows that detail under the second one's address.
late_detail_shown :
    (s : RoutingScreen) (a b : Text) (of_a of_b : OrchView)
    → s.selected ≡ none
    → a ≢ b
    → ((run s (
          clicked a
          ∷ clicked b
          ∷ detail_settled (ok of_b)
          ∷ detail_settled (ok of_a)
          ∷ [])).selected
        ≡ some b)
      × ((run s (
            clicked a
            ∷ clicked b
            ∷ detail_settled (ok of_b)
            ∷ detail_settled (ok of_a)
            ∷ [])).detail
          ≡ view of_a)
unfolding run step end_select
late_detail_shown s a b of_a of_b none_yet differ =
    let first : (begin_select a s).selected ≡ some a =
      select_other a s (unfold is_selected in ap (is_selected a) none_yet) in
    let apart : text_eq a b ≡ false = elim (Bool-cases (text_eq a b)) [
      | inl same ↦ absurd (differ ((text_eq_iff a b).0 same))
      | inr other ↦ other
    ] in
    let second : is_selected b (begin_select a s).selected ≡ false =
      unfold is_selected in ap (is_selected b) first ∙ apart in
    (select_other b (begin_select a s) second, refl)
