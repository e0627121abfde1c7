-- ===== src/Admin/CapabilityScreen/Submits.antt =====
-- The queries that the form sends, and how many are under way.
use livepeer_gateway_console.Common.{
  ℕ, ◌≡◌, ◌≤◌, ◌↔◌, refl, sym, ap, ◌∙◌, Bool, true, false, Option, none, some, List, [], ◌∷◌, arith,
  All, All-left, All-middle, ◌++◌, Bool-cases, inl, inr, if-elim, ◌&&◌,
}
use livepeer_gateway_console.Common.Text.{Text, trim, trim_start, is_space, utf16_length}
use mathlib.Core.List.{reverse, reverse-cons}
use livepeer_gateway_console.Resolver.{SelectQuery, SelectResult}
use livepeer_gateway_console.Listing.{is_search_query, has_length, tier_fits}
use livepeer_gateway_console.Admin.Payload.{Payload}
use livepeer_gateway_console.Admin.Api.{Settled}
use livepeer_gateway_console.Admin.CapabilityScreen.{
  CapabilityScreen, new_screen, tier_of, submit_trimmed, begin_submit, end_submit, after_search,
  Event, typed, submitted, search_settled, step, run,
}

-- A tier of at most 60 units, or none.
abbrev pub IsShortTier : Option Text → Type 0
IsShortTier none = Unit
IsShortTier (some tier) = utf16_length tier ≤ 60

-- White space alone, or nothing.
abbrev pub IsBlank : Text → Type 0
IsBlank s = All (λ c. is_space c ≡ true) s

abbrev pub IsNoBlankTier : Option Text → Type 0
IsNoBlankTier none = Unit
IsNoBlankTier (some tier) = IsBlank tier → ⊥

-- No text of the query is blank, and the handler accepts it exactly where its texts are not too long.
pub record IsAsked (q : SelectQuery) : Type 0 where
  pub capability_given : IsBlank q.capability → ⊥
  pub offering_given : IsBlank q.offering → ⊥
  pub tier_given : IsNoBlankTier q.tier
  pub accepted :
      (is_search_query q ≡ true)
      ↔ ((utf16_length q.capability ≤ 120) × (utf16_length q.offering ≤ 240) × IsShortTier q.tier)

-- A text that is blank only where it is empty.
abbrev IsTrimmed : Text → Type 0
IsTrimmed s = IsBlank s → s ≡ []

All-reverse : (P : ℕ → Type 0) (s : Text) → All P (reverse s) → All P s
All-reverse P [] h = tt
All-reverse P (c ∷ s) h =
    let turned : All P (reverse s ++ c ∷ []) = rw (reverse-cons c s) at h in
    (All-middle P (reverse s) c [] turned, All-reverse P s (All-left P (reverse s) (c ∷ []) turned))

trim_start-IsTrimmed : (s : Text) → IsTrimmed (trim_start s)
unfolding trim_start
trim_start-IsTrimmed [] = λ h. refl
trim_start-IsTrimmed (c ∷ s) = elim (Bool-cases (is_space c)) [
  | inl space ↦ rw space (trim_start-IsTrimmed s)
  | inr other ↦ rw other (λ h. let clash : false ≡ true = sym other ∙ h.0 in absurd (cc))
]

trim-IsTrimmed : (s : Text) → IsTrimmed (trim s)
unfolding trim
trim-IsTrimmed s h =
    let kept = trim_start (reverse (trim_start s)) in
    ap reverse
      (trim_start-IsTrimmed (reverse (trim_start s)) (All-reverse (λ c. is_space c ≡ true) kept h))

has_length_iff :
    (bound c : ℕ) (s : Text) → (has_length bound (c ∷ s) ≡ true) ↔ (utf16_length (c ∷ s) ≤ bound)
unfolding has_length utf16_length
has_length_iff bound c s = (λ h. ground (arith, h), λ h. ground (arith, h))

tier_fits_iff : (tier : Text) → (tier_fits (tier_of tier) ≡ true) ↔ IsShortTier (tier_of tier)
unfolding tier_fits tier_of
tier_fits_iff [] = (λ h. tt, λ h. refl)
tier_fits_iff (c ∷ s) = has_length_iff 60 c s

and_iff : (a b : Bool) → (a && b ≡ true) ↔ ((a ≡ true) × (b ≡ true))
and_iff true b = (λ h. (refl, h), λ (p, q). q)
and_iff false b = (λ h. absurd (cc), λ (p, q). absurd (cc))

accepted_iff :
    (c o : ℕ) (cs os tier : Text)
    → let q : SelectQuery = record {
      capability = c ∷ cs;
      offering = o ∷ os;
      tier = tier_of tier;
    } in
      (is_search_query q ≡ true)
      ↔ ((utf16_length q.capability ≤ 120) × (utf16_length q.offering ≤ 240) × IsShortTier q.tier)
unfolding is_search_query
accepted_iff c o cs os tier =
    let capability = has_length_iff 120 c cs in
    let offering = has_length_iff 240 o os in
    let short = tier_fits_iff tier in
    let a = has_length 120 (c ∷ cs) in
    let b = has_length 240 (o ∷ os) in
    let t = tier_fits (tier_of tier) in
    (
      λ h.
          let (h', r) = (and_iff (a && b) t).0 h in
          let (p, q) = (and_iff a b).0 h' in (capability.0 p, offering.0 q, short.0 r),
      λ (p, q, r).
          (and_iff (a && b) t).1 ((and_iff a b).1 (capability.1 p, offering.1 q), short.1 r),
    )

tier_of-IsNoBlankTier : (tier : Text) → IsTrimmed tier → IsNoBlankTier (tier_of tier)
unfolding tier_of
tier_of-IsNoBlankTier [] h = tt
tier_of-IsNoBlankTier (c ∷ s) h = λ blank. let e = h blank in absurd (cc)

asked :
    (c o : ℕ) (cs os tier : Text)
    → IsTrimmed (c ∷ cs)
    → IsTrimmed (o ∷ os)
    → IsTrimmed tier
    → IsAsked (record { capability = c ∷ cs; offering = o ∷ os; tier = tier_of tier })
asked c o cs os tier p q r = record {
  capability_given = λ blank. let e = p blank in absurd (cc);
  offering_given = λ blank. let e = q blank in absurd (cc);
  tier_given = tier_of-IsNoBlankTier tier r;
  accepted = accepted_iff c o cs os tier;
}

-- The button is disabled exactly while a search is under way, there is one at most, and its
-- query is one to ask.
pub data Searching (s : CapabilityScreen) : Type 0 where
  idle : s.loading ≡ false → s.in_flight ≡ [] → Searching s
  busy : {q : SelectQuery} → s.loading ≡ true → s.in_flight ≡ q ∷ [] → IsAsked q → Searching s

Searching-same :
    (s s' : CapabilityScreen)
    → s'.loading ≡ s.loading
    → s'.in_flight ≡ s.in_flight
    → Searching s
    → Searching s'
Searching-same s s' e f (Searching.idle p q) = Searching.idle (e ∙ p) (f ∙ q)
Searching-same s s' e f (Searching.busy p q a) = Searching.busy (e ∙ p) (f ∙ q) a

submit_trimmed-Searching :
    (capability offering tier : Text) (s : CapabilityScreen)
    → IsTrimmed capability
    → IsTrimmed offering
    → IsTrimmed tier
    → s.loading ≡ false
    → Searching s
    → Searching (submit_trimmed capability offering tier s)
unfolding submit_trimmed
submit_trimmed-Searching [] offering tier s x y z f g = Searching-same s _ refl refl g
submit_trimmed-Searching (c ∷ cs) [] tier s x y z f g = Searching-same s _ refl refl g
submit_trimmed-Searching (c ∷ cs) (o ∷ os) tier s x y z f (Searching.idle p q) =
    let query : SelectQuery = record {
      capability = c ∷ cs;
      offering = o ∷ os;
      tier = tier_of tier;
    } in
    Searching.busy refl (ap (λ qs. query ∷ qs) q) (asked c o cs os tier x y z)
submit_trimmed-Searching (c ∷ cs) (o ∷ os) tier s x y z f (Searching.busy p q a) = absurd (cc)

begin_submit-Searching : (s : CapabilityScreen) → Searching s → Searching (begin_submit s)
unfolding begin_submit
begin_submit-Searching s g =
    if-elim Searching s.loading _ _ (λ t. g)
      (λ f.
        submit_trimmed-Searching (trim s.form.capability) (trim s.form.offering) (trim s.form.tier)
          s (trim-IsTrimmed s.form.capability) (trim-IsTrimmed s.form.offering)
          (trim-IsTrimmed s.form.tier) f g)

end_submit-Searching :
    (r : Settled (Payload SelectResult)) (s : CapabilityScreen)
    → s.in_flight ≡ []
    → Searching (end_submit r s)
unfolding end_submit
end_submit-Searching (Settled.value r) s none_left = Searching.idle refl none_left
end_submit-Searching (Settled.failed e) s none_left = Searching.idle refl none_left

tail_of : {q q' : SelectQuery} {qs : List SelectQuery} → q ∷ qs ≡ q' ∷ [] → qs ≡ []
tail_of {qs = []} e = refl
tail_of {qs = p ∷ qs} e = absurd (cc)

after_search-Searching :
    (r : Settled (Payload SelectResult)) (s : CapabilityScreen) (qs : List SelectQuery)
    → s.in_flight ≡ qs
    → Searching s
    → Searching (after_search r s qs)
unfolding after_search
after_search-Searching r s [] e g = g
after_search-Searching r s (q ∷ qs) e (Searching.idle p n) = absurd (cc)
after_search-Searching r s (q ∷ qs) e (Searching.busy p n a) =
    end_submit-Searching r _ (tail_of (sym e ∙ n))

step-Searching : (s : CapabilityScreen) (e : Event) → Searching s → Searching (step s e)
unfolding step
step-Searching s (typed form) g = Searching-same s _ refl refl g
step-Searching s submitted g = begin_submit-Searching s g
step-Searching s (search_settled r) g = after_search-Searching r s s.in_flight refl g

run_from : (s : CapabilityScreen) (es : List Event) → Searching s → Searching (run s es)
unfolding run
run_from s [] g = g
run_from s (e ∷ es) g = run_from (step s e) es (step-Searching s e g)

-- Whatever is typed, submitted and answered, at most one search is under way, and the form says that
-- it is loading exactly while one is. No text of the query of that search is blank, white space counts
-- as blank, and the handler refuses the query exactly where the capability is longer than 120 units,
-- the offering longer than 240 or the tier longer than 60.
pub run-Searching : (es : List Event) → Searching (run new_screen es)
run-Searching es = run_from new_screen es (Searching.idle refl refl)
