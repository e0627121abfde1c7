-- ===== src/Admin/AuditScreen/Pages.antt =====
-- The pages of the audit screen over a log that grows while the operator reads.
use livepeer_gateway_console.Common.{
  ℕ, zero, suc, ◌+◌, ◌*◌, ◌-◌, ◌≤◌, ◌≡◌, ◌⊎◌, inl, inr, refl, sym, ap, ◌∙◌, Option, none, some,
  List, [], ◌∷◌, ◌++◌, map, take, length, All, arith,
}
use livepeer_gateway_console.Common.Result.{Failure, ok}
use livepeer_gateway_console.Repo.{Sqlite, Table, AuditEventRow, append}
use livepeer_gateway_console.Repo.Inserts.{IsKeyed, event_id}
use livepeer_gateway_console.Repo.Falling.{newest_first, newest_first-concat}
use livepeer_gateway_console.Repo.Paging.{next_page}
use livepeer_gateway_console.Audit.{
  AppendAuditEventInput, append_event, input_to_row, row_to_domain, list_events,
}
use livepeer_gateway_console.Audit.RoundTrip.{
  log_of, list_events_lem, map-take, append_event-IsKeyed,
}
use livepeer_gateway_console.Admin.AuditScreen.{
  AuditScreen, Api, new_screen, last_id, show_first, load_first_page, show_more, load_before,
  load_older, press_older,
}
use mathlib.Core.List.{append-nil, append_assoc}

-- The server over a table: the route lists its events.
abbrev pub api_of : Sqlite → Table AuditEventRow → Api
api_of db t options = ok (list_events db options t)

-- The table has the rows of the older one and later rows; its keys ascend.
pub record Extends (old t : Table AuditEventRow) : Type 0 where
  pub added : List AuditEventRow
  pub rows : newest_first t.rows ≡ added ++ newest_first old.rows
  pub keyed : IsKeyed event_id t

module _ {A : Type 0} where
  drop : ℕ → List A → List A
  drop zero xs = xs
  drop (suc n) [] = []
  drop (suc n) (x ∷ xs) = drop n xs

  take-drop : (n : ℕ) (xs : List A) → take n xs ++ drop n xs ≡ xs
  unfolding drop
  take-drop zero xs = refl
  take-drop (suc n) [] = refl
  take-drop (suc n) (x ∷ xs) = ap (λ t. x ∷ t) (take-drop n xs)

  length-drop : (n : ℕ) (xs : List A) → length (drop n xs) ≡ length xs - n
  unfolding drop
  length-drop zero xs = omega arith
  length-drop (suc n) [] = omega arith
  length-drop (suc n) (x ∷ xs) = omega (arith, length-drop n xs)

  -- A list is empty or has a last element.
  split_end : (xs : List A) → (xs ≡ []) ⊎ ((front : List A) × (x : A) × (xs ≡ front ++ x ∷ []))
  split_end [] = inl refl
  split_end (x ∷ xs) = elim (split_end xs) [
    | inl empty ↦ inr ([], x, ap (λ t. x ∷ t) empty)
    | inr (front, y, e) ↦ inr (x ∷ front, y, ap (λ t. x ∷ t) e)
  ]

last_id-map :
    (front : List AuditEventRow) (r : AuditEventRow)
    → last_id (map row_to_domain (front ++ r ∷ [])) ≡ some r.id
unfolding last_id row_to_domain
last_id-map [] r = refl
last_id-map (a ∷ []) r = refl
last_id-map (a ∷ b ∷ front) r = last_id-map (b ∷ front) r

map-append : {A B : Type 0} (f : A → B) (xs ys : List A) → map f (xs ++ ys) ≡ map f xs ++ map f ys
map-append f [] ys = refl
map-append f (x ∷ xs) ys = ap (λ t. f x ∷ t) (map-append f xs ys)

-- The screen shows some rows of the log, newest first, and the cursor is at the last of them, or it
-- shows all of them.
record Shows (old : Table AuditEventRow) (s : AuditScreen) : Type 0 where
  shown : List AuditEventRow
  hidden : List AuditEventRow
  whole : newest_first old.rows ≡ shown ++ hidden
  events : s.events ≡ map row_to_domain shown
  place :
      ((newer : List AuditEventRow) × (last : AuditEventRow) × (shown ≡ newer ++ last ∷ [])
        × (s.cursor ≡ some last.id))
      ⊎ ((hidden ≡ []) × (s.cursor ≡ none))

take-empty : {A : Type 0} (n : ℕ) (xs : List A) → take (suc n) xs ≡ [] → xs ≡ []
take-empty n [] h = refl
take-empty n (x ∷ xs) h = absurd (cc)

empty_of_length : {A : Type 0} (xs : List A) → length xs ≤ 0 → xs ≡ []
empty_of_length [] h = refl
empty_of_length (x ∷ xs) h = absurd (omega arith)

minus_zero : (n : ℕ) → n - 50 * 0 ≡ n
minus_zero n = omega arith

minus_step : (n m : ℕ) → n - 50 * suc m ≡ n - 50 - 50 * m
minus_step n m = omega arith

module _ (db : Sqlite) (old : Table AuditEventRow) where
  -- The rows before the last one shown, whatever rows have come since.
  page-hidden :
      (t : Table AuditEventRow) (newer : List AuditEventRow) (last : AuditEventRow)
      (hidden : List AuditEventRow)
      → Extends old t
      → newest_first old.rows ≡ (newer ++ last ∷ []) ++ hidden
      → list_events db (record { limit = some 50; before = some last.id }) t
        ≡ map row_to_domain (take 50 hidden)
  unfolding list_events
  page-hidden t newer last hidden x whole =
      let split : newest_first t.rows ≡ (x.added ++ newer) ++ last ∷ hidden =
        x.rows
        ∙ ap (λ r. x.added ++ r) (whole ∙ append_assoc newer (last ∷ []) hidden)
        ∙ sym (append_assoc x.added newer (last ∷ hidden)) in
      ap (map row_to_domain) (next_page db (some 50) t (x.added ++ newer) last hidden x.keyed split)

  -- A page behind what is shown.
  show_page :
      (s : AuditScreen) (shown hidden : List AuditEventRow)
      → newest_first old.rows ≡ shown ++ hidden
      → s.events ≡ map row_to_domain shown
      → Shows old (show_more s (ok (map row_to_domain (take 50 hidden))))
  unfolding show_more
  show_page s shown hidden whole events = record {
    shown = shown ++ take 50 hidden;
    hidden = drop 50 hidden;
    whole =
        whole
        ∙ ap (λ r. shown ++ r) (sym (take-drop 50 hidden))
        ∙ sym (append_assoc shown (take 50 hidden) (drop 50 hidden));
    events =
        ap (λ r. r ++ map row_to_domain (take 50 hidden)) events
        ∙ sym (map-append row_to_domain shown (take 50 hidden));
    place = elim (split_end (take 50 hidden)) [
      | inl empty ↦ inr (
        ap (drop 50) (take-empty 49 hidden empty) ∙ unfold drop in refl,
        ap (λ r. last_id (map row_to_domain r)) empty ∙ unfold last_id in refl,
      )
      | inr (front, r, e) ↦ inl (
        shown ++ front,
        r,
        ap (λ p. shown ++ p) e ∙ sym (append_assoc shown front (r ∷ [])),
        ap (λ p. last_id (map row_to_domain p)) e ∙ last_id-map front r,
      )
    ];
  }

  IsNearer : ℕ → AuditScreen → Type 0
  IsNearer n s = (h : Shows old s) × (length h.hidden ≤ n)

  show_page-IsNearer :
      (s : AuditScreen) (shown hidden : List AuditEventRow) (n : ℕ)
      → newest_first old.rows ≡ shown ++ hidden
      → s.events ≡ map row_to_domain shown
      → length hidden ≤ n
      → IsNearer (n - 50) (show_more s (ok (map row_to_domain (take 50 hidden))))
  unfolding IsNearer show_page
  show_page-IsNearer s shown hidden n whole events bound =
      (show_page s shown hidden whole events, omega (arith, length-drop 50 hidden))

  load_older_lem :
      (api : Api) (s : AuditScreen) (o : Option ℕ)
      → s.cursor ≡ o
      → load_older api s ≡ load_before api s o
  unfolding load_older
  load_older_lem api s o e = ap (load_before api s) e

  load_older-IsNearer :
      (s : AuditScreen) (n : ℕ) (t : Table AuditEventRow)
      → Extends old t
      → IsNearer n s
      → IsNearer (n - 50) (load_older (api_of db t) s)
  unfolding IsNearer load_before
  load_older-IsNearer s n t x (h, bound) = elim h.place [
    | inl (newer, last, e, c) ↦
        let page = page-hidden t newer last h.hidden x (h.whole ∙ ap (λ r. r ++ h.hidden) e) in
        rw (load_older_lem (api_of db t) s (some last.id) c, page)
          (show_page-IsNearer s h.shown h.hidden n h.whole h.events bound)
    | inr (done, c) ↦ rw (load_older_lem (api_of db t) s none c) (h, rw done (omega arith))
  ]

  press_older-IsNearer :
      (s : AuditScreen) (n : ℕ) (ts : List (Table AuditEventRow))
      → All (Extends old) ts
      → IsNearer n s
      → IsNearer (n - 50 * length ts) (press_older (map (api_of db) ts) s)
  unfolding press_older
  press_older-IsNearer s n [] x h = rw (minus_zero n) h
  press_older-IsNearer s n (t ∷ ts) (x, xs) h = rw (minus_step n (length ts)) (
      press_older-IsNearer (load_older (api_of db t) s) (n - 50) ts xs
        (load_older-IsNearer s n t x h))

  first-IsNearer :
      IsKeyed event_id old
      → IsNearer (length (newest_first old.rows) - 50) (load_first_page (api_of db old) new_screen)
  unfolding load_first_page show_first
  first-IsNearer keyed =
      let rows = newest_first old.rows in
      let page : list_events db (record { limit = some 50; before = none }) old
          ≡ map row_to_domain (take 50 rows) =
        list_events_lem db (some 50) old keyed ∙ sym (map-take row_to_domain 50 rows) in
      rw page (
        unfold show_more in
        show_page-IsNearer new_screen [] rows (length rows) refl refl (omega arith))

  -- The first page and the pages behind it, however the log grows meanwhile: as soon as the button
  -- has been pressed once for every 50 events of the log that the first page was taken from, the
  -- screen lists exactly that log, newest first, without a gap or a repetition.
  pub every_page :
      (ts : List (Table AuditEventRow))
      → IsKeyed event_id old
      → All (Extends old) ts
      → length (newest_first old.rows) ≤ 50 + 50 * length ts
      → (press_older (map (api_of db) ts) (load_first_page (api_of db old) new_screen)).events
        ≡ log_of old
  unfolding IsNearer
  every_page ts keyed x enough =
      let (h, bound) =
        press_older-IsNearer (load_first_page (api_of db old) new_screen)
          (length (newest_first old.rows) - 50) ts x (first-IsNearer keyed) in
      let none_left : h.hidden ≡ [] = empty_of_length h.hidden (omega (arith, bound)) in
      h.events
      ∙ ap (map row_to_domain)
          (sym (append-nil h.shown) ∙ ap (λ r. h.shown ++ r) (sym none_left) ∙ sym h.whole)

-- An append, accepted or not, extends the log.
pub append-Extends :
    (db : Sqlite) (now : ℕ) (fault : Option Failure) (input : AppendAuditEventInput)
    (t : Table AuditEventRow)
    → IsKeyed event_id t
    → Extends t (append_event db now fault input t).1
unfolding append_event append input_to_row
append-Extends db now none input t k = record {
  added = _ ∷ [];
  rows = newest_first-concat t.rows _;
  keyed = append_event-IsKeyed db now none input t k;
}
append-Extends db now (some e) input t k = record { added = []; rows = refl; keyed = k }
