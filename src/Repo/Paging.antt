-- ===== src/Repo/Paging.antt =====
-- The reads of auditEvents.ts and routingObservations.ts: pages of the audit log, and an
-- orchestrator's history.
use mathlib.Core.Logic.{∥∥₁_elim}
use mathlib.Core.HLevel.{×_prop, Unit-prop}
use mathlib.Core.Bool.{Bool-set}
use mathlib.Core.List.{Perm, Permᴰ}
use mathlib.Core.List.Perm
use livepeer_gateway_console.Common.{
  ℕ, zero, suc, ◌≤◌, ◌<◌, ◌≡◌, refl, sym, ap, ◌∙◌, Bool, true, Option, some, List, [], ◌∷◌, ◌++◌,
  All, All-take, All-middle, All-mono, keep, take, drop, ltb, ◌≢◌, none, length, length-take-le,
  arith, Bool-cases, inl, inr,
}
use livepeer_gateway_console.Common.Int.{ℤ, ◌≤ℤ◌}
use livepeer_gateway_console.Common.Text.{Text, text_eq, text_eq→eq}
use livepeer_gateway_console.Repo.{
  Sqlite, Table, IsDescending, AuditEventRow, event_key, ListRecentOptions, is_before, list_recent,
  RoutingObservationRow, observation_key, list_recent_for_orch, limit_or,
}
use livepeer_gateway_console.Repo.Inserts.{IsKeyed, event_id}
use livepeer_gateway_console.Repo.Falling.{
  newest_first, newest_first-Perm, newest_first-IsFalling, keep-newest_first, IsFalling,
  keep-IsFalling, falling_unique,
}

AuditEventRow-set : IsSet AuditEventRow
AuditEventRow-set = hlevel

-- Whatever way the database sorts, a read is the newest of the rows that pass the test.
pub list_recent_newest :
    (db : Sqlite) (options : ListRecentOptions) (t : Table AuditEventRow)
    → IsKeyed event_id t
    → list_recent db options t
      ≡ take (limit_or 50 options.limit) (newest_first (keep (is_before options.before) t.rows))
unfolding list_recent
list_recent_newest db options t k =
    let rows = keep (is_before options.before) t.rows in
    let falls : IsFalling event_id (newest_first rows) =
      rw (← keep-newest_first (is_before options.before) t.rows) (
        keep-IsFalling event_id (is_before options.before) (newest_first t.rows)
          (newest_first-IsFalling event_id 0 t.rows k.ascending)) in
    ap (take (limit_or 50 options.limit)) (
      falling_unique event_id AuditEventRow-set (db.audit_order.desc event_key rows)
        (newest_first rows)
        (Perm.trans (db.audit_order.desc-Perm event_key rows) (Perm.symm (newest_first-Perm rows)))
        (db.audit_order.desc-IsDescending event_key rows) falls)

-- Below a row of a falling list, the test on its key keeps what stands behind it.
keep_below :
    (n : ℕ) (rows : List AuditEventRow)
    → All (λ r. event_id r < n) rows
    → keep (is_before (some n)) rows ≡ rows
unfolding is_before
keep_below n [] h = refl
keep_below n (r ∷ rows) h = ground (arith, keep_below n rows)

-- The event stands before the cursor, or not.
abbrev pub IsBefore : Option ℕ → AuditEventRow → Type 0
IsBefore none r = Unit
IsBefore (some cursor) r = r.id < cursor

abbrev pub IsFrom : Option ℕ → AuditEventRow → Type 0
IsFrom none r = ⊥
IsFrom (some cursor) r = cursor ≤ r.id

-- A page of a log: what the log has from the cursor on stands in front of it, and what it leaves out
-- before the cursor stands behind it; it has as many events as the limit, or all there are.
pub record IsPage (limit : ℕ) (before : Option ℕ) (log page : List AuditEventRow) : Type 0 where
  pub newer : List AuditEventRow
  pub older : List AuditEventRow
  pub split : log ≡ newer ++ (page ++ older)
  pub newer_from : All (IsFrom before) newer
  pub page_before : All (IsBefore before) page
  pub older_before : All (IsBefore before) older
  pub short : length page ≤ limit
  pub full : older ≢ [] → length page ≡ limit

is_before_sound : (o : Option ℕ) (r : AuditEventRow) → is_before o r ≡ true → IsBefore o r
unfolding is_before
is_before_sound none r h = tt
is_before_sound (some n) r h = ground arith

keep_all : (rows : List AuditEventRow) → rows ≡ keep (is_before none) rows
unfolding is_before
keep_all [] = refl
keep_all (r ∷ rows) = ap (λ xs. r ∷ xs) (keep_all rows)

-- The test keeps the end of a falling list, behind what stands from the cursor on.
keep_end :
    (o : Option ℕ) (rows : List AuditEventRow)
    → IsFalling event_id rows
    → (newer : List AuditEventRow) × (rows ≡ newer ++ keep (is_before o) rows)
      × All (IsFrom o) newer
unfolding is_before
keep_end o [] h = ([], refl, tt)
keep_end none (r ∷ rows) (h, k) = ([], ap (λ xs. r ∷ xs) (keep_all rows), tt)
keep_end (some n) (r ∷ rows) (h, k) = elim (Bool-cases (ltb r.id n)) [
  | inl below ↦
      let rest : keep (is_before (some n)) rows ≡ rows = keep_below n rows (
        All-mono (λ y. event_id y < event_id r) (λ y. event_id y < n)
          (λ y later. ground (arith, below, later)) rows h) in
      ([], rw (below, rest) refl, tt)
  | inr from ↦
      let (newer, split, all) = keep_end (some n) rows k in
      (r ∷ newer, rw from (ap (λ xs. r ∷ xs) split), (ground (arith, from), all))
]

take-drop : (n : ℕ) (rows : List AuditEventRow) → rows ≡ take n rows ++ drop n rows
take-drop zero rows = refl
take-drop (suc n) [] = refl
take-drop (suc n) (r ∷ rows) = ap (λ xs. r ∷ xs) (take-drop n rows)

take-full : (n : ℕ) (rows : List AuditEventRow) → drop n rows ≢ [] → length (take n rows) ≡ n
take-full zero rows h = refl
take-full (suc n) [] h = absurd (h refl)
take-full (suc n) (r ∷ rows) h = omega (arith, take-full n rows h)

All-drop :
    (P : AuditEventRow → Type 0) (n : ℕ) (rows : List AuditEventRow)
    → All P rows
    → All P (drop n rows)
All-drop P zero rows h = h
All-drop P (suc n) [] h = tt
All-drop P (suc n) (r ∷ rows) (p, h) = All-drop P n rows h

after_cursor :
    (newer : List AuditEventRow) (last : AuditEventRow) (older : List AuditEventRow)
    → IsFalling event_id (newer ++ last ∷ older)
    → (keep (is_before (some last.id)) (newer ++ last ∷ older) ≡ older)
unfolding is_before
after_cursor [] last older (h, k) = ground (arith, keep_below last.id older h)
after_cursor (r ∷ newer) last older (h, k) =
    let above : last.id < r.id = All-middle (λ y. event_id y < event_id r) newer last older h in
    ground (arith, after_cursor newer last older k)

-- A page that asks for the events before the last one shown continues the log right behind it.
pub next_page :
    (db : Sqlite) (limit : Option ℕ) (t : Table AuditEventRow) (newer : List AuditEventRow)
    (last : AuditEventRow) (older : List AuditEventRow)
    → IsKeyed event_id t
    → newest_first t.rows ≡ newer ++ last ∷ older
    → list_recent db (record { limit = limit; before = some last.id }) t
      ≡ take (limit_or 50 limit) older
next_page db limit t newer last older k split =
    let falls : IsFalling event_id (newer ++ last ∷ older) =
      rw (← split) (newest_first-IsFalling event_id 0 t.rows k.ascending) in
    list_recent_newest db (record { limit = limit; before = some last.id }) t k
    ∙ ap (take (limit_or 50 limit)) (
        sym (keep-newest_first (is_before (some last.id)) t.rows)
        ∙ ap (keep (is_before (some last.id))) split
        ∙ after_cursor newer last older falls)

module _ {A : Type 0} where
  All-prop : (P : A → Type 0) → ((x : A) → IsProp (P x)) → (xs : List A) → IsProp (All P xs)
  All-prop P p [] = Unit-prop
  All-prop P p (x ∷ xs) = ×_prop (p x) (All-prop P p xs)

  All-Permᴰ : (P : A → Type 0) {xs ys : List A} → Permᴰ xs ys → All P xs → All P ys
  All-Permᴰ P Permᴰ.nil h = h
  All-Permᴰ P (Permᴰ.cons e p) (q, h) = (rw (← e) q, All-Permᴰ P p h)
  All-Permᴰ P (Permᴰ.swap e f) (q, (r, h)) = (rw (← f) r, (rw (← e) q, h))
  All-Permᴰ P (Permᴰ.trans p q) h = All-Permᴰ P q (All-Permᴰ P p h)

  pub All-Perm :
      (P : A → Type 0)
      → ((x : A) → IsProp (P x))
      → (xs ys : List A) → Perm xs ys
      → All P xs
      → All P ys
  All-Perm P is_prop xs ys p h = ∥∥₁_elim p (All-prop P is_prop ys) (λ q. All-Permᴰ P q h)

  keep-All : (p : A → Bool) (xs : List A) → All (λ x. p x ≡ true) (keep p xs)
  keep-All p [] = tt
  keep-All p (x ∷ xs) = elim (Bool-cases (p x)) [
    | inl kept ↦ rw kept (kept, keep-All p xs)
    | inr left ↦ rw left (keep-All p xs)
  ]

  IsDescending-take :
      (key : A → ℤ) (n : ℕ) (xs : List A) → IsDescending key xs → IsDescending key (take n xs)
  IsDescending-take key zero xs h = tt
  IsDescending-take key (suc n) [] h = tt
  IsDescending-take key (suc n) (x ∷ xs) (p, h) =
      (All-take (λ y. key y ≤ℤ key x) n xs p, IsDescending-take key n xs h)

-- An orchestrator's history holds rows of that very address, latest first, within the limit.
pub history_bounds :
    (db : Sqlite) (address : Text) (limit : Option ℕ) (t : Table RoutingObservationRow)
    → All (λ r. r.orch_address ≡ address) (list_recent_for_orch db address limit t)
      × IsDescending observation_key (list_recent_for_orch db address limit t)
      × (length (list_recent_for_orch db address limit t) ≤ limit_or 200 limit)
unfolding list_recent_for_orch
history_bounds db address limit t =
    let test = λ (r : RoutingObservationRow). text_eq r.orch_address address in
    let rows = keep test t.rows in
    let sorted = db.routing_order.desc observation_key rows in
    let n = limit_or 200 limit in
    (
      All-take (λ r. r.orch_address ≡ address) n sorted
          (All-mono (λ r. test r ≡ true) (λ r. r.orch_address ≡ address)
            (λ r h. text_eq→eq r.orch_address address h) sorted
            (All-Perm (λ r. test r ≡ true) (λ r. Bool-set (test r) true) rows sorted
              (Perm.symm (db.routing_order.desc-Perm observation_key rows))
              (keep-All test t.rows))),
      IsDescending-take observation_key n sorted
          (db.routing_order.desc-IsDescending observation_key rows),
      length-take-le n sorted,
    )

-- Whatever way the database sorts, a read of the audit log is a page of it, newest first: no event
-- from the cursor on, none left out between it and the first one of the page, and as many as the limit,
-- or 50 without one, unless the log ends before.
pub list_recent-IsPage :
    (db : Sqlite) (options : ListRecentOptions) (t : Table AuditEventRow)
    → IsKeyed event_id t
    → IsPage
        (limit_or 50 options.limit)
        options.before
        (newest_first t.rows)
        (list_recent db options t)
list_recent-IsPage db options t k =
    let n = limit_or 50 options.limit in
    let log = newest_first t.rows in
    let kept = keep (is_before options.before) log in
    let (newer, split, from) =
      keep_end options.before log (newest_first-IsFalling event_id 0 t.rows k.ascending) in
    let below : All (IsBefore options.before) kept =
      All-mono (λ r. is_before options.before r ≡ true) (IsBefore options.before)
        (is_before_sound options.before) kept (keep-All (is_before options.before) log) in
    let same : list_recent db options t ≡ take n kept =
      list_recent_newest db options t k
      ∙ ap (take n) (sym (keep-newest_first (is_before options.before) t.rows)) in
    rw same (record {
      newer = newer;
      older = drop n kept;
      split = split ∙ ap (λ xs. newer ++ xs) (take-drop n kept);
      newer_from = from;
      page_before = All-take (IsBefore options.before) n kept below;
      older_before = All-drop (IsBefore options.before) n kept below;
      short = length-take-le n kept;
      full = take-full n kept;
    })
