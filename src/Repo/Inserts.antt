-- ===== src/Repo/Inserts.antt =====
-- The inserts of auditEvents.ts and routingObservations.ts: the rows and the keys of a table.
use livepeer_gateway_console.Common.{
  ℕ, ◌≤◌, ◌<◌, ◌≡◌, refl, ap, Option, none, some, List, [], ◌∷◌, ◌++◌, map, ◌⊎◌, inl, inr, All,
  All-append, All-mono, arith,
}
use livepeer_gateway_console.Common.Result.{Failure, ok, err}
use livepeer_gateway_console.Repo.{
  Sqlite, Table, AuditEventRow, AuditEventInsert, append, RoutingObservationRow,
  RoutingObservationInsert, to_row, insert_rows, append_batch,
}
use mathlib.Core.List.{append-nil, append_assoc}

module _ {A : Type 0} (id : A → ℕ) where
  -- Every key in the list is above the bound, and above those that stand before it.
  abbrev pub IsAscending : ℕ → List A → Type 0
  IsAscending low [] = Unit
  IsAscending low (r ∷ rs) = (low < id r) × IsAscending (id r) rs

  -- The keys of a table ascend, and none is above the largest that was given out.
  pub record IsKeyed (t : Table A) : Type 0 where
    pub ascending : IsAscending 0 t.rows
    pub within : All (λ r. id r ≤ t.seq) t.rows

  pub IsAscending-concat :
      (low : ℕ) (rs : List A) (r : A)
      → IsAscending low rs
      → All (λ s. id s < id r) rs
      → low < id r
      → IsAscending low (rs ++ r ∷ [])
  IsAscending-concat low [] r h b l = (l, tt)
  IsAscending-concat low (s ∷ rs) r (p, h) (q, b) l = (p, IsAscending-concat (id s) rs r h b q)

  pub IsKeyed-concat :
      (rs : List A) (seq : ℕ) (r : A)
      → IsKeyed (record { rows = rs; seq = seq })
      → seq < id r
      → IsKeyed (record { rows = rs ++ r ∷ []; seq = id r })
  IsKeyed-concat rs seq r k l = record {
    ascending =
        IsAscending-concat 0 rs r k.ascending
          (All-mono (λ s. id s ≤ seq) (λ s. id s < id r) (λ s h. omega arith) rs k.within)
          (omega arith);
    within =
        All-append (λ s. id s ≤ id r) rs (r ∷ [])
          (All-mono (λ s. id s ≤ seq) (λ s. id s ≤ id r) (λ s h. omega arith) rs k.within)
          (omega arith, tt);
  }

abbrev pub observation_id : RoutingObservationRow → ℕ
observation_id r = r.id

abbrev pub event_id : AuditEventRow → ℕ
event_id r = r.id

-- A row without its key.
abbrev pub content : RoutingObservationRow → RoutingObservationInsert
content r = record {
  observed_at = r.observed_at;
  orch_address = r.orch_address;
  capability = r.capability;
  offering = r.offering;
  signature_status = r.signature_status;
  freshness_status = r.freshness_status;
  details_json = r.details_json;
}

-- The rows that an insert makes, and the largest key after it.
new_rows : Sqlite → ℕ → List RoutingObservationInsert → List RoutingObservationRow
new_rows db seq [] = []
new_rows db seq (r ∷ rs) = let id = db.next_id seq in to_row id r ∷ new_rows db id rs

new_seq : Sqlite → ℕ → List RoutingObservationInsert → ℕ
new_seq db seq [] = seq
new_seq db seq (r ∷ rs) = new_seq db (db.next_id seq) rs

insert_rows_lem :
    (db : Sqlite) (rs : List RoutingObservationInsert) (old : List RoutingObservationRow) (seq : ℕ)
    → insert_rows db rs (record { rows = old; seq = seq })
      ≡ record { rows = old ++ new_rows db seq rs; seq = new_seq db seq rs }
unfolding insert_rows new_rows new_seq
insert_rows_lem db [] old seq = rw append-nil refl
insert_rows_lem db (r ∷ rs) old seq =
    rw (append_assoc old) at
      (insert_rows_lem db rs (old ++ to_row (db.next_id seq) r ∷ []) (db.next_id seq))

content-new_rows :
    (db : Sqlite) (seq : ℕ) (rs : List RoutingObservationInsert)
    → map content (new_rows db seq rs) ≡ rs
unfolding new_rows to_row
content-new_rows db seq [] = refl
content-new_rows db seq (r ∷ rs) = ap (λ t. r ∷ t) (content-new_rows db (db.next_id seq) rs)

insert_rows-IsKeyed :
    (db : Sqlite) (rs : List RoutingObservationInsert) (old : List RoutingObservationRow) (seq : ℕ)
    → IsKeyed observation_id (record { rows = old; seq = seq })
    → IsKeyed observation_id (insert_rows db rs (record { rows = old; seq = seq }))
unfolding insert_rows to_row
insert_rows-IsKeyed db [] old seq k = k
insert_rows-IsKeyed db (r ∷ rs) old seq k =
    insert_rows-IsKeyed db rs (old ++ to_row (db.next_id seq) r ∷ []) (db.next_id seq)
      (IsKeyed-concat observation_id old seq (to_row (db.next_id seq) r) k (db.next_id-lt seq))

-- An accepted batch stands behind the old rows, row by row and in order.
pub append_batch_ok :
    (db : Sqlite) (rs : List RoutingObservationInsert) (t : Table RoutingObservationRow)
    → (new : List RoutingObservationRow) × (append_batch db none rs t
        ≡ (ok tt, record { rows = t.rows ++ new; seq = (append_batch db none rs t).1.seq }))
      × (map content new ≡ rs)
unfolding append_batch
append_batch_ok db [] t = ([], rw append-nil refl, refl)
append_batch_ok db (r ∷ rs) t = (
  new_rows db t.seq (r ∷ rs),
  rw (insert_rows_lem db (r ∷ rs) t.rows t.seq) refl,
  content-new_rows db t.seq (r ∷ rs),
)

-- A batch, accepted or not, leaves the keys of the table ascending and unique.
pub append_batch-IsKeyed :
    (db : Sqlite) (fault : Option Failure) (rs : List RoutingObservationInsert)
    (t : Table RoutingObservationRow)
    → IsKeyed observation_id t
    → IsKeyed observation_id (append_batch db fault rs t).1
unfolding append_batch
append_batch-IsKeyed db fault [] t k = k
append_batch-IsKeyed db none (r ∷ rs) t k = insert_rows-IsKeyed db (r ∷ rs) t.rows t.seq k
append_batch-IsKeyed db (some e) (r ∷ rs) t k = k

-- A batch is accepted whole or refused whole.
pub append_batch-cases :
    (db : Sqlite) (fault : Option Failure) (rs : List RoutingObservationInsert)
    (t : Table RoutingObservationRow)
    → (append_batch db fault rs t ≡ append_batch db none rs t)
      ⊎ ((e : Failure) × (append_batch db fault rs t ≡ (err e, t)))
unfolding append_batch
append_batch-cases db fault [] t = inl refl
append_batch-cases db none (r ∷ rs) t = inl refl
append_batch-cases db (some e) (r ∷ rs) t = inr (e, refl)

-- A refused batch leaves the table as it was.
pub append_batch_err :
    (db : Sqlite) (fault : Option Failure) (rs : List RoutingObservationInsert)
    (t : Table RoutingObservationRow) (e : Failure)
    → (append_batch db fault rs t).0 ≡ err e
    → (append_batch db fault rs t).1 ≡ t
unfolding append_batch
append_batch_err db fault [] t e h = refl
append_batch_err db none (r ∷ rs) t e h = cc
append_batch_err db (some f) (r ∷ rs) t e h = refl

-- A new event has a fresh key.
pub append-IsKeyed :
    (db : Sqlite) (now : ℕ) (fault : Option Failure) (input : AuditEventInsert)
    (t : Table AuditEventRow)
    → IsKeyed event_id t
    → IsKeyed event_id (append db now fault input t).1
unfolding append
append-IsKeyed db now (some e) input t k = k
append-IsKeyed db now none input t k =
    IsKeyed-concat event_id t.rows t.seq _ k (db.next_id-lt t.seq)
