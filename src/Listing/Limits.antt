-- ===== src/Listing/Limits.antt =====
-- How much a query may ask for.
use livepeer_gateway_console.Common.{
  ℕ, zero, suc, ◌≤◌, ◌≡◌, refl, sym, true, Option, none, some, List, length, arith, leb, Bool-cases,
  inl, inr,
}
use livepeer_gateway_console.Common.Int.{pos, negsuc}
use livepeer_gateway_console.Common.Text.{Text}
use livepeer_gateway_console.Common.Address.{is_eth_address}
use livepeer_gateway_console.Repo.{Sqlite, Table, AuditEventRow}
use livepeer_gateway_console.Audit.{AuditEvent, list_events}
use livepeer_gateway_console.Audit.RoundTrip.{length-list_events-le}
use livepeer_gateway_console.Resolver.{AuditLogOptions}
use livepeer_gateway_console.Listing.{
  Coerced, integer, no_integer, Field, refused, given, within_bound, positive, nonnegative,
  address_field, sent, list_page, handle_list_audit_log, log_options, asked_options,
}

-- A limit that is given is at least one and at most the bound.
abbrev pub IsLimit : ℕ → Option ℕ → Type 0
IsLimit bound none = Unit
IsLimit bound (some n) = (1 ≤ n) × (n ≤ bound)

given-injective : {A : Type 0} (a b : Option A) → given a ≡ given b → a ≡ b
given-injective a b h = cc

positive-IsLimit :
    (bound : ℕ) (limit : Option Coerced) (o : Option ℕ)
    → positive (some bound) limit ≡ given o
    → IsLimit bound o
unfolding positive within_bound
positive-IsLimit bound none o h = rw (sym (given-injective none o h)) tt
positive-IsLimit bound (some no_integer) o h = absurd (cc)
positive-IsLimit bound (some (integer (negsuc n))) o h = absurd (cc)
positive-IsLimit bound (some (integer (pos zero))) o h = absurd (cc)
positive-IsLimit bound (some (integer (pos (suc n)))) o h = elim (Bool-cases (leb (suc n) bound)) [
  | inl fits ↦
      rw (sym (given-injective (some (suc n)) o (rw fits at h))) (omega arith, ground arith)
  | inr exceeds ↦ absurd (cc (rw exceeds at h))
]

sent-injective : {A : Type 0} (a b : A) → sent a ≡ sent b → a ≡ b
sent-injective a b h = cc

length-list_page-le :
    (db : Sqlite) (t : Table AuditEventRow) (limit before : Field ℕ) (events : List AuditEvent)
    → ((o : Option ℕ) → limit ≡ given o → IsLimit 500 o)
    → list_page db t limit before ≡ sent events
    → length events ≤ 500
unfolding list_page
length-list_page-le db t (given none) (given before) events bounded h =
    rw (sym (sent-injective _ events h))
      (omega (arith, length-list_events-le db (record { limit = none; before = before }) t))
length-list_page-le db t (given (some n)) (given before) events bounded h =
    rw (sym (sent-injective _ events h)) (
      omega (
        arith,
        length-list_events-le db (record { limit = some n; before = before }) t,
        bounded (some n) refl,
      ))
length-list_page-le db t refused before events bounded h = absurd (cc)
length-list_page-le db t (given limit) refused events bounded h = absurd (cc)

-- A reply of the audit-log route lists at most 500 events, whatever the query asks for and however
-- long the log is.
pub audit_page_bound :
    (db : Sqlite) (limit before : Option Coerced) (t : Table AuditEventRow)
    (events : List AuditEvent)
    → handle_list_audit_log db limit before t ≡ sent events
    → length events ≤ 500
unfolding handle_list_audit_log
audit_page_bound db limit before t events h =
    length-list_page-le db t (positive (some 500) limit) (positive none before) events
      (λ o accepted. positive-IsLimit 500 limit o accepted) h

abbrev pub IsAddress : Option Text → Type 0
IsAddress none = Unit
IsAddress (some s) = is_eth_address s ≡ true

address_field-IsAddress : (address o : Option Text) → address_field address ≡ given o → IsAddress o
unfolding address_field
address_field-IsAddress none o h = rw (sym (given-injective none o h)) tt
address_field-IsAddress (some s) o h = elim (Bool-cases (is_eth_address s)) [
  | inl valid ↦ rw (sym (given-injective (some s) o (rw valid at h))) valid
  | inr invalid ↦ absurd (cc (rw invalid at h))
]

some-injective : {A : Type 0} (a b : A) → some a ≡ some b → a ≡ b
some-injective a b h = cc

log_options_bound :
    (since limit : Field ℕ) (address : Field Text) (opts : AuditLogOptions)
    → ((o : Option ℕ) → limit ≡ given o → IsLimit 1000 o)
    → ((o : Option Text) → address ≡ given o → IsAddress o)
    → log_options since limit address ≡ some opts
    → IsLimit 1000 opts.limit × IsAddress opts.eth_address
unfolding log_options
log_options_bound (given none) (given l) (given a) opts p q h =
    rw (sym (some-injective _ opts h)) (p l refl, q a refl)
log_options_bound (given (some n)) (given l) (given a) opts p q h =
    rw (sym (some-injective _ opts h)) (p l refl, q a refl)
log_options_bound refused l a opts p q h = absurd (cc)
log_options_bound (given none) refused a opts p q h = absurd (cc)
log_options_bound (given (some n)) refused a opts p q h = absurd (cc)
log_options_bound (given none) (given l) refused opts p q h = absurd (cc)
log_options_bound (given (some n)) (given l) refused opts p q h = absurd (cc)

-- What the resolver's log route asks the daemon for has, if the query is accepted, either no limit
-- or one from 1 to 1000, and either no address or a well-formed one.
pub asked_options_bound :
    (since limit : Option Coerced) (address : Option Text) (opts : AuditLogOptions)
    → asked_options since limit address ≡ some opts
    → IsLimit 1000 opts.limit × IsAddress opts.eth_address
unfolding asked_options
asked_options_bound since limit address opts h =
    log_options_bound (nonnegative since) (positive (some 1000) limit) (address_field address) opts
      (λ o accepted. positive-IsLimit 1000 limit o accepted)
      (λ o accepted. address_field-IsAddress address o accepted) h

pub first_page :
    (db : Sqlite) (t : Table AuditEventRow)
    → handle_list_audit_log db none none t
      ≡ sent (list_events db (record { limit = none; before = none }) t)
unfolding handle_list_audit_log list_page positive
first_page db t = refl
