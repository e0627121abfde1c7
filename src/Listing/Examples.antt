-- ===== src/Listing/Examples.antt =====
-- Queries within their bounds.
use livepeer_gateway_console.Common.{◌≡◌, refl, none, some, List}
use livepeer_gateway_console.Common.Int.{pos}
use livepeer_gateway_console.Repo.{Table, AuditEventRow, empty_table}
use livepeer_gateway_console.Repo.Orders.{memory_database}
use livepeer_gateway_console.Audit.{AuditEvent, list_events}
use livepeer_gateway_console.Resolver.{AuditLogOptions}
use livepeer_gateway_console.Listing.{
  integer, sent, invalid_input, within_bound, positive, nonnegative, address_field, list_page,
  handle_list_audit_log, log_options, asked_options,
}

abbrev log : Table AuditEventRow
log = empty_table

abbrev page : List AuditEvent
page = list_events memory_database (record { limit = some 500; before = none }) log

lists_page : handle_list_audit_log memory_database (some (integer (pos 500))) none log ≡ sent page
unfolding handle_list_audit_log list_page positive within_bound
lists_page = refl

too_many : handle_list_audit_log memory_database (some (integer (pos 501))) none log ≡ invalid_input
unfolding handle_list_audit_log list_page positive within_bound
too_many = refl

abbrev options : AuditLogOptions
options = record { eth_address = none; since = some (pos 7); limit = some 1000 }

asks : asked_options (some (integer (pos 7))) (some (integer (pos 1000))) none ≡ some options
unfolding asked_options log_options nonnegative positive within_bound address_field
asks = refl
