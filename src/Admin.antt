-- ===== src/Admin.antt =====
-- src/admin-ui: the parts of the browser client that keep state or compute: the API wrapper and the
-- session, the application with its routes, the screens, and the display of amounts.
pub mod AuditScreen
pub mod Api
pub mod Payload
pub mod Login
pub mod RoutingScreen
pub mod Display
pub mod App
pub mod SenderScreen
pub mod OrchDetail
pub mod CapabilityScreen
mod Examples
