-- ===== src/Service.antt =====
-- The relay's HTTP service, services/sync-relay/src: app.ts, control-bodies.ts and owner-code.ts over
-- the store and the redeem guard.
pub mod Json
pub mod Platform
pub mod Bodies
pub mod OwnerCode
pub mod Requests
pub mod Control
pub mod App
