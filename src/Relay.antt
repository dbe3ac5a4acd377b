-- ===== src/Relay.antt =====
-- services/sync-relay/src: the relay's store, its grants, its cursors and its redeem lockout.
pub mod Types
pub mod Cursor
pub mod Grants
pub mod Store
pub mod Calls
pub mod Listing
