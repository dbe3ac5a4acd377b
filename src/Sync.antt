-- ===== src/Sync.antt =====
-- packages/sync/src: a device's copy of a stream, and how it is reconciled with the relay's log.
pub mod Stream
pub mod Relay
pub mod Engine
pub mod World
pub mod InStore
