-- ===== src/Tests.antt =====
-- The tests, and the theorems applied at concrete data.
mod Throttle
mod Redeem
mod Service
mod Sync
mod AutoLock
mod Weeks
mod Relay
mod Tracking
