-- ===== src/Lib.antt =====
-- Teacher Assistant: a tracker of IEP goals for one teacher, whose devices share their encrypted
-- records through a relay that stores opaque blobs.
--
-- The relay's store (services/sync-relay/src/store.ts) is Relay:
--   Relay/Types     the stored rows, the results of the calls, RelayStore
--   Relay/Cursor    parseCursor and formatCursor over texts of character codes
--   Relay/Grants    checkScope, checkGrant, checkEnrollment, and what an accepted grant writes
--   Relay/Store     one function for each method of InMemoryRelayStore; time, new epochs and
--                   the texts that only the store's caller reads are arguments
--   Relay/Listing   listDevices and getRecoveryWrap
--   Relay/Calls     the calls as data, and Reach: any run of calls on a clock that never goes back
-- The client's half of the protocol (packages/sync/src) is Sync:
--   Sync/Stream   EncryptedStream (doc.ts), with the CRDT and the cipher as parameters
--   Sync/Relay    what the engine relies on of the relay, as an interface with laws
--   Sync/Engine   SyncEngine (engine.ts) on the replies that relay-client.ts makes, and the saved
--                 state of persistence.ts
--   Sync/World    several devices on one stream, in any interleaving of captures, saves, the two
--                 halves of a sync, lost answers and reloads
--   Sync/InStore  Relay as an instance of that interface, for one doc under one scope
-- The idle lock of the app (apps/pwa/src/device/auto-lock.ts) is AutoLock; its timers are the times that
-- they are due, and its listeners and timers are events at a time.
-- The domain logic (packages/domain-core/src, with the types of packages/schema/src) is Tracking:
--   Tracking/Types        entities.ts and enums.ts
--   Tracking/Order        comparators.ts, value.ts, mismatch.ts
--   Tracking/Consistency  consistency.ts and the clamp of quarterly.ts
--   Tracking/DataPoint    data-point.ts and the probe guard of goal-validation.ts
--   Tracking/Label        the other checks of goal-validation.ts
--   Tracking/Baseline     baseline.ts
--   Tracking/BaselineEdit baseline-edit.ts; the reason for a removal is a text, in the closed list or not
--   Tracking/Lifecycle    lifecycle.ts
--   Weeks                 instructional-weeks.ts over day numbers, with what Date says of years and
--                         months as a parameter
--   Weeks/Ids             the text of a week id
--   Weeks/Owes            owes.ts
-- The two guards against guessing are:
--   Redeem          RedeemGuard (services/sync-relay/src/redeem-guard.ts)
--   Throttle        AuthThrottle (packages/auth/src/throttle.ts)
-- The relay's HTTP service (services/sync-relay/src/app.ts) is Service:
--   Service/Platform   what the service takes from the platform: JSON, signatures, clocks, hashes
--   Service/Json       the values of JSON
--   Service/Bodies     control-bodies.ts and parsePushUpdates
--   Service/OwnerCode  owner-code.ts
--   Service/Requests   NonceCache, verifyRequest, and canonicalRequest of
--                      packages/schema/src/sync-protocol.ts
--   Service/Control    the ten control routes on a store that is swept
--   Service/App        authorizeDoc, authorizeControl, the doc routes and the redeem route; serve
--                      takes one request, the service's state and the time to the new state and the
--                      answer, calling Relay and Redeem as the routes do; requests do not overlap
-- Base holds the shared tests on numbers, lists and insertion-ordered maps; Tests the examples.
--
-- A method of a class is a function from the state to the new state and the result; a call that
-- throws or is refused returns the state it was given. Keys, tags, ids and code hashes are compared
-- only for equality (ids also by order), so they are numbers; a week id is its year and number, which its text gives back; dates are day numbers and timestamps
-- milliseconds. JavaScript's numbers are an abstract type with the operations that the code uses
-- (Arithmetic), and its string functions are a record (TextOps): the theorems hold for every such
-- type. The decimal printing of a cursor runs on fuel of one more than the number, which has at most
-- that many digits. The loops over weeks run on fuel: one more than the last day for the weeks
-- between two dates, which are a week apart, and six for the Mondays of a period, which has five at
-- most; the walk to the start of the baseline window has the bound of the source. A store that fails
-- makes the service answer 503, which no step of the in-memory store does.
--
-- Not modelled: the PostgreSQL store, the framework's rate limits and logging, the cryptography and
-- the screens, which are I/O, third-party calls or user interface; the summaries, statements and
-- material library of the domain logic; the local stores and the device layer of the app.
pub mod AutoLock
pub mod Base
pub mod Redeem
pub mod Relay
pub mod Service
pub mod Sync
pub mod Tests
pub mod Throttle
pub mod Tracking
pub mod Weeks
