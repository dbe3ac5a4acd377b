-- ===== src/Relay/Calls.antt =====
-- A run of the relay's store: the calls of RelayStore that change state, one after the other, each
-- at the time the clock shows then (services/sync-relay/src/store.ts).
pub mod Invariant
pub mod Soundness
pub mod Devices
pub mod Access
pub mod Codes
pub mod Pairings
pub mod Logs
use teacher_assistant.Base.{ℕ, ◌≤◌, List}
use teacher_assistant.Relay.Types.{PublicKey, Tag, Text, Blob, DeviceRole, ScopeGrant, RelayStore}
use teacher_assistant.Relay.Store

pub data Call : Type 0 where
  append : Text → ℕ → Tag → List Blob → Call
  issue_owner_code : ℕ → ℕ → Call
  redeem_owner_code : ℕ → PublicKey → Call
  invalidate_owner_codes : Call
  grant_scopes : PublicKey → List ScopeGrant → Call
  retire_scope : Tag → Call
  revoke : PublicKey → Call
  open_pairing : ℕ → PublicKey → Call
  put_pairing_request : ℕ → PublicKey → Blob → Call
  complete_pairing : ℕ → PublicKey → PublicKey → DeviceRole → List ScopeGrant → Blob → Call
  take_pairing_grant : ℕ → PublicKey → Call
  put_recovery_wrap : Blob → Call
  sweep_expired : Call
  rotate_epochs : (ℕ → Text) → Call

unfoldable pub step : ℕ → Call → RelayStore → RelayStore
step now (append fresh doc t blobs) s = (Store.append s fresh doc t blobs).0
step now (issue_owner_code hash expires_at) s = (Store.issue_owner_code s hash expires_at).0
step now (redeem_owner_code hash key) s = (Store.redeem_owner_code s now hash key).0
step now invalidate_owner_codes s = Store.invalidate_owner_codes s
step now (grant_scopes key scopes) s = (Store.grant_scopes s key scopes).0
step now (retire_scope t) s = (Store.retire_scope s t).0
step now (revoke key) s = (Store.revoke s key).0
step now (open_pairing sid opener) s = (Store.open_pairing s now sid opener).0
step now (put_pairing_request sid signer blob) s =
    (Store.put_pairing_request s now sid signer blob).0
step now (complete_pairing sid opener key role scopes blob) s =
    (Store.complete_pairing s now sid opener key role scopes blob).0
step now (take_pairing_grant sid signer) s = (Store.take_pairing_grant s now sid signer).0
step now (put_recovery_wrap blob) s = Store.put_recovery_wrap s blob
step now sweep_expired s = Store.sweep_expired s now
step now (rotate_epochs fresh) s = Store.rotate_epochs s fresh

-- A store and the time of the last call.
pub record Moment : Type 0 where
  pub now : ℕ
  pub store : RelayStore

-- Any number of calls, the clock never going back.
pub data Reach (from : Moment) : Moment → Type 0 where
  here : Reach from from
  next :
      {m : Moment}
      → Reach from m
      → (now : ℕ) (c : Call) → m.now ≤ now
      → Reach from (record { now = now; store = step now c m.store })
