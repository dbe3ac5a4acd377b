-- ===== src/Relay/Types.antt =====
-- The types of services/sync-relay/src/store.ts. Device keys, scope tags, session ids, doc ids and
-- code hashes are opaque strings that the store compares for equality only: here they are numbers.
-- A cursor's epoch is text, a list of character codes, since cursors are parsed.
use teacher_assistant.Base.{ℕ, Bool, true, false, List, Option}
use teacher_assistant.Base.Map.{Map}
use Prim.Native.String.{String}

abbrev pub PublicKey : Type 0
PublicKey = ℕ

abbrev pub Tag : Type 0
Tag = ℕ

abbrev pub Text : Type 0
Text = List ℕ

abbrev pub Blob : Type 0
Blob = String

pub record Cursor : Type 0 where
  pub epoch : Option Text
  pub seq : ℕ

pub data DeviceRole : Type 0 where
  owner member : DeviceRole

pub data DeviceStatus : Type 0 where
  active revoked : DeviceStatus

pub data ScopeKind : Type 0 where
  master period : ScopeKind

pub record ScopeGrant : Type 0 where
  pub tag : Tag
  pub kind : ScopeKind

pub record ScopeListing : Type 0 where
  pub tag : Tag
  pub kind : ScopeKind
  pub retired : Bool

pub record DeviceListing : Type 0 where
  pub device : PublicKey
  pub role : DeviceRole
  pub status : DeviceStatus
  pub scopes : List ScopeListing

pub data RedeemResult : Type 0 where
  first recovery refused : RedeemResult

pub data GrantResult : Type 0 where
  ok kind_conflict member_master second_master not_active retired : GrantResult

pub data RetireResult : Type 0 where
  ok master_scope not_found : RetireResult

pub data RevokeResult : Type 0 where
  ok last_owner : RevokeResult

pub data IssueResult : Type 0 where
  issued already_issued : IssueResult

-- The union of the grant results and the three of pairing alone.
pub data CompletePairingResult : Type 0 where
  grant : GrantResult → CompletePairingResult
  not_found device_mismatch role_conflict : CompletePairingResult

pub record StoredUpdate : Type 0 where
  pub seq : ℕ
  pub blob : Blob

pub record StoredDoc : Type 0 where
  pub scope_tag : Tag
  pub epoch : Text
  pub updates : List StoredUpdate

pub record StoredDevice : Type 0 where
  pub role : DeviceRole
  pub status : DeviceStatus

pub record StoredScope : Type 0 where
  pub kind : ScopeKind
  pub retired : Bool

pub record StoredCode : Type 0 where
  pub expires_at : ℕ
  pub used : Bool

pub record PairingRequest : Type 0 where
  pub signer : PublicKey
  pub blob : Blob

pub record StoredPairing : Type 0 where
  pub opener : PublicKey
  pub expires_at : ℕ
  pub request : Option PairingRequest
  pub grant_blob : Option Blob

-- The fields of InMemoryRelayStore but the clock, which is an argument of each call.
pub record RelayStore : Type 0 where
  pub docs : Map StoredDoc
  pub acl : Map (List Tag)
  pub devices : Map StoredDevice
  pub scopes : Map StoredScope
  pub codes : Map StoredCode
  pub pairings : Map StoredPairing
  pub recovery_wrap : Option Blob

abbrev pub is_active : DeviceStatus → Bool
is_active active = true
is_active revoked = false

abbrev pub is_owner : DeviceRole → Bool
is_owner owner = true
is_owner member = false

abbrev pub is_master : ScopeKind → Bool
is_master master = true
is_master period = false

abbrev pub same_kind : ScopeKind → ScopeKind → Bool
same_kind master master = true
same_kind master period = false
same_kind period master = false
same_kind period period = true

abbrev pub same_role : DeviceRole → DeviceRole → Bool
same_role owner owner = true
same_role owner member = false
same_role member owner = false
same_role member member = true
