-- ===== src/Relay/Store.antt =====
-- InMemoryRelayStore of services/sync-relay/src/store.ts: one function per method. Time is an
-- argument of each call, and so is what newEpoch mints.
pub mod Log
pub mod Cases
pub mod Completion
use teacher_assistant.Base.{
  ℕ, ◌+◌, Bool, true, false, ◌&&◌, ◌||◌, not, List, [], ◌∷◌, ◌++◌, map, Option, none, some, ◌==◌,
  leb, ltb, is_some, if◌then◌else◌, contains, length, filter,
}
use teacher_assistant.Base.Map.{Map, get, put, remove, keep, has, count}
use teacher_assistant.Relay.Types.{
  PublicKey, Tag, Text, Blob, Cursor, DeviceRole, owner, active, revoked, ScopeGrant, RedeemResult,
  first, recovery, refused, GrantResult, RetireResult, master_scope, RevokeResult, last_owner,
  IssueResult, issued, already_issued, CompletePairingResult, grant, StoredUpdate, StoredDoc,
  StoredDevice, StoredScope, StoredCode, PairingRequest, StoredPairing, RelayStore, is_active,
  is_owner, is_master,
}
use teacher_assistant.Relay.Cursor.{format_cursor, same_text}
use teacher_assistant.Relay.Grants.{
  check_grant, check_enrollment, refusal, grantee, write_scopes, write_tags, is_retired,
}

abbrev pub pairing_ttl_ms : ℕ
pairing_ttl_ms = 600_000

abbrev pub max_open_pairings : ℕ
max_open_pairings = 3

abbrev pub empty : RelayStore
empty = record {
  docs = [];
  acl = [];
  devices = [];
  scopes = [];
  codes = [];
  pairings = [];
  recovery_wrap = none;
}

abbrev pub role_if_active : Option StoredDevice → Option DeviceRole
role_if_active none = none
role_if_active (some d) = if is_active d.status then some d.role else none

unfoldable pub device_role : RelayStore → PublicKey → Option DeviceRole
device_role s key = role_if_active (get key s.devices)

abbrev pub is_active_owner : StoredDevice → Bool
is_active_owner d = is_owner d.role && is_active d.status

unfoldable pub active_owner_count : RelayStore → ℕ
active_owner_count s = count is_active_owner s.devices

unfoldable pub master_tag : Map StoredScope → Option Tag
master_tag [] = none
master_tag ((t, scope) ∷ m) = if is_master scope.kind then some t else master_tag m

abbrev pub unless_expired : ℕ → Option StoredPairing → Option StoredPairing
unless_expired now none = none
unless_expired now (some p) = if ltb now p.expires_at then some p else none

unfoldable pub open_session : RelayStore → ℕ → ℕ → Option StoredPairing
open_session s now sid = unless_expired now (get sid s.pairings)

abbrev pub tags_of : Option (List Tag) → List Tag
tags_of none = []
tags_of (some tags) = tags

unfoldable pub write_grant : RelayStore → PublicKey → List ScopeGrant → RelayStore
write_grant s key scopes = record s {
  scopes = write_scopes scopes s.scopes;
  acl = put key (write_tags scopes (tags_of (get key s.acl))) s.acl;
}

unfoldable pub is_authorized : RelayStore → PublicKey → Tag → Bool
is_authorized s key t = is_some (device_role s key) && contains t (tags_of (get key s.acl))

unfoldable pub doc_scope : RelayStore → ℕ → Option Tag
doc_scope s doc = elim (get doc s.docs) [ none ↦ none | some d ↦ some d.scope_tag ]

unfoldable pub push_blobs : List Blob → List StoredUpdate → List StoredUpdate
push_blobs [] updates = updates
push_blobs (b ∷ bs) updates =
    push_blobs bs (updates ++ record { seq = length updates + 1; blob = b } ∷ [])

-- `this.#docs.get(docId)`, or a new doc under this scope with a fresh epoch
abbrev pub doc_or_new : Option StoredDoc → Tag → Text → StoredDoc
doc_or_new none t fresh = record { scope_tag = t; epoch = fresh; updates = [] }
doc_or_new (some d) t fresh = d

unfoldable pub append : RelayStore → Text → ℕ → Tag → List Blob → RelayStore × Option Text
append s fresh doc t blobs =
    let d = doc_or_new (get doc s.docs) t fresh in
    let d' : StoredDoc = record d { updates = push_blobs blobs d.updates } in
    if is_retired (get t s.scopes)
    then (s, none)
    else if not (d.scope_tag == t)
    then (s, none)
    else (record s { docs = put doc d' s.docs }, some (format_cursor d'.epoch (length d'.updates)))

abbrev pub epoch_matches : Option Text → Text → Bool
epoch_matches none epoch = false
epoch_matches (some e) epoch = same_text e epoch

abbrev pub blobs_of : List StoredUpdate → List Blob
blobs_of = map λ u. u.blob

abbrev pub start_of : StoredDoc → Cursor → ℕ
start_of d since =
    if epoch_matches since.epoch d.epoch && leb since.seq (length d.updates) then since.seq else 0

-- b'0' is the cursor of an unknown doc.
unfoldable pub fetch : RelayStore → ℕ → Cursor → Text × List Blob
fetch s doc since = elim (get doc s.docs) [
  | none ↦ (b'0' ∷ [], [])
  | some d ↦ (
    format_cursor d.epoch (length d.updates),
    blobs_of (filter (λ u. ltb (start_of d since) u.seq) d.updates),
  )
]

unfoldable pub issue_owner_code : RelayStore → ℕ → ℕ → RelayStore × IssueResult
issue_owner_code s hash expires_at = if has hash s.codes then (s, already_issued) else (
  record s { codes = put hash (record { expires_at = expires_at; used = false }) s.codes },
  issued,
)

-- `code === undefined || code.used || code.expiresAt <= now`
abbrev pub is_refused : Option StoredCode → ℕ → Bool
is_refused none now = true
is_refused (some code) now = code.used || leb code.expires_at now

-- `code.used = true`
abbrev pub mark_used : ℕ → Option StoredCode → Map StoredCode → Map StoredCode
mark_used hash none codes = codes
mark_used hash (some code) codes = put hash (record code { used = true }) codes

unfoldable pub redeem_owner_code : RelayStore → ℕ → ℕ → PublicKey → RelayStore × RedeemResult
redeem_owner_code s now hash key =
    if is_refused (get hash s.codes) now
    then (s, refused)
    else if has key s.devices
    then (s, refused)
    else (
      record s {
        codes = mark_used hash (get hash s.codes) s.codes;
        devices = put key (record { role = owner; status = active }) s.devices;
      },
      if active_owner_count s == 0 && not (is_some (master_tag s.scopes)) then first else recovery,
    )

unfoldable pub invalidate_owner_codes : RelayStore → RelayStore
invalidate_owner_codes s = record s { codes = keep (λ hash code. code.used) s.codes }

unfoldable pub grant_scopes : RelayStore → PublicKey → List ScopeGrant → RelayStore × GrantResult
grant_scopes s key scopes =
    elim (check_grant (get key s.devices) scopes s.scopes (master_tag s.scopes)) [
      | GrantResult.ok ↦ (write_grant s key scopes, GrantResult.ok)
      | result ↦ (s, result)
    ]

unfoldable pub retire_scope : RelayStore → Tag → RelayStore × RetireResult
retire_scope s t = elim (get t s.scopes) [
  | none ↦ (s, RetireResult.not_found)
  | some scope ↦
      if is_master scope.kind
      then (s, master_scope)
      else (record s { scopes = put t (record scope { retired = true }) s.scopes }, RetireResult.ok)
]

abbrev pub is_signer : PublicKey → Option PairingRequest → Bool
is_signer key none = false
is_signer key (some r) = r.signer == key

abbrev pub drop_device : RelayStore → PublicKey → StoredDevice → RelayStore
drop_device s key device = record s {
  devices = put key (record device { status = revoked }) s.devices;
  acl = remove key s.acl;
  pairings = keep (λ sid p. not (p.opener == key || is_signer key p.request)) s.pairings;
}

unfoldable pub revoke : RelayStore → PublicKey → RelayStore × RevokeResult
revoke s key = elim (get key s.devices) [
  | none ↦ (s, RevokeResult.ok)
  | some device ↦
      if not (is_active device.status)
      then (s, RevokeResult.ok)
      else if is_owner device.role && leb (active_owner_count s) 1
      then (s, last_owner)
      else (drop_device s key device, RevokeResult.ok)
]

abbrev pub is_active_owner_key : RelayStore → PublicKey → Bool
is_active_owner_key s key = elim (device_role s key) [ none ↦ false | some role ↦ is_owner role ]

abbrev pub new_pairing : ℕ → PublicKey → StoredPairing
new_pairing now opener = record {
  opener = opener;
  expires_at = now + pairing_ttl_ms;
  request = none;
  grant_blob = none;
}

unfoldable pub open_pairing : RelayStore → ℕ → ℕ → PublicKey → RelayStore × Bool
open_pairing s now sid opener =
    if has sid s.pairings
      || leb max_open_pairings (count (λ p. ltb now p.expires_at) s.pairings)
      || not (is_active_owner_key s opener)
    then (s, false)
    else (record s { pairings = put sid (new_pairing now opener) s.pairings }, true)

abbrev pub is_revoked : Option StoredDevice → Bool
is_revoked none = false
is_revoked (some d) = not (is_active d.status)

unfoldable pub put_pairing_request : RelayStore → ℕ → ℕ → PublicKey → Blob → RelayStore × Bool
put_pairing_request s now sid signer blob = elim (open_session s now sid) [
  | none ↦ (s, false)
  | some p ↦
      if is_some p.request || p.opener == signer || is_revoked (get signer s.devices)
      then (s, false)
      else (
        record s {
          pairings =
              put sid (record p { request = some (record { signer = signer; blob = blob }) })
                s.pairings;
        },
        true,
      )
]

unfoldable pub get_pairing_request : RelayStore → ℕ → ℕ → PublicKey → Option Blob
get_pairing_request s now sid opener = elim (open_session s now sid) [
  | none ↦ none
  | some p ↦
      if not (p.opener == opener) || is_some p.grant_blob || not (is_active_owner_key s opener)
      then none
      else elim p.request [ none ↦ none | some r ↦ some r.blob ]
]

-- What completePairing does once the session is known to be open and the signer's row is checked.
unfoldable pub enroll :
    RelayStore
    → ℕ
    → StoredPairing
    → PublicKey
    → DeviceRole
    → List ScopeGrant
    → Blob
    → StoredDevice
    → RelayStore × CompletePairingResult
enroll s sid p key role scopes blob row =
    elim (check_grant (some row) scopes s.scopes (master_tag s.scopes)) [
      | GrantResult.ok ↦ (
        record (write_grant s key scopes) {
          devices = put key (record { role = role; status = active }) s.devices;
          pairings = put sid (record p { grant_blob = some blob }) s.pairings;
        },
        grant GrantResult.ok,
      )
      | result ↦ (s, grant result)
    ]

unfoldable pub complete_pairing :
    RelayStore
    → ℕ
    → ℕ
    → PublicKey
    → PublicKey
    → DeviceRole
    → List ScopeGrant
    → Blob
    → RelayStore × CompletePairingResult
complete_pairing s now sid opener key role scopes blob = elim (open_session s now sid) [
  | none ↦ (s, CompletePairingResult.not_found)
  | some p ↦
      if not (p.opener == opener) || is_some p.grant_blob || not (is_active_owner_key s opener)
      then (s, CompletePairingResult.not_found)
      else elim p.request [
        | none ↦ (s, CompletePairingResult.not_found)
        | some r ↦ elim (check_enrollment r.signer key (get key s.devices) role) [
          | refusal result ↦ (s, result)
          | grantee row ↦ enroll s sid p key role scopes blob row
        ]
      ]
]

unfoldable pub take_pairing_grant : RelayStore → ℕ → ℕ → PublicKey → RelayStore × Option Blob
take_pairing_grant s now sid signer = elim (open_session s now sid) [
  | none ↦ (s, none)
  | some p ↦
      if not (is_signer signer p.request) || not (is_some (device_role s signer))
      then (s, none)
      else elim p.grant_blob [
        | none ↦ (s, none)
        | some blob ↦ (record s { pairings = remove sid s.pairings }, some blob)
      ]
]

unfoldable pub put_recovery_wrap : RelayStore → Blob → RelayStore
put_recovery_wrap s blob = record s { recovery_wrap = some blob }

unfoldable pub sweep_expired : RelayStore → ℕ → RelayStore
sweep_expired s now = record s {
  pairings = keep (λ sid p. ltb now p.expires_at) s.pairings;
  codes = keep (λ hash code. code.used || ltb now code.expires_at) s.codes;
}

unfoldable pub renew_epochs : (ℕ → Text) → Map StoredDoc → Map StoredDoc
renew_epochs fresh [] = []
renew_epochs fresh ((doc, d) ∷ m) = (doc, record d { epoch = fresh doc }) ∷ renew_epochs fresh m

unfoldable pub rotate_epochs : RelayStore → (ℕ → Text) → RelayStore
rotate_epochs s fresh = record s { docs = renew_epochs fresh s.docs }
