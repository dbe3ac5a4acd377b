-- ===== src/Relay/Grants.antt =====
-- checkScope, checkGrant, checkEnrollment and #writeGrant of services/sync-relay/src/store.ts.
pub mod Checks
pub mod Effects
use teacher_assistant.Base.{
  Bool, false, ◌&&◌, not, List, [], ◌∷◌, ◌++◌, Option, none, some, ◌==◌, is_some, if◌then◌else◌,
  contains,
}
use teacher_assistant.Base.Map.{Map, get, put, has}
use teacher_assistant.Relay.Types.{
  PublicKey, Tag, DeviceRole, active, ScopeGrant, GrantResult, kind_conflict, member_master,
  second_master, not_active, retired, StoredDevice, StoredScope, ScopeKind, CompletePairingResult,
  device_mismatch, role_conflict, is_active, is_owner, is_master, same_kind, same_role,
}

-- `existing !== undefined && existing.kind !== kind`
abbrev pub kind_differs : Option StoredScope → ScopeKind → Bool
kind_differs none kind = false
kind_differs (some scope) kind = not (same_kind scope.kind kind)

-- `existing?.retired === true`
abbrev pub is_retired : Option StoredScope → Bool
is_retired none = false
is_retired (some scope) = scope.retired

unfoldable pub check_scope : DeviceRole → ScopeGrant → Option StoredScope → Option Tag → GrantResult
check_scope role g existing master_tag =
    if kind_differs existing g.kind
    then kind_conflict
    else if is_retired existing
    then retired
    else if is_master g.kind && not (is_owner role)
    then member_master
    else if is_master g.kind && not (is_some existing) && is_some master_tag
    then second_master
    else GrantResult.ok

-- The loop of checkGrant, over `seen` and `master`.
unfoldable pub check_scopes :
    DeviceRole → List ScopeGrant → Map StoredScope → Option Tag → GrantResult
check_scopes role [] seen master_tag = GrantResult.ok
check_scopes role (g ∷ gs) seen master_tag = elim (check_scope role g (get g.tag seen) master_tag) [
  | GrantResult.ok ↦
      check_scopes role gs (put g.tag (record { kind = g.kind; retired = false }) seen)
        (if is_master g.kind then some g.tag else master_tag)
  | refusal ↦ refusal
]

unfoldable pub check_grant :
    Option StoredDevice → List ScopeGrant → Map StoredScope → Option Tag → GrantResult
check_grant none requested known master_tag = not_active
check_grant (some device) requested known master_tag =
    if is_active device.status
    then check_scopes device.role requested known master_tag
    else not_active

-- The result of checkEnrollment: a refusal or the device row to pass to checkGrant.
pub data Enrollment : Type 0 where
  refusal : CompletePairingResult → Enrollment
  grantee : StoredDevice → Enrollment

-- `existing?.status === "active" && existing.role !== role`
abbrev pub holds_other_role : Option StoredDevice → DeviceRole → Bool
holds_other_role none role = false
holds_other_role (some d) role = is_active d.status && not (same_role d.role role)

-- `existing ?? { role, status: "active" }`
abbrev pub row_or_new : Option StoredDevice → DeviceRole → StoredDevice
row_or_new none role = record { role = role; status = active }
row_or_new (some d) role = d

unfoldable pub check_enrollment :
    PublicKey → PublicKey → Option StoredDevice → DeviceRole → Enrollment
check_enrollment request_signer device existing role =
    if not (request_signer == device)
    then refusal device_mismatch
    else if holds_other_role existing role
    then refusal role_conflict
    else grantee (row_or_new existing role)

-- `Set.add`
abbrev pub add : Tag → List Tag → List Tag
add t tags = if contains t tags then tags else tags ++ t ∷ []

-- The loop of #writeGrant, over the scopes and the device's set of tags.
abbrev pub write_scope : ScopeGrant → Map StoredScope → Map StoredScope
write_scope g scopes =
    if has g.tag scopes
    then scopes
    else put g.tag (record { kind = g.kind; retired = false }) scopes

unfoldable pub write_scopes : List ScopeGrant → Map StoredScope → Map StoredScope
write_scopes [] scopes = scopes
write_scopes (g ∷ gs) scopes = write_scopes gs (write_scope g scopes)

unfoldable pub write_tags : List ScopeGrant → List Tag → List Tag
write_tags [] tags = tags
write_tags (g ∷ gs) tags = write_tags gs (add g.tag tags)
