-- ===== src/Relay/Listing.antt =====
-- listDevices and getRecoveryWrap of services/sync-relay/src/store.ts.
pub mod Safety
use teacher_assistant.Base.{ℕ, List, [], ◌∷◌, map, Option, none, some, leb, ◌>>=◌, if◌then◌else◌}
use teacher_assistant.Base.Map.{Map, get}
use teacher_assistant.Relay.Types.{
  PublicKey, Tag, Blob, ScopeListing, DeviceListing, StoredDevice, StoredScope, RelayStore,
}
use teacher_assistant.Relay.Store.{tags_of}

unfoldable pub get_recovery_wrap : RelayStore → Option Blob
get_recovery_wrap s = s.recovery_wrap

-- `sort()` of strings that are all different.
unfoldable pub insert_id : ℕ → List ℕ → List ℕ
insert_id x [] = x ∷ []
insert_id x (y ∷ ys) = if leb x y then x ∷ y ∷ ys else y ∷ insert_id x ys

unfoldable pub sort_ids : List ℕ → List ℕ
sort_ids [] = []
sort_ids (x ∷ xs) = insert_id x (sort_ids xs)

-- None where a tag has no scope: there the source reads a field of undefined, and throws.
unfoldable pub scope_listings : Map StoredScope → List Tag → Option (List ScopeListing)
scope_listings scopes [] = some []
scope_listings scopes (t ∷ ts) = do
  scope ← get t scopes
  rest ← scope_listings scopes ts
  some (record { tag = t; kind = scope.kind; retired = scope.retired } ∷ rest)

unfoldable pub device_listing : RelayStore → PublicKey → Option DeviceListing
device_listing s key = do
  d ← get key s.devices
  scopes ← scope_listings s.scopes (sort_ids (tags_of (get key s.acl)))
  some (record { device = key; role = d.role; status = d.status; scopes = scopes })

unfoldable pub device_listings : RelayStore → List PublicKey → Option (List DeviceListing)
device_listings s [] = some []
device_listings s (key ∷ keys) = do
  d ← device_listing s key
  rest ← device_listings s keys
  some (d ∷ rest)

unfoldable pub list_devices : RelayStore → Option (List DeviceListing)
list_devices s = device_listings s (sort_ids (map (λ e. e.0) s.devices))
