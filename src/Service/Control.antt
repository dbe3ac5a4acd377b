-- ===== src/Service/Control.antt =====
-- The control routes of services/sync-relay/src/app.ts: who may call each, and what it does to the
-- store once the request is authorized.
use Prim.Native.String.{String}
use teacher_assistant.Base.{ℕ, Bool, true, false, List, Option, none, some, if◌then◌else◌}
use teacher_assistant.Base.Texts.{number_of}
use teacher_assistant.Relay.Types.{
  Text, Blob, GrantResult, RetireResult, master_scope, RevokeResult, CompletePairingResult, grant,
  DeviceListing, RelayStore,
}
use teacher_assistant.Relay.Store
use teacher_assistant.Relay.Listing.{list_devices}
use teacher_assistant.Service.Platform.{Bytes, Platform}
use teacher_assistant.Service.Bodies.{
  Parsed, malformed, too_large, parsed, parse_list_body, parse_grant_body, parse_revoke_body,
  parse_retire_body, parse_recovery_wrap_body, parse_pairing_sid_body, parse_pairing_request_body,
  parse_pairing_grant_body,
}

-- What a reply carries; `record_id` is a random id, and left out.
pub data Payload : Type 0 where
  error : String → Payload
  pulled : Text → List Blob → Payload
  pushed : Text → Payload
  redeemed : Bool → Option Blob → Payload
  devices : List DeviceListing → Payload
  a_blob : Blob → Payload
  nothing : Payload
  healthy : Payload

pub record Response : Type 0 where
  pub status : ℕ
  pub payload : Payload

abbrev pub failure : ℕ → String → Response
failure status code = record { status = status; payload = error code }

abbrev pub send : Payload → Response
send payload = record { status = 200; payload = payload }

abbrev pub not_found : Response
not_found = failure 404 "not_found"

abbrev pub bad_request : Response
bad_request = failure 400 "bad_request"

abbrev pub unauthorized : Response
unauthorized = failure 401 "unauthorized"

abbrev pub conflict : String → Response
conflict code = failure 409 code

abbrev pub payload_too_large : Response
payload_too_large = failure 413 "payload_too_large"

abbrev pub unavailable : Response
unavailable = failure 503 "unavailable"

-- OWNER_ROUTES and PAIRING_ROUTES
pub data ControlRoute : Type 0 where
  list grant_scopes revoke retire_scope recovery_wrap : ControlRoute
  pairing_open request_put request_get grant_put grant_get : ControlRoute

-- "any" access is that of the two routes of the device that joins.
unfoldable pub owner_only : ControlRoute → Bool
owner_only list = true
owner_only grant_scopes = true
owner_only revoke = true
owner_only retire_scope = true
owner_only recovery_wrap = true
owner_only pairing_open = true
owner_only request_put = false
owner_only request_get = true
owner_only grant_put = true
owner_only grant_get = false

abbrev pub send_blob : Option Blob → Response
send_blob none = not_found
send_blob (some blob) = send (a_blob blob)

abbrev pub send_if : Bool → Response
send_if ok = if ok then send nothing else not_found

abbrev pub grant_reply : GrantResult → Response
grant_reply GrantResult.ok = send nothing
grant_reply _ = conflict "conflict"

abbrev pub revoke_reply : RevokeResult → Response
revoke_reply RevokeResult.ok = send nothing
revoke_reply _ = conflict "last_owner"

abbrev pub retire_reply : RetireResult → Response
retire_reply RetireResult.ok = send nothing
retire_reply master_scope = conflict "master_scope"
retire_reply RetireResult.not_found = not_found

abbrev pub complete_reply : CompletePairingResult → Response
complete_reply (grant GrantResult.ok) = send nothing
complete_reply CompletePairingResult.not_found = not_found
complete_reply _ = conflict "conflict"

-- listDevices throws where a tag has no scope.
abbrev pub list_reply : Option (List DeviceListing) → Response
list_reply none = unavailable
list_reply (some ds) = send (devices ds)

-- A body that does not parse is a 400, and one whose blob is too large a 413.
abbrev pub with_body :
    {A : Type 0} → RelayStore → Option A → (A → RelayStore × Response) → RelayStore × Response
with_body s none handle = (s, bad_request)
with_body s (some body) handle = handle body

abbrev pub with_parsed :
    {A : Type 0} → RelayStore → Parsed A → (A → RelayStore × Response) → RelayStore × Response
with_parsed s malformed handle = (s, bad_request)
with_parsed s too_large handle = (s, payload_too_large)
with_parsed s (parsed body) handle = handle body

-- The handler of each route, on a store that is already swept.
unfoldable pub handle_control :
    Platform → ControlRoute → RelayStore → ℕ → ℕ → Bytes → RelayStore × Response
handle_control P list s now signer raw =
    with_body s (parse_list_body P raw) λ body. (s, list_reply (list_devices s))
handle_control P grant_scopes s now signer raw = with_body s (parse_grant_body P raw) λ body.
    let (s', result) = Store.grant_scopes s (number_of body.device) body.scopes in
    (s', grant_reply result)
handle_control P revoke s now signer raw =
    with_body s (parse_revoke_body P raw)
      λ device. let (s', result) = Store.revoke s (number_of device) in (s', revoke_reply result)
handle_control P retire_scope s now signer raw =
    with_body s (parse_retire_body P raw)
      λ tag. let (s', result) = Store.retire_scope s (number_of tag) in (s', retire_reply result)
handle_control P recovery_wrap s now signer raw =
    with_parsed s (parse_recovery_wrap_body P raw)
      λ blob. (Store.put_recovery_wrap s blob, send nothing)
handle_control P pairing_open s now signer raw =
    with_body s (parse_pairing_sid_body P raw)
      λ sid. let (s', ok) = Store.open_pairing s now (number_of sid) signer in (s', send_if ok)
handle_control P request_put s now signer raw =
    with_parsed s (parse_pairing_request_body P raw) λ body.
      let (s', ok) = Store.put_pairing_request s now (number_of body.sid) signer body.blob in
      (s', send_if ok)
handle_control P request_get s now signer raw =
    with_body s (parse_pairing_sid_body P raw)
      λ sid. (s, send_blob (Store.get_pairing_request s now (number_of sid) signer))
handle_control P grant_put s now signer raw = with_parsed s (parse_pairing_grant_body P raw) λ body.
    let (s', result) =
      Store.complete_pairing s now (number_of body.sid) signer (number_of body.device) body.role
        body.scopes body.blob in
    (s', complete_reply result)
handle_control P grant_get s now signer raw = with_body s (parse_pairing_sid_body P raw) λ sid.
    let (s', blob) = Store.take_pairing_grant s now (number_of sid) signer in (s', send_blob blob)
