-- ===== src/Service/Bodies.antt =====
-- services/sync-relay/src/control-bodies.ts, and parsePushUpdates of app.ts.
use Prim.Native.String.{String, [] as no_chars, ◌∷◌ as ◌then◌}
use Prim.Native.Char.{code}
use text.Mathlib.Text.{◌==◌ as str_eq}
use teacher_assistant.Base.{
  ℕ, Bool, true, false, ◌&&◌, ◌||◌, not, List, [], ◌∷◌, Option, none, some, ◌==◌, leb, ltb, ◌>>=◌,
  if◌then◌else◌, length,
}
use teacher_assistant.Base.Texts.{all_chars, is_end, utf16_length, number_of, in_range, repeat_then}
use teacher_assistant.Relay.Types.{DeviceRole, owner, member, ScopeKind, master, period, ScopeGrant}
use teacher_assistant.Service.Json.{
  Json, null, boolean, number, string, array, object, Fields, items, keys, property,
}
use teacher_assistant.Service.Platform.{Bytes, Platform}

abbrev pub max_key_length : ℕ
max_key_length = 256

abbrev pub max_grant_scopes : ℕ
max_grant_scopes = 16

abbrev pub max_blob_length : ℕ
max_blob_length = 4_096

-- [A-Za-z0-9+/_-]
abbrev pub is_base64_char : ℕ → Bool
is_base64_char c =
    in_range b'A' b'Z' c
    || in_range b'a' b'z' c
    || in_range b'0' b'9' c
    || c == b'+'
    || c == b'/'
    || c == b'_'
    || c == b'-'

-- [0-9a-f]
abbrev pub is_hex : ℕ → Bool
is_hex c = in_range b'0' b'9' c || in_range b'a' b'f' c

-- ={0,1} and the end
abbrev pub one_pad : String → Bool
one_pad no_chars = true
one_pad (c then s) = code c == b'=' && is_end s

-- /^[A-Za-z0-9+/_-]*={0,2}$/
unfoldable pub is_base64 : String → Bool
is_base64 no_chars = true
is_base64 (c then s) = if is_base64_char (code c) then is_base64 s else code c == b'=' && one_pad s

-- /^[A-Za-z0-9+/_-]+={0,2}$/
unfoldable pub is_key_text : String → Bool
is_key_text no_chars = false
is_key_text (c then s) = is_base64_char (code c) && is_base64 s

abbrev pub dash : (String → Bool) → String → Bool
dash rest = repeat_then 1 (λ c. c == b'-') rest

-- /^[0-9a-f]{8}-[0-9a-f]{4}-[0-9a-f]{4}-[0-9a-f]{4}-[0-9a-f]{12}$/
unfoldable pub is_scope_tag : String → Bool
is_scope_tag = repeat_then 8 is_hex (
    dash (
      repeat_then 4 is_hex (
        dash (
          repeat_then 4 is_hex
            (dash (repeat_then 4 is_hex (dash (repeat_then 12 is_hex is_end))))))))

-- /^[0-9a-f]{32}$/
unfoldable pub is_sid : String → Bool
is_sid = repeat_then 32 is_hex is_end

-- /^[A-Za-z0-9+/_.=-]+$/
unfoldable pub is_blob_text : String → Bool
is_blob_text s = not (is_end s) && all_chars (λ c. is_base64_char c || c == b'.' || c == b'=') s

unfoldable pub is_device_key : String → Bool
is_device_key s = leb (utf16_length s) max_key_length && is_key_text s

-- A parsed body, a blob over 4 KiB (413), or a malformed one (400).
pub data Parsed (A : Type 0) : Type 0 where
  malformed too_large : Parsed A
  parsed : A → Parsed A

abbrev pub includes : List String → String → Bool
includes [] k = false
includes (x ∷ xs) k = str_eq x k || includes xs k

unfoldable pub includes_all : List String → List String → Bool
includes_all own [] = true
includes_all own (k ∷ ks) = includes own k && includes_all own ks

unfoldable pub exact_keys : Json → List String → Option Fields
exact_keys (object fs) names =
    if length (keys fs) == length names && includes_all (keys fs) names then some fs else none
exact_keys null names = none
exact_keys (boolean b) names = none
exact_keys (number n) names = none
exact_keys (string s) names = none
exact_keys (array vs) names = none

-- A property that is a string.
abbrev pub as_text : Option Json → Option String
as_text (some (string s)) = some s
as_text _ = none

abbrev pub text_property : String → Fields → Option String
text_property k fs = as_text (property k fs)

-- The string, where it passes the test.
abbrev pub only_if : (String → Bool) → String → Option String
only_if p s = if p s then some s else none

abbrev pub parse_kind : String → Option ScopeKind
parse_kind s =
    if str_eq s "master" then some master else if str_eq s "period" then some period else none

unfoldable pub parse_scope : Json → Option ScopeGrant
parse_scope v = do
  scope ← exact_keys v ("tag" ∷ "kind" ∷ [])
  tag ← text_property "tag" scope
  good ← only_if is_scope_tag tag
  kind_text ← text_property "kind" scope
  kind ← parse_kind kind_text
  some (record { tag = number_of good; kind = kind })

unfoldable pub parse_each : List Json → Option (List ScopeGrant)
parse_each [] = some []
parse_each (v ∷ vs) = do g ← parse_scope v; gs ← parse_each vs; some (g ∷ gs)

unfoldable pub parse_scopes : Option Json → Option (List ScopeGrant)
parse_scopes (some (array vs)) =
    if leb 1 (length (items vs)) && leb (length (items vs)) max_grant_scopes
    then parse_each (items vs)
    else none
parse_scopes _ = none

unfoldable pub parse_blob : Option String → Parsed String
parse_blob none = malformed
parse_blob (some s) =
    if not (is_blob_text s)
    then malformed
    else if ltb max_blob_length (utf16_length s)
    then too_large
    else parsed s

abbrev pub parse_role : String → Option DeviceRole
parse_role s =
    if str_eq s "teacher" then some owner else if str_eq s "para" then some member else none

abbrev pub blob_with : {B : Type 0} → (String → B) → Parsed String → Parsed B
blob_with f malformed = malformed
blob_with f too_large = too_large
blob_with f (parsed s) = parsed (f s)

abbrev pub or_malformed : {A : Type 0} → Option (Parsed A) → Parsed A
or_malformed none = malformed
or_malformed (some p) = p

pub record GrantBody : Type 0 where
  pub device : String
  pub scopes : List ScopeGrant

pub record RequestBody : Type 0 where
  pub sid : String
  pub blob : String

pub record PairingGrantBody : Type 0 where
  pub sid : String
  pub device : String
  pub role : DeviceRole
  pub scopes : List ScopeGrant
  pub blob : String

module _ (P : Platform) where
  unfoldable pub exact_object : Bytes → List String → Option Fields
  exact_object raw names = do v ← P.parse_json raw; exact_keys v names

  unfoldable pub parse_redeem_body : Bytes → Option String
  parse_redeem_body raw = do body ← exact_object raw ("code" ∷ []); text_property "code" body

  unfoldable pub parse_list_body : Bytes → Option (Unit {0})
  parse_list_body raw = do body ← exact_object raw []; some tt

  unfoldable pub parse_grant_body : Bytes → Option GrantBody
  parse_grant_body raw = do
    body ← exact_object raw ("device" ∷ "scopes" ∷ [])
    scopes ← parse_scopes (property "scopes" body)
    key ← text_property "device" body
    device ← only_if is_device_key key
    some (record { device = device; scopes = scopes })

  unfoldable pub parse_revoke_body : Bytes → Option String
  parse_revoke_body raw = do
    body ← exact_object raw ("device" ∷ [])
    key ← text_property "device" body
    only_if is_device_key key

  unfoldable pub parse_retire_body : Bytes → Option String
  parse_retire_body raw = do
    body ← exact_object raw ("tag" ∷ [])
    tag ← text_property "tag" body
    only_if is_scope_tag tag

  unfoldable pub parse_recovery_wrap_body : Bytes → Parsed String
  parse_recovery_wrap_body raw =
      or_malformed
        do body ← exact_object raw ("blob" ∷ []); some (parse_blob (text_property "blob" body))

  unfoldable pub parse_pairing_sid_body : Bytes → Option String
  parse_pairing_sid_body raw = do
    body ← exact_object raw ("sid" ∷ [])
    sid ← text_property "sid" body
    only_if is_sid sid

  unfoldable pub parse_pairing_request_body : Bytes → Parsed RequestBody
  parse_pairing_request_body raw = or_malformed do
    body ← exact_object raw ("sid" ∷ "blob" ∷ [])
    given ← text_property "sid" body
    sid ← only_if is_sid given
    some (blob_with (λ b. record { sid = sid; blob = b }) (parse_blob (text_property "blob" body)))

  unfoldable pub parse_pairing_grant_body : Bytes → Parsed PairingGrantBody
  parse_pairing_grant_body raw = or_malformed do
    body ← exact_object raw ("sid" ∷ "device" ∷ "role" ∷ "scopes" ∷ "blob" ∷ [])
    given ← text_property "sid" body
    sid ← only_if is_sid given
    key ← text_property "device" body
    device ← only_if is_device_key key
    role_text ← text_property "role" body
    role ← parse_role role_text
    scopes ← parse_scopes (property "scopes" body)
    some (
        blob_with
          (λ b. record { sid = sid; device = device; role = role; scopes = scopes; blob = b })
          (parse_blob (text_property "blob" body)))

  -- Every element a base64 string.
  unfoldable pub base64_texts : List Json → Option (List String)
  base64_texts [] = some []
  base64_texts (v ∷ vs) = do
    s ← as_text (some v)
    good ← only_if is_base64 s
    rest ← base64_texts vs
    some (good ∷ rest)

  abbrev pub as_array : Option Json → Option (List Json)
  as_array (some (array vs)) = some (items vs)
  as_array _ = none

  -- `parsed?.updates`: an array or a string has no such property, and null none at all.
  abbrev pub fields_of : Json → Option Fields
  fields_of (object fs) = some fs
  fields_of _ = none

  unfoldable pub parse_push_updates : Bytes → Option (List String)
  parse_push_updates raw = do
    v ← P.parse_json raw
    fs ← fields_of v
    updates ← as_array (property "updates" fs)
    base64_texts updates
