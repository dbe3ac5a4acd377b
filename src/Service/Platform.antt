-- ===== src/Service/Platform.antt =====
-- What the service takes from the platform and from libsodium.
use Prim.Native.String.{String}
use teacher_assistant.Base.{ℕ, Bool, List, Option}
use teacher_assistant.Service.Json.{Json}

abbrev pub Bytes : Type 0
Bytes = List ℕ

pub record Platform : Type 0 where
  -- JSON.parse of the decoded bytes; none where it throws.
  pub parse_json : Bytes → Option Json
  -- TextEncoder
  pub utf8 : String → Bytes
  -- `Math.abs(now - Number(text))`, rounded up; none where the text is no finite number.
  pub clock_skew : ℕ → String → Option ℕ
  -- verifyDetached of the signature, the message and the device key, each from base64; false where
  -- the base64 is malformed.
  pub verify : String → Bytes → String → Bool
  -- toUpperCase, the white space of regular expressions, and SHA-256 as a number.
  pub to_upper : List ℕ → List ℕ
  pub is_space : ℕ → Bool
  pub sha256 : List ℕ → ℕ
