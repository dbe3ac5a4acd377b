-- ===== src/Service/Requests.antt =====
-- The signed request: NonceCache and verifyRequest of services/sync-relay/src/app.ts, and
-- canonicalRequest of packages/schema/src/sync-protocol.ts.
use Prim.Native.String.{String, ◌++◌ as ◌<>◌}
use teacher_assistant.Base.{
  ℕ, ◌+◌, Bool, true, false, [], ◌++◌, Option, none, some, ltb, ◌>>=◌, if◌then◌else◌,
}
use teacher_assistant.Base.Map.{Map, get, put, keep}
use teacher_assistant.Base.Texts.{is_end, number_of}
use teacher_assistant.Service.Platform.{Bytes, Platform}

abbrev pub timestamp_window_ms : ℕ
timestamp_window_ms = 300_000

-- The five headers, and what the signature covers besides.
pub record Request : Type 0 where
  pub method : String
  pub url : String
  pub device : Option String
  pub scope : Option String
  pub timestamp : Option String
  pub nonce : Option String
  pub signature : Option String
  pub body : Bytes
  pub ip : ℕ

pub record NonceCache : Type 0 where
  pub seen : Map ℕ
  pub ops_since_sweep : ℕ

abbrev pub no_nonces : NonceCache
no_nonces = record { seen = []; ops_since_sweep = 0 }

abbrev pub nonce_key : String → String → ℕ
nonce_key device nonce = number_of (device <> ":" <> nonce)

abbrev pub is_live : ℕ → Option ℕ → Bool
is_live now none = false
is_live now (some expiry) = ltb now expiry

-- The sweep of every thousandth offer.
abbrev pub swept : NonceCache → ℕ → NonceCache
swept c now =
    if ltb 1_000 c.ops_since_sweep
    then record { seen = keep (λ k exp. ltb now exp) c.seen; ops_since_sweep = 0 }
    else c

unfoldable pub offer : NonceCache → ℕ → ℕ → NonceCache × Bool
offer c key now = if is_live now (get key c.seen) then (c, false) else (
  swept
      (record {
        seen = put key (now + timestamp_window_ms) c.seen;
        ops_since_sweep = c.ops_since_sweep + 1;
      })
      now,
  true,
)

pub record VerifiedRequest : Type 0 where
  pub device : String
  pub scope : String

unfoldable pub canonical_request :
    Platform → String → String → String → String → String → Bytes → Bytes
canonical_request P method path scope timestamp nonce body =
    P.utf8 (method <> "\n" <> path <> "\n" <> scope <> "\n" <> timestamp <> "\n" <> nonce <> "\n")
    ++ body

-- A header that is there and not empty.
abbrev pub present : Option String → Option String
present none = none
present (some s) = if is_end s then none else some s

abbrev pub in_window : Option ℕ → Option (Unit {0})
in_window none = none
in_window (some skew) = if ltb timestamp_window_ms skew then none else some tt

pub record SignedHeaders : Type 0 where
  pub device : String
  pub scope : String
  pub timestamp : String
  pub nonce : String
  pub signature : String

unfoldable pub headers_of : Request → Option SignedHeaders
headers_of req = do
  device ← present req.device
  scope ← present req.scope
  timestamp ← present req.timestamp
  nonce ← present req.nonce
  signature ← present req.signature
  some (record {
    device = device;
    scope = scope;
    timestamp = timestamp;
    nonce = nonce;
    signature = signature;
  })

unfoldable pub well_signed : Platform → ℕ → Request → SignedHeaders → Option SignedHeaders
well_signed P now req h = do
  fresh ← in_window (P.clock_skew now h.timestamp)
  if P.verify h.signature
        (canonical_request P req.method req.url h.scope h.timestamp h.nonce req.body) h.device
      then some h
      else none

-- The headers of a request that is in the window and well signed, before its nonce is looked at.
unfoldable pub signed_headers : Platform → ℕ → Request → Option SignedHeaders
signed_headers P now req = headers_of req >>= well_signed P now req

abbrev pub if_fresh : SignedHeaders → NonceCache × Bool → NonceCache × Option VerifiedRequest
if_fresh h (c, true) = (c, some (record { device = h.device; scope = h.scope }))
if_fresh h (c, false) = (c, none)

abbrev pub offer_nonce : NonceCache → ℕ → Option SignedHeaders → NonceCache × Option VerifiedRequest
offer_nonce c now none = (c, none)
offer_nonce c now (some h) = if_fresh h (offer c (nonce_key h.device h.nonce) now)

unfoldable pub verify_request :
    Platform → NonceCache → ℕ → Request → NonceCache × Option VerifiedRequest
verify_request P c now req = offer_nonce c now (signed_headers P now req)
