-- ===== src/Service/App.antt =====
-- buildApp of services/sync-relay/src/app.ts: a request to its answer. The rate limiter before it is
-- the framework's, and the database is the in-memory store, which is always there.
pub mod Runs
pub mod Secrecy
pub mod Unseen
pub mod Owners
pub mod Replay
use Prim.Native.String.{String}
use text.Mathlib.Text.{◌==◌ as str_eq}
use teacher_assistant.Base.{
  ℕ, Bool, true, false, ◌&&◌, ◌||◌, not, List, [], Option, none, some, ◌==◌, ltb, ◌>>=◌,
  if◌then◌else◌,
}
use teacher_assistant.Base.Texts.{any_char, utf16_length, number_of, codes}
use teacher_assistant.Relay.Types.{
  Text, Blob, Tag, RedeemResult, first, recovery, refused, RelayStore,
}
use teacher_assistant.Relay.Cursor.{parse_cursor}
use teacher_assistant.Relay.Store
use teacher_assistant.Relay.Store.{is_active_owner_key, empty}
use teacher_assistant.Relay.Listing.{get_recovery_wrap}
use teacher_assistant.Redeem
use teacher_assistant.Redeem.{RedeemGuard}
use teacher_assistant.Service.Platform.{Bytes, Platform}
use teacher_assistant.Service.Bodies.{parse_redeem_body, parse_push_updates}
use teacher_assistant.Service.OwnerCode.{owner_code_hash}
use teacher_assistant.Service.Requests.{
  Request, NonceCache, no_nonces, VerifiedRequest, verify_request,
}
use teacher_assistant.Service.Control.{
  Response, failure, send, not_found, bad_request, unauthorized, pulled, pushed, redeemed, healthy,
  ControlRoute, owner_only, handle_control,
}

pub record Service : Type 0 where
  pub store : RelayStore
  pub nonces : NonceCache
  pub guard : RedeemGuard

-- startApp: what has expired is swept before the first request.
unfoldable pub start_app : RelayStore → ℕ → Service
start_app s now = record {
  store = Store.sweep_expired s now;
  nonces = no_nonces;
  guard = record { entries = []; burn_failures = [] };
}

abbrev pub max_id_length : ℕ
max_id_length = 256

abbrev pub reserved_control_scope : String
reserved_control_scope = "control"

abbrev pub has_nul : String → Bool
has_nul s = any_char (λ c. c == 0) s

-- A doc id or scope that no doc can have.
unfoldable pub is_impossible : String → String → Bool
is_impossible doc scope =
    str_eq scope reserved_control_scope
    || has_nul doc
    || has_nul scope
    || ltb max_id_length (utf16_length doc)
    || ltb max_id_length (utf16_length scope)

abbrev pub is_other_scope : Tag → Option Tag → Bool
is_other_scope scope none = false
is_other_scope scope (some bound) = not (bound == scope)

-- authorizeDoc past the signature: whether the doc may be shown.
unfoldable pub may_see : RelayStore → VerifiedRequest → String → Bool
may_see s v doc =
    not (is_impossible doc v.scope)
    && Store.is_authorized s (number_of v.device) (number_of v.scope)
    && not (is_other_scope (number_of v.scope) (Store.doc_scope s (number_of doc)))

abbrev pub codes_of : Option String → Option Text
codes_of none = none
codes_of (some s) = some (codes s)

-- Nothing is shown to a request that is not authorized: a 401 for one that does not verify, and the
-- 404 of an unknown doc for all others.
abbrev pub answer_pull :
    Service → String → Option String → Option VerifiedRequest → Service × Response
answer_pull a doc since none = (a, unauthorized)
answer_pull a doc since (some v) =
    if may_see a.store v doc
    then (
      a,
      (let (cursor, updates) =
            Store.fetch a.store (number_of doc) (parse_cursor (codes_of since)) in
          send (pulled cursor updates)),
    )
    else (a, not_found)

unfoldable pub pull : Platform → Service → ℕ → Request → String → Option String → Service × Response
pull P a now req doc since =
    let (nonces, verified) = verify_request P a.nonces now req in
    answer_pull (record a { nonces = nonces }) doc since verified

abbrev pub push_reply : Option Text → Response
push_reply none = not_found
push_reply (some cursor) = send (pushed cursor)

-- `fresh` is the epoch that the store mints for a new doc.
abbrev pub push_updates :
    Service → Text → VerifiedRequest → String → Option (List Blob) → Service × Response
push_updates a fresh v doc none = (a, bad_request)
push_updates a fresh v doc (some updates) =
    let (s, cursor) = Store.append a.store fresh (number_of doc) (number_of v.scope) updates in
    (record a { store = s }, push_reply cursor)

abbrev pub answer_push :
    Platform → Service → Text → String → Bytes → Option VerifiedRequest → Service × Response
answer_push P a fresh doc body none = (a, unauthorized)
answer_push P a fresh doc body (some v) =
    if may_see a.store v doc
    then push_updates a fresh v doc (parse_push_updates P body)
    else (a, not_found)

unfoldable pub push : Platform → Service → ℕ → Text → Request → String → Service × Response
push P a now fresh req doc =
    let (nonces, verified) = verify_request P a.nonces now req in
    answer_push P (record a { nonces = nonces }) fresh doc req.body verified

-- attemptRedeem's answer.
pub data Attempt : Type 0 where
  body_malformed : Attempt
  outcome : RedeemResult → Attempt

abbrev pub redeem_hash : RelayStore → ℕ → VerifiedRequest → Option ℕ → RelayStore × Attempt
redeem_hash s now v none = (s, outcome refused)
redeem_hash s now v (some hash) =
    let (s', result) = Store.redeem_owner_code s now hash (number_of v.device) in
    (s', outcome result)

abbrev pub redeem_code :
    Platform → RelayStore → ℕ → VerifiedRequest → Option String → RelayStore × Attempt
redeem_code P s now v none = (s, body_malformed)
redeem_code P s now v (some code) =
    redeem_hash (Store.sweep_expired s now) now v (owner_code_hash P code)

unfoldable pub attempt_redeem :
    Platform → RelayStore → ℕ → Option VerifiedRequest → Bytes → RelayStore × Attempt
attempt_redeem P s now none raw = (s, outcome refused)
attempt_redeem P s now (some v) raw =
    if str_eq v.scope reserved_control_scope
    then redeem_code P s now v (parse_redeem_body P raw)
    else (s, outcome refused)

-- `if (redeemGuard.fail(ip))`
abbrev pub burn_codes : Service → RedeemGuard × Bool → Service
burn_codes a (guard, true) = record a {
  store = Store.invalidate_owner_codes a.store;
  guard = Redeem.burned guard;
}
burn_codes a (guard, false) = record a { guard = guard }

unfoldable pub count_redeem_failure : Service → ℕ → ℕ → Service
count_redeem_failure a now ip = burn_codes a (Redeem.fail a.guard now ip)

abbrev pub answer_redeem : Service → ℕ → ℕ → Attempt → Service × Response
answer_redeem a now ip body_malformed =
    (record a { guard = Redeem.release a.guard now ip }, bad_request)
answer_redeem a now ip (outcome refused) = (count_redeem_failure a now ip, unauthorized)
answer_redeem a now ip (outcome first) =
    (record a { guard = Redeem.succeed a.guard now ip }, send (redeemed true none))
answer_redeem a now ip (outcome recovery) = (
  record a { guard = Redeem.succeed a.guard now ip },
  send (redeemed false (get_recovery_wrap a.store)),
)

unfoldable pub redeem : Platform → Service → ℕ → Request → Service × Response
redeem P a now req =
    let (guard, reserved) = Redeem.begin a.guard now req.ip in
    let (nonces, verified) = verify_request P a.nonces now req in
    let (s, attempt) = attempt_redeem P a.store now verified req.body in
    if reserved
    then answer_redeem (record { store = s; nonces = nonces; guard = guard }) now req.ip attempt
    else (record a { guard = guard }, failure 429 "rate_limited")

-- authorizeControl past the signature.
unfoldable pub may_control : RelayStore → ControlRoute → VerifiedRequest → Bool
may_control s route v =
    str_eq v.scope reserved_control_scope
    && (not (owner_only route) || is_active_owner_key s (number_of v.device))

abbrev pub run_control :
    Platform → Service → ℕ → ControlRoute → VerifiedRequest → Bytes → Service × Response
run_control P a now route v body =
    let (s, response) =
      handle_control P route (Store.sweep_expired a.store now) now (number_of v.device) body in
    (record a { store = s }, response)

abbrev pub answer_control :
    Platform → Service → ℕ → ControlRoute → Bytes → Option VerifiedRequest → Service × Response
answer_control P a now route body none = (a, not_found)
answer_control P a now route body (some v) =
    if may_control a.store route v then run_control P a now route v body else (a, not_found)

unfoldable pub control : Platform → Service → ℕ → ControlRoute → Request → Service × Response
control P a now route req =
    let (nonces, verified) = verify_request P a.nonces now req in
    answer_control P (record a { nonces = nonces }) now route req.body verified

pub data Endpoint : Type 0 where
  health : Endpoint
  pull_doc : String → Option String → Endpoint
  push_doc : String → Text → Endpoint
  redeem_code_route : Endpoint
  control_route : ControlRoute → Endpoint

unfoldable pub serve : Platform → Service → ℕ → Endpoint → Request → Service × Response
serve P a now health req = (a, send healthy)
serve P a now (pull_doc doc since) req = pull P a now req doc since
serve P a now (push_doc doc fresh) req = push P a now fresh req doc
serve P a now redeem_code_route req = redeem P a now req
serve P a now (control_route route) req = control P a now route req
