-- ===== src/Tests/Service.antt =====
-- A relay service from its first day, over a platform that reads four bodies and takes a signature
-- for good that says so, and the theorems on the service at it.
mod Theorems
use Prim.Native.String.{String}
use text.Mathlib.Text.{◌==◌ as str_eq}
use teacher_assistant.Base.{
  ℕ, ◌+◌, ◌-◌, ◌≡◌, refl, Bool, true, false, List, [], ◌∷◌, Option, none, some, ◌==◌, arith,
  if◌then◌else◌,
}
use teacher_assistant.Base.Map.{get, put, remove, keep}
use teacher_assistant.Base.Texts.{number_of, codes, repeat_then, all_chars, any_char, utf16_length}
use teacher_assistant.Relay.Types.{Text, RelayStore}
use teacher_assistant.Relay.Cursor.{format_cursor, parse_cursor, decimal, digits_of}
use teacher_assistant.Relay.Store
use teacher_assistant.Relay.Store.{empty, device_role, is_authorized, doc_scope}
use teacher_assistant.Redeem
use teacher_assistant.Service.Json.{
  Json, string, array, object, no_items, item, no_fields, field, items, keys, property,
}
use teacher_assistant.Service.Platform.{Bytes, Platform}
use teacher_assistant.Service.Bodies.{
  is_scope_tag, is_device_key, is_key_text, is_base64, includes_all, exact_keys, exact_object,
  parse_scope, parse_each, parse_scopes, parse_grant_body, parse_redeem_body, base64_texts,
  parse_push_updates,
}
use teacher_assistant.Service.OwnerCode.{canonical_owner_code, owner_code_hash}
use teacher_assistant.Service.Requests.{
  Request, offer, headers_of, well_signed, signed_headers, verify_request,
}
use teacher_assistant.Service.Control.{
  ControlRoute, owner_only, handle_control, not_found, unauthorized, send, pulled, pushed, redeemed,
  nothing,
}
use teacher_assistant.Service.App.{
  Service, start_app, is_impossible, may_see, may_control, pull, push, attempt_redeem,
  count_redeem_failure, redeem, control, pull_doc, push_doc, redeem_code_route, control_route,
  serve,
}
use teacher_assistant.Tests.Relay.{relay}
use teacher_assistant.Service.App.Owners.{Instant, History, started, request, issue}

-- What the tests compute with.
unfoldable pub service : Unit {0}
unfolding get put remove keep repeat_then all_chars any_char utf16_length number_of format_cursor
    parse_cursor device_role is_authorized doc_scope items keys property is_scope_tag is_device_key
    is_key_text is_base64 includes_all exact_keys exact_object parse_scope parse_each parse_scopes
    parse_grant_body parse_redeem_body base64_texts parse_push_updates canonical_owner_code
    owner_code_hash offer headers_of well_signed signed_headers verify_request owner_only
    handle_control start_app is_impossible may_see may_control pull push attempt_redeem
    count_redeem_failure redeem control serve Redeem.is_blocked Redeem.sweep Redeem.current
    Redeem.change Redeem.reserve Redeem.end_attempt Redeem.count_on Redeem.begin Redeem.release
    Redeem.recent Redeem.fail Redeem.succeed Store.sweep_expired Store.fetch decimal digits_of relay
service = tt

abbrev pub period_tag : String
period_tag = "01234567-89ab-cdef-0123-456789abcdef"

abbrev pub master_tag : String
master_tag = "00000000-0000-0000-0000-000000000000"

abbrev pub a_scope : String → String → Json
a_scope tag kind = object (field "tag" (string tag) (field "kind" (string kind) no_fields))

abbrev redeem_body : Json
redeem_body = object (field "code" (string "0123-4567-89AB-CDEF-GHJK-MNPQ-RS") no_fields)

abbrev grant_body : Json
grant_body = object (
    field "device" (string "K") (
      field "scopes"
        (array (item (a_scope master_tag "master") (item (a_scope period_tag "period") no_items)))
        no_fields))

abbrev push_body : Json
push_body = object (field "updates" (array (item (string "AA==") no_items)) no_fields)

abbrev pub read_body : Bytes → Option Json
read_body (n ∷ []) =
    if n == 1
    then some redeem_body
    else if n == 2
    then some grant_body
    else if n == 3
    then some push_body
    else none
read_body _ = none

abbrev pub platform : Platform
platform = record {
  parse_json = read_body;
  utf8 = codes;
  clock_skew = λ now text. some ((now - 1_000) + (1_000 - now));
  verify = λ sig message key. str_eq sig "good";
  to_upper = λ t. t;
  is_space = λ c. c == 32;
  sha256 = λ t. 7;
}

abbrev pub signed : String → String → String → Bytes → Request
signed device scope nonce body = record {
  method = "POST";
  url = "/sync";
  device = some device;
  scope = some scope;
  timestamp = some "1000";
  nonce = some nonce;
  signature = some "good";
  body = body;
  ip = 1;
}

abbrev pub day_0 : Instant
day_0 = record { now = 1; service = start_app empty 1 }

abbrev pub issued : Instant
issued = record {
  now = 2;
  service = record (day_0.service) {
    store = (Store.issue_owner_code day_0.service.store 7 9_000).0;
  };
}

abbrev pub enrolled : Instant
enrolled = record {
  now = 3;
  service =
      (serve platform issued.service 3 redeem_code_route (signed "K" "control" "a" (1 ∷ []))).0;
}

abbrev pub granted : Instant
granted = record {
  now = 4;
  service =
      (serve platform enrolled.service 4 (control_route ControlRoute.grant_scopes)
        (signed "K" "control" "b" (2 ∷ []))).0;
}

abbrev pub epoch : Text
epoch = codes "e"

abbrev pub written : Instant
written = record {
  now = 5;
  service =
      (serve platform granted.service 5 (push_doc "d" epoch)
        (signed "K" period_tag "c" (3 ∷ []))).0;
}

pub written-History : History platform day_0 written
written-History =
    request
      (request
        (request (issue started 2 7 9_000 (omega arith)) 3 redeem_code_route
          (signed "K" "control" "a" (1 ∷ [])) (omega arith))
        4 (control_route ControlRoute.grant_scopes) (signed "K" "control" "b" (2 ∷ []))
        (omega arith))
      5 (push_doc "d" epoch) (signed "K" period_tag "c" (3 ∷ [])) (omega arith)

redeem_test :
    (serve platform issued.service 3 redeem_code_route (signed "K" "control" "a" (1 ∷ []))).1
    ≡ send (redeemed true none)
unfolding service
redeem_test = refl

grant_test :
    (serve platform enrolled.service 4
      (control_route ControlRoute.grant_scopes)
      (signed "K" "control" "b" (2 ∷ []))).1
    ≡ send nothing
unfolding service
grant_test = refl

pull_test :
    (pull platform written.service 6 (signed "K" period_tag "e" []) "d" none).1
    ≡ send (pulled (codes "e.1") ("AA==" ∷ []))
unfolding service
pull_test = refl
