-- ===== src/Tests/Service/Theorems.antt =====
-- The theorems on the relay service at the service of the first day, and at a stranger's requests.
use text.Mathlib.Text.{◌==◌ as str_eq}
use teacher_assistant.Base.{
  ℕ, ◌+◌, ◌≡◌, refl, ap, ◌⊎◌, true, Option, List, [], ◌∷◌, none, some, arith,
}
use teacher_assistant.Base.Map.{get, put}
use teacher_assistant.Base.Texts.{number_of, codes}
use teacher_assistant.Relay.Types.{
  member, active, period, StoredDevice, StoredScope, StoredDoc, RelayStore,
}
use teacher_assistant.Relay.Store.{doc_scope}
use teacher_assistant.Service.OwnerCode.{new_owner_code, format_owner_code, canonical_owner_code}
use teacher_assistant.Service.OwnerCode.RoundTrip.{
  IsAscii, is_printed, canonical_owner_code-format_owner_code,
}
use teacher_assistant.Service.Requests.{
  NonceCache, no_nonces, VerifiedRequest, SignedHeaders, timestamp_window_ms, verify_request,
}
use teacher_assistant.Service.Control.{ControlRoute, send, pulled, not_found}
use teacher_assistant.Service.App.{Service, pull, push, control, reserved_control_scope}
use teacher_assistant.Service.App.Unseen.{Elsewhere, start, pushes, other_scopes_unseen}
use teacher_assistant.Service.App.Owners.{control_refused, pull_allowed, IsOwner}
use teacher_assistant.Service.App.Replay.{verify_each, replay_refused, replay_accepted}
use teacher_assistant.Tests.Service.{
  service, platform, signed, period_tag, master_tag, granted, written, written-History, epoch,
}

control_refused_example :
    (control platform granted.service 6 ControlRoute.list (signed "M" "control" "q" []) ≡ (
      record (granted.service) {
        nonces = (verify_request platform granted.service.nonces 6 (signed "M" "control" "q" [])).0;
      },
      not_found,
    ))
    ⊎ ((v : VerifiedRequest) × ((verify_request platform granted.service.nonces 6
            (signed "M" "control" "q" [])).1
          ≡ some v)
        × (str_eq v.scope reserved_control_scope ≡ true)
        × IsOwner granted.service.store v)
unfolding service
control_refused_example =
    control_refused platform granted.service 6 ControlRoute.list (signed "M" "control" "q" []) refl

pull_allowed_example :
    (v : VerifiedRequest) × (d : StoredDevice) × (x : StoredScope) × ((verify_request platform
        written.service.nonces 6
        (signed "K" period_tag "e" [])).1
      ≡ some v)
    × (get (number_of v.device) written.service.store.devices ≡ some d)
    × (d.status ≡ active)
    × (get (number_of v.scope) written.service.store.scopes ≡ some x)
    × (d.role ≡ member → x.kind ≡ period)
    × ((doc_scope written.service.store (number_of "d") ≡ none)
        ⊎ (doc_scope written.service.store (number_of "d") ≡ some (number_of v.scope)))
unfolding service
pull_allowed_example =
    pull_allowed platform 1 written 6 (signed "K" period_tag "e" []) "d" none written-History refl

abbrev owner_at_period : VerifiedRequest
owner_at_period = record { device = "K"; scope = period_tag }

-- The same relay with a doc of the master scope, and with updates of that doc.
abbrev other_doc : StoredDoc
other_doc = record { scope_tag = number_of master_tag; epoch = epoch; updates = [] }

abbrev with_x : StoredDoc → Service
with_x x = record (written.service) {
  store = record (written.service.store) {
    docs = put (number_of "x") x written.service.store.docs;
  };
}

abbrev elsewhere : Service
elsewhere = with_x other_doc

abbrev updated : RelayStore
updated = record (elsewhere.store) {
  docs =
      put (number_of "x") (record other_doc { updates = record { seq = 1; blob = "BB==" } ∷ [] })
        elsewhere.store.docs;
}

-- The answer tells whether a doc id is taken in another scope.
taken_tells :
    ((pull platform written.service 6 (signed "K" period_tag "e" []) "x" none).1
      ≡ send (pulled (codes "0") []))
    × ((pull platform elsewhere 6 (signed "K" period_tag "e" []) "x" none).1 ≡ not_found)
unfolding service
taken_tells = (refl, refl)

abbrev owner_at_master : VerifiedRequest
owner_at_master = record { device = "K"; scope = master_tag }

abbrev pushed_more : Service
pushed_more = (push platform written.service 6 epoch (signed "K" period_tag "f" (3 ∷ [])) "d").0

scope_of : Option VerifiedRequest → ℕ
scope_of none = 0
scope_of (some v) = number_of v.scope

pushed_more-Elsewhere : Elsewhere platform (number_of master_tag) written.service pushed_more
unfolding service scope_of
pushed_more-Elsewhere =
    pushes start 6 epoch (signed "K" period_tag "f" (3 ∷ [])) "d"
      (λ v e h. omega (arith, ap scope_of e, h)) (λ h. ground (arith, h))

other_scopes_unseen_example :
    ((pull platform written.service 7 (signed "K" master_tag "g" []) "m" none).1
      ≡ (pull platform pushed_more 7 (signed "K" master_tag "g" []) "m" none).1)
    × ((push platform written.service 7 epoch (signed "K" master_tag "g" []) "m").1
        ≡ (push platform pushed_more 7 epoch (signed "K" master_tag "g" []) "m").1)
unfolding service
other_scopes_unseen_example =
    other_scopes_unseen platform written.service pushed_more 7 (signed "K" master_tag "g" [])
      owner_at_master
      (verify_request platform written.service.nonces 7 (signed "K" master_tag "g" [])).0
      (verify_request platform pushed_more.nonces 7 (signed "K" master_tag "g" [])).0 "m" none epoch
      pushed_more-Elsewhere refl refl

abbrev offered : NonceCache
offered = (verify_request platform no_nonces 900 (signed "K" period_tag "e" [])).0

replay_refused_example :
    (verify_request platform
      (verify_each platform offered ((1_000, signed "L" period_tag "e" []) ∷ []))
      2_000
      (signed "K" period_tag "e" [])).1
    ≡ none
unfolding service
replay_refused_example =
    replay_refused platform no_nonces offered 900 2_000 (signed "K" period_tag "e" [])
      owner_at_period ((1_000, signed "L" period_tag "e" []) ∷ []) refl refl (omega arith)

abbrev headers : SignedHeaders
headers = record {
  device = "K";
  scope = period_tag;
  timestamp = "1000";
  nonce = "e";
  signature = "good";
}

replay_accepted_example :
    (verify_request platform offered (900 + timestamp_window_ms) (signed "K" period_tag "e" [])).1
    ≡ some owner_at_period
unfolding service
replay_accepted_example =
    replay_accepted platform no_nonces offered 900 1_000 (signed "K" period_tag "e" [])
      owner_at_period headers refl (λ t. refl) (omega arith) refl

platform-IsAscii : IsAscii platform
unfolding is_printed
platform-IsAscii = record { upper = λ t h. refl; no_space = λ c h. ground arith }

abbrev draws : List ℕ
draws =
    0 ∷ 1 ∷ 2 ∷ 3 ∷ 4 ∷ 5 ∷ 6 ∷ 7 ∷ 8 ∷ 9 ∷ 10 ∷ 11 ∷ 12 ∷ 13 ∷ 14 ∷ 15 ∷ 16 ∷ 17 ∷ 18 ∷ 19 ∷ 20
    ∷ 21 ∷ 22 ∷ 23 ∷ 24 ∷ 31 ∷ []

canonical_owner_code-format_owner_code_example :
    canonical_owner_code platform (format_owner_code (new_owner_code draws))
    ≡ some (new_owner_code draws)
canonical_owner_code-format_owner_code_example =
    canonical_owner_code-format_owner_code platform draws platform-IsAscii refl refl
