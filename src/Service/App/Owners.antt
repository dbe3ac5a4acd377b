-- ===== src/Service/App/Owners.antt =====
-- Who may call the control routes: authorizeControl of services/sync-relay/src/app.ts, and what a
-- service that runs from an empty store shows to whom.
use Prim.Native.String.{String}
use text.Mathlib.Text.{◌==◌ as str_eq}
use teacher_assistant.Base.{
  ℕ, ◌≤◌, ◌≡◌, refl, ◌⊎◌, inl, inr, true, Option, none, some, arith, Bool-cases,
}
use teacher_assistant.Base.Map.{get}
use teacher_assistant.Base.Texts.{number_of}
use teacher_assistant.Relay.Types.{
  owner, member, active, period, StoredDevice, StoredScope, RelayStore,
}
use teacher_assistant.Relay.Store
use teacher_assistant.Relay.Store.{
  device_role, role_if_active, is_active_owner_key, is_authorized, doc_scope, empty,
}
use teacher_assistant.Relay.Calls.{Call, step, Moment, Reach, here, next}
use teacher_assistant.Relay.Calls.Access.{is_authorized_sound}
use teacher_assistant.Service.Platform.{Platform}
use teacher_assistant.Service.Requests.{Request, VerifiedRequest, verify_request}
use teacher_assistant.Service.Control.{ControlRoute, owner_only, not_found}
use teacher_assistant.Service.App.{
  Service, start_app, reserved_control_scope, may_see, may_control, control, pull, answer_pull,
  Endpoint, serve,
}
use teacher_assistant.Service.App.Runs.{at, serve-Reach}

-- An owner's row.
abbrev pub IsOwner : RelayStore → VerifiedRequest → Type 0
IsOwner s v =
    (d : StoredDevice) × (get (number_of v.device) s.devices ≡ some d)
    × (d.role ≡ owner)
    × (d.status ≡ active)

is_active_owner_key-IsOwner :
    (s : RelayStore) (v : VerifiedRequest)
    → is_active_owner_key s (number_of v.device) ≡ true
    → IsOwner s v
unfolding device_role
is_active_owner_key-IsOwner s v h = go (get (number_of v.device) s.devices) refl
  where
    go : (d : Option StoredDevice) → get (number_of v.device) s.devices ≡ d → IsOwner s v
    go none e = absurd (ground arith)
    go (some d) e = (d, e, ground arith, ground arith)

-- A control route of the owners answers the identical 404 and changes nothing but the nonces it
-- remembers, unless the request verifies, declares the control scope and is signed by an active
-- owner.
pub control_refused :
    (P : Platform) (a : Service) (now : ℕ) (route : ControlRoute) (req : Request)
    → owner_only route ≡ true
    → (control P a now route req
        ≡ (record a { nonces = (verify_request P a.nonces now req).0 }, not_found))
      ⊎ ((v : VerifiedRequest) × ((verify_request P a.nonces now req).1 ≡ some v)
          × (str_eq v.scope reserved_control_scope ≡ true)
          × IsOwner a.store v)
unfolding control may_control
control_refused P a now route req h = go (verify_request P a.nonces now req).1 refl
  where
    go :
        (o : Option VerifiedRequest)
        → (verify_request P a.nonces now req).1 ≡ o
        → (control P a now route req
            ≡ (record a { nonces = (verify_request P a.nonces now req).0 }, not_found))
          ⊎ ((v : VerifiedRequest) × ((verify_request P a.nonces now req).1 ≡ some v)
              × (str_eq v.scope reserved_control_scope ≡ true)
              × IsOwner a.store v)
    go none e = inl (rw (e))
    go (some v) e = elim (Bool-cases (may_control a.store route v)) [
      | inl y ↦ inr (v, e, ground arith, is_active_owner_key-IsOwner a.store v (ground arith))
      | inr n ↦ inl (rw (e, n))
    ]

-- What happens to a service: requests, and the owner codes that its operator issues, the clock never
-- going back.
pub record Instant : Type 0 where
  pub now : ℕ
  pub service : Service

pub data History (P : Platform) (from : Instant) : Instant → Type 0 where
  started : History P from from
  request :
      {m : Instant}
      → History P from m
      → (now : ℕ) (e : Endpoint) (req : Request) → m.now ≤ now
      → History P from (record { now = now; service = (serve P m.service now e req).0 })
  issue :
      {m : Instant}
      → History P from m
      → (now hash expires_at : ℕ) → m.now ≤ now
      → History P from (record {
        now = now;
        service = record (m.service) {
          store = (Store.issue_owner_code m.service.store hash expires_at).0;
        };
      })

-- A store that a run of the store's calls reaches by a time.
abbrev pub ReachBy : Moment → Moment → Type 0
ReachBy from m = (b : ℕ) × (b ≤ m.now) × Reach from (at b m.store)

ReachBy-Reach :
    {from mid m : Moment} → ReachBy from (at mid.now mid.store) → Reach mid m → ReachBy from m
ReachBy-Reach r here = r
ReachBy-Reach r (next q now c h) =
    let (b, k, q') = ReachBy-Reach r q in (now, omega arith, next q' now c (omega arith))

-- The store of a service that starts on `s` is one that a run of the store's calls reaches from `s`.
pub History-ReachBy :
    {P : Platform} {s : RelayStore} {t : ℕ} {m : Instant}
    → History P (record { now = t; service = start_app s t }) m
    → ReachBy (at t s) (at m.now m.service.store)
unfolding step start_app
History-ReachBy {t} started = (t, omega arith, next here t Call.sweep_expired (omega arith))
History-ReachBy {P} (request {m} r now e req h) =
    let (b, k, q) = History-ReachBy r in
    ReachBy-Reach {mid = at now m.service.store} (b, omega arith, q)
      (serve-Reach P m.service now e req)
History-ReachBy (issue r now hash expires_at h) =
    let (b, k, q) = History-ReachBy r in
    (now, omega arith, next q now (Call.issue_owner_code hash expires_at) (omega arith))

-- What may_see has checked.
may_see_cases :
    (s : RelayStore) (v : VerifiedRequest) (doc : String)
    → may_see s v doc ≡ true
    → (is_authorized s (number_of v.device) (number_of v.scope) ≡ true)
      × ((doc_scope s (number_of doc) ≡ none)
          ⊎ (doc_scope s (number_of doc) ≡ some (number_of v.scope)))
unfolding may_see
may_see_cases s v doc h = (ground arith, go (doc_scope s (number_of doc)) refl)
  where
    go :
        (o : Option ℕ)
        → doc_scope s (number_of doc) ≡ o
        → (o ≡ none) ⊎ (o ≡ some (number_of v.scope))
    go none e = inl refl
    go (some t) e = inr (ground arith)

-- A pull is answered only for a device that is enrolled and active, under a scope that is registered
-- and that is a class period where the device is a member's, and only for a doc that is in that scope
-- or that nobody has written.
pub pull_allowed :
    (P : Platform) (t : ℕ) (m : Instant) (now : ℕ) (req : Request) (doc : String)
    (since : Option String)
    → History P (record { now = t; service = start_app empty t }) m
    → (pull P m.service now req doc since).1.status ≡ 200
    → (v : VerifiedRequest) × (d : StoredDevice) × (x : StoredScope) × ((verify_request P
          m.service.nonces now req).1
        ≡ some v)
      × (get (number_of v.device) m.service.store.devices ≡ some d)
      × (d.status ≡ active)
      × (get (number_of v.scope) m.service.store.scopes ≡ some x)
      × (d.role ≡ member → x.kind ≡ period)
      × ((doc_scope m.service.store (number_of doc) ≡ none)
          ⊎ (doc_scope m.service.store (number_of doc) ≡ some (number_of v.scope)))
unfolding pull
pull_allowed P t m now req doc since r h = go (verify_request P m.service.nonces now req).1 refl h
  where
    go :
        (o : Option VerifiedRequest)
        → (verify_request P m.service.nonces now req).1 ≡ o
        → (answer_pull
            (record (m.service) { nonces = (verify_request P m.service.nonces now req).0 })
            doc
            since
            o).1.status
          ≡ 200
        → (v : VerifiedRequest) × (d : StoredDevice) × (x : StoredScope) × ((verify_request P
              m.service.nonces now req).1
            ≡ some v)
          × (get (number_of v.device) m.service.store.devices ≡ some d)
          × (d.status ≡ active)
          × (get (number_of v.scope) m.service.store.scopes ≡ some x)
          × (d.role ≡ member → x.kind ≡ period)
          × ((doc_scope m.service.store (number_of doc) ≡ none)
              ⊎ (doc_scope m.service.store (number_of doc) ≡ some (number_of v.scope)))
    go none e k = absurd (ground arith)
    go (some v) e k = elim (Bool-cases (may_see m.service.store v doc)) [
      | inr n ↦ absurd (ground arith)
      | inl y ↦
          let (granted, bound) = may_see_cases m.service.store v doc y in
          let (b, le, q) = History-ReachBy r in
          let (d, x, row, live, scope, kind) =
            is_authorized_sound (number_of v.device) (number_of v.scope) q granted in
          (v, d, x, e, row, live, scope, kind, bound)
    ]
