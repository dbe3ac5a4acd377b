-- ===== src/Relay/Calls/Pairings.antt =====
-- Pairing sessions: how many are open, and what a completed pairing enrolls
-- (services/sync-relay/src/store.ts).
use teacher_assistant.Base.{
  ℕ, ◌≤◌, ◌≡◌, refl, ◌⊎◌, inl, inr, ◌≢◌, Bool, true, false, ◌||◌, not, List, [], ◌∷◌, Option, none,
  some, arith, ◌==◌, leb, ltb,
}
use teacher_assistant.Base.Map.{Map, get, put, get-put, count, count-put, count-remove, count-keep}
use native.Mathlib.Nat.{le_trans}
use teacher_assistant.Relay.Types.{
  PublicKey, Blob, DeviceRole, ScopeGrant, GrantResult, StoredDevice, PairingRequest, StoredPairing,
  RelayStore, CompletePairingResult, grant,
}
use teacher_assistant.Relay.Grants.{check_enrollment, grantee}
use teacher_assistant.Relay.Store
use teacher_assistant.Relay.Store.{max_open_pairings, new_pairing, unless_expired}
use teacher_assistant.Relay.Store.Cases.{
  active_row, with_request, with_grant, grant_scopes_cases, retire_scope_cases, redeem_cases,
  revoke_cases, open_pairing_cases, put_pairing_request_cases, enroll_cases, complete_pairing_cases,
  take_pairing_grant_cases,
}
use teacher_assistant.Relay.Store.Completion.{complete_pairing_outcomes}
use teacher_assistant.Relay.Calls.{Call, step, Moment, Reach, here, next}

-- The session has not expired.
abbrev pub is_open : ℕ → StoredPairing → Bool
is_open now p = ltb now p.expires_at

abbrev pub open_count : ℕ → RelayStore → ℕ
open_count now s = count (is_open now) s.pairings

-- As time passes no session opens by itself.
count-later :
    (now later : ℕ) (m : Map StoredPairing)
    → now ≤ later
    → count (is_open later) m ≤ count (is_open now) m
unfolding count
count-later now later [] h = omega arith
count-later now later ((sid, p) ∷ m) h = ground (arith, count-later now later m h)

-- Writing to an open session leaves their number alone.
count-rewrite :
    (now sid : ℕ) (p p' : StoredPairing) (s : RelayStore)
    → Store.open_session s now sid ≡ some p
    → p'.expires_at ≡ p.expires_at
    → count (is_open now) (put sid p' s.pairings) ≡ open_count now s
unfolding Store.open_session
count-rewrite now sid p p' s e same = ground (arith, count-put (is_open now) sid p' s.pairings)

count-open :
    (now sid : ℕ) (opener : PublicKey) (s : RelayStore)
    → leb max_open_pairings (open_count now s) ≡ false
    → count (is_open now) (put sid (new_pairing now opener) s.pairings) ≤ max_open_pairings
count-open now sid opener s few =
    ground (arith, count-put (is_open now) sid (new_pairing now opener) s.pairings)

-- No call lets more than three unexpired pairing sessions stand.
pub step-open_count :
    (now : ℕ) (c : Call) (s : RelayStore)
    → open_count now s ≤ max_open_pairings
    → open_count now (step now c s) ≤ max_open_pairings
unfolding step Store.write_grant Store.append Store.issue_owner_code Store.invalidate_owner_codes
    Store.put_recovery_wrap Store.sweep_expired Store.rotate_epochs
step-open_count now (Call.append fresh doc t blobs) s h =
    let e : (Store.append s fresh doc t blobs).0.pairings ≡ s.pairings = ground arith in rw e h
step-open_count now (Call.issue_owner_code hash expires_at) s h =
    let e : (Store.issue_owner_code s hash expires_at).0.pairings ≡ s.pairings = ground arith in
    rw e h
step-open_count now (Call.redeem_owner_code hash key) s h =
    redeem_cases (λ r. open_count now r ≤ max_open_pairings) s h now hash key λ c a b d e. h
step-open_count now Call.invalidate_owner_codes s h = h
step-open_count now (Call.grant_scopes key gs) s h =
    grant_scopes_cases (λ r. open_count now r ≤ max_open_pairings) s h key gs λ e. h
step-open_count now (Call.retire_scope t) s h =
    retire_scope_cases (λ r. open_count now r ≤ max_open_pairings) s h t λ x e k. h
step-open_count now (Call.revoke key) s h =
    revoke_cases (λ r. open_count now r ≤ max_open_pairings) s h key
      λ d e live others. omega (
        arith,
        count-keep (is_open now) (λ sid p. not (p.opener == key || Store.is_signer key p.request))
            s.pairings,
      )
step-open_count now (Call.open_pairing sid opener) s h =
    open_pairing_cases (λ r. open_count now r ≤ max_open_pairings) s h now sid opener
      λ a few b. count-open now sid opener s few
step-open_count now (Call.put_pairing_request sid signer blob) s h =
    put_pairing_request_cases (λ r. open_count now r ≤ max_open_pairings) s h now sid signer blob
      λ p e none_yet. rw (count-rewrite now sid p (with_request p signer blob) s e refl) h
step-open_count now (Call.complete_pairing sid opener key role gs blob) s h =
    complete_pairing_cases (λ r. open_count now r ≤ max_open_pairings) s h now sid opener key role
      gs blob
      λ p r row e b f.
        enroll_cases (λ r'. open_count now r' ≤ max_open_pairings) s h sid p key role gs blob row
          λ granted. rw (count-rewrite now sid p (with_grant p blob) s e refl) h
step-open_count now (Call.take_pairing_grant sid signer) s h =
    take_pairing_grant_cases (λ r. open_count now r ≤ max_open_pairings) s h now sid signer
      (omega (arith, count-remove (is_open now) sid s.pairings))
step-open_count now (Call.put_recovery_wrap blob) s h = h
step-open_count now Call.sweep_expired s h =
    omega (arith, count-keep (is_open now) (λ sid p. is_open now p) s.pairings)
step-open_count now (Call.rotate_epochs fresh) s h = h

-- At no moment of any run are more than three pairing sessions open.
pub Reach-open_count :
    {m n : Moment}
    → Reach m n
    → open_count m.now m.store ≤ max_open_pairings
    → open_count n.now n.store ≤ max_open_pairings
Reach-open_count here h = h
Reach-open_count (next {m = k} r now c later) h =
    step-open_count now c k.store
      (le_trans (count-later k.now now k.store.pairings later) (Reach-open_count r h))

signer-eq-key :
    (signer key : PublicKey) (existing : Option StoredDevice) (role : DeviceRole)
    (row : StoredDevice)
    → check_enrollment signer key existing role ≡ grantee row
    → signer ≡ key
unfolding check_enrollment
signer-eq-key signer key existing role row h = ground arith

-- How a completion ends: refused with nothing changed, or granted on a session that was opened by the
-- caller, an active owner, and holds the request of the device named and no grant yet; then that
-- device is active in the given role and every other device is as it was.
abbrev pub Completes :
    RelayStore
    → ℕ
    → ℕ
    → PublicKey
    → PublicKey
    → DeviceRole
    → RelayStore × CompletePairingResult
    → Type 0
Completes s now sid opener key role out =
    ((out.1 ≢ grant GrantResult.ok) × (out.0 ≡ s))
    ⊎ ((out.1 ≡ grant GrantResult.ok)
        × ((p : StoredPairing) × (r : PairingRequest) × (Store.open_session s now sid ≡ some p)
            × (p.opener ≡ opener)
            × (p.request ≡ some r)
            × (r.signer ≡ key)
            × (p.grant_blob ≡ none))
        × (Store.is_active_owner_key s opener ≡ true)
        × (get key out.0.devices ≡ some (active_row role))
        × ((j : PublicKey) → key ≢ j → get j out.0.devices ≡ get j s.devices))

-- Every completion of a pairing is refused with nothing changed, or is granted: the caller is an active
-- owner, the session open and its own, with the request of the device named and no grant yet; then that
-- device is active in the given role and every other device is as it was.
pub complete_pairing-Completes :
    (s : RelayStore) (now sid : ℕ) (opener key : PublicKey) (role : DeviceRole)
    (gs : List ScopeGrant) (blob : Blob)
    → Completes s now sid opener key role (Store.complete_pairing s now sid opener key role gs blob)
complete_pairing-Completes s now sid opener key role gs blob =
    complete_pairing_outcomes (Completes s now sid opener key role) s (λ r bad. inl (bad, refl)) sid
      key role gs blob now opener
      (λ p r row v granted. inr (
        refl,
        (
          p,
          r,
          v.session,
          v.opened_by,
          v.requested,
          signer-eq-key r.signer key (get key s.devices) role row v.checked,
          v.not_granted,
        ),
        v.owned,
        rw (get-put key key (active_row role) s.devices) (ground arith),
        (λ j ne. rw (get-put key j (active_row role) s.devices) (ground arith)),
      ))
