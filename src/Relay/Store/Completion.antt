-- ===== src/Relay/Store/Completion.antt =====
-- completePairing, whole: the state and the result of each way it ends
-- (services/sync-relay/src/store.ts).
use teacher_assistant.Base.{
  ℕ, ◌≡◌, refl, inl, inr, ◌≢◌, true, ◌||◌, not, List, Option, none, some, arith, ◌==◌, is_some,
  Bool-cases, Option-cases,
}
use teacher_assistant.Base.Map.{get, put}
use teacher_assistant.Relay.Types.{
  PublicKey, Blob, DeviceRole, ScopeGrant, GrantResult, StoredDevice, PairingRequest, StoredPairing,
  RelayStore, CompletePairingResult, grant,
}
use teacher_assistant.Relay.Grants.{check_grant, check_enrollment, grantee, refusal}
use teacher_assistant.Relay.Store
use teacher_assistant.Relay.Store.{master_tag, write_grant, enroll}
use teacher_assistant.Relay.Store.Cases.{active_row, with_grant, Enrollment-cases}

-- The state that a successful enrolment writes.
abbrev pub enrolled_state :
    RelayStore → ℕ → StoredPairing → PublicKey → DeviceRole → List ScopeGrant → Blob → RelayStore
enrolled_state s sid p key role gs blob = record (write_grant s key gs) {
  devices = put key (active_row role) s.devices;
  pairings = put sid (with_grant p blob) s.pairings;
}

-- What a session must hold for its completion to reach the enrolment.
pub record IsReady (s : RelayStore) (now sid : ℕ) (opener key : PublicKey) (role : DeviceRole)
    (p : StoredPairing) (r : PairingRequest) (row : StoredDevice) : Type 0 where
  pub session : Store.open_session s now sid ≡ some p
  pub opened_by : p.opener ≡ opener
  pub owned : Store.is_active_owner_key s opener ≡ true
  pub not_granted : p.grant_blob ≡ none
  pub requested : p.request ≡ some r
  pub checked : check_enrollment r.signer key (get key s.devices) role ≡ grantee row

refusal-ne-ok :
    (signer key : PublicKey) (existing : Option StoredDevice) (role : DeviceRole)
    (why : CompletePairingResult)
    → check_enrollment signer key existing role ≡ refusal why
    → why ≢ grant GrantResult.ok
unfolding check_enrollment
refusal-ne-ok signer key existing role why h k = ground arith

module _ {ℓ} (P : RelayStore × CompletePairingResult → Type ℓ) (s : RelayStore)
    (refused : (r : CompletePairingResult) → r ≢ grant GrantResult.ok → P (s, r)) (sid : ℕ)
    (key : PublicKey) (role : DeviceRole) (gs : List ScopeGrant) (blob : Blob) where
  enroll_outcomes :
      (p : StoredPairing) (row : StoredDevice)
      → (check_grant (some row) gs s.scopes (master_tag s.scopes) ≡ GrantResult.ok
          → P (enrolled_state s sid p key role gs blob, grant GrantResult.ok))
      → P (enroll s sid p key role gs blob row)
  unfolding enroll
  enroll_outcomes p row done = go (check_grant (some row) gs s.scopes (master_tag s.scopes)) refl
    where
      go :
          (r : GrantResult)
          → check_grant (some row) gs s.scopes (master_tag s.scopes) ≡ r
          → P (enroll s sid p key role gs blob row)
      go GrantResult.ok e = rw (e, enroll) (done e)
      go r e = rw (e, enroll) (refused (grant r) (λ k. cc))

  pub complete_pairing_outcomes :
      (now : ℕ) (opener : PublicKey)
      → ((p : StoredPairing) (r : PairingRequest) (row : StoredDevice)
          → IsReady s now sid opener key role p r row
          → check_grant (some row) gs s.scopes (master_tag s.scopes) ≡ GrantResult.ok
          → P (enrolled_state s sid p key role gs blob, grant GrantResult.ok))
      → P (Store.complete_pairing s now sid opener key role gs blob)
  unfolding Store.complete_pairing
  complete_pairing_outcomes now opener done = elim (Option-cases (Store.open_session s now sid)) [
    | inl e ↦ rw (e, Store.complete_pairing) (refused CompletePairingResult.not_found (λ k. cc))
    | inr (p, e) ↦
        elim (Bool-cases (
          not (p.opener == opener)
          || is_some p.grant_blob
          || not (Store.is_active_owner_key s opener))) [
            | inl k ↦
                rw (e, Store.complete_pairing, k)
                  (refused CompletePairingResult.not_found (λ k. cc))
            | inr k ↦ elim (Option-cases p.request) [
              | inl r ↦
                  rw (e, Store.complete_pairing, k, r)
                    (refused CompletePairingResult.not_found (λ k. cc))
              | inr (q, r) ↦
                  elim (Enrollment-cases (check_enrollment q.signer key (get key s.devices) role)) [
                    | inl (why, no_row) ↦
                        rw (e, Store.complete_pairing, k, r, no_row)
                          (refused why
                            (refusal-ne-ok q.signer key (get key s.devices) role why no_row))
                    | inr (row, is_row) ↦
                        rw (e, Store.complete_pairing, k, r, is_row)
                          (enroll_outcomes p row (
                            done p q row (record {
                              session = e;
                              opened_by = ground arith;
                              owned = ground arith;
                              not_granted = ground arith;
                              requested = r;
                              checked = is_row;
                            })))
                  ]
            ]
          ]
  ]
