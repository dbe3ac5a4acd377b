-- ===== src/Relay/Store/Cases.antt =====
-- One rule for each control operation of the store: what holds of the old state and of the state that
-- a success writes holds after the operation (services/sync-relay/src/store.ts).
use teacher_assistant.Base.{
  ℕ, ◌≡◌, refl, ◌⊎◌, inl, inr, true, false, ◌&&◌, ◌||◌, not, List, none, some, arith, ◌==◌, leb,
  ltb, is_some, Bool-cases, Option-cases,
}
use teacher_assistant.Base.Map.{get, put, remove, has, count}
use teacher_assistant.Relay.Types.{
  PublicKey, Tag, Blob, DeviceRole, owner, active, ScopeGrant, GrantResult, StoredDevice,
  StoredScope, PairingRequest, StoredPairing, RelayStore, is_active, is_owner, is_master,
  StoredCode, CompletePairingResult,
}
use teacher_assistant.Relay.Grants.{check_grant, check_enrollment, grantee, refusal, Enrollment}
use teacher_assistant.Relay.Store
use teacher_assistant.Relay.Store.{master_tag, write_grant, enroll, drop_device}

abbrev pub active_row : DeviceRole → StoredDevice
active_row role = record { role = role; status = active }

abbrev pub retired_row : StoredScope → StoredScope
retired_row x = record x { retired = true }

abbrev pub used_code : StoredCode → StoredCode
used_code c = record c { used = true }

abbrev pub with_request : StoredPairing → PublicKey → Blob → StoredPairing
with_request p signer blob = record p { request = some (record { signer = signer; blob = blob }) }

abbrev pub with_grant : StoredPairing → Blob → StoredPairing
with_grant p blob = record p { grant_blob = some blob }

pub Enrollment-cases :
    (e : Enrollment)
    → ((why : CompletePairingResult) × (e ≡ refusal why))
      ⊎ ((row : StoredDevice) × (e ≡ grantee row))
Enrollment-cases (refusal why) = inl (why, refl)
Enrollment-cases (grantee row) = inr (row, refl)

module _ {ℓ} (P : RelayStore → Type ℓ) (s : RelayStore) (unchanged : P s) where
  pub grant_scopes_cases :
      (key : PublicKey) (gs : List ScopeGrant)
      → (check_grant (get key s.devices) gs s.scopes (master_tag s.scopes) ≡ GrantResult.ok
          → P (write_grant s key gs))
      → P (Store.grant_scopes s key gs).0
  unfolding Store.grant_scopes
  grant_scopes_cases key gs granted =
      go (check_grant (get key s.devices) gs s.scopes (master_tag s.scopes)) refl
    where
      go :
          (r : GrantResult)
          → check_grant (get key s.devices) gs s.scopes (master_tag s.scopes) ≡ r
          → P (Store.grant_scopes s key gs).0
      go GrantResult.ok e = rw (e, Store.grant_scopes) (granted e)
      go _ e = rw (e, Store.grant_scopes) unchanged

  pub retire_scope_cases :
      (t : Tag)
      → ((x : StoredScope)
          → get t s.scopes ≡ some x
          → is_master x.kind ≡ false
          → P (record s { scopes = put t (retired_row x) s.scopes }))
      → P (Store.retire_scope s t).0
  unfolding Store.retire_scope
  retire_scope_cases t done = elim (Option-cases (get t s.scopes)) [
    | inl e ↦ rw (e, Store.retire_scope) unchanged
    | inr (x, e) ↦ elim (Bool-cases (is_master x.kind)) [
      | inl k ↦ rw (e, Store.retire_scope, k) unchanged
      | inr k ↦ rw (e, Store.retire_scope, k) (done x e k)
    ]
  ]

  pub redeem_cases :
      (now hash : ℕ) (key : PublicKey)
      → ((c : StoredCode)
          → get hash s.codes ≡ some c
          → c.used ≡ false
          → leb c.expires_at now ≡ false
          → get key s.devices ≡ none
          → P (record s {
            codes = put hash (used_code c) s.codes;
            devices = put key (active_row owner) s.devices;
          }))
      → P (Store.redeem_owner_code s now hash key).0
  unfolding Store.redeem_owner_code
  redeem_cases now hash key done = elim (Option-cases (get hash s.codes)) [
    | inl e ↦ rw (e, Store.redeem_owner_code) unchanged
    | inr (c, e) ↦ elim (Bool-cases (c.used || leb c.expires_at now)) [
      | inl k ↦ rw (e, Store.redeem_owner_code, k) unchanged
      | inr k ↦ elim (Option-cases (get key s.devices)) [
        | inr (d, known) ↦ rw (e, Store.redeem_owner_code, k, known) unchanged
        | inl fresh ↦
            rw (e, Store.redeem_owner_code, k, fresh) (done c e (ground arith) (ground arith) fresh)
      ]
    ]
  ]

  pub revoke_cases :
      (key : PublicKey)
      → ((d : StoredDevice)
          → get key s.devices ≡ some d
          → d.status ≡ active
          → (is_owner d.role && leb (Store.active_owner_count s) 1) ≡ false
          → P (drop_device s key d))
      → P (Store.revoke s key).0
  unfolding Store.revoke
  revoke_cases key done = elim (Option-cases (get key s.devices)) [
    | inl e ↦ rw (e, Store.revoke) unchanged
    | inr (d, e) ↦ elim (Bool-cases (is_active d.status)) [
      | inr k ↦ rw (e, Store.revoke, k) unchanged
      | inl k ↦ elim (Bool-cases (is_owner d.role && leb (Store.active_owner_count s) 1)) [
        | inl last ↦ rw (e, Store.revoke, k, last) unchanged
        | inr others ↦ rw (e, Store.revoke, k, others) (done d e (ground arith) others)
      ]
    ]
  ]

  pub open_pairing_cases :
      (now sid : ℕ) (opener : PublicKey)
      → (get sid s.pairings ≡ none
          → leb Store.max_open_pairings (count (λ p. ltb now p.expires_at) s.pairings) ≡ false
          → Store.is_active_owner_key s opener ≡ true
          → P (record s { pairings = put sid (Store.new_pairing now opener) s.pairings }))
      → P (Store.open_pairing s now sid opener).0
  unfolding Store.open_pairing
  open_pairing_cases now sid opener done =
      elim (Bool-cases (
        has sid s.pairings
        || leb Store.max_open_pairings (count (λ p. ltb now p.expires_at) s.pairings)
        || not (Store.is_active_owner_key s opener))) [
          | inl k ↦ rw k unchanged
          | inr k ↦ rw k (done (ground arith) (ground arith) (ground arith))
        ]

  pub put_pairing_request_cases :
      (now sid : ℕ) (signer : PublicKey) (blob : Blob)
      → ((p : StoredPairing)
          → Store.open_session s now sid ≡ some p
          → p.request ≡ none
          → P (record s { pairings = put sid (with_request p signer blob) s.pairings }))
      → P (Store.put_pairing_request s now sid signer blob).0
  unfolding Store.put_pairing_request
  put_pairing_request_cases now sid signer blob done =
      elim (Option-cases (Store.open_session s now sid)) [
        | inl e ↦ rw (e, Store.put_pairing_request) unchanged
        | inr (p, e) ↦
            elim (Bool-cases (
              is_some p.request || p.opener == signer || Store.is_revoked (get signer s.devices))) [
                | inl k ↦ rw (e, Store.put_pairing_request, k) unchanged
                | inr k ↦ rw (e, Store.put_pairing_request, k) (done p e (ground arith))
              ]
      ]

  pub enroll_cases :
      (sid : ℕ) (p : StoredPairing) (key : PublicKey) (role : DeviceRole) (gs : List ScopeGrant)
      (blob : Blob) (row : StoredDevice)
      → (check_grant (some row) gs s.scopes (master_tag s.scopes) ≡ GrantResult.ok
          → P (record (write_grant s key gs) {
            devices = put key (active_row role) s.devices;
            pairings = put sid (with_grant p blob) s.pairings;
          }))
      → P (enroll s sid p key role gs blob row).0
  unfolding enroll
  enroll_cases sid p key role gs blob row done =
      go (check_grant (some row) gs s.scopes (master_tag s.scopes)) refl
    where
      go :
          (r : GrantResult)
          → check_grant (some row) gs s.scopes (master_tag s.scopes) ≡ r
          → P (enroll s sid p key role gs blob row).0
      go GrantResult.ok e = rw (e, enroll) (done e)
      go _ e = rw (e, enroll) unchanged

  pub complete_pairing_cases :
      (now sid : ℕ) (opener key : PublicKey) (role : DeviceRole) (gs : List ScopeGrant)
      (blob : Blob)
      → ((p : StoredPairing) (r : PairingRequest) (row : StoredDevice)
          → Store.open_session s now sid ≡ some p
          → p.request ≡ some r
          → check_enrollment r.signer key (get key s.devices) role ≡ grantee row
          → P (enroll s sid p key role gs blob row).0)
      → P (Store.complete_pairing s now sid opener key role gs blob).0
  unfolding Store.complete_pairing
  complete_pairing_cases now sid opener key role gs blob done =
      elim (Option-cases (Store.open_session s now sid)) [
        | inl e ↦ rw (e, Store.complete_pairing) unchanged
        | inr (p, e) ↦
            elim (Bool-cases (
              not (p.opener == opener)
              || is_some p.grant_blob
              || not (Store.is_active_owner_key s opener))) [
                | inl k ↦ rw (e, Store.complete_pairing, k) unchanged
                | inr k ↦ elim (Option-cases p.request) [
                  | inl r ↦ rw (e, Store.complete_pairing, k, r) unchanged
                  | inr (q, r) ↦
                      elim (Enrollment-cases
                        (check_enrollment q.signer key (get key s.devices) role)) [
                          | inl (why, no_row) ↦
                              rw (e, Store.complete_pairing, k, r, no_row) unchanged
                          | inr (row, is_row) ↦
                              rw (e, Store.complete_pairing, k, r, is_row) (done p q row e r is_row)
                        ]
                ]
              ]
      ]

  pub take_pairing_grant_cases :
      (now sid : ℕ) (signer : PublicKey)
      → P (record s { pairings = remove sid s.pairings })
      → P (Store.take_pairing_grant s now sid signer).0
  unfolding Store.take_pairing_grant
  take_pairing_grant_cases now sid signer done =
      elim (Option-cases (Store.open_session s now sid)) [
        | inl e ↦ rw (e, Store.take_pairing_grant) unchanged
        | inr (p, e) ↦
            elim (Bool-cases (
              not (Store.is_signer signer p.request)
              || not (is_some (Store.device_role s signer)))) [
                | inl k ↦ rw (e, Store.take_pairing_grant, k) unchanged
                | inr k ↦ elim (Option-cases p.grant_blob) [
                  | inl b ↦ rw (e, Store.take_pairing_grant, k, b) unchanged
                  | inr (b, found) ↦ rw (e, Store.take_pairing_grant, k, found) done
                ]
              ]
      ]
