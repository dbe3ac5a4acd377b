-- ===== src/Relay/Calls/Devices.antt =====
-- What no call does to the enrolled devices: a role never changes, a revoked key stays revoked, and
-- the last active owner stays (services/sync-relay/src/store.ts).
use teacher_assistant.Base.{
  ℕ, ◌≤◌, ◌≡◌, refl, ◌∙◌, ◌⊎◌, inl, inr, false, ◌&&◌, Option, none, some, arith, ◌==◌, leb,
  Bool-cases,
}
use teacher_assistant.Base.Map.{Map, get, put, get-put, count, count-put}
use teacher_assistant.Relay.Types.{
  PublicKey, DeviceRole, owner, active, revoked, StoredDevice, RelayStore, is_active, is_owner,
}
use teacher_assistant.Relay.Store
use teacher_assistant.Relay.Store.{write_grant, is_active_owner, active_owner_count, master_tag}
use teacher_assistant.Relay.Store.Cases.{
  active_row, grant_scopes_cases, retire_scope_cases, redeem_cases, revoke_cases,
  open_pairing_cases, put_pairing_request_cases, enroll_cases, complete_pairing_cases,
  take_pairing_grant_cases,
}
use teacher_assistant.Relay.Calls.{Call, step, Moment, Reach, here, next}
use teacher_assistant.Relay.Calls.Invariant.{check_grant-ok}
use teacher_assistant.Relay.Calls.Soundness.{enrollment_row}

abbrev pub revoked_row : StoredDevice → StoredDevice
revoked_row d = record d { status = revoked }

-- The devices change in two ways only: a new or equal active row is written, or an active device that
-- is not the last active owner is revoked.
module _ {ℓ} (P : Map StoredDevice → Type ℓ) (s : RelayStore) (unchanged : P s.devices)
    (enrolled : (key : PublicKey) (role : DeviceRole)
      → (get key s.devices ≡ none) ⊎ (get key s.devices ≡ some (active_row role))
      → P (put key (active_row role) s.devices))
    (dropped : (key : PublicKey) (d : StoredDevice)
      → get key s.devices ≡ some d
      → d.status ≡ active
      → (is_owner d.role && leb (active_owner_count s) 1) ≡ false
      → P (put key (revoked_row d) s.devices)) where
  pub step_devices : (now : ℕ) (c : Call) → P (step now c s).devices
  unfolding step write_grant Store.append Store.issue_owner_code Store.invalidate_owner_codes
      Store.put_recovery_wrap Store.sweep_expired Store.rotate_epochs
  step_devices now (Call.append fresh doc t blobs) =
      let e : (Store.append s fresh doc t blobs).0.devices ≡ s.devices = ground arith in
      rw e unchanged
  step_devices now (Call.issue_owner_code hash expires_at) =
      let e : (Store.issue_owner_code s hash expires_at).0.devices ≡ s.devices = ground arith in
      rw e unchanged
  step_devices now (Call.redeem_owner_code hash key) =
      redeem_cases (λ r. P r.devices) s unchanged now hash key
        λ c found unused live fresh. enrolled key owner (inl fresh)
  step_devices now Call.invalidate_owner_codes = unchanged
  step_devices now (Call.grant_scopes key gs) =
      grant_scopes_cases (λ r. P r.devices) s unchanged key gs λ e. unchanged
  step_devices now (Call.retire_scope t) =
      retire_scope_cases (λ r. P r.devices) s unchanged t λ x e k. unchanged
  step_devices now (Call.revoke key) =
      revoke_cases (λ r. P r.devices) s unchanged key λ d e live others. dropped key d e live others
  step_devices now (Call.open_pairing sid opener) =
      open_pairing_cases (λ r. P r.devices) s unchanged now sid opener λ a b c. unchanged
  step_devices now (Call.put_pairing_request sid signer blob) =
      put_pairing_request_cases (λ r. P r.devices) s unchanged now sid signer blob
        λ p a b. unchanged
  step_devices now (Call.complete_pairing sid opener key role gs blob) =
      complete_pairing_cases (λ r. P r.devices) s unchanged now sid opener key role gs blob
        λ p r row a b e.
          enroll_cases (λ r'. P r'.devices) s unchanged sid p key role gs blob row
            λ granted.
              let (x, found, live, h) =
                check_grant-ok _ gs s.scopes (master_tag s.scopes) granted in
              enrolled key role
                (enrollment_row r.signer key (get key s.devices) role row e (ground arith)).1
  step_devices now (Call.take_pairing_grant sid signer) =
      take_pairing_grant_cases (λ r. P r.devices) s unchanged now sid signer unchanged
  step_devices now (Call.put_recovery_wrap blob) = unchanged
  step_devices now Call.sweep_expired = unchanged
  step_devices now (Call.rotate_epochs fresh) = unchanged

-- A device stays enrolled, in its role, and once revoked it stays revoked.
abbrev pub Continues : Option StoredDevice → Option StoredDevice → Type 0
Continues none after = Unit {0}
Continues (some d) none = ⊥
Continues (some d) (some d') =
    (d'.role ≡ d.role) × (is_active d.status ≡ false → is_active d'.status ≡ false)

Continues-refl : (d : Option StoredDevice) → Continues d d
Continues-refl none = tt
Continues-refl (some d) = (refl, λ h. h)

Continues-trans : (a b c : Option StoredDevice) → Continues a b → Continues b c → Continues a c
Continues-trans none b c h k = tt
Continues-trans (some a) none c h k = absurd h
Continues-trans (some a) (some b) none h k = absurd k
Continues-trans (some a) (some b) (some c) h k = (k.0 ∙ h.0, λ e. k.1 (h.1 e))

Continues-put :
    (j key : PublicKey) (d : StoredDevice) (m : Map StoredDevice)
    → Continues (get j m) (some d)
    → Continues (get key m) (get key (put j d m))
Continues-put j key d m h = rw (get-put j key d m) (elim (Bool-cases (j == key)) [
  | inr miss ↦ rw miss (Continues-refl _)
  | inl hit ↦ let e : j ≡ key = ground arith in rw hit (rw e at h)
])

pub step-Continues :
    (now : ℕ) (c : Call) (s : RelayStore) (key : PublicKey)
    → Continues (get key s.devices) (get key (step now c s).devices)
step-Continues now c s key =
    step_devices (λ m. Continues (get key s.devices) (get key m)) s (Continues-refl _)
      (λ j role was.
        Continues-put j key (active_row role) s.devices
          (elim was [ inl fresh ↦ rw fresh tt | inr same ↦ rw same (refl, λ h. h) ]))
      (λ j d was live others.
        Continues-put j key (revoked_row d) s.devices (rw was (refl, λ h. refl)))
      now c

-- Over any run of calls every enrolled device keeps its role, and a revoked key is never active again.
pub Reach-Continues :
    {m n : Moment} (key : PublicKey)
    → Reach m n
    → Continues (get key m.store.devices) (get key n.store.devices)
Reach-Continues key here = Continues-refl _
Reach-Continues key (next r now c later) =
    Continues-trans _ _ _ (Reach-Continues key r) (step-Continues now c _ key)

-- No call removes the last active owner.
pub step-active_owner :
    (now : ℕ) (c : Call) (s : RelayStore)
    → 1 ≤ active_owner_count s
    → 1 ≤ active_owner_count (step now c s)
unfolding active_owner_count
step-active_owner now c s h =
    step_devices (λ m. 1 ≤ count is_active_owner m) s h
      (λ j role was. ground (arith, count-put is_active_owner j (active_row role) s.devices))
      (λ j d was live others. ground (arith, count-put is_active_owner j (revoked_row d) s.devices))
      now c
