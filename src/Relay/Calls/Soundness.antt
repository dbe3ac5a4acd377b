-- ===== src/Relay/Calls/Soundness.antt =====
-- Every call keeps the relay's scopes and its access lists sound
-- (services/sync-relay/src/store.ts).
use teacher_assistant.Base.{ℕ, ◌≡◌, refl, ◌⊎◌, true, false, List, Option, none, some, arith}
use teacher_assistant.Base.Map.{Map, get, put, get-put, get-remove}
use teacher_assistant.Relay.Types.{
  PublicKey, Tag, Text, Blob, DeviceRole, owner, active, revoked, ScopeGrant, GrantResult,
  StoredDevice, StoredScope, StoredPairing, RelayStore, is_master,
}
use teacher_assistant.Relay.Grants.{check_scopes, check_enrollment, grantee}
use teacher_assistant.Relay.Grants.Effects.{write_scopes-OneMaster, write_scopes-MasterLive}
use teacher_assistant.Relay.Store
use teacher_assistant.Relay.Store.{master_tag, tags_of, write_grant, enroll, drop_device}
use teacher_assistant.Relay.Store.Cases.{
  active_row, retired_row, grant_scopes_cases, retire_scope_cases, redeem_cases, revoke_cases,
  open_pairing_cases, put_pairing_request_cases, enroll_cases, complete_pairing_cases,
  take_pairing_grant_cases,
}
use teacher_assistant.Relay.Calls.{Call, step, Moment, Reach, here, next}
use teacher_assistant.Relay.Calls.Invariant.{
  IsSound, IsSound-same, Allowed-grant, master_tag-NoOther, check_grant-ok, fit_device,
}

IsSound-append :
    (s : RelayStore) (fresh : Text) (doc : ℕ) (t : Tag) (blobs : List Blob)
    → IsSound s
    → IsSound (Store.append s fresh doc t blobs).0
unfolding Store.append
IsSound-append s fresh doc t blobs v =
    IsSound-same s _ (ground arith) (ground arith) (ground arith) v

IsSound-issue :
    (s : RelayStore) (hash expires_at : ℕ)
    → IsSound s
    → IsSound (Store.issue_owner_code s hash expires_at).0
unfolding Store.issue_owner_code
IsSound-issue s hash expires_at v = IsSound-same s _ (ground arith) (ground arith) (ground arith) v

grant-IsSound :
    (s : RelayStore) (devices : Map StoredDevice) (key : PublicKey) (role : DeviceRole)
    (gs : List ScopeGrant)
    → check_scopes role gs s.scopes (master_tag s.scopes) ≡ GrantResult.ok
    → get key devices ≡ some (record { role = role; status = active })
    → ((j : PublicKey) (x : Option StoredScope)
        → fit_device (get j s.devices) x ≡ true
        → fit_device (get j devices) x ≡ true)
    → IsSound s
    → IsSound (record (write_grant s key gs) { devices = devices })
unfolding write_grant
grant-IsSound s devices key role gs h is_row stays v =
    let other = master_tag-NoOther s.scopes in
    record {
      one_master =
          write_scopes-OneMaster role gs s.scopes (master_tag s.scopes) h other v.one_master;
      master_live =
          write_scopes-MasterLive role gs s.scopes (master_tag s.scopes) h other v.master_live;
      allowed =
          Allowed-grant s.acl s.devices devices s.scopes key role gs (master_tag s.scopes) h is_row
            stays v.allowed;
    }

grant_scopes-IsSound :
    (s : RelayStore) (key : PublicKey) (gs : List ScopeGrant)
    → IsSound s
    → IsSound (Store.grant_scopes s key gs).0
unfolding write_grant
grant_scopes-IsSound s key gs v = grant_scopes_cases IsSound s v key gs λ e.
    let (d, found, live, h) = check_grant-ok _ gs s.scopes (master_tag s.scopes) e in
    IsSound-same _ _ refl refl refl
      (grant-IsSound s s.devices key d.role gs h (rw found (ground arith)) (λ j x k. k) v)

retired-IsSound :
    (s : RelayStore) (t : Tag) (x : StoredScope)
    → get t s.scopes ≡ some x
    → is_master x.kind ≡ false
    → IsSound s
    → IsSound (record s { scopes = put t (retired_row x) s.scopes })
retired-IsSound s t x e k v = record {
  one_master = λ a b ha hb. ground (
    arith,
    v.one_master a b,
    get-put t a (retired_row x) s.scopes,
    get-put t b (retired_row x) s.scopes,
  );
  master_live = λ a ha. ground (arith, v.master_live a, get-put t a (retired_row x) s.scopes);
  allowed = λ j a h. ground (arith, v.allowed j a, get-put t a (retired_row x) s.scopes);
}

redeemed-IsSound :
    (s : RelayStore) (key : PublicKey)
    → get key s.devices ≡ none
    → IsSound s
    → IsSound (record s { devices = put key (active_row owner) s.devices })
redeemed-IsSound s key e v = record {
  one_master = v.one_master;
  master_live = v.master_live;
  allowed = λ j a h. ground (arith, v.allowed j a, get-put key j (active_row owner) s.devices);
}

dropped-IsSound :
    (s : RelayStore) (key : PublicKey) (d : StoredDevice)
    → IsSound s
    → IsSound (drop_device s key d)
dropped-IsSound s key d v = record {
  one_master = v.one_master;
  master_live = v.master_live;
  allowed = λ j a h. ground (
    arith,
    v.allowed j a,
    get-put key j (record d { status = revoked }) s.devices,
    get-remove key j s.acl,
  );
}

pub enrollment_row :
    (signer key : PublicKey) (existing : Option StoredDevice) (role : DeviceRole) (d : StoredDevice)
    → check_enrollment signer key existing role ≡ grantee d
    → d.status ≡ active
    → (d.role ≡ role) × ((existing ≡ none) ⊎ (existing ≡ some (active_row role)))
unfolding check_enrollment
enrollment_row signer key existing role d h live = ground arith

enroll-IsSound :
    (s : RelayStore) (sid : ℕ) (p : StoredPairing) (signer key : PublicKey) (role : DeviceRole)
    (gs : List ScopeGrant) (blob : Blob) (d : StoredDevice)
    → check_enrollment signer key (get key s.devices) role ≡ grantee d
    → IsSound s
    → IsSound (enroll s sid p key role gs blob d).0
unfolding write_grant
enroll-IsSound s sid p signer key role gs blob d en v =
    enroll_cases IsSound s v sid p key role gs blob d λ e.
      let (x, found, live, h) = check_grant-ok _ gs s.scopes (master_tag s.scopes) e in
      let (same, before) = enrollment_row signer key (get key s.devices) role d en (ground arith) in
      let h' : check_scopes role gs s.scopes (master_tag s.scopes) ≡ GrantResult.ok =
        ground arith in
      IsSound-same _ _ refl refl refl (
        grant-IsSound s (put key (active_row role) s.devices) key role gs h'
          (rw (get-put key key (active_row role) s.devices) (ground arith))
          (λ j y k. ground (arith, get-put key j (active_row role) s.devices)) v)

-- Every call of the store keeps it sound: there is at most one master scope, it is never retired, and
-- every tag in a device's access list is a registered scope that the device, active, may hold (a
-- member device holds no master scope).
pub step-IsSound : (now : ℕ) (c : Call) (s : RelayStore) → IsSound s → IsSound (step now c s)
unfolding step Store.invalidate_owner_codes Store.put_recovery_wrap Store.sweep_expired
    Store.rotate_epochs
step-IsSound now (Call.append fresh doc t blobs) s v = IsSound-append s fresh doc t blobs v
step-IsSound now (Call.issue_owner_code hash expires_at) s v = IsSound-issue s hash expires_at v
step-IsSound now (Call.redeem_owner_code hash key) s v =
    redeem_cases IsSound s v now hash key
      λ c found unused live fresh. IsSound-same _ _ refl refl refl (redeemed-IsSound s key fresh v)
step-IsSound now Call.invalidate_owner_codes s v = IsSound-same s _ refl refl refl v
step-IsSound now (Call.grant_scopes key gs) s v = grant_scopes-IsSound s key gs v
step-IsSound now (Call.retire_scope t) s v =
    retire_scope_cases IsSound s v t λ x e k. retired-IsSound s t x e k v
step-IsSound now (Call.revoke key) s v =
    revoke_cases IsSound s v key λ d e live others. dropped-IsSound s key d v
step-IsSound now (Call.open_pairing sid opener) s v =
    open_pairing_cases IsSound s v now sid opener λ a b c. IsSound-same s _ refl refl refl v
step-IsSound now (Call.put_pairing_request sid signer blob) s v =
    put_pairing_request_cases IsSound s v now sid signer blob
      λ p a b. IsSound-same s _ refl refl refl v
step-IsSound now (Call.complete_pairing sid opener key role gs blob) s v =
    complete_pairing_cases IsSound s v now sid opener key role gs blob
      λ p r row a b e. enroll-IsSound s sid p r.signer key role gs blob row e v
step-IsSound now (Call.take_pairing_grant sid signer) s v =
    take_pairing_grant_cases IsSound s v now sid signer (IsSound-same s _ refl refl refl v)
step-IsSound now (Call.put_recovery_wrap blob) s v = IsSound-same s _ refl refl refl v
step-IsSound now Call.sweep_expired s v = IsSound-same s _ refl refl refl v
step-IsSound now (Call.rotate_epochs fresh) s v = IsSound-same s _ refl refl refl v

-- So a store reached from a sound one by any run of calls is sound.
pub Reach-IsSound : {m n : Moment} → Reach m n → IsSound m.store → IsSound n.store
Reach-IsSound here v = v
Reach-IsSound (next r now c later) v = step-IsSound now c _ (Reach-IsSound r v)
