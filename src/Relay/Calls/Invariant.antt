-- ===== src/Relay/Calls/Invariant.antt =====
-- The scope-kind and access invariants of the relay's store, kept by every call
-- (services/sync-relay/src/store.ts).
use teacher_assistant.Base.{
  ◌≡◌, refl, inl, inr, Bool, true, false, ◌&&◌, List, [], ◌∷◌, Option, none, some, arith, contains,
  Bool-cases, Option-cases,
}
use teacher_assistant.Base.Map.{Map, get, put, get-put}
use teacher_assistant.Relay.Types.{
  PublicKey, Tag, DeviceRole, active, ScopeGrant, GrantResult, StoredDevice, StoredScope,
  RelayStore, is_active,
}
use teacher_assistant.Relay.Grants.{check_grant, check_scopes, write_scopes, write_tags}
use teacher_assistant.Relay.Grants.Checks.{NoOther, may_hold}
use teacher_assistant.Relay.Grants.Effects.{
  OneMaster, MasterLive, Extends, write_scopes-Extends, asks, contains-write_tags,
  write_scopes-may_hold,
}
use teacher_assistant.Relay.Store.{master_tag, tags_of}

-- An enrolled, active device that may hold the scope.
abbrev pub fit_device : Option StoredDevice → Option StoredScope → Bool
fit_device none x = false
fit_device (some d) x = is_active d.status && may_hold d.role x

-- Each tag of each device's set is a registered scope that the device, active, may hold.
abbrev pub Allowed : Map (List Tag) → Map StoredDevice → Map StoredScope → Type 0
Allowed acl devices scopes =
    (key : PublicKey) (t : Tag)
    → contains t (tags_of (get key acl)) ≡ true
    → fit_device (get key devices) (get t scopes) ≡ true

-- Without a master tag no scope is a master scope.
pub master_tag-NoOther : (m : Map StoredScope) → NoOther (master_tag m) m
unfolding master_tag get
master_tag-NoOther [] e t = refl
master_tag-NoOther ((u, x) ∷ m) e t =
    let rest : master_tag m ≡ none = ground arith in ground (arith, master_tag-NoOther m rest t)

fit_device_mono :
    (d : Option StoredDevice) (t : Tag) (m m' : Map StoredScope)
    → Extends m m'
    → fit_device d (get t m) ≡ true
    → fit_device d (get t m') ≡ true
fit_device_mono d t m m' ext h = elim (Option-cases (get t m)) [
  | inl missing ↦ absurd (ground arith)
  | inr (x, found) ↦ rw (ext t x found) (rw found at h)
]

abbrev row : DeviceRole → StoredDevice
row role = record { role = role; status = active }

-- An accepted grant to a device that is active with this role afterwards.
pub Allowed-grant :
    (acl : Map (List Tag)) (devices devices' : Map StoredDevice) (scopes : Map StoredScope)
    (key : PublicKey) (role : DeviceRole) (gs : List ScopeGrant) (mt : Option Tag)
    → check_scopes role gs scopes mt ≡ GrantResult.ok
    → get key devices' ≡ some (row role)
    → ((j : PublicKey) (x : Option StoredScope)
        → fit_device (get j devices) x ≡ true
        → fit_device (get j devices') x ≡ true)
    → Allowed acl devices scopes
    → Allowed
        (put key (write_tags gs (tags_of (get key acl))) acl)
        devices'
        (write_scopes gs scopes)
Allowed-grant acl devices devices' scopes key role gs mt h is_row stays ok j t held =
    elim (Bool-cases (contains t (tags_of (get j acl)))) [
      | inl old ↦ stays j _ (
          fit_device_mono (get j devices) t scopes (write_scopes gs scopes)
            (write_scopes-Extends gs scopes) (ok j t old))
      | inr new ↦
          let asked : (key ≡ j) × (asks t gs ≡ true) = ground (
            arith,
            get-put key j (write_tags gs (tags_of (get key acl))) acl,
            contains-write_tags t gs (tags_of (get key acl)),
          ) in
          let (same, a) = asked in
          rw (← same, is_row) (write_scopes-may_hold role gs scopes scopes mt t h (λ u. refl) a)
    ]

pub check_grant-ok :
    (d : Option StoredDevice) (gs : List ScopeGrant) (m : Map StoredScope) (mt : Option Tag)
    → check_grant d gs m mt ≡ GrantResult.ok
    → (x : StoredDevice) × (d ≡ some x)
      × (x.status ≡ active)
      × (check_scopes x.role gs m mt ≡ GrantResult.ok)
unfolding check_grant
check_grant-ok none gs m mt h = cc
check_grant-ok (some x) gs m mt h = (x, refl, ground arith, ground arith)

pub record IsSound (s : RelayStore) : Type 0 where
  pub one_master : OneMaster s.scopes
  pub master_live : MasterLive s.scopes
  pub allowed : Allowed s.acl s.devices s.scopes

pub IsSound-same :
    (s s' : RelayStore)
    → s'.acl ≡ s.acl
    → s'.devices ≡ s.devices
    → s'.scopes ≡ s.scopes
    → IsSound s
    → IsSound s'
IsSound-same s s' a d c v = record {
  one_master = rw c v.one_master;
  master_live = rw c v.master_live;
  allowed = rw (a, d, c) v.allowed;
}
