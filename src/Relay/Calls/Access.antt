-- ===== src/Relay/Calls/Access.antt =====
-- Who may reach a scope: after a grant, after a revocation and after any run of calls
-- (services/sync-relay/src/store.ts).
use teacher_assistant.Base.{
  ℕ, ◌≡◌, refl, ◌⊎◌, inl, inr, ◌≢◌, true, false, ◌&&◌, ◌||◌, List, Option, none, some, arith, ◌==◌,
  leb, Bool-cases,
}
use teacher_assistant.Base.Map.{get, get-put}
use teacher_assistant.Relay.Types.{
  PublicKey, Tag, member, active, ScopeGrant, GrantResult, not_active, period, refused,
  RevokeResult, StoredDevice, StoredScope, RelayStore, is_active, is_owner,
}
use teacher_assistant.Relay.Grants.{check_grant, write_tags}
use teacher_assistant.Relay.Grants.Effects.{asks, contains-write_tags}
use teacher_assistant.Relay.Store
use teacher_assistant.Relay.Store.{
  device_role, is_authorized, tags_of, write_grant, master_tag, empty, drop_device,
}
use teacher_assistant.Relay.Calls.{Moment, Reach}
use teacher_assistant.Relay.Calls.Invariant.{IsSound, fit_device, check_grant-ok}
use teacher_assistant.Relay.Calls.Soundness.{Reach-IsSound}
use teacher_assistant.Relay.Calls.Devices.{Continues, Reach-Continues, revoked_row}

-- An empty store is sound.
pub empty-IsSound : IsSound empty
unfolding get
empty-IsSound = record {
  one_master = λ t u a b. cc;
  master_live = λ t a. refl;
  allowed = λ key t a. cc;
}

-- In every store that a run of calls reaches from the empty one, a device that is authorized for a
-- scope is enrolled and active, the scope is registered, and a member's scope is a class period.
pub is_authorized_sound :
    {now : ℕ} {n : Moment} (key : PublicKey) (t : Tag)
    → Reach (record { now = now; store = empty }) n
    → is_authorized n.store key t ≡ true
    → (d : StoredDevice) × (x : StoredScope) × (get key n.store.devices ≡ some d)
      × (d.status ≡ active)
      × (get t n.store.scopes ≡ some x)
      × (d.role ≡ member → x.kind ≡ period)
unfolding is_authorized
is_authorized_sound {now} {n} key t r h =
    found (get key n.store.devices) (get t n.store.scopes) refl refl
      ((Reach-IsSound r empty-IsSound).allowed key t (ground arith))
  where
    found :
        (d : Option StoredDevice) (x : Option StoredScope)
        → get key n.store.devices ≡ d
        → get t n.store.scopes ≡ x
        → fit_device d x ≡ true
        → (d : StoredDevice) × (x : StoredScope) × (get key n.store.devices ≡ some d)
          × (d.status ≡ active)
          × (get t n.store.scopes ≡ some x)
          × (d.role ≡ member → x.kind ≡ period)
    found none x e f k = cc
    found (some d) none e f k = absurd (ground arith)
    found (some d) (some x) e f k = (d, x, e, ground arith, f, λ m. ground arith)

-- What a grant comes to: the check passes and the grant is written, or nothing changes.
grant_scopes-either :
    (s : RelayStore) (key : PublicKey) (gs : List ScopeGrant)
    → ((check_grant (get key s.devices) gs s.scopes (master_tag s.scopes) ≡ GrantResult.ok)
        × (Store.grant_scopes s key gs ≡ (write_grant s key gs, GrantResult.ok)))
      ⊎ ((r : GrantResult) × (r ≢ GrantResult.ok) × (Store.grant_scopes s key gs ≡ (s, r)))
unfolding Store.grant_scopes
grant_scopes-either s key gs =
    go (check_grant (get key s.devices) gs s.scopes (master_tag s.scopes)) refl
  where
    go :
        (r : GrantResult)
        → check_grant (get key s.devices) gs s.scopes (master_tag s.scopes) ≡ r
        → ((check_grant (get key s.devices) gs s.scopes (master_tag s.scopes) ≡ GrantResult.ok)
            × (Store.grant_scopes s key gs ≡ (write_grant s key gs, GrantResult.ok)))
          ⊎ ((r : GrantResult) × (r ≢ GrantResult.ok) × (Store.grant_scopes s key gs ≡ (s, r)))
    go GrantResult.ok e = inl (e, rw (e, Store.grant_scopes))
    go r e = inr (r, (λ k. cc), rw (e, Store.grant_scopes))

write_grant-is_authorized :
    (s : RelayStore) (key : PublicKey) (gs : List ScopeGrant) (d : StoredDevice) (j : PublicKey)
    (t : Tag)
    → get key s.devices ≡ some d
    → d.status ≡ active
    → is_authorized (write_grant s key gs) j t ≡ (is_authorized s j t || (key == j && asks t gs))
unfolding is_authorized write_grant device_role
write_grant-is_authorized s key gs d j t e live = ground (
  arith,
  get-put key j (write_tags gs (tags_of (get key s.acl))) s.acl,
  contains-write_tags t gs (tags_of (get key s.acl)),
)

-- A grant that is refused changes nothing; one that is accepted authorizes its device for the scopes
-- asked for, and nobody for anything else.
pub grant_scopes-is_authorized :
    (s : RelayStore) (key : PublicKey) (gs : List ScopeGrant)
    → ((Store.grant_scopes s key gs).0 ≡ s) × ((Store.grant_scopes s key gs).1 ≢ GrantResult.ok)
      ⊎ ((Store.grant_scopes s key gs).1 ≡ GrantResult.ok)
        × ((j : PublicKey) (t : Tag)
            → is_authorized (Store.grant_scopes s key gs).0 j t
              ≡ (is_authorized s j t || (key == j && asks t gs)))
grant_scopes-is_authorized s key gs = elim (grant_scopes-either s key gs) [
  | inr (r, bad, e) ↦ inl (rw e (refl, bad))
  | inl (granted, e) ↦
      let (d, found, live, h) = check_grant-ok _ gs s.scopes (master_tag s.scopes) granted in
      inr (rw e (refl, λ j t. write_grant-is_authorized s key gs d j t found live))
]

-- A key that is enrolled and not active.
abbrev pub IsRevoked : RelayStore → PublicKey → Type 0
IsRevoked s key = (d : StoredDevice) × (get key s.devices ≡ some d) × (is_active d.status ≡ false)

revoke-IsRevoked :
    (s : RelayStore) (key : PublicKey) (d : StoredDevice)
    → get key s.devices ≡ some d
    → (Store.revoke s key).1 ≡ RevokeResult.ok
    → IsRevoked (Store.revoke s key).0 key
unfolding Store.revoke
revoke-IsRevoked s key d e h = elim (Bool-cases (is_active d.status)) [
  | inr k ↦ rw (e, Store.revoke, k) (d, e, k)
  | inl k ↦ elim (Bool-cases (is_owner d.role && leb (Store.active_owner_count s) 1)) [
    | inl last ↦ absurd (ground arith)
    | inr others ↦
        rw (e, Store.revoke, k, others)
          (revoked_row d, rw (get-put key key (revoked_row d) s.devices) (ground arith), refl)
  ]
]

Reach-IsRevoked :
    {m n : Moment} (key : PublicKey) → Reach m n → IsRevoked m.store key → IsRevoked n.store key
Reach-IsRevoked {m} {n} key r (d, e, k) =
    after (get key n.store.devices) refl (rw e at (Reach-Continues key r))
  where
    after :
        (o : Option StoredDevice)
        → get key n.store.devices ≡ o
        → Continues (some d) (get key n.store.devices)
        → IsRevoked n.store key
    after none f c = absurd (rw f at c)
    after (some x) f c = let c' : Continues (some d) (some x) = rw f at c in (x, f, c'.1 k)

shut_out :
    (s : RelayStore) (key : PublicKey)
    → IsRevoked s key
    → (device_role s key ≡ none)
      × ((t : Tag) → is_authorized s key t ≡ false)
      × ((at hash : ℕ) → Store.redeem_owner_code s at hash key ≡ (s, refused))
      × ((gs : List ScopeGrant) → Store.grant_scopes s key gs ≡ (s, not_active))
unfolding device_role is_authorized Store.redeem_owner_code Store.grant_scopes check_grant
shut_out s key (d, e, k) = (
  rw e (rw k),
  (λ t. rw (e, is_authorized, k)),
  (λ at hash. ground arith),
  (λ gs. rw (e, Store.grant_scopes, check_grant, k)),
)

-- A revoked device is shut out for good: after any later run of calls it has no role, is authorized
-- for no scope, can redeem no code and is granted nothing.
pub revoke-permanent :
    (s : RelayStore) (now : ℕ) (key : PublicKey) (d : StoredDevice) {n : Moment}
    → get key s.devices ≡ some d
    → (Store.revoke s key).1 ≡ RevokeResult.ok
    → Reach (record { now = now; store = (Store.revoke s key).0 }) n
    → (device_role n.store key ≡ none)
      × ((t : Tag) → is_authorized n.store key t ≡ false)
      × ((at hash : ℕ) → Store.redeem_owner_code n.store at hash key ≡ (n.store, refused))
      × ((gs : List ScopeGrant) → Store.grant_scopes n.store key gs ≡ (n.store, not_active))
revoke-permanent s now key d {n} e h r =
    shut_out n.store key (Reach-IsRevoked key r (revoke-IsRevoked s key d e h))
