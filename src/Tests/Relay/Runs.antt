-- ===== src/Tests/Relay/Runs.antt =====
-- The theorems on runs of calls at the first days of a relay.
use teacher_assistant.Base.{
  true, is_some, ℕ, ◌≤◌, ◌≡◌, ◌≢◌, ◌⊎◌, refl, false, ◌||◌, ◌&&◌, [], ◌∷◌, List, none, some, arith,
  ◌==◌,
}
use teacher_assistant.Base.Map.{get}
use teacher_assistant.Relay.Types.{
  member, active, period, ScopeGrant, StoredDevice, StoredScope, refused, GrantResult, not_active,
  Tag, PublicKey,
}
use teacher_assistant.Relay.Grants.Effects.{asks}
use teacher_assistant.Relay.Store
use teacher_assistant.Relay.Store.{
  empty, device_role, is_authorized, active_owner_count, max_open_pairings,
}
use teacher_assistant.Relay.Calls.{Call, Moment, Reach, here, next, step}
use teacher_assistant.Relay.Calls.Invariant.{IsSound}
use teacher_assistant.Relay.Calls.Soundness.{step-IsSound, Reach-IsSound}
use teacher_assistant.Relay.Calls.Access.{
  empty-IsSound, is_authorized_sound, grant_scopes-is_authorized, revoke-permanent,
}
use teacher_assistant.Relay.Calls.Devices.{step-active_owner}
use teacher_assistant.Relay.Calls.Codes.{redeem_once}
use teacher_assistant.Relay.Calls.Pairings.{
  open_count, Reach-open_count, Completes, complete_pairing-Completes,
}
use teacher_assistant.Relay.Calls.Logs.{Grows, Reach-Grows}
use teacher_assistant.Relay.Listing.{list_devices}
use teacher_assistant.Relay.Listing.Safety.{Reach-list_devices}
use teacher_assistant.Tests.Relay.{
  relay, period_only, set_up, set_up-Reach, requested, paired, paired-Reach,
}

Reach-IsSound_example : IsSound set_up.store
Reach-IsSound_example = Reach-IsSound set_up-Reach empty-IsSound

paired-IsSound : IsSound paired.store
paired-IsSound = Reach-IsSound paired-Reach (Reach-IsSound set_up-Reach empty-IsSound)

step-IsSound_example : IsSound (step 8 (Call.retire_scope 11) paired.store)
step-IsSound_example = step-IsSound 8 (Call.retire_scope 11) paired.store paired-IsSound

is_authorized_sound_example :
    (d : StoredDevice) × (x : StoredScope) × (get 1 set_up.store.devices ≡ some d)
    × (d.status ≡ active)
    × (get 11 set_up.store.scopes ≡ some x)
    × (d.role ≡ member → x.kind ≡ period)
unfolding relay
is_authorized_sound_example = is_authorized_sound 1 11 set_up-Reach refl

abbrev member_row : StoredDevice
member_row = record { role = member; status = active }

-- Key 2 is revoked, and a code is issued in vain for it.
abbrev after_revoke : Moment
after_revoke = record { now = 7; store = (Store.revoke paired.store 2).0 }

abbrev later : Moment
later = record { now = 8; store = step 8 (Call.issue_owner_code 9 5_000) after_revoke.store }

later-Reach : Reach after_revoke later
later-Reach = next here 8 (Call.issue_owner_code 9 5_000) (omega arith)

revoke-permanent_example :
    (device_role later.store 2 ≡ none)
    × ((t : Tag) → is_authorized later.store 2 t ≡ false)
    × ((at hash : ℕ) → Store.redeem_owner_code later.store at hash 2 ≡ (later.store, refused))
    × ((gs : List ScopeGrant) → Store.grant_scopes later.store 2 gs ≡ (later.store, not_active))
unfolding relay
revoke-permanent_example = revoke-permanent paired.store 7 2 member_row refl refl later-Reach

grant_scopes-is_authorized_example :
    ((Store.grant_scopes paired.store 1 period_only).0 ≡ paired.store)
      × ((Store.grant_scopes paired.store 1 period_only).1 ≢ GrantResult.ok)
    ⊎ ((Store.grant_scopes paired.store 1 period_only).1 ≡ GrantResult.ok)
      × ((j : PublicKey) (t : Tag)
          → is_authorized (Store.grant_scopes paired.store 1 period_only).0 j t
            ≡ (is_authorized paired.store j t || (1 == j && asks t period_only)))
grant_scopes-is_authorized_example = grant_scopes-is_authorized paired.store 1 period_only

step-active_owner_example : 1 ≤ active_owner_count (step 9 (Call.revoke 1) paired.store)
unfolding relay
step-active_owner_example = step-active_owner 9 (Call.revoke 1) paired.store (omega arith)

-- The code 7 was redeemed by key 1, and then session 50 is opened.
abbrev issued_store : Moment
issued_store = record { now = 1; store = step 1 (Call.issue_owner_code 7 1_000) empty }

abbrev redeemed : Moment
redeemed = record { now = 2; store = (Store.redeem_owner_code issued_store.store 2 7 1).0 }

abbrev opened : Moment
opened = record { now = 4; store = step 4 (Call.open_pairing 50 1) redeemed.store }

redeem_once_example : Store.redeem_owner_code opened.store 6 7 3 ≡ (opened.store, refused)
unfolding relay
redeem_once_example =
    redeem_once issued_store.store 2 7 1 (refl, tt) (λ e. absurd (ground (arith, e)))
      (next here 4 (Call.open_pairing 50 1) (omega arith)) 6 3

Reach-open_count_example : open_count paired.now paired.store ≤ max_open_pairings
unfolding relay
Reach-open_count_example = Reach-open_count paired-Reach (omega arith)

complete_pairing-Completes_example :
    Completes requested.store 6 50 1 2 member
      (Store.complete_pairing requested.store 6 50 1 2 member period_only "grant")
complete_pairing-Completes_example =
    complete_pairing-Completes requested.store 6 50 1 2 member period_only "grant"

-- A doc is created by a push, its epoch is rotated, and more is pushed.
abbrev created : Moment
created = record { now = 1; store = step 1 (Call.append (b'e' ∷ []) 1 11 ("a" ∷ "b" ∷ [])) empty }

abbrev grown : Moment
grown = record {
  now = 3;
  store =
      step 3 (Call.append [] 1 11 ("c" ∷ []))
        (step 2 (Call.rotate_epochs (λ doc. b'f' ∷ [])) created.store);
}

grown-Reach : Reach created grown
grown-Reach =
    next (next here 2 (Call.rotate_epochs (λ doc. b'f' ∷ [])) (omega arith)) 3
      (Call.append [] 1 11 ("c" ∷ [])) (omega arith)

Reach-Grows_example : Grows (get 1 created.store.docs) (get 1 grown.store.docs)
Reach-Grows_example = Reach-Grows 1 grown-Reach

Reach-list_devices_example : is_some (list_devices set_up.store) ≡ true
Reach-list_devices_example = Reach-list_devices set_up-Reach
