-- ===== src/Relay/Listing/Safety.antt =====
-- listDevices never throws (services/sync-relay/src/store.ts).
use teacher_assistant.Base.{
  ℕ, ◌≡◌, refl, true, ◌||◌, List, [], ◌∷◌, map, Option, none, some, arith, ◌==◌, is_some, contains,
}
use teacher_assistant.Base.Map.{Map, get}
use teacher_assistant.Relay.Types.{PublicKey, Tag, StoredDevice, StoredScope, RelayStore}
use teacher_assistant.Relay.Store.{tags_of, empty}
use teacher_assistant.Relay.Calls.{Moment, Reach}
use teacher_assistant.Relay.Calls.Invariant.{IsSound, fit_device}
use teacher_assistant.Relay.Calls.Soundness.{Reach-IsSound}
use teacher_assistant.Relay.Calls.Access.{empty-IsSound}
use teacher_assistant.Relay.Listing.{
  insert_id, sort_ids, scope_listings, device_listing, device_listings, list_devices,
}

contains-insert_id :
    (a x : ℕ) (xs : List ℕ) → contains a (insert_id x xs) ≡ (x == a || contains a xs)
unfolding insert_id
contains-insert_id a x [] = refl
contains-insert_id a x (y ∷ ys) = ground (arith, contains-insert_id a x ys)

contains-sort_ids : (a : ℕ) (xs : List ℕ) → contains a (sort_ids xs) ≡ contains a xs
unfolding sort_ids
contains-sort_ids a [] = refl
contains-sort_ids a (x ∷ xs) =
    ground (arith, contains-insert_id a x (sort_ids xs), contains-sort_ids a xs)

-- Tags that are all registered are all listed.
scope_listings_total :
    (scopes : Map StoredScope) (ts : List Tag)
    → ((t : Tag) → contains t ts ≡ true → is_some (get t scopes) ≡ true)
    → is_some (scope_listings scopes ts) ≡ true
unfolding scope_listings
scope_listings_total scopes [] h = refl
scope_listings_total scopes (t ∷ ts) h =
    let rest = scope_listings_total scopes ts (λ u c. h u (ground (arith, c))) in
    let here = h t (ground arith) in ground (arith, rest, here)

registered :
    (d : Option StoredDevice) (x : Option StoredScope) → fit_device d x ≡ true → is_some x ≡ true
registered none x h = absurd (ground (arith, h))
registered (some d) none h = ground (arith, h)
registered (some d) (some x) h = refl

device_listing_total :
    (s : RelayStore) (key : PublicKey)
    → IsSound s
    → is_some (get key s.devices) ≡ true
    → is_some (device_listing s key) ≡ true
unfolding device_listing
device_listing_total s key v known =
    let scopes = scope_listings_total s.scopes (sort_ids (tags_of (get key s.acl))) (λ t c.
      registered (get key s.devices) (get t s.scopes)
        (v.allowed key t (ground (arith, c, contains-sort_ids t (tags_of (get key s.acl)))))) in
    ground (arith, scopes, known)

device_listings_total :
    (s : RelayStore) (keys : List PublicKey)
    → IsSound s
    → ((key : PublicKey) → contains key keys ≡ true → is_some (get key s.devices) ≡ true)
    → is_some (device_listings s keys) ≡ true
unfolding device_listings
device_listings_total s [] v h = refl
device_listings_total s (key ∷ keys) v h =
    let rest = device_listings_total s keys v (λ j c. h j (ground (arith, c))) in
    let here = device_listing_total s key v (h key (ground arith)) in ground (arith, rest, here)

known_key :
    (m : Map StoredDevice) (key : ℕ)
    → contains key (map (λ e. e.0) m) ≡ true
    → is_some (get key m) ≡ true
unfolding get
known_key [] key h = h
known_key ((j, d) ∷ m) key h = ground (arith, known_key m key)

-- In every store that a run of calls reaches from the empty one, the list of the devices is made
-- whole: every tag of every device's access list has a scope, as the code assumes by a cast.
pub Reach-list_devices :
    {now : ℕ} {n : Moment}
    → Reach (record { now = now; store = empty }) n
    → is_some (list_devices n.store) ≡ true
unfolding list_devices
Reach-list_devices {n = n} r =
    let v = Reach-IsSound r empty-IsSound in
    device_listings_total n.store (sort_ids (map (λ e. e.0) n.store.devices)) v (λ key c.
      known_key n.store.devices key
        (ground (arith, c, contains-sort_ids key (map (λ e. e.0) n.store.devices))))
