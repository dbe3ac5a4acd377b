-- ===== src/Relay/Grants/Checks.antt =====
-- What a grant that checkGrant accepts may write (services/sync-relay/src/store.ts).
use teacher_assistant.Base.{
  ◌≡◌, refl, ◌∙◌, Bool, false, ◌||◌, not, List, [], ◌∷◌, Option, none, some, arith, ◌==◌,
  if◌then◌else◌,
}
use teacher_assistant.Base.Map.{Map, get, put, get-put}
use teacher_assistant.Relay.Types.{
  Tag, DeviceRole, ScopeGrant, GrantResult, StoredScope, is_owner, is_master,
}
use teacher_assistant.Relay.Grants.{check_scope, check_scopes, write_scope, write_scopes}

abbrev pub is_master_at : Map StoredScope → Tag → Bool
is_master_at m t = elim (get t m) [ none ↦ false | some x ↦ is_master x.kind ]

-- Where no master tag is given, no scope is a master scope.
abbrev pub NoOther : Option Tag → Map StoredScope → Type 0
NoOther mt m = mt ≡ none → (t : Tag) → is_master_at m t ≡ false

-- A device of this role may hold the scope: it is registered, and a member holds no master scope.
abbrev pub may_hold : DeviceRole → Option StoredScope → Bool
may_hold role none = false
may_hold role (some x) = is_owner role || not (is_master x.kind)

abbrev pub next_master : ScopeGrant → Option Tag → Option Tag
next_master g mt = if is_master g.kind then some g.tag else mt

abbrev pub registered : ScopeGrant → StoredScope
registered g = record { kind = g.kind; retired = false }

-- An accepted scope is written as the check assumes: as a live scope of the kind asked for.
pub get-write_scope :
    (role : DeviceRole) (g : ScopeGrant) (scopes : Map StoredScope) (mt : Option Tag) (t : Tag)
    → check_scope role g (get g.tag scopes) mt ≡ GrantResult.ok
    → get t (write_scope g scopes) ≡ (if g.tag == t then some (registered g) else get t scopes)
unfolding check_scope
get-write_scope role g scopes mt t h = ground (arith, get-put g.tag t (registered g) scopes)

pub check_scopes-head :
    (role : DeviceRole) (g : ScopeGrant) (gs : List ScopeGrant) (seen : Map StoredScope)
    (mt : Option Tag)
    → check_scopes role (g ∷ gs) seen mt ≡ GrantResult.ok
    → (check_scope role g (get g.tag seen) mt ≡ GrantResult.ok)
      × (check_scopes role gs (put g.tag (registered g) seen) (next_master g mt) ≡ GrantResult.ok)
unfolding check_scopes
check_scopes-head role g gs seen mt h = ground arith

NoOther-write_scope :
    (role : DeviceRole) (g : ScopeGrant) (scopes : Map StoredScope) (mt : Option Tag)
    → check_scope role g (get g.tag scopes) mt ≡ GrantResult.ok
    → NoOther mt scopes
    → NoOther (next_master g mt) (write_scope g scopes)
NoOther-write_scope role g scopes mt h other e t =
    let period_asked : is_master g.kind ≡ false = ground arith in
    let absent : mt ≡ none = ground arith in
    ground (arith, get-write_scope role g scopes mt t h, other absent t)

-- What the check takes for registered and what is registered stay the same scopes.
pub same-write_scope :
    (role : DeviceRole) (g : ScopeGrant) (seen scopes : Map StoredScope) (mt : Option Tag)
    → check_scope role g (get g.tag seen) mt ≡ GrantResult.ok
    → ((t : Tag) → get t seen ≡ get t scopes)
    → (t : Tag) → get t (put g.tag (registered g) seen) ≡ get t (write_scope g scopes)
same-write_scope role g seen scopes mt head same t =
    let head' : check_scope role g (get g.tag scopes) mt ≡ GrantResult.ok =
      rw (same g.tag) at head in
    get-put g.tag t (registered g) seen
    ∙ rw (get-write_scope role g scopes mt t head') (ground (arith, same t))

-- To prove a property of the scopes after an accepted grant: it is kept by each accepted write.
module _ {ℓ} (role : DeviceRole) (P : Map StoredScope → Type ℓ)
    (keeps : (g : ScopeGrant) (scopes : Map StoredScope) (mt : Option Tag)
      → check_scope role g (get g.tag scopes) mt ≡ GrantResult.ok
      → NoOther mt scopes
      → P scopes
      → P (write_scope g scopes)) where
  write_scopes_seen :
      (gs : List ScopeGrant) (seen scopes : Map StoredScope) (mt : Option Tag)
      → check_scopes role gs seen mt ≡ GrantResult.ok
      → ((t : Tag) → get t seen ≡ get t scopes)
      → NoOther mt scopes
      → P scopes
      → P (write_scopes gs scopes)
  unfolding write_scopes
  write_scopes_seen [] seen scopes mt h same other p = p
  write_scopes_seen (g ∷ gs) seen scopes mt h same other p =
      let (head, tail) = check_scopes-head role g gs seen mt h in
      let head' : check_scope role g (get g.tag scopes) mt ≡ GrantResult.ok =
        rw (same g.tag) at head in
      write_scopes_seen gs (put g.tag (registered g) seen) (write_scope g scopes) (next_master g mt)
        tail (same-write_scope role g seen scopes mt head same)
        (NoOther-write_scope role g scopes mt head' other) (keeps g scopes mt head' other p)

  pub write_scopes-keeps :
      (gs : List ScopeGrant) (scopes : Map StoredScope) (mt : Option Tag)
      → check_scopes role gs scopes mt ≡ GrantResult.ok
      → NoOther mt scopes
      → P scopes
      → P (write_scopes gs scopes)
  write_scopes-keeps gs scopes mt h = write_scopes_seen gs scopes scopes mt h (λ t. refl)
