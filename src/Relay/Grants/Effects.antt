-- ===== src/Relay/Grants/Effects.antt =====
-- The scopes and the tags after an accepted grant (services/sync-relay/src/store.ts).
use teacher_assistant.Base.{
  ◌≡◌, sym, ◌∙◌, ◌⊎◌, inl, inr, Bool, true, false, ◌||◌, List, [], ◌∷◌, ◌++◌, Option, none, some,
  arith, ◌==◌, contains, Bool-cases,
}
use teacher_assistant.Base.Map.{Map, get, put, get-put}
use teacher_assistant.Relay.Types.{Tag, DeviceRole, ScopeGrant, GrantResult, StoredScope, is_master}
use teacher_assistant.Relay.Grants.{
  is_retired, check_scope, check_scopes, add, write_scope, write_scopes, write_tags,
}
use teacher_assistant.Relay.Grants.Checks.{
  is_master_at, NoOther, may_hold, registered, get-write_scope, write_scopes-keeps,
  check_scopes-head, same-write_scope, next_master,
}

-- At most one registered scope is a master scope.
abbrev pub OneMaster : Map StoredScope → Type 0
OneMaster m = (t u : Tag) → is_master_at m t ≡ true → is_master_at m u ≡ true → t ≡ u

-- A master scope is never retired.
abbrev pub MasterLive : Map StoredScope → Type 0
MasterLive m = (t : Tag) → is_master_at m t ≡ true → is_retired (get t m) ≡ false

-- Every scope of the first map is in the second as it was.
abbrev pub Extends : Map StoredScope → Map StoredScope → Type 0
Extends base m = (t : Tag) (x : StoredScope) → get t base ≡ some x → get t m ≡ some x

-- What a scope that passes the check may be: a period, the master scope itself, or the first one.
accepted_cases :
    (role : DeviceRole) (g : ScopeGrant) (m : Map StoredScope) (mt : Option Tag)
    → check_scope role g (get g.tag m) mt ≡ GrantResult.ok
    → (is_master g.kind ≡ false) ⊎ ((is_master_at m g.tag ≡ true) ⊎ (mt ≡ none))
unfolding check_scope
accepted_cases role g m mt h = ground arith

write_scope-OneMaster :
    (role : DeviceRole) (g : ScopeGrant) (m : Map StoredScope) (mt : Option Tag)
    → check_scope role g (get g.tag m) mt ≡ GrantResult.ok
    → NoOther mt m
    → OneMaster m
    → OneMaster (write_scope g m)
write_scope-OneMaster role g m mt h other one t u a b =
    let at_t = get-write_scope role g m mt t h in
    let at_u = get-write_scope role g m mt u h in
    elim (accepted_cases role g m mt h) [
      | inl a_period ↦ ground (arith, at_t, at_u, one t u)
      | inr (inl known) ↦ ground (arith, at_t, at_u, one t u, one g.tag t, one g.tag u)
      | inr (inr absent) ↦ ground (arith, at_t, at_u, other absent t, other absent u)
    ]

module _ (role : DeviceRole) (gs : List ScopeGrant) (scopes : Map StoredScope) (mt : Option Tag)
    (accepted : check_scopes role gs scopes mt ≡ GrantResult.ok) (other : NoOther mt scopes) where
  pub write_scopes-OneMaster : OneMaster scopes → OneMaster (write_scopes gs scopes)
  write_scopes-OneMaster =
      write_scopes-keeps role OneMaster (write_scope-OneMaster role) gs scopes mt accepted other

  pub write_scopes-MasterLive : MasterLive scopes → MasterLive (write_scopes gs scopes)
  write_scopes-MasterLive =
      write_scopes-keeps role MasterLive
        (λ g m mt' h none_else live t a. ground (arith, get-write_scope role g m mt' t h, live t))
        gs scopes mt accepted other

write_scope-Extends : (g : ScopeGrant) (m : Map StoredScope) → Extends m (write_scope g m)
write_scope-Extends g m t x e = ground (arith, get-put g.tag t (registered g) m)

-- Grants register scopes and change none.
pub write_scopes-Extends :
    (gs : List ScopeGrant) (m : Map StoredScope) → Extends m (write_scopes gs m)
unfolding write_scopes
write_scopes-Extends [] m t x e = e
write_scopes-Extends (g ∷ gs) m t x e =
    write_scopes-Extends gs (write_scope g m) t x (write_scope-Extends g m t x e)

abbrev pub asks : Tag → List ScopeGrant → Bool
asks t [] = false
asks t (g ∷ gs) = g.tag == t || asks t gs

contains-append :
    (t u : Tag) (tags : List Tag) → contains t (tags ++ u ∷ []) ≡ (contains t tags || u == t)
contains-append t u [] = ground arith
contains-append t u (x ∷ xs) = ground (arith, contains-append t u xs)

-- The device's tags after a grant are those that it had and those asked for.
pub contains-write_tags :
    (t : Tag) (gs : List ScopeGrant) (tags : List Tag)
    → contains t (write_tags gs tags) ≡ (contains t tags || asks t gs)
unfolding write_tags
contains-write_tags t [] tags = ground arith
contains-write_tags t (g ∷ gs) tags =
    ground (arith, contains-write_tags t gs (add g.tag tags), contains-append t g.tag tags)

fit :
    (role : DeviceRole) (g : ScopeGrant) (existing : Option StoredScope) (mt : Option Tag)
    → check_scope role g existing mt ≡ GrantResult.ok
    → may_hold role (some (registered g)) ≡ true
unfolding check_scope
fit role g existing mt h = ground arith

-- Every scope asked for in an accepted grant is registered, and fit for the device's role.
pub write_scopes-may_hold :
    (role : DeviceRole) (gs : List ScopeGrant) (seen m : Map StoredScope) (mt : Option Tag)
    (t : Tag)
    → check_scopes role gs seen mt ≡ GrantResult.ok
    → ((u : Tag) → get u seen ≡ get u m)
    → asks t gs ≡ true
    → may_hold role (get t (write_scopes gs m)) ≡ true
unfolding write_scopes
write_scopes-may_hold role [] seen m mt t h same a = cc
write_scopes-may_hold role (g ∷ gs) seen m mt t h same a =
    let (head, tail) = check_scopes-head role g gs seen mt h in
    let same' = same-write_scope role g seen m mt head same in
    elim (Bool-cases (g.tag == t)) [
      | inl hit ↦
          let found : get t (write_scope g m) ≡ some (registered g) =
            sym (same' t) ∙ rw (get-put g.tag t (registered g) seen, hit) in
          rw (write_scopes-Extends gs (write_scope g m) t (registered g) found)
            (fit role g (get g.tag seen) mt head)
      | inr miss ↦
          write_scopes-may_hold role gs (put g.tag (registered g) seen) (write_scope g m)
            (next_master g mt) t tail same' (ground arith)
    ]
