-- ===== src/Service/App/Secrecy.antt =====
-- What a signer of one scope can learn of the others: the two doc routes of
-- services/sync-relay/src/app.ts on stores that differ elsewhere only.
use Prim.Native.String.{String}
use teacher_assistant.Base.{
  ℕ, ◌≡◌, ◌≢◌, ◌⊎◌, inl, inr, refl, sym, ap, ◌∙◌, true, false, List, Option, none, some, arith,
  ◌==◌, Bool-cases, Option-cases, if◌then◌else◌,
}
use teacher_assistant.Base.Map.{get, put, get-put}
use teacher_assistant.Base.Texts.{number_of}
use teacher_assistant.Relay.Types.{Text, Blob, Tag, Cursor, StoredDoc, RelayStore}
use teacher_assistant.Relay.Store.{doc_scope, is_authorized, device_role, fetch, append}
use teacher_assistant.Relay.Store.Log.{appended}
use teacher_assistant.Service.Platform.{Platform, Bytes}
use teacher_assistant.Service.Bodies.{parse_push_updates}
use teacher_assistant.Service.Requests.{Request, NonceCache, VerifiedRequest, verify_request}
use teacher_assistant.Service.App.{
  Service, is_other_scope, may_see, answer_pull, answer_push, push_updates, push_reply, pull, push,
}

-- Two stores that a signer of scope t cannot tell apart: the same devices may see the scope, the same
-- doc ids are taken by the same scopes, and the scope's own docs are the same. The docs of other
-- scopes may differ in every update.
pub record LooksSame (t : Tag) (s s' : RelayStore) : Type 0 where
  pub access : (key : ℕ) → is_authorized s key t ≡ is_authorized s' key t
  pub registered : get t s.scopes ≡ get t s'.scopes
  pub taken : (doc : ℕ) → doc_scope s doc ≡ doc_scope s' doc
  pub own : (doc : ℕ) → doc_scope s doc ≡ some t → get doc s.docs ≡ get doc s'.docs

doc_scope-none : (s : RelayStore) (doc : ℕ) → doc_scope s doc ≡ none → get doc s.docs ≡ none
unfolding doc_scope
doc_scope-none s doc e = ground arith

may_see_same :
    (s s' : RelayStore) (v : VerifiedRequest) (doc : String)
    → LooksSame (number_of v.scope) s s'
    → may_see s v doc ≡ may_see s' v doc
unfolding may_see
may_see_same s s' v doc l = rw (l.access (number_of v.device), l.taken (number_of doc)) refl

not_other : (t : Tag) (o : Option Tag) → is_other_scope t o ≡ false → (o ≡ none) ⊎ (o ≡ some t)
not_other t none h = inl refl
not_other t (some u) h = inr (ground arith)

pub seen_scope :
    (s : RelayStore) (v : VerifiedRequest) (doc : String)
    → may_see s v doc ≡ true
    → (doc_scope s (number_of doc) ≡ none)
      ⊎ (doc_scope s (number_of doc) ≡ some (number_of v.scope))
unfolding may_see
seen_scope s v doc h = not_other (number_of v.scope) (doc_scope s (number_of doc)) (ground arith)

seen_doc :
    (s s' : RelayStore) (t : Tag) (doc : ℕ)
    → LooksSame t s s'
    → (doc_scope s doc ≡ none) ⊎ (doc_scope s doc ≡ some t)
    → get doc s.docs ≡ get doc s'.docs
seen_doc s s' t doc l (inl e) =
    doc_scope-none s doc e ∙ sym (doc_scope-none s' doc (sym (l.taken doc) ∙ e))
seen_doc s s' t doc l (inr e) = l.own doc e

same_fetch :
    (s s' : RelayStore) (doc : ℕ) (c : Cursor)
    → get doc s.docs ≡ get doc s'.docs
    → fetch s doc c ≡ fetch s' doc c
unfolding fetch
same_fetch s s' doc c e = rw (e, fetch) refl

same_cursor :
    (s s' : RelayStore) (fresh : Text) (doc : ℕ) (t : Tag) (bs : List Blob)
    → get t s.scopes ≡ get t s'.scopes
    → get doc s.docs ≡ get doc s'.docs
    → (append s fresh doc t bs).1 ≡ (append s' fresh doc t bs).1
unfolding append
same_cursor s s' fresh doc t bs r e = ground arith

doc_scope-put :
    (s : RelayStore) (doc other : ℕ) (d : StoredDoc)
    → doc_scope (record s { docs = put doc d s.docs }) other
      ≡ (if doc == other then some d.scope_tag else doc_scope s other)
unfolding doc_scope
doc_scope-put s doc other d = ground (arith, get-put doc other d s.docs)

-- An append is refused and changes nothing, or puts the doc, under the scope given.
pub append_effect :
    (s : RelayStore) (fresh : Text) (doc : ℕ) (t : Tag) (bs : List Blob)
    → (((append s fresh doc t bs).1 ≡ none) × ((append s fresh doc t bs).0 ≡ s))
      ⊎ (((append s fresh doc t bs).1 ≢ none)
          × ((append s fresh doc t bs).0
              ≡ record s { docs = put doc (appended (get doc s.docs) t fresh bs) s.docs })
          × ((appended (get doc s.docs) t fresh bs).scope_tag ≡ t))
unfolding append
append_effect s fresh doc t bs = elim (Option-cases (append s fresh doc t bs).1) [
  | inl e ↦ inl (e, ground arith)
  | inr (c, e) ↦ inr ((λ h. ground arith), ground arith, ground arith)
]

-- The scope of a doc that was there stays, and an update of one scope's doc is none of another's.
pub put_elsewhere :
    (s : RelayStore) (t u : Tag) (doc : ℕ) (d : StoredDoc)
    → doc_scope s doc ≡ some u
    → d.scope_tag ≡ u
    → u ≢ t
    → LooksSame t s (record s { docs = put doc d s.docs })
unfolding is_authorized device_role
put_elsewhere s t u doc d e same other = record {
  access = λ key. refl;
  registered = refl;
  taken = λ o. ground (arith, doc_scope-put s doc o d);
  own = λ o h. ground (arith, get-put doc o d s.docs);
}

put_both :
    (s s' : RelayStore) (t : Tag) (doc : ℕ) (d : StoredDoc)
    → LooksSame t s s'
    → LooksSame t (record s { docs = put doc d s.docs }) (record s' { docs = put doc d s'.docs })
unfolding is_authorized device_role
put_both s s' t doc d l = record {
  access = l.access;
  registered = l.registered;
  taken = λ o. ground (arith, l.taken o, doc_scope-put s doc o d, doc_scope-put s' doc o d);
  own = λ o h.
      ground
        (arith, l.own o, doc_scope-put s doc o d, get-put doc o d s.docs, get-put doc o d s'.docs);
}

same_append :
    (s s' : RelayStore) (fresh : Text) (doc : ℕ) (t : Tag) (bs : List Blob)
    → LooksSame t s s'
    → get doc s.docs ≡ get doc s'.docs
    → LooksSame t (append s fresh doc t bs).0 (append s' fresh doc t bs).0
same_append s s' fresh doc t bs l e =
    let same = same_cursor s s' fresh doc t bs l.registered e in
    elim (append_effect s fresh doc t bs) [
      | inl (c, h) ↦ elim (append_effect s' fresh doc t bs) [
        | inl (c', h') ↦ rw (h, h') l
        | inr (c', h', u') ↦ absurd (c' (sym same ∙ c))
      ]
      | inr (c, h, u) ↦ elim (append_effect s' fresh doc t bs) [
        | inl (c', h') ↦ absurd (c (same ∙ c'))
        | inr (c', h', u') ↦
            rw (h, h', e) (put_both s s' t doc (appended (get doc s'.docs) t fresh bs) l)
      ]
    ]

same_pushed :
    (a b : Service) (fresh : Text) (v : VerifiedRequest) (doc : String)
    (updates : Option (List Blob))
    → LooksSame (number_of v.scope) a.store b.store
    → get (number_of doc) a.store.docs ≡ get (number_of doc) b.store.docs
    → ((push_updates a fresh v doc updates).1 ≡ (push_updates b fresh v doc updates).1)
      × LooksSame
          (number_of v.scope)
          (push_updates a fresh v doc updates).0.store
          (push_updates b fresh v doc updates).0.store
same_pushed a b fresh v doc none l e = (refl, l)
same_pushed a b fresh v doc (some bs) l e = (
  ap push_reply
      (same_cursor a.store b.store fresh (number_of doc) (number_of v.scope) bs l.registered e),
  same_append a.store b.store fresh (number_of doc) (number_of v.scope) bs l e,
)

same_answer_push :
    (P : Platform) (a b : Service) (fresh : Text) (v : VerifiedRequest) (doc : String)
    (body : Bytes)
    → LooksSame (number_of v.scope) a.store b.store
    → ((answer_push P a fresh doc body (some v)).1 ≡ (answer_push P b fresh doc body (some v)).1)
      × LooksSame
          (number_of v.scope)
          (answer_push P a fresh doc body (some v)).0.store
          (answer_push P b fresh doc body (some v)).0.store
same_answer_push P a b fresh v doc body l =
    let same = may_see_same a.store b.store v doc l in
    elim (Bool-cases (may_see a.store v doc)) [
      | inr n ↦ rw (sym same, n) (refl, l)
      | inl y ↦
          rw (sym same, y)
            (same_pushed a b fresh v doc (parse_push_updates P body) l (
              seen_doc a.store b.store (number_of v.scope) (number_of doc) l
                (seen_scope a.store v doc y)))
    ]

same_answer_pull :
    (a b : Service) (v : VerifiedRequest) (doc : String) (since : Option String)
    → LooksSame (number_of v.scope) a.store b.store
    → (answer_pull a doc since (some v)).1 ≡ (answer_pull b doc since (some v)).1
same_answer_pull a b v doc since l =
    let same = may_see_same a.store b.store v doc l in
    elim (Bool-cases (may_see a.store v doc)) [
      | inr n ↦ rw (sym same, n) refl
      | inl y ↦
          rw
            (
              sym same,
              y,
              same_fetch a.store b.store (number_of doc) _ (
                  seen_doc a.store b.store (number_of v.scope) (number_of doc) l
                    (seen_scope a.store v doc y)),
            )
            refl
    ]

pub same_answers :
    (P : Platform) (a b : Service) (now : ℕ) (req : Request) (v : VerifiedRequest)
    (n n' : NonceCache) (doc : String) (since : Option String) (fresh : Text)
    → verify_request P a.nonces now req ≡ (n, some v)
    → verify_request P b.nonces now req ≡ (n', some v)
    → LooksSame (number_of v.scope) a.store b.store
    → ((pull P a now req doc since).1 ≡ (pull P b now req doc since).1)
      × ((push P a now fresh req doc).1 ≡ (push P b now fresh req doc).1)
      × LooksSame
          (number_of v.scope)
          (push P a now fresh req doc).0.store
          (push P b now fresh req doc).0.store
unfolding pull push
same_answers P a b now req v n n' doc since fresh e e' l =
    let a' : Service = record a { nonces = n } in
    let b' : Service = record b { nonces = n' } in
    let (pushed, looks) = same_answer_push P a' b' fresh v doc req.body l in
    rw (e, e') (same_answer_pull a' b' v doc since l, pushed, looks)
