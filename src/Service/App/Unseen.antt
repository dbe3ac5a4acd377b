-- ===== src/Service/App/Unseen.antt =====
-- What is pushed under other scopes is not seen (the doc routes of services/sync-relay/src/app.ts).
use Prim.Native.String.{String}
use teacher_assistant.Base.{
  ℕ, ◌≡◌, ◌≢◌, ◌⊎◌, ◌∙◌, inl, inr, refl, List, Option, none, some, arith, Bool-cases,
}
use teacher_assistant.Base.Texts.{number_of}
use teacher_assistant.Relay.Types.{Text, Blob, Tag, RelayStore}
use teacher_assistant.Relay.Store.{doc_scope, append}
use teacher_assistant.Service.Platform.{Platform, Bytes}
use teacher_assistant.Service.Bodies.{parse_push_updates}
use teacher_assistant.Service.Requests.{Request, NonceCache, VerifiedRequest, verify_request}
use teacher_assistant.Service.App.{
  Service, may_see, answer_pull, answer_push, push_updates, pull, push,
}
use teacher_assistant.Service.App.Secrecy.{
  LooksSame, seen_scope, append_effect, put_elsewhere, same_answers,
}

LooksSame-refl : (t : Tag) (s : RelayStore) → LooksSame t s s
LooksSame-refl t s = record {
  access = λ key. refl;
  registered = refl;
  taken = λ doc. refl;
  own = λ doc h. refl;
}

LooksSame-trans :
    (t : Tag) (s s' s'' : RelayStore) → LooksSame t s s' → LooksSame t s' s'' → LooksSame t s s''
LooksSame-trans t s s' s'' l m = record {
  access = λ key. l.access key ∙ m.access key;
  registered = l.registered ∙ m.registered;
  taken = λ doc. l.taken doc ∙ m.taken doc;
  own = λ doc h. l.own doc h ∙ m.own doc (ground (l.taken doc, h, arith));
}

append_elsewhere :
    (s : RelayStore) (fresh : Text) (doc : ℕ) (t u : Tag) (bs : List Blob)
    → doc_scope s doc ≡ some u
    → u ≢ t
    → LooksSame t s (append s fresh doc u bs).0
append_elsewhere s fresh doc t u bs e other = elim (append_effect s fresh doc u bs) [
  | inl (c, h) ↦ rw h (LooksSame-refl t s)
  | inr (c, h, same) ↦ rw h (put_elsewhere s t u doc _ e same other)
]

answer_elsewhere :
    (P : Platform) (a : Service) (t : Tag) (fresh : Text) (doc : String) (body : Bytes)
    (o : Option VerifiedRequest)
    → ((v : VerifiedRequest) → o ≡ some v → number_of v.scope ≢ t)
    → doc_scope a.store (number_of doc) ≢ none
    → LooksSame t a.store (answer_push P a fresh doc body o).0.store
answer_elsewhere P a t fresh doc body none other taken = LooksSame-refl t a.store
answer_elsewhere P a t fresh doc body (some v) other taken =
    elim (Bool-cases (may_see a.store v doc)) [
      | inr n ↦ rw n (LooksSame-refl t a.store)
      | inl y ↦ rw y (pushed (parse_push_updates P body) (seen_scope a.store v doc y))
    ]
  where
    pushed :
        (updates : Option (List Blob))
        → (doc_scope a.store (number_of doc) ≡ none)
          ⊎ (doc_scope a.store (number_of doc) ≡ some (number_of v.scope))
        → LooksSame t a.store (push_updates a fresh v doc updates).0.store
    pushed none h = LooksSame-refl t a.store
    pushed (some bs) (inl e) = absurd (taken e)
    pushed (some bs) (inr e) =
        append_elsewhere a.store fresh (number_of doc) t (number_of v.scope) bs e (other v refl)

pull_store :
    (a : Service) (doc : String) (since : Option String) (o : Option VerifiedRequest)
    → (answer_pull a doc since o).0 ≡ a
pull_store a doc since none = refl
pull_store a doc since (some v) = ground arith

module _ (P : Platform) (t : Tag) (a : Service) where
  -- The services that pulls of any kind make of the first, and pushes to docs that are there, none of
  -- which verifies under the scope t.
  pub data Elsewhere : Service → Type 0 where
    start : Elsewhere a
    pulls :
        {b : Service}
        → Elsewhere b
        → (now : ℕ) (req : Request) (doc : String) (since : Option String)
        → Elsewhere (pull P b now req doc since).0
    pushes :
        {b : Service}
        → Elsewhere b
        → (now : ℕ) (fresh : Text) (req : Request) (doc : String)
        → ((v : VerifiedRequest)
            → (verify_request P b.nonces now req).1 ≡ some v
            → number_of v.scope ≢ t)
        → doc_scope b.store (number_of doc) ≢ none
        → Elsewhere (push P b now fresh req doc).0

  Elsewhere-LooksSame : {b : Service} → Elsewhere b → LooksSame t a.store b.store
  unfolding pull push
  Elsewhere-LooksSame start = LooksSame-refl t a.store
  Elsewhere-LooksSame (pulls {b} r now req doc since) =
      rw
        (pull_store (record b { nonces = (verify_request P b.nonces now req).0 }) doc since
          (verify_request P b.nonces now req).1)
        (Elsewhere-LooksSame r)
  Elsewhere-LooksSame (pushes {b} r now fresh req doc other taken) =
      LooksSame-trans t a.store b.store _ (Elsewhere-LooksSame r) (
        answer_elsewhere P (record b { nonces = (verify_request P b.nonces now req).0 }) t fresh doc
          req.body (verify_request P b.nonces now req).1 other taken)

-- Whatever is pulled, and whatever is pushed under other scopes to docs that are there, a request that
-- verifies before and after it is answered the same, be it a pull or a push.
pub other_scopes_unseen :
    (P : Platform) (a b : Service) (now : ℕ) (req : Request) (v : VerifiedRequest)
    (n n' : NonceCache) (doc : String) (since : Option String) (fresh : Text)
    → Elsewhere P (number_of v.scope) a b
    → verify_request P a.nonces now req ≡ (n, some v)
    → verify_request P b.nonces now req ≡ (n', some v)
    → ((pull P a now req doc since).1 ≡ (pull P b now req doc since).1)
      × ((push P a now fresh req doc).1 ≡ (push P b now fresh req doc).1)
other_scopes_unseen P a b now req v n n' doc since fresh r e e' =
    let l = Elsewhere-LooksSame P (number_of v.scope) a r in
    let (pulled, pushed, looks) = same_answers P a b now req v n n' doc since fresh e e' l in
    (pulled, pushed)
