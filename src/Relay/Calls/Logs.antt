-- ===== src/Relay/Calls/Logs.antt =====
-- The docs' logs over a run of calls, and what a client that keeps its cursor is sent
-- (services/sync-relay/src/store.ts).
use teacher_assistant.Base.{
  ℕ, ◌<◌, ◌≡◌, refl, sym, ap, ◌∙◌, subst, inl, inr, true, false, List, [], ◌∷◌, ◌++◌, Option, none,
  some, arith, ◌==◌, leb, length, drop-append, length-append, append_assoc, append-nil, Bool-cases,
}
use teacher_assistant.Base.Map.{Map, get, put, get-put}
use teacher_assistant.Relay.Types.{Tag, Text, Blob, Cursor, StoredDoc, RelayStore}
use teacher_assistant.Relay.Cursor.{format_cursor, parse_cursor, is_epoch}
use teacher_assistant.Relay.Cursor.RoundTrip.{same_text_refl, parse_cursor-format_cursor}
use teacher_assistant.Relay.Grants.{is_retired}
use teacher_assistant.Relay.Store
use teacher_assistant.Relay.Store.{fetch, append, renew_epochs, doc_or_new, blobs_of}
use teacher_assistant.Relay.Store.Log.{
  log, DocsNumbered, Numbered, fetch-log, append-log, append-DocsNumbered, append_accepted,
  appended, blobs_of-push_blobs, push_blobs-Numbered, doc_or_new-Numbered,
}
use teacher_assistant.Relay.Store.Cases.{
  grant_scopes_cases, retire_scope_cases, redeem_cases, revoke_cases, open_pairing_cases,
  put_pairing_request_cases, enroll_cases, complete_pairing_cases, take_pairing_grant_cases,
}
use teacher_assistant.Relay.Calls.{Call, step, Moment, Reach, here, next}

-- Fetching with a cursor of the doc's own epoch, at a number not past the head.
fetch_from :
    (s : RelayStore) (doc : ℕ) (d : StoredDoc) (old more : List Blob)
    → DocsNumbered s
    → get doc s.docs ≡ some d
    → log s doc ≡ old ++ more
    → fetch s doc (record { epoch = some d.epoch; seq = length old })
      ≡ (format_cursor d.epoch (length (log s doc)), more)
fetch_from s doc d old more num e split =
    let within : leb (length old) (length (old ++ more)) ≡ true =
      ground (arith, length-append old more) in
    fetch-log s doc (record { epoch = some d.epoch; seq = length old }) d num e
    ∙ rw (split, same_text_refl d.epoch, within, drop-append old more)

-- A client that pulled, and pulls again with the cursor that it got after one more push was accepted,
-- is sent exactly the blobs of that push and the push's own cursor. (The updates are numbered in
-- order, the doc's epoch is of the relay's alphabet, and its log is shorter than 2 ^ 53.)
pub fetch-append :
    (s : RelayStore) (since : Cursor) (fresh : Text) (doc : ℕ) (t : Tag) (blobs : List Blob)
    (d : StoredDoc) {s' : RelayStore} {c : Text}
    → DocsNumbered s
    → get doc s.docs ≡ some d
    → is_epoch d.epoch ≡ true
    → length (log s doc) < 9_007_199_254_740_992
    → append s fresh doc t blobs ≡ (s', some c)
    → fetch s' doc (parse_cursor (some (fetch s doc since).0)) ≡ (c, blobs)
fetch-append s since fresh doc t blobs d {s'} {c} num e ep short h =
    let pulled : (fetch s doc since).0 ≡ format_cursor d.epoch (length (log s doc)) =
      ap (λ (r : Text × List Blob). r.0) (fetch-log s doc since d num e) in
    let parsed : parse_cursor (some (fetch s doc since).0)
        ≡ record { epoch = some d.epoch; seq = length (log s doc) } =
      rw pulled (parse_cursor-format_cursor d.epoch (length (log s doc)) ep short) in
    let (docs, cur) = append_accepted s fresh doc t blobs h in
    let (grown, cur', others) = append-log s fresh doc t blobs h in
    let d' : StoredDoc = appended (get doc s.docs) t fresh blobs in
    let same : d'.epoch ≡ d.epoch = rw e in
    let found : get doc s'.docs ≡ some d' = rw (docs, get-put doc doc d' s.docs) (ground arith) in
    let num' : DocsNumbered s' =
      subst DocsNumbered (ap (λ (r : RelayStore × Option Text). r.0) h)
        (append-DocsNumbered s fresh doc t blobs num) in
    rw (parsed, ← same) (fetch_from s' doc d' (log s doc) blobs num' found grown ∙ rw cur')

abbrev renewed : (ℕ → Text) → ℕ → Option StoredDoc → Option StoredDoc
renewed fresh doc none = none
renewed fresh doc (some d) = some (record d { epoch = fresh doc })

get-renew_epochs :
    (fresh : ℕ → Text) (doc : ℕ) (m : Map StoredDoc)
    → get doc (renew_epochs fresh m) ≡ renewed fresh doc (get doc m)
unfolding get renew_epochs
get-renew_epochs fresh doc [] = refl
get-renew_epochs fresh doc ((j, d) ∷ m) = elim (Bool-cases (j == doc)) [
  | inl hit ↦ let e : j ≡ doc = ground arith in rw (hit, e)
  | inr miss ↦ rw miss (get-renew_epochs fresh doc m)
]

-- The docs change in two ways: an accepted append, or new epochs for all.
module _ {ℓ} (P : Map StoredDoc → Type ℓ) (s : RelayStore) (unchanged : P s.docs)
    (grown : (fresh : Text) (doc : ℕ) (t : Tag) (blobs : List Blob)
      → (doc_or_new (get doc s.docs) t fresh).scope_tag ≡ t
      → is_retired (get t s.scopes) ≡ false
      → P (put doc (appended (get doc s.docs) t fresh blobs) s.docs))
    (rotated : (fresh : ℕ → Text) → P (renew_epochs fresh s.docs)) where
  append_docs :
      (fresh : Text) (doc : ℕ) (t : Tag) (blobs : List Blob) → P (append s fresh doc t blobs).0.docs
  unfolding append
  append_docs fresh doc t blobs = elim (Bool-cases (is_retired (get t s.scopes))) [
    | inl k ↦ rw k unchanged
    | inr k ↦ elim (Bool-cases ((doc_or_new (get doc s.docs) t fresh).scope_tag == t)) [
      | inr e ↦ rw (k, e) unchanged
      | inl e ↦ rw (k, e) (grown fresh doc t blobs (ground arith) k)
    ]
  ]

  pub step_docs : (now : ℕ) (c : Call) → P (step now c s).docs
  unfolding step Store.write_grant Store.issue_owner_code Store.invalidate_owner_codes
      Store.put_recovery_wrap Store.sweep_expired Store.rotate_epochs
  step_docs now (Call.append fresh doc t blobs) = append_docs fresh doc t blobs
  step_docs now (Call.issue_owner_code hash expires_at) =
      let e : (Store.issue_owner_code s hash expires_at).0.docs ≡ s.docs = ground arith in
      rw e unchanged
  step_docs now (Call.redeem_owner_code hash key) =
      redeem_cases (λ r. P r.docs) s unchanged now hash key λ c found unused live fresh. unchanged
  step_docs now Call.invalidate_owner_codes = unchanged
  step_docs now (Call.grant_scopes key gs) =
      grant_scopes_cases (λ r. P r.docs) s unchanged key gs λ e. unchanged
  step_docs now (Call.retire_scope t) =
      retire_scope_cases (λ r. P r.docs) s unchanged t λ x e k. unchanged
  step_docs now (Call.revoke key) =
      revoke_cases (λ r. P r.docs) s unchanged key λ d e live others. unchanged
  step_docs now (Call.open_pairing sid opener) =
      open_pairing_cases (λ r. P r.docs) s unchanged now sid opener λ a b c. unchanged
  step_docs now (Call.put_pairing_request sid signer blob) =
      put_pairing_request_cases (λ r. P r.docs) s unchanged now sid signer blob λ p a b. unchanged
  step_docs now (Call.complete_pairing sid opener key role gs blob) =
      complete_pairing_cases (λ r. P r.docs) s unchanged now sid opener key role gs blob
        λ p r row a b e.
          enroll_cases (λ r'. P r'.docs) s unchanged sid p key role gs blob row λ granted. unchanged
  step_docs now (Call.take_pairing_grant sid signer) =
      take_pairing_grant_cases (λ r. P r.docs) s unchanged now sid signer unchanged
  step_docs now (Call.put_recovery_wrap blob) = unchanged
  step_docs now Call.sweep_expired = unchanged
  step_docs now (Call.rotate_epochs fresh) = rotated fresh

-- A doc stays, under its scope, and its blobs stay at the head of its log.
abbrev pub Grows : Option StoredDoc → Option StoredDoc → Type 0
Grows none after = Unit {0}
Grows (some d) none = ⊥
Grows (some d) (some d') =
    (d'.scope_tag ≡ d.scope_tag)
    × ((more : List Blob) × (blobs_of d'.updates ≡ blobs_of d.updates ++ more))

Grows-refl : (d : Option StoredDoc) → Grows d d
Grows-refl none = tt
Grows-refl (some d) = (refl, ([], sym (append-nil _)))

Grows-trans : (a b c : Option StoredDoc) → Grows a b → Grows b c → Grows a c
Grows-trans none b c h k = tt
Grows-trans (some a) none c h k = absurd h
Grows-trans (some a) (some b) none h k = absurd k
Grows-trans (some a) (some b) (some c) (t, (xs, h)) (u, (ys, k)) =
    (u ∙ t, (xs ++ ys, k ∙ rw (h, append_assoc)))

Grows-put :
    (j doc : ℕ) (d : StoredDoc) (m : Map StoredDoc)
    → Grows (get j m) (some d)
    → Grows (get doc m) (get doc (put j d m))
Grows-put j doc d m h = rw (get-put j doc d m) (elim (Bool-cases (j == doc)) [
  | inr miss ↦ rw miss (Grows-refl _)
  | inl hit ↦ let e : j ≡ doc = ground arith in rw hit (rw e at h)
])

Grows-appended :
    (found : Option StoredDoc) (t : Tag) (fresh : Text) (blobs : List Blob)
    → Grows found (some (appended found t fresh blobs))
Grows-appended none t fresh blobs = tt
Grows-appended (some d) t fresh blobs = (refl, (blobs, blobs_of-push_blobs blobs d.updates))

Grows-renewed : (fresh : ℕ → Text) (doc : ℕ) (d : Option StoredDoc) → Grows d (renewed fresh doc d)
Grows-renewed fresh doc none = tt
Grows-renewed fresh doc (some d) = (refl, ([], sym (append-nil _)))

step-Grows :
    (now : ℕ) (c : Call) (s : RelayStore) (doc : ℕ)
    → Grows (get doc s.docs) (get doc (step now c s).docs)
step-Grows now c s doc =
    step_docs (λ m. Grows (get doc s.docs) (get doc m)) s (Grows-refl _)
      (λ fresh j t blobs e live.
        Grows-put j doc (appended (get j s.docs) t fresh blobs) s.docs
          (Grows-appended (get j s.docs) t fresh blobs))
      (λ fresh. rw (get-renew_epochs fresh doc s.docs) (Grows-renewed fresh doc (get doc s.docs)))
      now c

-- Over any run of calls, epoch rotations included, a doc's log is only added to at its end, and the
-- doc stays bound to its scope.
pub Reach-Grows :
    {m n : Moment} (doc : ℕ) → Reach m n → Grows (get doc m.store.docs) (get doc n.store.docs)
Reach-Grows doc here = Grows-refl _
Reach-Grows doc (next r now c later) =
    Grows-trans _ _ _ (Reach-Grows doc r) (step-Grows now c _ doc)

renewed-Numbered :
    (fresh : ℕ → Text) (doc : ℕ) (found : Option StoredDoc) (d : StoredDoc)
    → ((x : StoredDoc) → found ≡ some x → Numbered 0 x.updates)
    → renewed fresh doc found ≡ some d
    → Numbered 0 d.updates
renewed-Numbered fresh doc none d num e = cc
renewed-Numbered fresh doc (some x) d num e =
    let same : x.updates ≡ d.updates = ground arith in rw same at (num x refl)

-- Every call keeps each doc's updates numbered 1, 2, … in order.
pub step-DocsNumbered :
    (now : ℕ) (c : Call) (s : RelayStore) → DocsNumbered s → DocsNumbered (step now c s)
step-DocsNumbered now c s num =
    step_docs (λ m. (doc : ℕ) (d : StoredDoc) → get doc m ≡ some d → Numbered 0 d.updates) s num
      (λ fresh j t blobs e live doc d f. ground (
        arith,
        num doc d,
        get-put j doc (appended (get j s.docs) t fresh blobs) s.docs,
        push_blobs-Numbered blobs (doc_or_new (get j s.docs) t fresh).updates
            (doc_or_new-Numbered s j t fresh num),
      ))
      (λ fresh doc d e.
        renewed-Numbered fresh doc (get doc s.docs) d (num doc)
          (sym (get-renew_epochs fresh doc s.docs) ∙ e))
      now c
