-- ===== src/Relay/Store/Log.antt =====
-- append and fetch of InMemoryRelayStore against each doc's log of blobs
-- (services/sync-relay/src/store.ts).
use teacher_assistant.Base.{
  ℕ, zero, suc, ◌+◌, ◌≤◌, ◌≡◌, refl, sym, ap, ◌∙◌, ◌≢◌, Bool, true, false, ◌&&◌, List, [], ◌∷◌,
  ◌++◌, Option, none, some, arith, leb, ltb, if◌then◌else◌, length, drop, append_assoc, append-nil,
  filter, Option-cases, inl, inr,
}
use teacher_assistant.Base.Map.{get, put, get-put}
use teacher_assistant.Relay.Types.{Tag, Text, Blob, Cursor, StoredUpdate, StoredDoc, RelayStore}
use teacher_assistant.Relay.Cursor.{format_cursor}
use teacher_assistant.Relay.Store.{
  push_blobs, append, fetch, blobs_of, start_of, doc_or_new, epoch_matches,
}

-- The updates carry the sequence numbers after k, in order.
abbrev pub Numbered : ℕ → List StoredUpdate → Type 0
Numbered k [] = Unit
Numbered k (u ∷ us) = (u.seq ≡ suc k) × Numbered (suc k) us

Numbered-append :
    (k : ℕ) (us : List StoredUpdate) (b : Blob)
    → Numbered k us
    → Numbered k (us ++ record { seq = k + length us + 1; blob = b } ∷ [])
Numbered-append k [] b h = (omega arith, tt)
Numbered-append k (u ∷ us) b (e, h) = (
  e,
  let eq : suc k + length us + 1 ≡ k + suc (length us) + 1 = omega arith in
      rw eq at (Numbered-append (suc k) us b h),
)

pub push_blobs-Numbered :
    (bs : List Blob) (us : List StoredUpdate) → Numbered 0 us → Numbered 0 (push_blobs bs us)
unfolding push_blobs
push_blobs-Numbered [] us h = h
push_blobs-Numbered (b ∷ bs) us h = push_blobs-Numbered bs _ (
    let eq : 0 + length us + 1 ≡ length us + 1 = omega arith in rw eq at (Numbered-append 0 us b h))

blobs_of-append : (us vs : List StoredUpdate) → blobs_of (us ++ vs) ≡ blobs_of us ++ blobs_of vs
blobs_of-append [] vs = refl
blobs_of-append (u ∷ us) vs = rw (blobs_of-append us vs)

pub length-blobs_of : (us : List StoredUpdate) → length (blobs_of us) ≡ length us
length-blobs_of [] = refl
length-blobs_of (u ∷ us) = ap suc (length-blobs_of us)

pub blobs_of-push_blobs :
    (bs : List Blob) (us : List StoredUpdate) → blobs_of (push_blobs bs us) ≡ blobs_of us ++ bs
unfolding push_blobs
blobs_of-push_blobs [] us = sym (append-nil _)
blobs_of-push_blobs (b ∷ bs) us =
    blobs_of-push_blobs bs _ ∙ rw (blobs_of-append us _, append_assoc) refl

filter_all :
    (m k : ℕ) (us : List StoredUpdate) → Numbered k us → m ≤ k → filter (λ u. ltb m u.seq) us ≡ us
filter_all m k [] h le = refl
filter_all m k (u ∷ us) (e, h) le = ground (arith, filter_all m (suc k) us h)

-- Dropping the first n updates is keeping those numbered past n.
filter_past :
    (n k m : ℕ) (us : List StoredUpdate)
    → Numbered k us
    → m ≡ k + n
    → filter (λ u. ltb m u.seq) us ≡ drop n us
filter_past zero k m us h q = filter_all m k us h (omega arith)
filter_past (suc n) k m [] h q = refl
filter_past (suc n) k m (u ∷ us) (e, h) q = ground (arith, filter_past n (suc k) m us h)

blobs_of-drop : (n : ℕ) (us : List StoredUpdate) → blobs_of (drop n us) ≡ drop n (blobs_of us)
blobs_of-drop zero us = refl
blobs_of-drop (suc n) [] = refl
blobs_of-drop (suc n) (u ∷ us) = blobs_of-drop n us

-- Every doc's updates are numbered 1, 2, … in order.
abbrev pub DocsNumbered : RelayStore → Type 0
DocsNumbered s = (doc : ℕ) (d : StoredDoc) → get doc s.docs ≡ some d → Numbered 0 d.updates

-- What the abstract log keeps of a doc: all its blobs, oldest first.
unfoldable pub log : RelayStore → ℕ → List Blob
log s doc = elim (get doc s.docs) [ none ↦ [] | some d ↦ blobs_of d.updates ]

unfoldable pub epoch_of : RelayStore → ℕ → Option Text
epoch_of s doc = elim (get doc s.docs) [ none ↦ none | some d ↦ some d.epoch ]

pub log-some :
    (s : RelayStore) (doc : ℕ) {d : StoredDoc}
    → get doc s.docs ≡ some d
    → log s doc ≡ blobs_of d.updates
unfolding log
log-some s doc e = rw (e, log)

pub fetch-some :
    (s : RelayStore) (doc : ℕ) (since : Cursor) (d : StoredDoc)
    → Numbered 0 d.updates
    → get doc s.docs ≡ some d
    → fetch s doc since
      ≡ (format_cursor d.epoch (length d.updates), drop (start_of d since) (blobs_of d.updates))
unfolding fetch
fetch-some s doc since d num e = rw (
  e,
  fetch,
  filter_past (start_of d since) 0 (start_of d since) d.updates num (omega arith),
  blobs_of-drop (start_of d since) d.updates,
)

drop_if :
    (b : Bool) (n : ℕ) (xs : List Blob)
    → drop (if b then n else 0) xs ≡ (if b then drop n xs else xs)
drop_if true n xs = refl
drop_if false n xs = refl

-- `fetch` returns the blobs past the cursor where the cursor's epoch is the doc's and its number is
-- not past the head, and every blob otherwise; its own cursor is the doc's epoch and length.
pub fetch-log :
    (s : RelayStore) (doc : ℕ) (since : Cursor) (d : StoredDoc)
    → DocsNumbered s
    → get doc s.docs ≡ some d
    → fetch s doc since ≡ (
      format_cursor d.epoch (length (log s doc)),
      (if epoch_matches since.epoch d.epoch && leb since.seq (length (log s doc))
          then drop since.seq (log s doc)
          else log s doc),
    )
fetch-log s doc since d num e = rw (
  fetch-some s doc since d (num doc d e) e,
  log-some s doc e,
  length-blobs_of d.updates,
  drop_if (epoch_matches since.epoch d.epoch && leb since.seq (length d.updates)) since.seq
      (blobs_of d.updates),
)

abbrev pub appended : Option StoredDoc → Tag → Text → List Blob → StoredDoc
appended found t fresh blobs =
    let d = doc_or_new found t fresh in record d { updates = push_blobs blobs d.updates }

pub append_accepted :
    (s : RelayStore) (fresh : Text) (doc : ℕ) (t : Tag) (blobs : List Blob) {s' : RelayStore}
    {c : Text}
    → append s fresh doc t blobs ≡ (s', some c)
    → (s'.docs ≡ put doc (appended (get doc s.docs) t fresh blobs) s.docs)
      × (c
          ≡ format_cursor
              (doc_or_new (get doc s.docs) t fresh).epoch
              (length (appended (get doc s.docs) t fresh blobs).updates))
unfolding append
append_accepted s fresh doc t blobs h = ground arith

pub appended-blobs :
    (found : Option StoredDoc) (t : Tag) (fresh : Text) (blobs : List Blob)
    → blobs_of (appended found t fresh blobs).updates
      ≡ blobs_of (doc_or_new found t fresh).updates ++ blobs
appended-blobs found t fresh blobs = blobs_of-push_blobs blobs _

log-doc_or_new :
    (s : RelayStore) (doc : ℕ) (t : Tag) (fresh : Text)
    → log s doc ≡ blobs_of (doc_or_new (get doc s.docs) t fresh).updates
unfolding log
log-doc_or_new s doc t fresh = ground arith

-- An append that is accepted adds its blobs at the end of its doc's log, returns the doc's epoch with
-- the log's new length, and leaves every other doc alone.
pub append-log :
    (s : RelayStore) (fresh : Text) (doc : ℕ) (t : Tag) (blobs : List Blob) {s' : RelayStore}
    {c : Text}
    → append s fresh doc t blobs ≡ (s', some c)
    → (log s' doc ≡ log s doc ++ blobs)
      × (c ≡ format_cursor (doc_or_new (get doc s.docs) t fresh).epoch (length (log s' doc)))
      × ((other : ℕ) → doc ≢ other → get other s'.docs ≡ get other s.docs)
append-log s fresh doc t blobs {s'} {c} h =
    let (docs, cur) = append_accepted s fresh doc t blobs h in
    let found : get doc s'.docs ≡ some (appended (get doc s.docs) t fresh blobs) =
      rw (docs, get-put doc doc (appended (get doc s.docs) t fresh blobs) s.docs) (ground arith) in
    (
      log-some s' doc found
          ∙ appended-blobs (get doc s.docs) t fresh blobs
          ∙ ap (λ (l : List Blob). l ++ blobs) (sym (log-doc_or_new s doc t fresh)),
      rw (log-some s' doc found, length-blobs_of) cur,
      λ other ne.
          rw (docs, get-put doc other (appended (get doc s.docs) t fresh blobs) s.docs)
            (ground arith),
    )

pub doc_or_new-Numbered :
    (s : RelayStore) (doc : ℕ) (t : Tag) (fresh : Text)
    → DocsNumbered s
    → Numbered 0 (doc_or_new (get doc s.docs) t fresh).updates
doc_or_new-Numbered s doc t fresh num = elim (Option-cases (get doc s.docs)) [
  | inl e ↦ rw e tt
  | inr (d, e) ↦ rw e (num doc d e)
]

pub append-DocsNumbered :
    (s : RelayStore) (fresh : Text) (doc : ℕ) (t : Tag) (blobs : List Blob)
    → DocsNumbered s
    → DocsNumbered (append s fresh doc t blobs).0
unfolding append
append-DocsNumbered s fresh doc t blobs num j d e = ground (
  arith,
  num j d,
  get-put doc j (appended (get doc s.docs) t fresh blobs) s.docs,
  push_blobs-Numbered blobs (doc_or_new (get doc s.docs) t fresh).updates
      (doc_or_new-Numbered s doc t fresh num),
)
