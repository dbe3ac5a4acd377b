-- ===== src/Sync/InStore.antt =====
-- The relay's store is a log as the sync engine relies on it: fetch and append of
-- services/sync-relay/src/store.ts, for one doc under one scope.
use teacher_assistant.Base.{
  ℕ, ◌+◌, ◌≤◌, ◌<◌, ◌≡◌, refl, sym, ap, ◌∙◌, subst, ◌⊎◌, inl, inr, Bool, true, false, List, [], ◌∷◌,
  ◌++◌, Option, none, some, is_some, arith, leb, length, drop, take, take-drop, take-length,
  take-append, append-nil, length-append, Option-cases, Bool-cases,
}
use teacher_assistant.Base.Map.{get, get-put}
use teacher_assistant.Relay.Types.{Text, Blob, Tag, Cursor, StoredDoc, RelayStore}
use teacher_assistant.Relay.Cursor.{is_epoch, parse_cursor, format_cursor, split_last_dot}
use teacher_assistant.Relay.Cursor.RoundTrip.{same_text_refl, parse_cursor-format_cursor}
use teacher_assistant.Relay.Store.{
  append, fetch, blobs_of, start_of, epoch_matches, doc_or_new, push_blobs,
}
use teacher_assistant.Relay.Store.Log.{
  DocsNumbered, log, log-some, fetch-some, appended, append_accepted, append-log,
  append-DocsNumbered, appended-blobs, length-blobs_of,
}
use teacher_assistant.Sync.Relay.{RelayLog, IsRelayLog}

-- What a cursor of a doc stands for.
abbrev pub covered_of : Option StoredDoc → Cursor → List Blob
covered_of none c = []
covered_of (some d) c = take (start_of d c) (blobs_of d.updates)

abbrev log_of : Option StoredDoc → List Blob
log_of none = []
log_of (some d) = blobs_of d.updates

-- What a fetch past the cursor sends.
abbrev drop_covered : Option StoredDoc → Cursor → List Blob
drop_covered none c = []
drop_covered (some d) c = drop (start_of d c) (blobs_of d.updates)

-- A cursor of the doc's epoch is not past its head, and none has an epoch before there is a doc.
abbrev pub IsIssued : Option StoredDoc → Cursor → Type 0
IsIssued none c = c.epoch ≡ none
IsIssued (some d) c = epoch_matches c.epoch d.epoch ≡ true → c.seq ≤ length d.updates

abbrev pub HasEpoch : Option StoredDoc → Type 0
HasEpoch none = Unit
HasEpoch (some d) = is_epoch d.epoch ≡ true

abbrev pub max_seq : ℕ
max_seq = 9_007_199_254_740_992

unfoldable pub store_push : RelayStore → Text → ℕ → Tag → List Blob → RelayStore × Bool
store_push s fresh doc t bs = let (s', cursor) = append s fresh doc t bs in (s', is_some cursor)

-- The log that the pushes and pulls of a doc make, `fresh` being the epoch of a new doc.
abbrev pub store_log : ℕ → Tag → Text → RelayLog
store_log doc t fresh = record {
  State = RelayStore;
  log = λ s. log s doc;
  pull = λ s since. fetch s doc (parse_cursor since);
  push = λ s bs. store_push s fresh doc t bs;
  covered = λ s since. covered_of (get doc s.docs) (parse_cursor since);
  Good = λ s. DocsNumbered s × HasEpoch (get doc s.docs) × (length (log s doc) < max_seq);
  Issued = λ s since. IsIssued (get doc s.docs) (parse_cursor since);
  Room = λ s bs. length (log s doc) + length bs < max_seq;
}

start-parse_cursor : (parse_cursor (some [])).epoch ≡ none
unfolding parse_cursor split_last_dot
start-parse_cursor = refl

zero-parse_cursor : (parse_cursor (some (b'0' ∷ []))).epoch ≡ none
unfolding parse_cursor split_last_dot
zero-parse_cursor = refl

none-parse_cursor : (parse_cursor none).epoch ≡ none
unfolding parse_cursor
none-parse_cursor = refl

covered_of-none : (o : Option StoredDoc) (c : Cursor) → c.epoch ≡ none → covered_of o c ≡ []
covered_of-none none c e = refl
covered_of-none (some d) c e = rw (e)

IsIssued-none : (o : Option StoredDoc) (c : Cursor) → c.epoch ≡ none → IsIssued o c
IsIssued-none none c e = e
IsIssued-none (some d) c e = λ h. absurd (ground arith)

append_refused :
    (s : RelayStore) (fresh : Text) (doc : ℕ) (t : Tag) (bs : List Blob)
    → (append s fresh doc t bs).1 ≡ none
    → (append s fresh doc t bs).0 ≡ s
unfolding append
append_refused s fresh doc t bs e = ground arith

module _ (doc : ℕ) (t : Tag) (fresh : Text) (named : is_epoch fresh ≡ true) where
  -- An append is refused and changes nothing, or gives the doc its blobs.
  append_cases :
      (s : RelayStore) (bs : List Blob)
      → (store_push s fresh doc t bs ≡ (s, false))
        ⊎ ((s' : RelayStore) × (store_push s fresh doc t bs ≡ (s', true))
            × (get doc s'.docs ≡ some (appended (get doc s.docs) t fresh bs))
            × (log s' doc ≡ log s doc ++ bs)
            × (DocsNumbered s → DocsNumbered s'))
  unfolding store_push
  append_cases s bs = elim (Option-cases (append s fresh doc t bs).1) [
    | inl e ↦ inl (λ i. (append_refused s fresh doc t bs e i, is_some (e i)))
    | inr (c, e) ↦
        (let s' : RelayStore = (append s fresh doc t bs).0 in
          let h : append s fresh doc t bs ≡ (s', some c) = λ i. (s', e i) in
          let (docs, cur) = append_accepted s fresh doc t bs h in
          let (grown, cur', others) = append-log s fresh doc t bs h in
          inr (
            s',
            (λ i. (s', is_some (e i))),
            rw (docs, get-put doc doc (appended (get doc s.docs) t fresh bs) s.docs) (ground arith),
            grown,
            append-DocsNumbered s fresh doc t bs,
          ))
  ]

  length-appended :
      (o : Option StoredDoc) (bs : List Blob)
      → length (appended o t fresh bs).updates ≡ length (doc_or_new o t fresh).updates + length bs
  length-appended o bs =
      sym (length-blobs_of (appended o t fresh bs).updates)
      ∙ ap length (appended-blobs o t fresh bs)
      ∙ length-append (blobs_of (doc_or_new o t fresh).updates) bs
      ∙ ap (λ n. n + length bs) (length-blobs_of (doc_or_new o t fresh).updates)

  -- What the doc's own cursors stand for does not change when it grows.
  covered_of-appended :
      (o : Option StoredDoc) (bs : List Blob) (c : Cursor)
      → IsIssued o c
      → covered_of (some (appended o t fresh bs)) c ≡ covered_of o c
  covered_of-appended none bs c h = covered_of-none (some (appended none t fresh bs)) c h
  covered_of-appended (some d) bs c h =
      ap (take (start_of (appended (some d) t fresh bs) c)) (appended-blobs (some d) t fresh bs)
      ∙ elim (Bool-cases (epoch_matches c.epoch d.epoch)) [
        | inr n ↦ rw (n) refl
        | inl y ↦ within (h y) y
      ]
    where
      within :
          c.seq ≤ length d.updates
          → epoch_matches c.epoch d.epoch ≡ true
          → take (start_of (appended (some d) t fresh bs) c) (blobs_of d.updates ++ bs)
            ≡ take (start_of d c) (blobs_of d.updates)
      within le y =
          let here : leb c.seq (length d.updates) ≡ true = ground arith in
          let there : leb c.seq (length (push_blobs bs d.updates)) ≡ true =
            ground (arith, length-appended (some d) bs) in
          rw (y, here, there)
            (take-append c.seq (blobs_of d.updates) bs (omega (arith, length-blobs_of d.updates)))

  IsIssued-appended :
      (o : Option StoredDoc) (bs : List Blob) (c : Cursor)
      → IsIssued o c
      → IsIssued (some (appended o t fresh bs)) c
  IsIssued-appended none bs c h = IsIssued-none (some (appended none t fresh bs)) c h
  IsIssued-appended (some d) bs c h = λ e. omega (arith, h e, length-appended (some d) bs)

  HasEpoch-appended :
      (o : Option StoredDoc) (bs : List Blob) → HasEpoch o → HasEpoch (some (appended o t fresh bs))
  HasEpoch-appended none bs h = named
  HasEpoch-appended (some d) bs h = h

  -- What a fetch answers, for the doc and its log: what the cursor does not stand for, and a cursor
  -- that stands for all.
  abbrev Fetched : Option StoredDoc → List Blob → Cursor → Text × List Blob → Type 0
  Fetched o l c r =
      (r.1 ≡ drop_covered o c)
      × (covered_of o (parse_cursor (some r.0)) ≡ l)
      × IsIssued o (parse_cursor (some r.0))

  Fetched-some :
      (d : StoredDoc) (c : Cursor)
      → is_epoch d.epoch ≡ true
      → length d.updates < max_seq
      → Fetched
          (some d)
          (blobs_of d.updates)
          c
          (format_cursor d.epoch (length d.updates), drop (start_of d c) (blobs_of d.updates))
  Fetched-some d c ok short =
      let parsed = parse_cursor-format_cursor d.epoch (length d.updates) ok short in
      let all : leb (length d.updates) (length d.updates) ≡ true = ground arith in
      (
        refl,
        rw (parsed, same_text_refl d.epoch, all)
            (take-length (length d.updates) (blobs_of d.updates) (sym (length-blobs_of d.updates))),
        rw parsed (λ e. omega arith),
      )

  fetch-none :
      (s : RelayStore) (c : Cursor) → get doc s.docs ≡ none → fetch s doc c ≡ (b'0' ∷ [], [])
  unfolding fetch
  fetch-none s c e = rw (e, fetch)

  log-none : (s : RelayStore) → get doc s.docs ≡ none → log s doc ≡ []
  unfolding log
  log-none s e = rw (e, log)

  fetched :
      (s : RelayStore) (c : Cursor)
      → DocsNumbered s
      → HasEpoch (get doc s.docs)
      → length (log s doc) < max_seq
      → Fetched (get doc s.docs) (log s doc) c (fetch s doc c)
  fetched s c num ok short = elim (Option-cases (get doc s.docs)) [
    | inl e ↦ rw (fetch-none s c e, log-none s e, e) (refl, refl, zero-parse_cursor)
    | inr (d, e) ↦
        (let l : log s doc ≡ blobs_of d.updates = log-some s doc e in
          rw (fetch-some s doc c d (num doc d e) e, e, l)
            (Fetched-some d c (subst HasEpoch e ok)
              (omega (arith, short, ap length l, length-blobs_of d.updates))))
  ]

  covered-rest : (o : Option StoredDoc) (c : Cursor) → covered_of o c ++ drop_covered o c ≡ log_of o
  covered-rest none c = refl
  covered-rest (some d) c = take-drop (start_of d c) (blobs_of d.updates)

  log-log_of : (s : RelayStore) → log s doc ≡ log_of (get doc s.docs)
  unfolding log
  log-log_of s = elim (Option-cases (get doc s.docs)) [
    | inl e ↦ rw (e, log)
    | inr (d, e) ↦ rw (e, log)
  ]

  -- The pushes and pulls of one doc under one scope, with a doc or a new epoch of the relay's alphabet,
  -- numbered updates and fewer than 2 ^ 53 of them before and after each push, make of the relay's
  -- store a log as the sync engine relies on it: a pull sends what its cursor does not stand for and
  -- a cursor that stands for all, a push is added at the end or refused, and no such push changes
  -- what a cursor stands for that is not past the doc's head.
  pub store-IsRelayLog : IsRelayLog (store_log doc t fresh)
  store-IsRelayLog = record {
    no_cursor = λ s. covered_of-none (get doc s.docs) (parse_cursor none) none-parse_cursor;
    empty_cursor =
        λ s. covered_of-none (get doc s.docs) (parse_cursor (some [])) start-parse_cursor;
    issued_none = λ s. IsIssued-none (get doc s.docs) (parse_cursor none) none-parse_cursor;
    issued_empty = λ s. IsIssued-none (get doc s.docs) (parse_cursor (some [])) start-parse_cursor;
    pull_rest = λ s c good.
        log-log_of s
        ∙ sym (covered-rest (get doc s.docs) (parse_cursor c))
        ∙ ap (λ bs. covered_of (get doc s.docs) (parse_cursor c) ++ bs)
            (sym (fetched s (parse_cursor c) good.0 good.1 good.2).0);
    pull_covered = λ s c good. (fetched s (parse_cursor c) good.0 good.1 good.2).1;
    pull_issued = λ s c good. (fetched s (parse_cursor c) good.0 good.1 good.2).2;
    push_log = λ s bs. elim (append_cases s bs) [
      | inl e ↦ rw e (sym (append-nil _))
      | inr (s', e, found, grown, num) ↦ rw e grown
    ];
    push_good = λ s bs good room. elim (append_cases s bs) [
      | inl e ↦ rw e good
      | inr (s', e, found, grown, num) ↦ rw e (
        num good.0,
        rw found (HasEpoch-appended (get doc s.docs) bs good.1),
        rw grown (omega (arith, room, length-append (log s doc) bs)),
      )
    ];
    push_covered = λ s bs c issued. elim (append_cases s bs) [
      | inl e ↦ rw e refl
      | inr (s', e, found, grown, num) ↦
          rw (e, found) (covered_of-appended (get doc s.docs) bs (parse_cursor c) issued)
    ];
    push_issued = λ s bs c issued. elim (append_cases s bs) [
      | inl e ↦ rw e issued
      | inr (s', e, found, grown, num) ↦
          rw (e, found) (IsIssued-appended (get doc s.docs) bs (parse_cursor c) issued)
    ];
  }
