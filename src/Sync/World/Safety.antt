-- ===== src/Sync/World/Safety.antt =====
-- What holds of the devices of a stream, in any order of captures, syncs, lost answers and reloads:
-- nothing saved is lost, and devices that are in sync have the same document
-- (packages/sync/src/engine.ts).
use teacher_assistant.Base.{
  ℕ, zero, suc, ◌≤◌, ◌≡◌, refl, sym, ap, ◌∙◌, subst, ◌⊎◌, inl, inr, Bool, true, false, List, [],
  ◌∷◌, ◌++◌, Option, none, some, arith, ◌==◌, if◌then◌else◌, length, drop, length-append, In,
  In-append, In-left, In-right,
}
use teacher_assistant.Relay.Types.{Text, Blob}
use teacher_assistant.Sync.Stream.{Crdt, IsCrdt, integrate_remote}
use teacher_assistant.Sync.Relay.{RelayLog, IsRelayLog}
use teacher_assistant.Sync.Engine.{
  Engine, PersistedStream, pull_status, pull_result, new_engine, state_of, load, with_snapshot,
  restored, transact, integrate_all, received_as, receive, acknowledge, cursor_or_empty,
}
use teacher_assistant.Sync.World.{Device, or_new, reloaded, pulled, respond, new_device}
use teacher_assistant.Sync.World.Sound.{
  Sound, new-Sound, push-log, push-Sound, transact-Sound, receive-Sound, fewer-Sound,
}

module _ {A : Type 0} where
  drop-In : (n : ℕ) (a : A) (xs : List A) → In a (drop n xs) → In a xs
  drop-In zero a xs h = h
  drop-In (suc n) a [] h = h
  drop-In (suc n) a (x ∷ xs) h = inr (drop-In n a xs h)

  drop-append_left : (n : ℕ) (a : A) (xs ys : List A) → In a (drop n xs) → In a (drop n (xs ++ ys))
  drop-append_left zero a xs ys h = In-left a xs ys h
  drop-append_left (suc n) a [] ys h = elim h [ ]
  drop-append_left (suc n) a (x ∷ xs) ys h = drop-append_left n a xs ys h

  drop-append_right :
      (n : ℕ) (a : A) (xs ys : List A) → n ≤ length xs → In a ys → In a (drop n (xs ++ ys))
  drop-append_right zero a xs ys h k = In-right a xs ys k
  drop-append_right (suc n) a [] ys h k = absurd (omega arith)
  drop-append_right (suc n) a (x ∷ xs) ys h k = drop-append_right n a xs ys (omega arith) k

abbrev pub waiting_of : Option PersistedStream → List Blob
waiting_of none = []
waiting_of (some p) = p.pending

module _ (C : Crdt) (R : RelayLog) where
  -- A saved state holds a document, sealed, that is sound with what is saved beside it.
  abbrev pub Stored : R.State → Option PersistedStream → Type 0
  Stored s none = Unit
  Stored s (some p) =
      (doc : C.Doc) × (blob : Blob) × (p.snapshot ≡ some blob)
      × (C.unseal blob ≡ some (C.encode doc))
      × Sound C R s doc p.pending p.cursor

  pub record IsSafe (s : R.State) (d : Device C) : Type 0 where
    pub sound : Sound C R s d.engine.doc d.engine.pending d.engine.cursor
    pub stored : Stored s d.saved
    pub queued : (b : Blob) → In b (waiting_of d.saved) → In b d.engine.pending ⊎ In b (R.log s)
    pub sent :
        (b : Blob) → In b d.engine.pending → In b (drop d.flight d.engine.pending) ⊎ In b (R.log s)
    pub batch : d.flight ≤ length d.engine.pending

module _ (C : Crdt) (R : RelayLog) (laws : IsCrdt C) (log : IsRelayLog R) where
  pub new_device-IsSafe : (s : R.State) → IsSafe C R s (new_device C R)
  new_device-IsSafe s = record {
    sound = new-Sound C R laws log s;
    stored = tt;
    queued = λ b h. inl h;
    sent = λ b h. inl h;
    batch = omega arith;
  }

  Stored-pushed :
      (s : R.State) (bs : List Blob) (saved : Option PersistedStream)
      → Stored C R s saved
      → Stored C R (R.push s bs).0 saved
  Stored-pushed s bs none v = tt
  Stored-pushed s bs (some p) (doc, blob, e, o, v) =
      (doc, blob, e, o, push-Sound C R laws log s bs doc p.pending p.cursor v)

  -- A push, by whichever device, keeps the others safe.
  pub pushed-IsSafe :
      (s : R.State) (bs : List Blob) (d : Device C) → IsSafe C R s d → IsSafe C R (R.push s bs).0 d
  pushed-IsSafe s bs d v = record {
    sound = push-Sound C R laws log s bs d.engine.doc d.engine.pending d.engine.cursor v.sound;
    stored = Stored-pushed s bs d.saved v.stored;
    queued =
        λ b h. elim (v.queued b h) [ inl k ↦ inl k | inr k ↦ inr (push-log C R laws log s bs b k) ];
    sent =
        λ b h. elim (v.sent b h) [ inl k ↦ inl k | inr k ↦ inr (push-log C R laws log s bs b k) ];
    batch = v.batch;
  }

  pub transact-IsSafe :
      (s : R.State) (n : ℕ) (u : Option C.Update) (d : Device C)
      → IsSafe C R s d
      → IsSafe C R s (record d { engine = transact C n u d.engine })
  unfolding transact
  transact-IsSafe s n none d v = v
  transact-IsSafe s n (some u) d v = record {
    sound = transact-Sound C R laws log s n (some u) d.engine v.sound;
    stored = v.stored;
    queued = λ b h. elim (v.queued b h) [
      | inl k ↦ inl (In-left b d.engine.pending (C.seal n u ∷ []) k)
      | inr k ↦ inr k
    ];
    sent = λ b h. elim (In-append b d.engine.pending (C.seal n u ∷ []) h) [
      | inl k ↦ elim (v.sent b k) [
        | inl i ↦ inl (drop-append_left d.flight b d.engine.pending (C.seal n u ∷ []) i)
        | inr i ↦ inr i
      ]
      | inr k ↦ inl (drop-append_right d.flight b d.engine.pending (C.seal n u ∷ []) v.batch k)
    ];
    batch = omega (arith, v.batch, length-append d.engine.pending (C.seal n u ∷ []));
  }

  pub saved-IsSafe :
      (s : R.State) (n : ℕ) (d : Device C)
      → IsSafe C R s d
      → IsSafe C R s (record d { saved = some (state_of C n d.engine) })
  unfolding state_of
  saved-IsSafe s n d v = record {
    sound = v.sound;
    stored = (
      d.engine.doc,
      C.seal n (C.encode d.engine.doc),
      refl,
      laws.unseal-seal n (C.encode d.engine.doc),
      v.sound,
    );
    queued = λ b h. inl h;
    sent = v.sent;
    batch = v.batch;
  }

  received-pending :
      (e : Engine C) (r : Option (Text × List Blob)) → (receive C e r).pending ≡ e.pending
  unfolding receive
  received-pending e none = refl
  received-pending e (some (cursor, bs)) = go (integrate_all C e.doc bs)
    where
      go : (r : C.Doc × Bool) → (received_as C e cursor r).pending ≡ e.pending
      go (doc, true) = refl
      go (doc, false) = refl

  -- Another engine state with the same blobs waiting.
  with_engine-IsSafe :
      (s : R.State) (d : Device C) (e : Engine C)
      → e.pending ≡ d.engine.pending
      → Sound C R s e.doc e.pending e.cursor
      → IsSafe C R s d
      → IsSafe C R s (record d { engine = e })
  with_engine-IsSafe s d e q sound v = record {
    sound = sound;
    stored = v.stored;
    queued = λ b h. subst (λ p. In b p ⊎ In b (R.log s)) (sym q) (v.queued b h);
    sent =
        subst (λ p. (b : Blob) → In b p → In b (drop d.flight p) ⊎ In b (R.log s)) (sym q) v.sent;
    batch = subst (λ p. d.flight ≤ length p) (sym q) v.batch;
  }

  empty_pull-Sound :
      (s : R.State) (e : Engine C) (c : Option Text)
      → e.cursor ≡ c
      → Sound C R s e.doc e.pending e.cursor
      → Sound C R s
          (receive C e (some (cursor_or_empty c, []))).doc
          (receive C e (some (cursor_or_empty c, []))).pending
          (receive C e (some (cursor_or_empty c, []))).cursor
  empty_pull-Sound s e none q v =
      receive-Sound C R laws log s e [] [] (λ b h. elim h [ ]) (log.issued_empty s)
        (λ b h. elim (subst (In b) (log.empty_cursor s) h) [ ]) v
  empty_pull-Sound s e (some c) q v =
      receive-Sound C R laws log s e c [] (λ b h. elim h [ ]) (subst (R.Issued s) q v.issued)
        (λ b h. inl (subst (λ x. In b (R.covered s x)) (sym q) h)) v

  pub pulled-IsSafe :
      (s : R.State) (d : Device C)
      → R.Good s
      → IsSafe C R s d
      → IsSafe C R s (pulled C R s d (respond C R s d.engine.cursor))
  unfolding pull_result
  pulled-IsSafe s d good v =
      let (c, bs) = R.pull s d.engine.cursor in
      with_engine-IsSafe s d
        (receive C d.engine (some ((R.pull s d.engine.cursor).0, (R.pull s d.engine.cursor).1)))
        (received-pending d.engine _)
        (receive-Sound C R laws log s d.engine (R.pull s d.engine.cursor).0
          (R.pull s d.engine.cursor).1
          (λ b h.
            subst (In b) (sym (log.pull_rest s d.engine.cursor good))
              (In-right b (R.covered s d.engine.cursor) (R.pull s d.engine.cursor).1 h))
          (log.pull_issued s d.engine.cursor good)
          (λ b h. In-append b (R.covered s d.engine.cursor) (R.pull s d.engine.cursor).1 (
            subst (In b)
              (log.pull_covered s d.engine.cursor good ∙ log.pull_rest s d.engine.cursor good) h))
          v.sound)
        v

  pub refused_pull-IsSafe :
      (s : R.State) (d : Device C) (status : ℕ)
      → IsSafe C R s d
      → IsSafe C R s (pulled C R s d (pull_status status))
  unfolding pull_result receive
  refused_pull-IsSafe s d status v = go (status == 404)
    where
      go :
          (b : Bool)
          → IsSafe C R s (record d {
            engine =
                receive C d.engine (if b then some (cursor_or_empty d.engine.cursor, []) else none);
          })
      go true =
          with_engine-IsSafe s d (receive C d.engine (some (cursor_or_empty d.engine.cursor, [])))
            (received-pending d.engine (some (cursor_or_empty d.engine.cursor, [])))
            (empty_pull-Sound s d.engine d.engine.cursor refl v.sound) v
      go false = v

  -- The answer to a push takes the batch, which the log has, off what waits.
  pub answered-IsSafe :
      (s : R.State) (d : Device C)
      → IsSafe C R s d
      → IsSafe C R s (record d { engine = acknowledge C d.flight d.engine; flight = 0 })
  unfolding acknowledge
  answered-IsSafe s d v = record {
    sound =
        fewer-Sound C R laws log s d.engine.doc d.engine.pending (drop d.flight d.engine.pending)
          d.engine.cursor (λ b h. drop-In d.flight b d.engine.pending h) v.sent v.sound;
    stored = v.stored;
    queued = λ b h. elim (v.queued b h) [ inl k ↦ v.sent b k | inr k ↦ inr k ];
    sent = λ b h. inl h;
    batch = omega arith;
  }

  pub forgotten-IsSafe :
      (s : R.State) (d : Device C) → IsSafe C R s d → IsSafe C R s (record d { flight = 0 })
  forgotten-IsSafe s d v = record {
    sound = v.sound;
    stored = v.stored;
    queued = v.queued;
    sent = λ b h. inl h;
    batch = omega arith;
  }

  opened :
      (doc : C.Doc) (blob : Blob)
      → C.unseal blob ≡ some (C.encode doc)
      → integrate_remote C C.new_doc blob ≡ some doc
  unfolding integrate_remote
  opened doc blob o = rw (o, integrate_remote, laws.rebuild doc)

  -- What a reload finds: the saved state, with its document rebuilt.
  reloaded-some :
      (p : PersistedStream) (doc : C.Doc) (blob : Blob)
      → p.snapshot ≡ some blob
      → C.unseal blob ≡ some (C.encode doc)
      → reloaded C (some p) ≡ record { doc = doc; pending = p.pending; cursor = p.cursor }
  unfolding load
  reloaded-some p doc blob e o =
      ap (λ x. or_new C (restored C (new_engine C) p (with_snapshot C C.new_doc x))) e
      ∙ ap (λ x. or_new C (restored C (new_engine C) p x)) (opened doc blob o)

  pub restored-IsSafe :
      (s : R.State) (saved : Option PersistedStream)
      → Stored C R s saved
      → IsSafe C R s (record { engine = reloaded C saved; saved = saved; flight = 0 })
  unfolding load
  restored-IsSafe s none v = new_device-IsSafe s
  restored-IsSafe s (some p) (doc, blob, e, o, v) =
      subst (λ (x : Engine C). IsSafe C R s (record { engine = x; saved = some p; flight = 0 }))
        (sym (reloaded-some p doc blob e o))
        (record {
          sound = v;
          stored = (doc, blob, e, o, v);
          queued = λ b h. inl h;
          sent = λ b h. inl h;
          batch = omega arith;
        })
