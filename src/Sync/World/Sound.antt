-- ===== src/Sync/World/Sound.antt =====
-- What holds of each device at any time, and that its own steps and the others' keep it
-- (packages/sync/src/engine.ts).
use teacher_assistant.Base.{
  ℕ, ◌≡◌, refl, sym, ap, ◌∙◌, subst, ◌⊎◌, inl, inr, Bool, true, false, List, [], ◌∷◌, ◌++◌, Option,
  none, some, arith, Option-cases, In, In-append, In-left, In-right,
}
use teacher_assistant.Relay.Types.{Text, Blob}
use teacher_assistant.Sync.Stream.{
  Crdt, IsCrdt, integrate_remote, apply_all, Knows, Knows-new, Knows-kept, apply_all-snoc,
}
use teacher_assistant.Sync.Relay.{RelayLog, IsRelayLog}
use teacher_assistant.Sync.Engine.{Engine, transact, integrate_all, received_as, receive}

module _ (C : Crdt) (R : RelayLog) where
  -- The document comes of updates that are in the relay's log or wait to be pushed.
  abbrev pub Made : R.State → C.Doc → List Blob → Type 0
  Made s doc pending =
      (us : List C.Update) × (doc ≡ apply_all C C.new_doc us)
      × ((u : C.Update)
          → In u us
          → (b : Blob) × (C.unseal b ≡ some u) × (In b (R.log s) ⊎ In b pending))

  pub record Sound (s : R.State) (doc : C.Doc) (pending : List Blob) (cursor : Option Text)
      : Type 0 where
    pub waiting : (b : Blob) → In b pending → Knows C doc b
    pub covers : (b : Blob) → In b (R.covered s cursor) → Knows C doc b
    pub issued : R.Issued s cursor
    pub made : Made s doc pending

module _ (C : Crdt) (R : RelayLog) (laws : IsCrdt C) (log : IsRelayLog R) where
  pub new-Sound : (s : R.State) → Sound C R s C.new_doc [] none
  unfolding apply_all
  new-Sound s = record {
    waiting = λ b h. elim h [ ];
    covers = λ b h. elim (subst (In b) (log.no_cursor s) h) [ ];
    issued = log.issued_none s;
    made = ([], refl, λ u h. elim h [ ]);
  }

  -- More in the log, or more that waits, leaves the document's origin.
  Made-grows :
      (s s' : R.State) (doc : C.Doc) (pending pending' : List Blob)
      → ((b : Blob) → In b (R.log s) ⊎ In b pending → In b (R.log s') ⊎ In b pending')
      → Made C R s doc pending
      → Made C R s' doc pending'
  Made-grows s s' doc pending pending' f (us, e, k) =
      (us, e, λ u h. let (b, o, place) = k u h in (b, o, f b place))

  pub push-log :
      (s : R.State) (bs : List Blob) (b : Blob) → In b (R.log s) → In b (R.log (R.push s bs).0)
  push-log s bs b h = subst (In b) (sym (log.push_log s bs)) (In-left b (R.log s) _ h)

  pub push-Sound :
      (s : R.State) (bs : List Blob) (doc : C.Doc) (pending : List Blob) (cursor : Option Text)
      → Sound C R s doc pending cursor
      → Sound C R (R.push s bs).0 doc pending cursor
  push-Sound s bs doc pending cursor v = record {
    waiting = v.waiting;
    covers = λ b h. v.covers b (subst (In b) (log.push_covered s bs cursor v.issued) h);
    issued = log.push_issued s bs cursor v.issued;
    made =
        Made-grows s (R.push s bs).0 doc pending pending
          (λ b place. elim place [ inl h ↦ inl (push-log s bs b h) | inr h ↦ inr h ]) v.made;
  }

  -- One more update, whose blob has a place.
  Made-more :
      (s : R.State) (doc : C.Doc) (pending pending' : List Blob) (u : C.Update) (b : Blob)
      → C.unseal b ≡ some u
      → In b (R.log s) ⊎ In b pending'
      → ((b' : Blob) → In b' pending → In b' pending')
      → Made C R s doc pending
      → Made C R s (C.apply_update doc u) pending'
  Made-more s doc pending pending' u b o place f (us, e, k) = (
    us ++ u ∷ [],
    ap (λ d. C.apply_update d u) e ∙ sym (apply_all-snoc C laws C.new_doc us u),
    λ u' h. elim (In-append u' us (u ∷ []) h) [
      | inl i ↦
          (let (b', o', at) = k u' i in (b', o', elim at [ inl l ↦ inl l | inr r ↦ inr (f b' r) ]))
      | inr i ↦ last u' i
    ],
  )
    where
      last :
          (u' : C.Update)
          → In u' (u ∷ [])
          → (b' : Blob) × (C.unseal b' ≡ some u') × (In b' (R.log s) ⊎ In b' pending')
      last u' (inl q) = (b, o ∙ ap some q, place)
      last u' (inr q) = elim q [ ]

  pub transact-Sound :
      (s : R.State) (n : ℕ) (u : Option C.Update) (e : Engine C)
      → Sound C R s e.doc e.pending e.cursor
      → Sound C R s (transact C n u e).doc (transact C n u e).pending (transact C n u e).cursor
  unfolding transact
  transact-Sound s n none e v = v
  transact-Sound s n (some u) e v = record {
    waiting = λ b h. elim (In-append b e.pending (C.seal n u ∷ []) h) [
      | inl k ↦ Knows-kept C laws e.doc b u (v.waiting b k)
      | inr k ↦ fresh b k
    ];
    covers = λ b h. Knows-kept C laws e.doc b u (v.covers b h);
    issued = v.issued;
    made =
        Made-more s e.doc e.pending (e.pending ++ C.seal n u ∷ []) u (C.seal n u)
          (laws.unseal-seal n u)
          (inr (In-right (C.seal n u) e.pending (C.seal n u ∷ []) (inl refl)))
          (λ b h. In-left b e.pending (C.seal n u ∷ []) h) v.made;
  }
    where
      fresh : (b : Blob) → In b (C.seal n u ∷ []) → Knows C (C.apply_update e.doc u) b
      fresh b (inl k) = Knows-new C laws e.doc b u (ap C.unseal (sym k) ∙ laws.unseal-seal n u)
      fresh b (inr k) = elim k [ ]

  -- What integrating blobs of the log leaves: every blob that was known still is, and when all are
  -- opened they are known too.
  abbrev Integrated : R.State → C.Doc → List Blob → Option Text → List Blob → C.Doc × Bool → Type 0
  Integrated s doc pending cursor bs r =
      Sound C R s r.0 pending cursor
      × ((b : Blob) → Knows C doc b → Knows C r.0 b)
      × (r.1 ≡ true → (b : Blob) → In b bs → Knows C r.0 b)

  integrate_all-none :
      (doc : C.Doc) (b : Blob) (bs : List Blob)
      → C.unseal b ≡ none
      → integrate_all C doc (b ∷ bs) ≡ (doc, false)
  unfolding integrate_all integrate_remote
  integrate_all-none doc b bs e = rw (e, integrate_all)

  integrate_all-some :
      (doc : C.Doc) (b : Blob) (bs : List Blob) (u : C.Update)
      → C.unseal b ≡ some u
      → integrate_all C doc (b ∷ bs) ≡ integrate_all C (C.apply_update doc u) bs
  unfolding integrate_all integrate_remote
  integrate_all-some doc b bs u e = rw (e, integrate_all)

  apply_update-Sound :
      (s : R.State) (doc : C.Doc) (pending : List Blob) (cursor : Option Text) (b : Blob)
      (u : C.Update)
      → In b (R.log s)
      → C.unseal b ≡ some u
      → Sound C R s doc pending cursor
      → Sound C R s (C.apply_update doc u) pending cursor
  apply_update-Sound s doc pending cursor b u h e v = record {
    waiting = λ b' k. Knows-kept C laws doc b' u (v.waiting b' k);
    covers = λ b' k. Knows-kept C laws doc b' u (v.covers b' k);
    issued = v.issued;
    made = Made-more s doc pending pending u b e (inl h) (λ b' k. k) v.made;
  }

  integrate_all-Sound :
      (s : R.State) (doc : C.Doc) (pending : List Blob) (cursor : Option Text) (bs : List Blob)
      → ((b : Blob) → In b bs → In b (R.log s))
      → Sound C R s doc pending cursor
      → Integrated s doc pending cursor bs (integrate_all C doc bs)
  unfolding integrate_all
  integrate_all-Sound s doc pending cursor [] h v = (v, (λ b k. k), λ e b k. elim k [ ])
  integrate_all-Sound s doc pending cursor (b ∷ bs) h v = elim (Option-cases (C.unseal b)) [
    | inl e ↦
        subst (Integrated s doc pending cursor (b ∷ bs)) (sym (integrate_all-none doc b bs e))
          (v, (λ b' k. k), λ no. absurd (ground (no, arith)))
    | inr (u, e) ↦
        (let (sound, kept, all) =
            integrate_all-Sound s (C.apply_update doc u) pending cursor bs (λ b' k. h b' (inr k))
              (apply_update-Sound s doc pending cursor b u (h b (inl refl)) e v) in
          subst (Integrated s doc pending cursor (b ∷ bs)) (sym (integrate_all-some doc b bs u e)) (
            sound,
            (λ b' k. kept b' (Knows-kept C laws doc b' u k)),
            λ ok b' k. elim k [
              | inl q ↦ kept b' (Knows-new C laws doc b' u (ap C.unseal (sym q) ∙ e))
              | inr i ↦ all ok b' i
            ],
          ))
  ]

  -- What a device may be sent: blobs of the log, with a cursor that stands for no more than these and
  -- what the old cursor stands for.
  pub receive-Sound :
      (s : R.State) (e : Engine C) (cursor : Text) (bs : List Blob)
      → ((b : Blob) → In b bs → In b (R.log s))
      → R.Issued s (some cursor)
      → ((b : Blob) → In b (R.covered s (some cursor)) → In b (R.covered s e.cursor) ⊎ In b bs)
      → Sound C R s e.doc e.pending e.cursor
      → Sound C R s
          (receive C e (some (cursor, bs))).doc
          (receive C e (some (cursor, bs))).pending
          (receive C e (some (cursor, bs))).cursor
  unfolding receive
  receive-Sound s e cursor bs h issued cov v =
      go (integrate_all C e.doc bs) (integrate_all-Sound s e.doc e.pending e.cursor bs h v)
    where
      go :
          (r : C.Doc × Bool)
          → Integrated s e.doc e.pending e.cursor bs r
          → Sound C R s
              (received_as C e cursor r).doc
              (received_as C e cursor r).pending
              (received_as C e cursor r).cursor
      go (doc, false) (sound, kept, all) = sound
      go (doc, true) (sound, kept, all) = record {
        waiting = sound.waiting;
        covers = λ b k. elim (cov b k) [ inl i ↦ kept b (v.covers b i) | inr i ↦ all refl b i ];
        issued = issued;
        made = sound.made;
      }

  -- Blobs that are in the log need not wait.
  pub fewer-Sound :
      (s : R.State) (doc : C.Doc) (pending fewer : List Blob) (cursor : Option Text)
      → ((b : Blob) → In b fewer → In b pending)
      → ((b : Blob) → In b pending → In b fewer ⊎ In b (R.log s))
      → Sound C R s doc pending cursor
      → Sound C R s doc fewer cursor
  fewer-Sound s doc pending fewer cursor sub f v = record {
    waiting = λ b h. v.waiting b (sub b h);
    covers = v.covers;
    issued = v.issued;
    made =
        Made-grows s s doc pending fewer
          (λ b place. elim place [
            | inl h ↦ inl h
            | inr h ↦ elim (f b h) [ inl k ↦ inr k | inr k ↦ inl k ]
          ])
          v.made;
  }
