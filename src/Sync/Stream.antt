-- ===== src/Sync/Stream.antt =====
-- EncryptedStream of packages/sync/src/doc.ts. The document is a CRDT of a library (Yjs), and the
-- encryption under the stream's scope key is libsodium's: both are parameters.
use teacher_assistant.Base.{
  ℕ, ◌≡◌, refl, sym, ap, ◌∙◌, List, [], ◌∷◌, ◌++◌, Option, none, some, inl, inr, In,
}
use teacher_assistant.Relay.Types.{Blob}

pub record Crdt : Type 1 where
  pub Doc : Type 0
  pub Update : Type 0
  pub new_doc : Doc
  -- Y.applyUpdate and Y.encodeStateAsUpdate
  pub apply_update : Doc → Update → Doc
  pub encode : Doc → Update
  -- sealUpdate, with what it draws at random, and openUpdate; none where it throws
  pub seal : ℕ → Update → Blob
  pub unseal : Blob → Option Update

-- What Yjs and the cipher promise: the order of updates does not matter, a known update is applied in
-- vain, the state as an update rebuilds the document, and what is sealed is opened.
pub record IsCrdt (C : Crdt) : Type 0 where
  pub swap :
      (d : C.Doc) (u v : C.Update)
      → C.apply_update (C.apply_update d u) v ≡ C.apply_update (C.apply_update d v) u
  pub again :
      (d : C.Doc) (u : C.Update) → C.apply_update (C.apply_update d u) u ≡ C.apply_update d u
  pub rebuild : (d : C.Doc) → C.apply_update C.new_doc (C.encode d) ≡ d
  pub unseal-seal : (n : ℕ) (u : C.Update) → C.unseal (C.seal n u) ≡ some u

-- integrateRemote; none where it throws.
unfoldable pub integrate_remote : (C : Crdt) → C.Doc → Blob → Option C.Doc
integrate_remote C doc blob = elim (C.unseal blob) [
  | none ↦ none
  | some u ↦ some (C.apply_update doc u)
]

module _ (C : Crdt) where
  unfoldable pub apply_all : C.Doc → List C.Update → C.Doc
  apply_all d [] = d
  apply_all d (u ∷ us) = apply_all (C.apply_update d u) us

  -- The blob's update is in the document.
  abbrev pub Knows : C.Doc → Blob → Type 0
  Knows d b = (u : C.Update) × (C.unseal b ≡ some u) × (C.apply_update d u ≡ d)

module _ (C : Crdt) (laws : IsCrdt C) where
  pub Knows-new :
      (d : C.Doc) (b : Blob) (u : C.Update) → C.unseal b ≡ some u → Knows C (C.apply_update d u) b
  Knows-new d b u e = (u, e, laws.again d u)

  pub Knows-kept :
      (d : C.Doc) (b : Blob) (v : C.Update) → Knows C d b → Knows C (C.apply_update d v) b
  Knows-kept d b v (u, e, k) = (u, e, laws.swap d v u ∙ ap (λ x. C.apply_update x v) k)

  apply_all-swap :
      (d : C.Doc) (us : List C.Update) (v : C.Update)
      → apply_all C (C.apply_update d v) us ≡ C.apply_update (apply_all C d us) v
  unfolding apply_all
  apply_all-swap d [] v = refl
  apply_all-swap d (u ∷ us) v =
      ap (λ x. apply_all C x us) (laws.swap d v u) ∙ apply_all-swap (C.apply_update d u) us v

  -- Updates that a document knows change nothing in it.
  apply_all_known :
      (d : C.Doc) (us : List C.Update)
      → ((u : C.Update) → In u us → C.apply_update d u ≡ d)
      → apply_all C d us ≡ d
  unfolding apply_all
  apply_all_known d [] h = refl
  apply_all_known d (u ∷ us) h =
      ap (λ x. apply_all C x us) (h u (inl refl)) ∙ apply_all_known d us (λ v k. h v (inr k))

  apply_all-all_swap :
      (d : C.Doc) (us vs : List C.Update)
      → apply_all C (apply_all C d us) vs ≡ apply_all C (apply_all C d vs) us
  unfolding apply_all
  apply_all-all_swap d us [] = refl
  apply_all-all_swap d us (v ∷ vs) =
      ap (λ x. apply_all C x vs) (sym (apply_all-swap d us v))
      ∙ apply_all-all_swap (C.apply_update d v) us vs

  -- Two documents that know each other's updates are the same.
  pub apply_all-same :
      (us vs : List C.Update)
      → ((u : C.Update)
          → In u us
          → C.apply_update (apply_all C C.new_doc vs) u ≡ apply_all C C.new_doc vs)
      → ((v : C.Update)
          → In v vs
          → C.apply_update (apply_all C C.new_doc us) v ≡ apply_all C C.new_doc us)
      → apply_all C C.new_doc us ≡ apply_all C C.new_doc vs
  apply_all-same us vs h k =
      sym (apply_all_known (apply_all C C.new_doc us) vs k)
      ∙ apply_all-all_swap C.new_doc us vs
      ∙ apply_all_known (apply_all C C.new_doc vs) us h

  pub apply_all-snoc :
      (d : C.Doc) (us : List C.Update) (v : C.Update)
      → apply_all C d (us ++ v ∷ []) ≡ C.apply_update (apply_all C d us) v
  unfolding apply_all
  apply_all-snoc d [] v = refl
  apply_all-snoc d (u ∷ us) v = apply_all-snoc (C.apply_update d u) us v
