-- ===== src/Service/App/Replay.antt =====
-- Replays: what NonceCache and verifyRequest of services/sync-relay/src/app.ts make of a request that
-- is sent a second time.
use teacher_assistant.Base.{
  ℕ, ◌+◌, ◌-◌, ◌≤◌, ◌<◌, ◌≡◌, refl, sym, subst, ap, ◌∙◌, Bool, true, false, ◌&&◌, List, [], ◌∷◌,
  Option, none, some, arith, ltb, leb,
}
use teacher_assistant.Base.Map.{Map, get, put, keep, get-put}
use teacher_assistant.Service.Platform.{Platform}
use teacher_assistant.Service.Requests.{
  Request, NonceCache, swept, offer, nonce_key, timestamp_window_ms, VerifiedRequest, SignedHeaders,
  well_signed, offer_nonce, headers_of, signed_headers, if_fresh, verify_request,
}

-- A key that is remembered at least until a time.
abbrev lasts : ℕ → Option ℕ → Bool
lasts until none = false
lasts until (some expiry) = leb until expiry

lasts-keep :
    (key now until : ℕ) (m : Map ℕ)
    → now < until
    → lasts until (get key m) ≡ true
    → lasts until (get key (keep (λ k exp. ltb now exp) m)) ≡ true
unfolding get keep
lasts-keep key now until [] h l = l
lasts-keep key now until ((j, exp) ∷ m) h l = ground (arith, lasts-keep key now until m h)

lasts-swept :
    (key now until : ℕ) (c : NonceCache)
    → now < until
    → lasts until (get key c.seen) ≡ true
    → lasts until (get key (swept c now).seen) ≡ true
lasts-swept key now until c h l = ground (arith, lasts-keep key now until c.seen h l)

abbrev noted : NonceCache → ℕ → ℕ → NonceCache
noted c key now = record {
  seen = put key (now + timestamp_window_ms) c.seen;
  ops_since_sweep = c.ops_since_sweep + 1;
}

-- What is offered before the time leaves the key remembered.
lasts-offer :
    (key other now until : ℕ) (c : NonceCache)
    → now < until
    → lasts until (get key c.seen) ≡ true
    → lasts until (get key (offer c other now).0.seen) ≡ true
unfolding offer
lasts-offer key other now until c h l = ground (
  arith,
  get-put other key (now + timestamp_window_ms) c.seen,
  lasts-swept key now until (noted c other now) h,
)

kept :
    (key now expiry : ℕ) (m : Map ℕ)
    → now < expiry
    → get key m ≡ some expiry
    → get key (keep (λ k exp. ltb now exp) m) ≡ some expiry
unfolding get keep
kept key now expiry [] h e = e
kept key now expiry ((j, exp) ∷ m) h e = ground (arith, kept key now expiry m h)

kept_swept :
    (key now expiry : ℕ) (c : NonceCache)
    → now < expiry
    → get key c.seen ≡ some expiry
    → get key (swept c now).seen ≡ some expiry
kept_swept key now expiry c h e = ground (arith, kept key now expiry c.seen h e)

get-offer :
    (key now : ℕ) (c : NonceCache)
    → (offer c key now).1 ≡ true
    → get key (offer c key now).0.seen ≡ some (now + timestamp_window_ms)
unfolding offer
get-offer key now c h = ground (
  arith,
  kept_swept key now (now + timestamp_window_ms) (noted c key now) (omega arith)
      (ground (arith, get-put key key (now + timestamp_window_ms) c.seen)),
)

lasts_refused :
    (key now until : ℕ) (c : NonceCache)
    → now < until
    → lasts until (get key c.seen) ≡ true
    → (offer c key now).1 ≡ false
unfolding offer
lasts_refused key now until c h l = ground arith

-- The cache after some more requests, each at its time.
unfoldable pub verify_each : Platform → NonceCache → List (ℕ × Request) → NonceCache
verify_each P c [] = c
verify_each P c ((now, req) ∷ rest) = verify_each P (verify_request P c now req).0 rest

abbrev pub all_before : ℕ → List (ℕ × Request) → Bool
all_before until [] = true
all_before until ((now, req) ∷ rest) = ltb now until && all_before until rest

lasts-if_fresh :
    (key until : ℕ) (h : SignedHeaders) (r : NonceCache × Bool)
    → lasts until (get key r.0.seen) ≡ true
    → lasts until (get key (if_fresh h r).0.seen) ≡ true
lasts-if_fresh key until h (c, true) l = l
lasts-if_fresh key until h (c, false) l = l

lasts-offer_nonce :
    (key now until : ℕ) (c : NonceCache) (s : Option SignedHeaders)
    → now < until
    → lasts until (get key c.seen) ≡ true
    → lasts until (get key (offer_nonce c now s).0.seen) ≡ true
lasts-offer_nonce key now until c none h l = l
lasts-offer_nonce key now until c (some s) h l =
    lasts-if_fresh key until s (offer c (nonce_key s.device s.nonce) now)
      (lasts-offer key (nonce_key s.device s.nonce) now until c h l)

lasts-verify_each :
    (P : Platform) (key until : ℕ) (c : NonceCache) (rest : List (ℕ × Request))
    → all_before until rest ≡ true
    → lasts until (get key c.seen) ≡ true
    → lasts until (get key (verify_each P c rest).seen) ≡ true
unfolding verify_each verify_request
lasts-verify_each P key until c [] h l = l
lasts-verify_each P key until c ((now, req) ∷ rest) h l =
    lasts-verify_each P key until (verify_request P c now req).0 rest (ground arith)
      (lasts-offer_nonce key now until c (signed_headers P now req) (ground arith) l)

well_signed_same :
    (P : Platform) (now : ℕ) (req : Request) (h h' : SignedHeaders)
    → well_signed P now req h ≡ some h'
    → h ≡ h'
unfolding well_signed
well_signed_same P now req h h' e = ground arith

-- The headers do not depend on the time.
signed_headers-headers_of :
    (P : Platform) (now : ℕ) (req : Request) (h : SignedHeaders)
    → signed_headers P now req ≡ some h
    → headers_of req ≡ some h
unfolding signed_headers
signed_headers-headers_of P now req h e = go (headers_of req) refl
  where
    go : (o : Option SignedHeaders) → headers_of req ≡ o → o ≡ some h
    go none f = absurd (cc)
    go (some h') f = ap some (well_signed_same P now req h' h (cc))

-- What an accepted request leaves in the cache.
accepted :
    (P : Platform) (c n : NonceCache) (now : ℕ) (req : Request) (v : VerifiedRequest)
    → verify_request P c now req ≡ (n, some v)
    → (h : SignedHeaders) × (signed_headers P now req ≡ some h)
      × (v ≡ record { device = h.device; scope = h.scope })
      × (get (nonce_key h.device h.nonce) n.seen ≡ some (now + timestamp_window_ms))
unfolding verify_request
accepted P c n now req v e = go (signed_headers P now req) refl e
  where
    fresh :
        (h : SignedHeaders) (r : NonceCache × Bool)
        → if_fresh h r ≡ (n, some v)
        → (r.0 ≡ n) × (r.1 ≡ true) × (v ≡ record { device = h.device; scope = h.scope })
    fresh h (c', true) k = (ap (λ x. x.0) k, refl, cc)
    fresh h (c', false) k = absurd (ground (k, arith))

    go :
        (o : Option SignedHeaders)
        → signed_headers P now req ≡ o
        → offer_nonce c now o ≡ (n, some v)
        → (h : SignedHeaders) × (signed_headers P now req ≡ some h)
          × (v ≡ record { device = h.device; scope = h.scope })
          × (get (nonce_key h.device h.nonce) n.seen ≡ some (now + timestamp_window_ms))
    go none f k = absurd (ground (k, arith))
    go (some h) f k =
        let r = fresh h (offer c (nonce_key h.device h.nonce) now) k in
        (
          h,
          f,
          r.2,
          subst (λ m. get (nonce_key h.device h.nonce) m.seen ≡ some (now + timestamp_window_ms))
              r.0 (get-offer (nonce_key h.device h.nonce) now c r.1),
        )

some-injective {ℓ} : {A : Type ℓ} (a b : A) → some a ≡ some b → a ≡ b
some-injective a b e = ground arith

offer_nonce_refused :
    (c : NonceCache) (now until : ℕ) (h : SignedHeaders)
    → now < until
    → lasts until (get (nonce_key h.device h.nonce) c.seen) ≡ true
    → (offer_nonce c now (some h)).1 ≡ none
offer_nonce_refused c now until h k l =
    go (offer c (nonce_key h.device h.nonce) now)
      (lasts_refused (nonce_key h.device h.nonce) now until c k l)
  where
    go : (r : NonceCache × Bool) → r.1 ≡ false → (if_fresh h r).1 ≡ none
    go (c', true) e = cc
    go (c', false) e = refl

-- A request that was accepted is refused when it comes again before the five minutes are over,
-- whatever requests come in between.
pub replay_refused :
    (P : Platform) (c n : NonceCache) (now later : ℕ) (req : Request) (v : VerifiedRequest)
    (rest : List (ℕ × Request))
    → verify_request P c now req ≡ (n, some v)
    → all_before (now + timestamp_window_ms) rest ≡ true
    → later < now + timestamp_window_ms
    → (verify_request P (verify_each P n rest) later req).1 ≡ none
unfolding verify_request
replay_refused P c n now later req v rest e b k = go (signed_headers P later req) refl
  where
    held :
        (h : SignedHeaders)
        → headers_of req ≡ some h
        → lasts (now + timestamp_window_ms) (get (nonce_key h.device h.nonce) n.seen) ≡ true
    held h f =
        let a = accepted P c n now req v e in
        let ge : leb (now + timestamp_window_ms) (now + timestamp_window_ms) ≡ true =
          ground arith in
        subst
          (λ x. lasts (now + timestamp_window_ms) (get (nonce_key x.device x.nonce) n.seen) ≡ true)
          (some-injective a.0 h (sym (signed_headers-headers_of P now req a.0 a.1) ∙ f))
          (rw (a.3) ge)

    go :
        (o : Option SignedHeaders)
        → signed_headers P later req ≡ o
        → (offer_nonce (verify_each P n rest) later o).1 ≡ none
    go none f = refl
    go (some h) f =
        offer_nonce_refused (verify_each P n rest) later (now + timestamp_window_ms) h k (
          lasts-verify_each P (nonce_key h.device h.nonce) (now + timestamp_window_ms) n rest b
            (held h (signed_headers-headers_of P later req h f)))

-- How far a time is from the time of a request.
abbrev pub distance : ℕ → ℕ → ℕ
distance now at = (now - at) + (at - now)

still_signed :
    (P : Platform) (now at : ℕ) (req : Request) (h h' : SignedHeaders)
    → ((t : ℕ) → P.clock_skew t h.timestamp ≡ some (distance t at))
    → now ≤ at
    → well_signed P now req h ≡ some h'
    → well_signed P (now + timestamp_window_ms) req h ≡ some h
unfolding well_signed
still_signed P now at req h h' skew k e = ground (arith, skew now, skew (now + timestamp_window_ms))

signed_headers-well_signed :
    (P : Platform) (now : ℕ) (req : Request) (h : SignedHeaders)
    → headers_of req ≡ some h
    → signed_headers P now req ≡ well_signed P now req h
unfolding signed_headers
signed_headers-well_signed P now req h e = rw (e)

expired_fresh :
    (key now : ℕ) (n : NonceCache) → get key n.seen ≡ some now → (offer n key now).1 ≡ true
unfolding offer
expired_fresh key now n e = ground arith

if_fresh_accepts :
    (h : SignedHeaders) (r : NonceCache × Bool)
    → r.1 ≡ true
    → (if_fresh h r).1 ≡ some (record { device = h.device; scope = h.scope })
if_fresh_accepts h (c, true) e = refl
if_fresh_accepts h (c, false) e = cc

-- A request that was accepted, and whose time is not behind the relay's clock, is accepted a second
-- time when it comes again after five minutes.
pub replay_accepted :
    (P : Platform) (c n : NonceCache) (now at : ℕ) (req : Request) (v : VerifiedRequest)
    (h : SignedHeaders)
    → headers_of req ≡ some h
    → ((t : ℕ) → P.clock_skew t h.timestamp ≡ some (distance t at))
    → now ≤ at
    → verify_request P c now req ≡ (n, some v)
    → (verify_request P n (now + timestamp_window_ms) req).1 ≡ some v
unfolding verify_request
replay_accepted P c n now at req v h e skew k a =
    let b = accepted P c n now req v a in
    let f = signed_headers-headers_of P now req b.0 b.1 in
    let same : b.0 ≡ h = some-injective b.0 h (sym f ∙ e) in
    let signed = sym (signed_headers-well_signed P now req b.0 f) ∙ b.1 in
    let still =
      still_signed P now at req b.0 b.0 (λ t. ap (λ x. P.clock_skew t x.timestamp) same ∙ skew t) k
        signed in
    let again = signed_headers-well_signed P (now + timestamp_window_ms) req b.0 f ∙ still in
    ap (λ o. (offer_nonce n (now + timestamp_window_ms) o).1) again
    ∙ if_fresh_accepts b.0 _
        (expired_fresh (nonce_key b.0.device b.0.nonce) (now + timestamp_window_ms) n b.3)
    ∙ ap some (sym b.2)
