-- ===== src/Sync/World/Agreement.antt =====
-- Over any run of the devices of a stream: what is saved is never lost, and devices that are in sync
-- agree (packages/sync/src/engine.ts).
use teacher_assistant.Base.{
  ℕ, ◌≡◌, refl, sym, ap, ◌∙◌, subst, ◌⊎◌, inl, inr, Bool, true, false, List, [], Option, some,
  arith, ◌==◌, ◌++◌, if◌then◌else◌, length, Bool-cases, In, In-right,
}
use teacher_assistant.Relay.Types.{Text, Blob}
use teacher_assistant.Sync.Stream.{Crdt, IsCrdt, Knows, apply_all-same}
use teacher_assistant.Sync.Relay.{RelayLog, IsRelayLog}
use teacher_assistant.Sync.Engine.{state_of}
use teacher_assistant.Sync.World.{
  Device, World, Event, captures, saves, pulls, pull_answers, pushes, push_answers, push_fails,
  reloads, set_at, device_step, world_step, Run, begins, then_step, new_world,
}
use teacher_assistant.Sync.World.Sound.{push-log}
use teacher_assistant.Sync.World.Safety.{
  waiting_of, IsSafe, new_device-IsSafe, pushed-IsSafe, transact-IsSafe, saved-IsSafe,
  pulled-IsSafe, refused_pull-IsSafe, answered-IsSafe, forgotten-IsSafe, restored-IsSafe,
}

set_at_either :
    {A : Type 0} (P : A → Type 0) (i j : ℕ) (a : A) (f : ℕ → A)
    → (i ≡ j → P a)
    → P (f j)
    → P (set_at i a f j)
set_at_either P i j a f h k = elim (Bool-cases (i == j)) [
  | inl y ↦ rw y (h (ground arith))
  | inr n ↦ rw n k
]

some-injective : {A : Type 0} (a b : A) → some a ≡ some b → a ≡ b
some-injective a b e = ground arith

module _ (C : Crdt) (R : RelayLog) where
  -- A blob that the device has saved to push, or that the relay has.
  abbrev pub IsKept : R.State → Device C → Blob → Type 0
  IsKept s d b = In b (waiting_of d.saved) ⊎ In b (R.log s)

  -- What a step of one device does to it, to the relay and to the other devices.
  abbrev IsSafeStep : R.State → Device C → R.State × Device C → Type 0
  IsSafeStep s d r =
      R.Good r.0
      × IsSafe C R r.0 r.1
      × ((d' : Device C) → IsSafe C R s d' → IsSafe C R r.0 d')
      × ((b : Blob) → In b (R.log s) → In b (R.log r.0))
      × ((b : Blob) → IsKept s d b → IsKept r.0 r.1 b)

  pub record IsSafeWorld (w : World C R) : Type 0 where
    pub good : R.Good w.relay
    pub safe : (i : ℕ) → IsSafe C R w.relay (w.device i)

module _ (C : Crdt) (R : RelayLog) (laws : IsCrdt C) (log : IsRelayLog R) where
  -- A step that leaves the relay and what is saved alone.
  alone :
      (s : R.State) (d d' : Device C)
      → R.Good s
      → d'.saved ≡ d.saved
      → IsSafe C R s d'
      → IsSafeStep C R s d (s, d')
  alone s d d' good q v = (
    good,
    v,
    (λ d'' k. k),
    (λ b k. k),
    λ b k. subst (λ x. In b (waiting_of x) ⊎ In b (R.log s)) (sym q) k,
  )

  push-IsSafe :
      (s : R.State) (d : Device C) (r : R.State × Bool)
      → R.push s d.engine.pending ≡ r
      → IsSafe C R s d
      → IsSafe C R r.0 (record d { flight = if r.1 then length d.engine.pending else 0 })
  push-IsSafe s d (s', true) e v =
      let p =
        subst (λ (r : R.State × Bool). IsSafe C R r.0 d) e
          (pushed-IsSafe C R laws log s d.engine.pending d v) in
      let l : R.log s' ≡ R.log s ++ d.engine.pending =
        subst
          (λ (r : R.State × Bool). R.log r.0 ≡ R.log s ++ (if r.1 then d.engine.pending else [])) e
          (log.push_log s d.engine.pending) in
      record {
        sound = p.sound;
        stored = p.stored;
        queued = p.queued;
        sent = λ b h. inr (subst (In b) (sym l) (In-right b (R.log s) d.engine.pending h));
        batch = omega arith;
      }
  push-IsSafe s d (s', false) e v = forgotten-IsSafe C R laws log s' d (
      subst (λ (r : R.State × Bool). IsSafe C R r.0 d) e
        (pushed-IsSafe C R laws log s d.engine.pending d v))

  device_step-IsSafe :
      (s : R.State) (e : Event C) (d : Device C)
      → R.Good s
      → R.Room s d.engine.pending
      → IsSafe C R s d
      → IsSafeStep C R s d (device_step C R s e d)
  unfolding device_step state_of
  device_step-IsSafe s (captures n u) d good room v =
      alone s d _ good refl (transact-IsSafe C R laws log s n u d v)
  device_step-IsSafe s (saves n) d good room v = (
    good,
    saved-IsSafe C R laws log s n d v,
    (λ d' k. k),
    (λ b k. k),
    λ b k. elim k [ inl h ↦ v.queued b h | inr h ↦ inr h ],
  )
  device_step-IsSafe s pulls d good room v =
      alone s d _ good refl (pulled-IsSafe C R laws log s d good v)
  device_step-IsSafe s (pull_answers status) d good room v =
      alone s d _ good refl (refused_pull-IsSafe C R laws log s d status v)
  device_step-IsSafe s pushes d good room v = go (length d.engine.pending == 0)
    where
      go :
          (b : Bool)
          → IsSafeStep C R s d (
              if b then (s, d) else (
                (R.push s d.engine.pending).0,
                record d {
                  flight = if (R.push s d.engine.pending).1 then length d.engine.pending else 0;
                },
              ))
      go true = alone s d d good refl v
      go false = (
        log.push_good s d.engine.pending good room,
        push-IsSafe s d (R.push s d.engine.pending) refl v,
        (λ d' k. pushed-IsSafe C R laws log s d.engine.pending d' k),
        (λ b k. push-log C R laws log s d.engine.pending b k),
        λ b k. elim k [
          | inl h ↦ inl h
          | inr h ↦ inr (push-log C R laws log s d.engine.pending b h)
        ],
      )
  device_step-IsSafe s push_answers d good room v =
      alone s d _ good refl (answered-IsSafe C R laws log s d v)
  device_step-IsSafe s push_fails d good room v =
      alone s d _ good refl (forgotten-IsSafe C R laws log s d v)
  device_step-IsSafe s reloads d good room v =
      alone s d _ good refl (restored-IsSafe C R laws log s d.saved v.stored)

  world_step-IsSafeWorld :
      (i : ℕ) (e : Event C) (w : World C R)
      → R.Room w.relay (w.device i).engine.pending
      → IsSafeWorld C R w
      → IsSafeWorld C R (world_step C R i e w)
  unfolding world_step
  world_step-IsSafeWorld i e w room v =
      let (good, own, others, grown, kept) =
        device_step-IsSafe w.relay e (w.device i) v.good room (v.safe i) in
      record {
        good = good;
        safe = λ j.
            elim (i == j)
              as (λ b.
                IsSafe C R (device_step C R w.relay e (w.device i)).0
                  (if b then (device_step C R w.relay e (w.device i)).1 else w.device j)) [
                    | true ↦ own
                    | false ↦ others (w.device j) (v.safe j)
                  ];
      }

  pub Run-IsSafeWorld :
      {from to : World C R} → Run C R from to → IsSafeWorld C R from → IsSafeWorld C R to
  Run-IsSafeWorld begins v = v
  Run-IsSafeWorld (then_step r i e room) v = world_step-IsSafeWorld i e _ room (Run-IsSafeWorld r v)

  pub new_world-IsSafeWorld : (s : R.State) → R.Good s → IsSafeWorld C R (new_world C R s)
  new_world-IsSafeWorld s good = record {
    good = good;
    safe = λ i. new_device-IsSafe C R laws log s;
  }

  world_step-IsKept :
      (i : ℕ) (e : Event C) (w : World C R) (j : ℕ) (b : Blob)
      → R.Room w.relay (w.device i).engine.pending
      → IsSafeWorld C R w
      → IsKept C R w.relay (w.device j) b
      → IsKept C R (world_step C R i e w).relay ((world_step C R i e w).device j) b
  unfolding world_step
  world_step-IsKept i e w j b room v k =
      let (good, own, others, grown, kept) =
        device_step-IsSafe w.relay e (w.device i) v.good room (v.safe i) in
      set_at_either (λ d. IsKept C R (device_step C R w.relay e (w.device i)).0 d b) i j
        (device_step C R w.relay e (w.device i)).1 w.device
        (λ q. kept b (subst (λ x. IsKept C R w.relay (w.device x) b) (sym q) k))
        (elim k [ inl h ↦ inl h | inr h ↦ inr (grown b h) ])

  Run-IsKept :
      {from to : World C R}
      → Run C R from to
      → IsSafeWorld C R from
      → (j : ℕ) (b : Blob) → IsKept C R from.relay (from.device j) b
      → IsKept C R to.relay (to.device j) b
  Run-IsKept begins v j b k = k
  Run-IsKept (then_step {w} r i e room) v j b k =
      world_step-IsKept i e w j b room (Run-IsSafeWorld r v) (Run-IsKept r v j b k)

  -- Whatever captures, syncs, refusals, lost answers and reloads come after it, on this device and on
  -- the others, a blob that a device has saved to be pushed is always still saved on it or in the
  -- relay's log.
  pub nothing_lost :
      (s : R.State) {m to : World C R}
      → R.Good s
      → Run C R (new_world C R s) m
      → Run C R m to
      → (i : ℕ) (b : Blob) → In b (waiting_of (m.device i).saved)
      → In b (waiting_of (to.device i).saved) ⊎ In b (R.log to.relay)
  nothing_lost s good r q i b h =
      Run-IsKept q (Run-IsSafeWorld r (new_world-IsSafeWorld s good)) i b (inl h)

  -- Each update in a document is known to another that knows all of the log, when nothing waits.
  known_there :
      (s : R.State) (doc other : C.Doc) (us : List C.Update) (pending : List Blob) (c : Option Text)
      → pending ≡ []
      → R.covered s c ≡ R.log s
      → ((u : C.Update)
          → In u us
          → (b : Blob) × (C.unseal b ≡ some u) × (In b (R.log s) ⊎ In b pending))
      → ((b : Blob) → In b (R.covered s c) → Knows C other b)
      → (u : C.Update) → In u us
      → C.apply_update other u ≡ other
  known_there s doc other us pending c none_left all k knows u h =
      let (b, o, place) = k u h in
      elim place [
        | inl l ↦
            (let (v, o', q) = knows b (subst (In b) (sym all) l) in
              ap (C.apply_update other) (some-injective u v (sym o ∙ o')) ∙ q)
        | inr r ↦ elim (subst (In b) none_left r) [ ]
      ]

  -- In every run from new devices, two devices with nothing left to push, whose cursors stand for all
  -- of the log, have the same document.
  pub synced_same :
      (s : R.State) {w : World C R}
      → R.Good s
      → Run C R (new_world C R s) w
      → (i j : ℕ) → (w.device i).engine.pending ≡ []
      → (w.device j).engine.pending ≡ []
      → R.covered w.relay (w.device i).engine.cursor ≡ R.log w.relay
      → R.covered w.relay (w.device j).engine.cursor ≡ R.log w.relay
      → (w.device i).engine.doc ≡ (w.device j).engine.doc
  synced_same s {w} good r i j pi pj ci cj =
      let v = Run-IsSafeWorld r (new_world-IsSafeWorld s good) in
      let (us, eu, ku) = (v.safe i).sound.made in
      let (vs, ev, kv) = (v.safe j).sound.made in
      eu
      ∙ apply_all-same C laws us vs
          (λ u h.
            subst (λ d. C.apply_update d u ≡ d) ev
              (known_there w.relay (w.device i).engine.doc (w.device j).engine.doc us
                (w.device i).engine.pending (w.device j).engine.cursor pi cj ku
                (v.safe j).sound.covers u h))
          (λ u h.
            subst (λ d. C.apply_update d u ≡ d) eu
              (known_there w.relay (w.device j).engine.doc (w.device i).engine.doc vs
                (w.device j).engine.pending (w.device i).engine.cursor pj ci kv
                (v.safe i).sound.covers u h))
      ∙ sym ev
