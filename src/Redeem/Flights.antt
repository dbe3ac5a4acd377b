-- ===== src/Redeem/Flights.antt =====
-- The attempts in flight (services/sync-relay/src/redeem-guard.ts).
use teacher_assistant.Base.{
  ℕ, ◌+◌, ◌-◌, ◌≤◌, ◌≡◌, refl, ◌∙◌, ◌⊎◌, inl, inr, ◌≢◌, Bool, false, ◌&&◌, Option, none, some,
  arith, leb, ltb, ◌==◌, if◌then◌else◌, length, Bool-cases, Option-cases,
}
use teacher_assistant.Base.Map.{
  Map, get, Distinct, get-put, get-remove, get-keep, put-Distinct, remove-Distinct, keep-Distinct,
}
use teacher_assistant.Redeem.{
  max_failures, window_ms, GuardEntry, window_over, is_blocked_entry, is_blocked, sweep,
  fresh_entry, restart, current, change, take_off, land, reserve, end_attempt, count_one, count_on,
  sweep_at,
}

abbrev pub flying : Option GuardEntry → ℕ
flying none = 0
flying (some e) = e.in_flight

abbrev pub failed : Option GuardEntry → ℕ
failed none = 0
failed (some e) = e.failures

abbrev change_entry : (GuardEntry → GuardEntry) → Option GuardEntry → Option GuardEntry
change_entry f none = none
change_entry f (some e) = some (f e)

get-change :
    (m : Map GuardEntry) (key : ℕ) (f : GuardEntry → GuardEntry) (j : ℕ)
    → get j (change m key f) ≡ (if key == j then change_entry f (get j m) else get j m)
unfolding change
get-change m key f j = elim (Option-cases (get key m)) [
  | inl e ↦ rw (e, change) (ground (arith, e))
  | inr (x, e) ↦ rw (e, change) (ground (arith, get-put key j (f x) m, e))
]

change-Distinct :
    (m : Map GuardEntry) (key : ℕ) (f : GuardEntry → GuardEntry)
    → Distinct m
    → Distinct (change m key f)
unfolding change
change-Distinct m key f d = elim (Option-cases (get key m)) [
  | inl e ↦ rw (e, change) d
  | inr (x, e) ↦ rw (e, change) (put-Distinct key (f x) m d)
]

-- A sweep drops idle entries only.
get-sweep :
    (m : Map GuardEntry) (now j : ℕ)
    → Distinct m
    → (get j (sweep m now) ≡ get j m) ⊎ ((get j (sweep m now) ≡ none) × (flying (get j m) ≡ 0))
unfolding sweep
get-sweep m now j d = elim (Option-cases (get j m)) [
  | inl e ↦ inl (get-keep _ j m d ∙ rw e refl)
  | inr (x, e) ↦
      elim (Bool-cases
        (x.in_flight == 0 && leb x.locked_until now && ltb window_ms (now - x.window_start))) [
          | inl idle ↦ inr (get-keep _ j m d ∙ rw (e, idle) refl, rw e (ground arith))
          | inr busy ↦ inl (get-keep _ j m d ∙ rw (e, busy) refl)
        ]
]

-- What the key's own entry becomes.
abbrev current_entry : ℕ → Option GuardEntry → Option GuardEntry
current_entry now none = some (fresh_entry now)
current_entry now (some e) = some (if window_over e now then restart e now else e)

get-current_key :
    (m : Map GuardEntry) (key now : ℕ) → get key (current m key now) ≡ current_entry now (get key m)
unfolding current
get-current_key m key now = elim (Option-cases (get key m)) [
  | inl e ↦
      rw (e, current)
        (ground (
          arith,
          get-put key key (fresh_entry now) (if leb sweep_at (length m) then sweep m now else m),
        ))
  | inr (x, e) ↦ rw (e, current) (ground (arith, get-put key key (restart x now) m, e))
]

get-current_other :
    (m : Map GuardEntry) (key now j : ℕ)
    → Distinct m
    → key ≢ j
    → (get j (current m key now) ≡ get j m)
      ⊎ ((get j (current m key now) ≡ none) × (flying (get j m) ≡ 0))
unfolding current
get-current_other m key now j d ne = elim (Option-cases (get key m)) [
  | inl e ↦ elim (Bool-cases (leb sweep_at (length m))) [
    | inl full ↦
        rw (e, current, full)
          (ground (arith, get-put key j (fresh_entry now) (sweep m now), get-sweep m now j d))
    | inr room ↦ rw (e, current, room) (ground (arith, get-put key j (fresh_entry now) m))
  ]
  | inr (x, e) ↦ rw (e, current) (ground (arith, get-put key j (restart x now) m))
]

current-Distinct : (m : Map GuardEntry) (key now : ℕ) → Distinct m → Distinct (current m key now)
unfolding current sweep
current-Distinct m key now d = elim (Option-cases (get key m)) [
  | inl e ↦ elim (Bool-cases (leb sweep_at (length m))) [
    | inl full ↦ rw (e, current, full) (put-Distinct key _ _ (keep-Distinct _ m d))
    | inr room ↦ rw (e, current, room) (put-Distinct key _ m d)
  ]
  | inr (x, e) ↦ elim (Bool-cases (window_over x now)) [
    | inl over ↦ rw (e, current, over) (put-Distinct key _ m d)
    | inr within ↦ rw (e, current, within) d
  ]
]

abbrev pub one_if : Bool → ℕ
one_if b = if b then 1 else 0

current-flying :
    (m : Map GuardEntry) (key now j : ℕ)
    → Distinct m
    → (flying (get j (current m key now)) ≡ flying (get j m))
      × (failed (get j (current m key now)) ≤ failed (get j m))
current-flying m key now j d = elim (Bool-cases (key == j)) [
  | inl same ↦ elim (Option-cases (get j m)) [
    | inl e ↦ ground (arith, get-current_key m key now)
    | inr (x, e) ↦ ground (arith, get-current_key m key now)
  ]
  | inr other ↦ ground (arith, get-current_other m key now j d)
]

pub reserve-flying :
    (m : Map GuardEntry) (key now j : ℕ)
    → Distinct m
    → (flying (get j (reserve m key now)) ≡ flying (get j m) + one_if (key == j))
      × (failed (get j (reserve m key now)) ≤ failed (get j m))
unfolding reserve
reserve-flying m key now j d = ground (
  arith,
  get-change (current m key now) key take_off j,
  current-flying m key now j d,
  get-current_key m key now,
)

pub end_attempt-flying :
    (m : Map GuardEntry) (key now j : ℕ)
    → (flying (get j (end_attempt m key now)) ≡ flying (get j m) - one_if (key == j))
      × (failed (get j (end_attempt m key now)) ≤ failed (get j m))
unfolding end_attempt
end_attempt-flying m key now j = elim (Option-cases (get key m)) [
  | inl e ↦ rw (e, end_attempt) (ground (arith, e))
  | inr (x, e) ↦
      rw (e, end_attempt) (ground (arith, e, get-put key j (land x) m, get-remove key j m))
]

pub count_on-flying :
    (m : Map GuardEntry) (key now j : ℕ)
    → Distinct m
    → (flying (get j (count_on m key now)) ≡ flying (get j m))
      × (failed (get j (count_on m key now)) ≤ failed (get j m) + one_if (key == j))
unfolding count_on
count_on-flying m key now j d =
    ground
      (arith, get-change (current m key now) key (count_one now) j, current-flying m key now j d)

pub reserve-Distinct :
    (m : Map GuardEntry) (key now : ℕ) → Distinct m → Distinct (reserve m key now)
unfolding reserve
reserve-Distinct m key now d =
    change-Distinct (current m key now) key take_off (current-Distinct m key now d)

pub count_on-Distinct :
    (m : Map GuardEntry) (key now : ℕ) → Distinct m → Distinct (count_on m key now)
unfolding count_on
count_on-Distinct m key now d =
    change-Distinct (current m key now) key (count_one now) (current-Distinct m key now d)

pub end_attempt-Distinct :
    (m : Map GuardEntry) (key now : ℕ) → Distinct m → Distinct (end_attempt m key now)
unfolding end_attempt
end_attempt-Distinct m key now d = elim (Option-cases (get key m)) [
  | inl e ↦ rw (e, end_attempt) d
  | inr (x, e) ↦
      rw (e, end_attempt) (ground (arith, put-Distinct key (land x) m d, remove-Distinct key m d))
]

-- A key that is not blocked has room for one attempt more.
pub reserve-room :
    (m : Map GuardEntry) (key now : ℕ)
    → is_blocked m key now ≡ false
    → failed (get key (reserve m key now)) + flying (get key (reserve m key now)) ≤ max_failures
unfolding reserve is_blocked
reserve-room m key now free = elim (Option-cases (get key m)) [
  | inl e ↦
      ground (arith, get-change (current m key now) key take_off key, get-current_key m key now)
  | inr (x, e) ↦
      let open_entry : is_blocked_entry (some x) now ≡ false = rw e at free in
      ground (
        arith,
        get-change (current m key now) key take_off key,
        get-current_key m key now,
        open_entry,
      )
]

-- Reserving one key does not block another.
pub reserve-free :
    (m : Map GuardEntry) (key now j : ℕ)
    → Distinct m
    → key ≢ j
    → is_blocked m j now ≡ false
    → is_blocked (reserve m key now) j now ≡ false
unfolding reserve is_blocked
reserve-free m key now j d ne free =
    ground
      (arith, get-change (current m key now) key take_off j, get-current_other m key now j d ne)
