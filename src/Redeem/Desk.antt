-- ===== src/Redeem/Desk.antt =====
-- The guard with the attempts that are open, and how an attempt ends (services/sync-relay/src/redeem-guard.ts).
use teacher_assistant.Base.{
  ℕ, ◌+◌, ◌-◌, ◌≤◌, ◌≡◌, inl, inr, true, List, [], ◌∷◌, some, arith, ◌==◌, if◌then◌else◌, contains,
  Bool-cases, Option-cases,
}
use teacher_assistant.Base.Map.{
  Map, get, Distinct, get-put, get-remove, put-Distinct, remove-Distinct,
}
use teacher_assistant.Redeem.{
  max_failures, GuardEntry, RedeemGuard, global_key, ip_key, end_attempt, count_on, begin, release,
  fail, succeed, forgive, burned,
}
use teacher_assistant.Redeem.Flights.{
  flying, failed, one_if, end_attempt-flying, count_on-flying, count_on-Distinct,
  end_attempt-Distinct,
}

abbrev pub fresh_guard : RedeemGuard
fresh_guard = record { entries = []; burn_failures = [] }

-- The guard, and the address of each attempt that is open.
pub record Desk : Type 0 where
  pub guard : RedeemGuard
  pub open_ips : List ℕ

abbrev pub drop_one : ℕ → List ℕ → List ℕ
drop_one a [] = []
drop_one a (x ∷ xs) = if x == a then xs else x ∷ drop_one a xs

-- Attempts are begun and end by a failure, a success or neither, in any order and at any times.
pub data Redeems (from : Desk) : Desk → Type 0 where
  start : Redeems from from
  begun :
      {d : Desk}
      → Redeems from d
      → (now ip : ℕ)
      → Redeems from (record {
        guard = (begin d.guard now ip).0;
        open_ips = if (begin d.guard now ip).1 then ip ∷ d.open_ips else d.open_ips;
      })
  failed_at :
      {d : Desk}
      → Redeems from d
      → (now ip : ℕ) → contains ip d.open_ips ≡ true
      → Redeems from (record { guard = (fail d.guard now ip).0; open_ips = drop_one ip d.open_ips })
  succeeded :
      {d : Desk}
      → Redeems from d
      → (now ip : ℕ) → contains ip d.open_ips ≡ true
      → Redeems from (record { guard = succeed d.guard now ip; open_ips = drop_one ip d.open_ips })
  released :
      {d : Desk}
      → Redeems from d
      → (now ip : ℕ) → contains ip d.open_ips ≡ true
      → Redeems from (record { guard = release d.guard now ip; open_ips = drop_one ip d.open_ips })
  burnt :
      {d : Desk}
      → Redeems from d
      → Redeems from (record { guard = burned d.guard; open_ips = d.open_ips })

-- Whether an attempt from this address holds a place on the key.
abbrev pub holds_place : ℕ → ℕ → ℕ
holds_place ip key = one_if (global_key == key) + one_if (ip_key ip == key)

abbrev pub aboard : List ℕ → ℕ → ℕ
aboard [] key = 0
aboard (ip ∷ ips) key = holds_place ip key + aboard ips key

pub aboard-drop_one :
    (ip : ℕ) (ips : List ℕ) (key : ℕ)
    → contains ip ips ≡ true
    → aboard ips key ≡ holds_place ip key + aboard (drop_one ip ips) key
aboard-drop_one ip [] key h = cc
aboard-drop_one ip (x ∷ xs) key h = elim (Bool-cases (x == ip)) [
  | inl same ↦ ground (arith, same)
  | inr other ↦ ground (arith, aboard-drop_one ip xs key (ground arith))
]

-- A key's in-flight count is the number of open attempts that hold a place on it, and with its
-- failures it is at most five.
pub record IsTracked (d : Desk) : Type 0 where
  pub distinct : Distinct d.guard.entries
  pub flights : (key : ℕ) → flying (get key d.guard.entries) ≡ aboard d.open_ips key
  pub room :
      (key : ℕ) → failed (get key d.guard.entries) + flying (get key d.guard.entries) ≤ max_failures

pub released-flying :
    (g : RedeemGuard) (now ip j : ℕ)
    → (flying (get j (release g now ip).entries) ≡ flying (get j g.entries) - holds_place ip j)
      × (failed (get j (release g now ip).entries) ≤ failed (get j g.entries))
unfolding release
released-flying g now ip j = ground (
  arith,
  end_attempt-flying g.entries global_key now j,
  end_attempt-flying (end_attempt g.entries global_key now) (ip_key ip) now j,
)

released-Distinct :
    (g : RedeemGuard) (now ip : ℕ) → Distinct g.entries → Distinct (release g now ip).entries
unfolding release
released-Distinct g now ip d =
    end_attempt-Distinct _ (ip_key ip) now (end_attempt-Distinct g.entries global_key now d)

pub release-IsTracked :
    (d : Desk) (now ip : ℕ)
    → contains ip d.open_ips ≡ true
    → IsTracked d
    → IsTracked (record { guard = release d.guard now ip; open_ips = drop_one ip d.open_ips })
release-IsTracked d now ip h v = record {
  distinct = released-Distinct d.guard now ip v.distinct;
  flights = λ key. omega (
    arith,
    released-flying d.guard now ip key,
    v.flights key,
    aboard-drop_one ip d.open_ips key h,
  );
  room = λ key. omega (arith, released-flying d.guard now ip key, v.room key);
}

pub fail-IsTracked :
    (d : Desk) (now ip : ℕ)
    → contains ip d.open_ips ≡ true
    → IsTracked d
    → IsTracked (record { guard = (fail d.guard now ip).0; open_ips = drop_one ip d.open_ips })
unfolding fail
fail-IsTracked d now ip h v =
    let m = (release d.guard now ip).entries in
    let distinct_m = released-Distinct d.guard now ip v.distinct in
    let distinct_n = count_on-Distinct m global_key now distinct_m in
    record {
      distinct = count_on-Distinct _ (ip_key ip) now distinct_n;
      flights = λ key. omega (
        arith,
        count_on-flying m global_key now key distinct_m,
        count_on-flying (count_on m global_key now) (ip_key ip) now key distinct_n,
        released-flying d.guard now ip key,
        v.flights key,
        aboard-drop_one ip d.open_ips key h,
      );
      room = λ key. omega (
        arith,
        count_on-flying m global_key now key distinct_m,
        count_on-flying (count_on m global_key now) (ip_key ip) now key distinct_n,
        released-flying d.guard now ip key,
        v.flights key,
        v.room key,
        aboard-drop_one ip d.open_ips key h,
      );
    }

forgive-flying :
    (m : Map GuardEntry) (key : ℕ) (e : GuardEntry) (j : ℕ)
    → get key m ≡ some e
    → (flying (get j (forgive m key e)) ≡ flying (get j m))
      × (failed (get j (forgive m key e)) ≤ failed (get j m))
forgive-flying m key e j found =
    ground (arith, get-put key j (record e { failures = 0 }) m, get-remove key j m, found)

forgive-IsTracked :
    (g : RedeemGuard) (ips : List ℕ) (key : ℕ) (e : GuardEntry)
    → get key g.entries ≡ some e
    → IsTracked (record { guard = g; open_ips = ips })
    → IsTracked (record { guard = record g { entries = forgive g.entries key e }; open_ips = ips })
forgive-IsTracked g ips key e found v = record {
  distinct = ground (
    arith,
    put-Distinct key (record e { failures = 0 }) g.entries v.distinct,
    remove-Distinct key g.entries v.distinct,
  );
  flights = λ j. omega (arith, forgive-flying g.entries key e j found, v.flights j);
  room = λ j. omega (arith, forgive-flying g.entries key e j found, v.room j);
}

pub succeed-IsTracked :
    (d : Desk) (now ip : ℕ)
    → contains ip d.open_ips ≡ true
    → IsTracked d
    → IsTracked (record { guard = succeed d.guard now ip; open_ips = drop_one ip d.open_ips })
unfolding succeed release
succeed-IsTracked d now ip h v =
    let w = release-IsTracked d now ip h v in
    let m = (release d.guard now ip).entries in
    elim (Option-cases (get (ip_key ip) m)) [
      | inl e ↦ rw (e, succeed) w
      | inr (x, e) ↦
          rw (e, succeed)
            (forgive-IsTracked (release d.guard now ip) (drop_one ip d.open_ips) (ip_key ip) x e w)
    ]
