-- ===== src/Redeem/Attempts.antt =====
-- How many attempts can be open at once (services/sync-relay/src/redeem-guard.ts).
use teacher_assistant.Base.{
  ℕ, ◌+◌, ◌≤◌, ◌≡◌, refl, inl, inr, false, List, [], ◌∷◌, arith, ◌==◌, if◌then◌else◌, length,
  Bool-cases,
}
use teacher_assistant.Base.Map.{Map, get, Distinct}
use teacher_assistant.Redeem.{
  max_failures, GuardEntry, global_key, ip_key, is_blocked, reserve, begin, burned,
}
use teacher_assistant.Redeem.Flights.{
  flying, failed, reserve-flying, reserve-Distinct, reserve-room, reserve-free,
}
use teacher_assistant.Redeem.Desk.{
  Desk, fresh_guard, Redeems, start, begun, failed_at, succeeded, released, burnt, aboard,
  IsTracked, release-IsTracked, fail-IsTracked, succeed-IsTracked,
}

reserved-room :
    (m : Map GuardEntry) (now ip key : ℕ)
    → Distinct m
    → is_blocked m global_key now ≡ false
    → is_blocked m (ip_key ip) now ≡ false
    → failed (get key m) + flying (get key m) ≤ max_failures
    → failed (get key (reserve (reserve m global_key now) (ip_key ip) now))
        + flying (get key (reserve (reserve m global_key now) (ip_key ip) now))
      ≤ max_failures
reserved-room m now ip key d free_global free_ip room =
    let n = reserve m global_key now in
    let d' = reserve-Distinct m global_key now d in
    let outer = reserve-flying n (ip_key ip) now key d' in
    let inner = reserve-flying m global_key now key d in
    elim (Bool-cases (global_key == key)) [
      | inl same ↦ ground (arith, same, outer, reserve-room m global_key now free_global)
      | inr not_global ↦ elim (Bool-cases (ip_key ip == key)) [
        | inl same ↦
            let free' =
              reserve-free m global_key now (ip_key ip) d (λ e. absurd (omega (arith, e)))
                free_ip in
            ground (arith, same, reserve-room n (ip_key ip) now free')
        | inr not_ip ↦ ground (arith, not_global, not_ip, outer, inner, room)
      ]
    ]

burned-IsTracked :
    (d : Desk) → IsTracked d → IsTracked (record { guard = burned d.guard; open_ips = d.open_ips })
unfolding burned
burned-IsTracked d v = record { distinct = v.distinct; flights = v.flights; room = v.room }

reserved-IsTracked :
    (d : Desk) (now ip : ℕ)
    → is_blocked d.guard.entries global_key now ≡ false
    → is_blocked d.guard.entries (ip_key ip) now ≡ false
    → IsTracked d
    → IsTracked (record {
      guard = record d.guard {
        entries = reserve (reserve d.guard.entries global_key now) (ip_key ip) now;
      };
      open_ips = ip ∷ d.open_ips;
    })
reserved-IsTracked d now ip free_global free_ip v =
    let m = d.guard.entries in
    let n = reserve m global_key now in
    let distinct_n = reserve-Distinct m global_key now v.distinct in
    record {
      distinct = reserve-Distinct n (ip_key ip) now distinct_n;
      flights = λ key. omega (
        arith,
        reserve-flying m global_key now key v.distinct,
        reserve-flying n (ip_key ip) now key distinct_n,
        v.flights key,
      );
      room = λ key. reserved-room m now ip key v.distinct free_global free_ip (v.room key);
    }

begin-IsTracked :
    (d : Desk) (now ip : ℕ)
    → IsTracked d
    → IsTracked (record {
      guard = (begin d.guard now ip).0;
      open_ips = if (begin d.guard now ip).1 then ip ∷ d.open_ips else d.open_ips;
    })
unfolding begin
begin-IsTracked d now ip v = elim (Bool-cases (is_blocked d.guard.entries global_key now)) [
  | inl shut ↦ rw shut v
  | inr free ↦ elim (Bool-cases (is_blocked d.guard.entries (ip_key ip) now)) [
    | inl shut ↦ rw (free, shut) v
    | inr free_ip ↦ rw (free, free_ip) (reserved-IsTracked d now ip free free_ip v)
  ]
]

Redeems-IsTracked : {c d : Desk} → Redeems c d → IsTracked c → IsTracked d
Redeems-IsTracked start v = v
Redeems-IsTracked (begun r now ip) v = begin-IsTracked _ now ip (Redeems-IsTracked r v)
Redeems-IsTracked (failed_at r now ip h) v = fail-IsTracked _ now ip h (Redeems-IsTracked r v)
Redeems-IsTracked (succeeded r now ip h) v = succeed-IsTracked _ now ip h (Redeems-IsTracked r v)
Redeems-IsTracked (released r now ip h) v = release-IsTracked _ now ip h (Redeems-IsTracked r v)
Redeems-IsTracked (burnt r) v = burned-IsTracked _ (Redeems-IsTracked r v)

fresh-IsTracked : IsTracked (record { guard = fresh_guard; open_ips = [] })
unfolding get
fresh-IsTracked = record { distinct = tt; flights = λ key. refl; room = λ key. omega arith }

aboard-global : (ips : List ℕ) → aboard ips global_key ≡ length ips
aboard-global [] = refl
aboard-global (ip ∷ ips) = ground (arith, aboard-global ips)

-- Whatever attempts are begun and ended, in any order and at any times, at most five are open at once
-- over all addresses, and on each key the failures counted and the attempts in flight are together at
-- most five.
pub Redeems-room :
    {d : Desk}
    → Redeems (record { guard = fresh_guard; open_ips = [] }) d
    → (length d.open_ips ≤ max_failures)
      × ((key : ℕ)
          → failed (get key d.guard.entries) + flying (get key d.guard.entries) ≤ max_failures)
Redeems-room {d} r =
    let v = Redeems-IsTracked r fresh-IsTracked in
    (omega (arith, v.room global_key, v.flights global_key, aboard-global d.open_ips), v.room)
