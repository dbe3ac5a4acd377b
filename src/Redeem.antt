-- ===== src/Redeem.antt =====
-- RedeemGuard of services/sync-relay/src/redeem-guard.ts. The guard's global key is 0, and an
-- address's key is one more than its number, so that the two differ. The clock's reading is an
-- argument of each call.
pub mod Flights
pub mod Desk
pub mod Attempts
pub mod Burn
use teacher_assistant.Base.{
  ℕ, suc, ◌+◌, ◌-◌, ◌*◌, Bool, true, false, ◌&&◌, ◌||◌, not, List, [], ◌∷◌, ◌++◌, Option, none,
  some, leb, ltb, ◌==◌, if◌then◌else◌, length, filter,
}
use teacher_assistant.Base.Map.{Map, get, put, remove, keep}

-- REDEEM_LOCKOUT and the other constants, in milliseconds.
abbrev pub max_failures : ℕ
max_failures = 5

abbrev pub window_ms : ℕ
window_ms = 900_000

abbrev pub lockout_ms : ℕ
lockout_ms = 900_000

abbrev pub burn_after_failures : ℕ
burn_after_failures = 20

abbrev pub burn_window_ms : ℕ
burn_window_ms = 86_400_000

abbrev pub sweep_at : ℕ
sweep_at = 10_000

pub record GuardEntry : Type 0 where
  pub failures : ℕ
  pub window_start : ℕ
  pub locked_until : ℕ
  pub in_flight : ℕ

pub record RedeemGuard : Type 0 where
  pub entries : Map GuardEntry
  pub burn_failures : List ℕ

abbrev pub global_key : ℕ
global_key = 0

abbrev pub ip_key : ℕ → ℕ
ip_key ip = suc ip

abbrev pub window_over : GuardEntry → ℕ → Bool
window_over e now =
    if e.locked_until == 0 then ltb window_ms (now - e.window_start) else leb e.locked_until now

abbrev pub is_blocked_entry : Option GuardEntry → ℕ → Bool
is_blocked_entry none now = false
is_blocked_entry (some e) now =
    ltb now e.locked_until
    || leb max_failures ((if window_over e now then 0 else e.failures) + e.in_flight)

unfoldable pub is_blocked : Map GuardEntry → ℕ → ℕ → Bool
is_blocked m key now = is_blocked_entry (get key m) now

unfoldable pub sweep : Map GuardEntry → ℕ → Map GuardEntry
sweep m now =
    keep
      (λ k e.
        not (e.in_flight == 0 && leb e.locked_until now && ltb window_ms (now - e.window_start)))
      m

abbrev pub fresh_entry : ℕ → GuardEntry
fresh_entry now = record { failures = 0; window_start = now; locked_until = 0; in_flight = 0 }

abbrev pub restart : GuardEntry → ℕ → GuardEntry
restart e now = record e { failures = 0; window_start = now; locked_until = 0 }

-- The map once it holds the key's entry, its window restarted if it has elapsed.
unfoldable pub current : Map GuardEntry → ℕ → ℕ → Map GuardEntry
current m key now = elim (get key m) [
  | none ↦ put key (fresh_entry now) (if leb sweep_at (length m) then sweep m now else m)
  | some e ↦ if window_over e now then put key (restart e now) m else m
]

-- A change of the key's entry, where it has one.
unfoldable pub change : Map GuardEntry → ℕ → (GuardEntry → GuardEntry) → Map GuardEntry
change m key f = elim (get key m) [ none ↦ m | some e ↦ put key (f e) m ]

abbrev pub take_off : GuardEntry → GuardEntry
take_off e = record e { in_flight = e.in_flight + 1 }

abbrev pub land : GuardEntry → GuardEntry
land e = record e { in_flight = e.in_flight - 1 }

unfoldable pub reserve : Map GuardEntry → ℕ → ℕ → Map GuardEntry
reserve m key now = change (current m key now) key take_off

unfoldable pub end_attempt : Map GuardEntry → ℕ → ℕ → Map GuardEntry
end_attempt m key now = elim (get key m) [
  | none ↦ m
  | some e ↦
      if (land e).in_flight == 0 && (e.failures == 0 || window_over (land e) now)
      then remove key m
      else put key (land e) m
]

abbrev pub count_one : ℕ → GuardEntry → GuardEntry
count_one now e = record e {
  window_start = if e.failures == 0 then now else e.window_start;
  failures = e.failures + 1;
  locked_until = if leb max_failures (e.failures + 1) then now + lockout_ms else e.locked_until;
}

unfoldable pub count_on : Map GuardEntry → ℕ → ℕ → Map GuardEntry
count_on m key now = change (current m key now) key (count_one now)

-- A reserved attempt of this address is returned where the Boolean is true.
unfoldable pub begin : RedeemGuard → ℕ → ℕ → RedeemGuard × Bool
begin g now ip =
    if is_blocked g.entries global_key now || is_blocked g.entries (ip_key ip) now
    then (g, false)
    else (record g { entries = reserve (reserve g.entries global_key now) (ip_key ip) now }, true)

-- `release` while the attempt is open; later calls of it do nothing.
unfoldable pub release : RedeemGuard → ℕ → ℕ → RedeemGuard
release g now ip = record g {
  entries = end_attempt (end_attempt g.entries global_key now) (ip_key ip) now;
}

unfoldable pub recent : List ℕ → ℕ → List ℕ
recent times at = filter (λ t. ltb (at - t) burn_window_ms) times

-- `fail` of an open attempt. The Boolean asks for the invalidation of unused codes.
unfoldable pub fail : RedeemGuard → ℕ → ℕ → RedeemGuard × Bool
fail g at ip =
    let m = (release g at ip).entries in
    let times = recent g.burn_failures at ++ at ∷ [] in
    (
      record {
        entries = count_on (count_on m global_key at) (ip_key ip) at;
        burn_failures = times;
      },
      ltb burn_after_failures (length times),
    )

abbrev pub forgive : Map GuardEntry → ℕ → GuardEntry → Map GuardEntry
forgive m key e = if e.in_flight == 0 then remove key m else put key (record e { failures = 0 }) m

-- `succeed` of an open attempt.
unfoldable pub succeed : RedeemGuard → ℕ → ℕ → RedeemGuard
succeed g at ip =
    let m = (release g at ip).entries in
    elim (get (ip_key ip) m) [
      | none ↦ record g { entries = m }
      | some e ↦ record g { entries = forgive m (ip_key ip) e }
    ]

unfoldable pub burned : RedeemGuard → RedeemGuard
burned g = record g { burn_failures = [] }
