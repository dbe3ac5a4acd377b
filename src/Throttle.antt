-- ===== src/Throttle.antt =====
-- AuthThrottle of packages/auth/src/throttle.ts. A key stands for the account or address that it
-- names; the clock's reading is an argument of each call.
pub mod Lockout
use teacher_assistant.Base.{
  ℕ, ◌+◌, ◌-◌, ◌*◌, Bool, true, false, ◌&&◌, not, List, [], ◌∷◌, Option, none, some, leb, ltb,
  if◌then◌else◌,
}
use teacher_assistant.Base.Map.{Map, get, put, remove}

pub record ThrottlePolicy : Type 0 where
  pub max_failures : ℕ
  pub window_ms : ℕ
  pub lockout_ms : ℕ

abbrev pub default_throttle : ThrottlePolicy
default_throttle = record { max_failures = 5; window_ms = 15 * 60_000; lockout_ms = 15 * 60_000 }

pub record ThrottleDecision : Type 0 where
  pub allowed : Bool
  pub retry_after_ms : ℕ

pub record Entry : Type 0 where
  pub failures : ℕ
  pub window_start : ℕ
  pub locked_until : ℕ

abbrev pub Entries : Type 0
Entries = Map Entry

abbrev pub allow : ThrottleDecision
allow = record { allowed = true; retry_after_ms = 0 }

abbrev pub decide : ℕ → Option Entry → ThrottleDecision
decide now none = allow
decide now (some e) =
    if ltb now e.locked_until
    then record { allowed = false; retry_after_ms = e.locked_until - now }
    else allow

unfoldable pub check : Entries → ℕ → ℕ → ThrottleDecision
check entries now key = decide now (get key entries)

abbrev pub worse : ThrottleDecision → ThrottleDecision → ThrottleDecision
worse worst d = if not d.allowed && ltb worst.retry_after_ms d.retry_after_ms then d else worst

unfoldable pub guard_from : Entries → ℕ → ThrottleDecision → List ℕ → ThrottleDecision
guard_from entries now worst [] = worst
guard_from entries now worst (key ∷ keys) =
    guard_from entries now (worse worst (check entries now key)) keys

unfoldable pub guard_all : Entries → ℕ → List ℕ → ThrottleDecision
guard_all entries now keys = guard_from entries now allow keys

abbrev pub is_locked : ℕ → Option Entry → Bool
is_locked now none = false
is_locked now (some e) = ltb now e.locked_until

-- The entry, or a fresh one at the first failure and once the window has elapsed.
abbrev pub window_entry : ThrottlePolicy → ℕ → Option Entry → Entry
window_entry policy now none = record { failures = 0; window_start = now; locked_until = 0 }
window_entry policy now (some e) =
    if ltb policy.window_ms (now - e.window_start)
    then record { failures = 0; window_start = now; locked_until = 0 }
    else e

abbrev pub count_failure : ThrottlePolicy → ℕ → Entry → Entry
count_failure policy now e = record e {
  failures = e.failures + 1;
  locked_until =
      if leb policy.max_failures (e.failures + 1) then now + policy.lockout_ms else e.locked_until;
}

unfoldable pub record_failure : ThrottlePolicy → Entries → ℕ → ℕ → Entries
record_failure policy entries now key =
    if is_locked now (get key entries)
    then entries
    else put key (count_failure policy now (window_entry policy now (get key entries))) entries

unfoldable pub record_success : Entries → ℕ → Entries
record_success entries key = remove key entries
