-- ===== src/Throttle/Lockout.antt =====
-- When a key is locked out (packages/auth/src/throttle.ts).
use teacher_assistant.Base.{
  ℕ, suc, ◌+◌, ◌-◌, ◌≤◌, ◌<◌, ◌≡◌, refl, ◌∙◌, inl, inr, subst, ◌≢◌, ◌↔◌, true, false, List, [], ◌∷◌,
  Option, none, some, arith, length, All, Bool-cases, Option-cases,
}
use native.Mathlib.Nat.{le_trans}
use teacher_assistant.Base.Map.{get, get-put, get-remove}
use teacher_assistant.Throttle.{
  ThrottlePolicy, ThrottleDecision, Entry, Entries, allow, check, worse, guard_from, guard_all,
  record_failure, record_success, count_failure, window_entry,
}

guard_from-blocked :
    (entries : Entries) (now : ℕ) (worst : ThrottleDecision) (keys : List ℕ)
    → worst.allowed ≡ false
    → (guard_from entries now worst keys).allowed ≡ false
unfolding guard_from check
guard_from-blocked entries now worst [] h = h
guard_from-blocked entries now worst (k ∷ ks) h =
    guard_from-blocked entries now (worse worst (check entries now k)) ks (ground arith)

guard_from-max :
    (entries : Entries) (now : ℕ) (worst : ThrottleDecision) (keys : List ℕ)
    → worst.retry_after_ms ≤ (guard_from entries now worst keys).retry_after_ms
unfolding guard_from check
guard_from-max entries now worst [] = omega arith
guard_from-max entries now worst (k ∷ ks) =
    ground (arith, guard_from-max entries now (worse worst (check entries now k)) ks)

worse-bound :
    (entries : Entries) (now : ℕ) (worst : ThrottleDecision) (k : ℕ)
    → (check entries now k).retry_after_ms ≤ (worse worst (check entries now k)).retry_after_ms
unfolding check
worse-bound entries now worst k = ground arith

guard_from-bounds :
    (entries : Entries) (now : ℕ) (worst : ThrottleDecision) (keys : List ℕ)
    → All
        (λ k.
          (check entries now k).retry_after_ms ≤ (guard_from entries now worst keys).retry_after_ms)
        keys
unfolding guard_from
guard_from-bounds entries now worst [] = tt
guard_from-bounds entries now worst (k ∷ ks) = (
  le_trans (worse-bound entries now worst k)
      (guard_from-max entries now (worse worst (check entries now k)) ks),
  guard_from-bounds entries now (worse worst (check entries now k)) ks,
)

guard_from-open :
    (entries : Entries) (now : ℕ) (keys : List ℕ)
    → All (λ k. (check entries now k).allowed ≡ true) keys
    → guard_from entries now allow keys ≡ allow
unfolding guard_from
guard_from-open entries now [] h = refl
guard_from-open entries now (k ∷ ks) (h, hs) = ground (arith, guard_from-open entries now ks hs)

worse-blocked :
    (entries : Entries) (now k : ℕ)
    → (check entries now k).allowed ≡ false
    → (worse allow (check entries now k)).allowed ≡ false
unfolding check
worse-blocked entries now k h = ground arith

guard_from-shut :
    (entries : Entries) (now : ℕ) (keys : List ℕ)
    → (guard_from entries now allow keys).allowed ≡ true
    → All (λ k. (check entries now k).allowed ≡ true) keys
unfolding guard_from
guard_from-shut entries now [] h = tt
guard_from-shut entries now (k ∷ ks) h = elim (Bool-cases (check entries now k).allowed) [
  | inl open_key ↦
      let same : worse allow (check entries now k) ≡ allow = ground arith in
      (
        open_key,
        guard_from-shut entries now ks
            (subst (λ w. (guard_from entries now w ks).allowed ≡ true) same h),
      )
  | inr shut ↦
      let blocked =
        guard_from-blocked entries now (worse allow (check entries now k)) ks
          (worse-blocked entries now k shut) in
      absurd (ground arith)
]

-- Several keys are checked together: the attempt is allowed exactly if every key allows it, and the
-- time to wait is no less than any key's.
guard_all-allowed :
    (entries : Entries) (now : ℕ) (keys : List ℕ)
    → (((guard_all entries now keys).allowed ≡ true)
        ↔ All (λ k. (check entries now k).allowed ≡ true) keys)
      × All
          (λ k. (check entries now k).retry_after_ms ≤ (guard_all entries now keys).retry_after_ms)
          keys
unfolding guard_all
guard_all-allowed entries now keys = (
  (guard_from-shut entries now keys, λ h. rw (guard_from-open entries now keys h)),
  guard_from-bounds entries now allow keys,
)

-- A failure or a success on one key changes no other key's decision, at any time.
check_other :
    (policy : ThrottlePolicy) (entries : Entries) (now later key other : ℕ)
    → key ≢ other
    → (check (record_failure policy entries now key) later other ≡ check entries later other)
      × (check (record_success entries key) later other ≡ check entries later other)
unfolding check record_failure record_success
check_other policy entries now later key other ne = (
  ground (
    arith,
    get-put key other (count_failure policy now (window_entry policy now (get key entries)))
        entries,
  ),
  ground (arith, get-remove key other entries),
)

-- Failures on a key, at these times in turn.
unfoldable pub fail_at : ThrottlePolicy → Entries → ℕ → List ℕ → Entries
fail_at policy entries key [] = entries
fail_at policy entries key (t ∷ ts) = fail_at policy (record_failure policy entries t key) key ts

abbrev pub last_of : ℕ → List ℕ → ℕ
last_of t [] = t
last_of t (u ∷ us) = last_of u us

abbrev open_entry : ℕ → ℕ → Entry
open_entry failures start = record { failures = failures; window_start = start; locked_until = 0 }

record_failure-counts :
    (policy : ThrottlePolicy) (entries : Entries) (key start k t : ℕ)
    → get key entries ≡ some (open_entry k start)
    → t ≤ start + policy.window_ms
    → get key (record_failure policy entries t key)
      ≡ some (count_failure policy t (open_entry k start))
unfolding record_failure
record_failure-counts policy entries key start k t e within =
    ground (arith, get-put key key (count_failure policy t (open_entry k start)) entries)

locks :
    (policy : ThrottlePolicy) (entries : Entries) (key start k t : ℕ) (ts : List ℕ)
    → get key entries ≡ some (open_entry k start)
    → k + length (t ∷ ts) ≡ policy.max_failures
    → All (λ u. u ≤ start + policy.window_ms) (t ∷ ts)
    → (e : Entry) × (get key (fail_at policy entries key (t ∷ ts)) ≡ some e)
      × (e.locked_until ≡ last_of t ts + policy.lockout_ms)
unfolding fail_at
locks policy entries key start k t [] e n (within, rest) = (
  count_failure policy t (open_entry k start),
  record_failure-counts policy entries key start k t e within,
  ground arith,
)
locks policy entries key start k t (u ∷ us) e n (within, rest) =
    locks policy (record_failure policy entries t key) key start (k + 1) u us
      (record_failure-counts policy entries key start k t e within ∙ ground arith) (omega arith)
      rest

first_failure :
    (policy : ThrottlePolicy) (entries : Entries) (key t : ℕ)
    → get key entries ≡ none
    → get key (record_failure policy entries t key) ≡ some (count_failure policy t (open_entry 0 t))
unfolding record_failure
first_failure policy entries key t e =
    ground (arith, get-put key key (count_failure policy t (open_entry 0 t)) entries)

-- On a key with no record, as many failures as the policy allows, all within the window that the first
-- one opens, lock the key until the lockout has passed since the last of them.
pub lockout_after_max :
    (policy : ThrottlePolicy) (entries : Entries) (key t : ℕ) (ts : List ℕ) (now : ℕ)
    → get key entries ≡ none
    → length (t ∷ ts) ≡ policy.max_failures
    → All (λ u. u ≤ t + policy.window_ms) ts
    → now < last_of t ts + policy.lockout_ms
    → check (fail_at policy entries key (t ∷ ts)) now key
      ≡ record { allowed = false; retry_after_ms = last_of t ts + policy.lockout_ms - now }
unfolding fail_at check
lockout_after_max policy entries key t [] now e n within soon =
    rw (first_failure policy entries key t e) (ground arith)
lockout_after_max policy entries key t (u ∷ us) now e n within soon =
    let one : get key (record_failure policy entries t key) ≡ some (open_entry 1 t) =
      first_failure policy entries key t e ∙ ground arith in
    let (x, found, until) =
      locks policy (record_failure policy entries t key) key t 1 u us one (omega arith) within in
    rw found (ground arith)

-- The key's record is open, with at most this many failures.
abbrev AtMost : ℕ → Option Entry → Type 0
AtMost k none = Unit {0}
AtMost k (some e) = (e.failures ≤ k) × (e.locked_until ≡ 0)

AtMost-next :
    (policy : ThrottlePolicy) (entries : Entries) (key k t : ℕ)
    → AtMost k (get key entries)
    → suc k < policy.max_failures
    → AtMost (suc k) (get key (record_failure policy entries t key))
unfolding record_failure
AtMost-next policy entries key k t h lt = elim (Option-cases (get key entries)) [
  | inl e ↦ rw (e, get-put key key (count_failure policy t (open_entry 0 t)) entries) (ground arith)
  | inr (x, e) ↦
      let h' : AtMost k (some x) = rw e at h in
      rw (e) (
        ground (
          arith,
          get-put key key (count_failure policy t (window_entry policy t (some x))) entries,
          h',
        ))
]

under_limit :
    (policy : ThrottlePolicy) (entries : Entries) (key k : ℕ) (ts : List ℕ)
    → AtMost k (get key entries)
    → k + length ts < policy.max_failures
    → AtMost (k + length ts) (get key (fail_at policy entries key ts))
unfolding fail_at
under_limit policy entries key k [] h lt = let same : k + 0 ≡ k = omega arith in rw same h
under_limit policy entries key k (t ∷ ts) h lt =
    let same : suc k + length ts ≡ k + suc (length ts) = omega arith in
    let next = AtMost-next policy entries key k t h (omega arith) in
    subst (λ n. AtMost n (get key (fail_at policy (record_failure policy entries t key) key ts)))
      same
      (under_limit policy (record_failure policy entries t key) key (suc k) ts next (omega arith))

-- Fewer failures than the policy allows never lock a key that had no record, whenever they come.
pub no_lockout_below_max :
    (policy : ThrottlePolicy) (entries : Entries) (key : ℕ) (ts : List ℕ) (now : ℕ)
    → get key entries ≡ none
    → length ts < policy.max_failures
    → check (fail_at policy entries key ts) now key ≡ allow
unfolding check
no_lockout_below_max policy entries key ts now e lt =
    let none_yet : AtMost 0 (get key entries) = rw e tt in
    let open_after = under_limit policy entries key 0 ts none_yet (omega arith) in
    elim (Option-cases (get key (fail_at policy entries key ts))) [
      | inl found ↦ rw found refl
      | inr (x, found) ↦
          let h : AtMost (0 + length ts) (some x) = rw found at open_after in
          rw found (ground (arith, h))
    ]
