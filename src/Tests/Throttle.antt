-- ===== src/Tests/Throttle.antt =====
-- The throttle's theorems at concrete failures.
use teacher_assistant.Base.{◌≡◌, refl, true, false, [], ◌∷◌, arith}
use teacher_assistant.Base.Map.{get, put}
use teacher_assistant.Throttle.{
  allow, Entries, default_throttle, check, guard_all, guard_from, record_failure, record_success,
}
use teacher_assistant.Throttle.Lockout.{fail_at, lockout_after_max, no_lockout_below_max}

-- Key 1 is locked until 900_000, key 2 has one failure.
abbrev entries : Entries
entries =
    (1, record { failures = 5; window_start = 0; locked_until = 900_000 })
    ∷ (2, record { failures = 1; window_start = 100; locked_until = 0 })
    ∷ []

throttle : Unit {0}
unfolding check guard_all guard_from record_failure record_success fail_at get put
throttle = tt

throttle_tests :
    ((guard_all entries 1_000 (2 ∷ 1 ∷ [])).retry_after_ms ≡ 899_000)
    × ((guard_all entries 900_000 (2 ∷ 1 ∷ [])).allowed ≡ true)
    × ((check
          (fail_at default_throttle [] 3 (10 ∷ 20 ∷ 30 ∷ 40 ∷ 50 ∷ []))
          900_049
          3).retry_after_ms
        ≡ 1)
    × ((check (fail_at default_throttle [] 3 (10 ∷ 20 ∷ 30 ∷ 40 ∷ 50 ∷ [])) 900_050 3).allowed
        ≡ true)
    × ((check (fail_at default_throttle [] 3 (10 ∷ 20 ∷ 30 ∷ 40 ∷ 910_000 ∷ [])) 910_001 3).allowed
        ≡ true)
unfolding throttle
throttle_tests = (refl, refl, refl, refl, refl)

lockout_after_max_example :
    check (fail_at default_throttle entries 3 (10 ∷ 20 ∷ 30 ∷ 40 ∷ 50 ∷ [])) 900_049 3
    ≡ record { allowed = false; retry_after_ms = 1 }
unfolding throttle
lockout_after_max_example =
    lockout_after_max default_throttle entries 3 10 (20 ∷ 30 ∷ 40 ∷ 50 ∷ []) 900_049 refl refl
      (omega arith, (omega arith, (omega arith, (omega arith, tt)))) (omega arith)

no_lockout_below_max_example :
    check (fail_at default_throttle entries 3 (10 ∷ 20 ∷ 30 ∷ 40 ∷ [])) 50 3 ≡ allow
unfolding throttle
no_lockout_below_max_example =
    no_lockout_below_max default_throttle entries 3 (10 ∷ 20 ∷ 30 ∷ 40 ∷ []) 50 refl (omega arith)
