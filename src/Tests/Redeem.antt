-- ===== src/Tests/Redeem.antt =====
-- The theorems on the redeem guard at three attempts from two addresses.
use teacher_assistant.Base.{
  ℕ, suc, ◌+◌, ◌≤◌, ◌≡◌, refl, true, false, List, [], ◌∷◌, arith, ltb, length,
}
use teacher_assistant.Base.Map.{get, put, remove}
use teacher_assistant.Redeem.{
  max_failures, burn_after_failures, RedeemGuard, is_blocked, current, change, reserve, end_attempt,
  count_on, begin, release, fail, succeed, recent,
}
use teacher_assistant.Redeem.Flights.{flying, failed}
use teacher_assistant.Redeem.Attempts.{Redeems-room}
use teacher_assistant.Redeem.Desk.{Desk, fresh_guard, Redeems, start, begun, failed_at}
use teacher_assistant.Redeem.Burn.{
  GuardCall, begin_call, fail_call, guard_step, guard_run, fail_times, fail-burn,
}

redeem : Unit {0}
unfolding get put remove is_blocked current change reserve end_attempt count_on begin release fail
    succeed recent guard_step guard_run
redeem = tt

abbrev opened : RedeemGuard
opened = (begin (begin (begin fresh_guard 100 1).0 110 1).0 120 2).0

abbrev desk : Desk
desk = record { guard = (fail opened 130 1).0; open_ips = 2 ∷ 1 ∷ [] }

desk-Redeems : Redeems (record { guard = fresh_guard; open_ips = [] }) desk
unfolding redeem
desk-Redeems = failed_at (begun (begun (begun start 100 1) 110 1) 120 2) 130 1 refl

abbrev hammered : List GuardCall
hammered =
    begin_call 1 7
    ∷ fail_call 1 7
    ∷ begin_call 2 7
    ∷ fail_call 2 7
    ∷ begin_call 3 7
    ∷ fail_call 3 7
    ∷ begin_call 4 7
    ∷ fail_call 4 7
    ∷ begin_call 5 7
    ∷ fail_call 5 7
    ∷ []

redeem_tests :
    (flying (get 0 desk.guard.entries) ≡ 2)
    × (failed (get 2 desk.guard.entries) ≡ 1)
    × ((begin (guard_run fresh_guard hammered) 6 7).1 ≡ false)
    × ((begin (guard_run fresh_guard hammered) 6 8).1 ≡ false)
    × ((begin (guard_run fresh_guard hammered) 900_005 8).1 ≡ true)
unfolding redeem
redeem_tests = (refl, refl, refl, refl, refl)

Redeems-room_example :
    (length desk.open_ips ≤ max_failures)
    × ((key : ℕ)
        → failed (get key desk.guard.entries) + flying (get key desk.guard.entries) ≤ max_failures)
Redeems-room_example = Redeems-room desk-Redeems

fail-burn_example :
    (fail (guard_run fresh_guard hammered) 9 7).1
    ≡ ltb burn_after_failures (suc (length (recent (fail_times hammered) 9)))
fail-burn_example =
    fail-burn fresh_guard hammered 9 7 refl
      (omega arith, (omega arith, (omega arith, (omega arith, (omega arith, tt)))))
