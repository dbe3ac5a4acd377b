-- ===== src/AutoLock/Idle.antt =====
-- The idle lock of apps/pwa/src/device/auto-lock.ts over any events.
use teacher_assistant.Base.{
  ℕ, ◌+◌, ◌-◌, ◌≤◌, ◌≡◌, refl, Bool, true, false, none, some, is_some, arith, leb, if◌then◌else◌,
}
use teacher_assistant.AutoLock.{
  LockReason, manual, hidden, AutoLock, stop, lock, schedule_idle, on_hidden, start, on_input,
  on_warn_due, on_idle_due, on_visible, on_visibility, LockEvent, starts, stops, inputs, warn_due,
  idle_due, hidden_due, lock_now, visibility, lock_step,
}

-- While it runs it is not locked, and the idle timer is due when the idle time since the last input
-- is over; while it does not run no timer is set.
pub record IsArmed (a : AutoLock) : Type 0 where
  pub unlocked : a.started ≡ true → a.locked ≡ none
  pub due : a.started ≡ true → a.idle_timer ≡ some (a.last_input + a.idle_ms)
  pub off : a.started ≡ false → a.idle_timer ≡ none

schedule_idle-IsArmed :
    (now : ℕ) (a : AutoLock)
    → a.last_input ≤ now
    → leb a.idle_ms (now - a.last_input) ≡ false
    → a.started ≡ true
    → a.locked ≡ none
    → IsArmed (schedule_idle now a)
unfolding schedule_idle
schedule_idle-IsArmed now a h late on free = record {
  unlocked = λ _. free;
  due = λ _. ground arith;
  off = λ e. ground arith;
}

stop-IsArmed : (a : AutoLock) → IsArmed a → IsArmed (stop a)
unfolding stop
stop-IsArmed a v =
    let u = v.unlocked in
    let d = v.due in
    let o = v.off in record { unlocked = ground arith; due = ground arith; off = ground arith }

lock-IsArmed : (r : LockReason) (a : AutoLock) → IsArmed a → IsArmed (lock r a)
unfolding lock stop
lock-IsArmed r a v =
    let u = v.unlocked in
    let d = v.due in
    let o = v.off in record { unlocked = ground arith; due = ground arith; off = ground arith }

start-IsArmed : (now : ℕ) (h : Bool) (a : AutoLock) → IsArmed a → IsArmed (start now h a)
unfolding start schedule_idle on_hidden
start-IsArmed now h a v =
    let u = v.unlocked in
    let d = v.due in
    let o = v.off in record { unlocked = ground arith; due = ground arith; off = ground arith }

on_input-IsArmed :
    (now : ℕ) (a : AutoLock) → a.started ≡ true → IsArmed a → IsArmed (on_input now a)
unfolding on_input schedule_idle lock stop
on_input-IsArmed now a on v =
    let u = v.unlocked in
    let d = v.due in
    let o = v.off in record { unlocked = ground arith; due = ground arith; off = ground arith }

on_idle_due-IsArmed :
    (now : ℕ) (a : AutoLock)
    → a.last_input ≤ now
    → is_some a.idle_timer ≡ true
    → IsArmed a
    → IsArmed (on_idle_due now a)
unfolding on_idle_due schedule_idle lock stop
on_idle_due-IsArmed now a h on v =
    let u = v.unlocked in
    let d = v.due in
    let o = v.off in record { unlocked = ground arith; due = ground arith; off = ground arith }

on_visibility-IsArmed :
    (now : ℕ) (h : Bool) (a : AutoLock)
    → a.last_input ≤ now
    → a.started ≡ true
    → IsArmed a
    → IsArmed (on_visibility now h a)
unfolding on_visibility on_visible on_hidden schedule_idle lock stop
on_visibility-IsArmed now h a le on v =
    let u = v.unlocked in
    let d = v.due in
    let o = v.off in record { unlocked = ground arith; due = ground arith; off = ground arith }

on_warn_due-IsArmed : (a : AutoLock) → IsArmed a → IsArmed (on_warn_due a)
unfolding on_warn_due
on_warn_due-IsArmed a v =
    let u = v.unlocked in
    let d = v.due in
    let o = v.off in record { unlocked = ground arith; due = ground arith; off = ground arith }

when-IsArmed :
    (b : Bool) (a x : AutoLock) → (b ≡ true → IsArmed x) → IsArmed a → IsArmed (if b then x else a)
when-IsArmed true a x f v = f refl
when-IsArmed false a x f v = v

-- Every event of an AutoLock, at a time that is not before the last input, keeps it armed: a running
-- one is not locked and has its idle timer due when idle_ms have passed since the last input,
-- and one that does not run has no idle timer.
pub lock_step-IsArmed :
    (now : ℕ) (e : LockEvent) (a : AutoLock)
    → a.last_input ≤ now
    → IsArmed a
    → IsArmed (lock_step now e a)
unfolding lock_step
lock_step-IsArmed now (starts h) a le v = start-IsArmed now h a v
lock_step-IsArmed now stops a le v = stop-IsArmed a v
lock_step-IsArmed now inputs a le v =
    when-IsArmed a.started a (on_input now a) (λ on. on_input-IsArmed now a on v) v
lock_step-IsArmed now warn_due a le v =
    when-IsArmed (is_some a.warn_timer) a (on_warn_due a) (λ _. on_warn_due-IsArmed a v) v
lock_step-IsArmed now idle_due a le v =
    when-IsArmed (is_some a.idle_timer) a (on_idle_due now a)
      (λ on. on_idle_due-IsArmed now a le on v) v
lock_step-IsArmed now hidden_due a le v =
    when-IsArmed (is_some a.hidden_timer) a (lock hidden a) (λ _. lock-IsArmed hidden a v) v
lock_step-IsArmed now lock_now a le v = lock-IsArmed manual a v
lock_step-IsArmed now (visibility h) a le v =
    when-IsArmed a.started a (on_visibility now h a) (λ on. on_visibility-IsArmed now h a le on v) v
