-- ===== src/Tests/AutoLock.antt =====
-- Tests of the AutoLock of apps/pwa/src/device/auto-lock.ts.
use teacher_assistant.Base.{◌≡◌, refl, true, false, none, some, arith}
use teacher_assistant.AutoLock.{
  idle, AutoLock, new_auto_lock, on_input, lock, stop, inputs, lock_step,
}
use teacher_assistant.AutoLock.Idle.{IsArmed, lock_step-IsArmed}

abbrev running : AutoLock
running = record {
  idle_ms = 600_000;
  hidden_ms = 120_000;
  last_input = 1_000;
  hidden_at = none;
  warn_timer = some 541_000;
  idle_timer = some 601_000;
  hidden_timer = none;
  warned = false;
  started = true;
  locked = none;
}

running-IsArmed : IsArmed running
running-IsArmed = record { unlocked = λ _. refl; due = λ _. refl; off = λ e. ground arith }

new_auto_lock_short : new_auto_lock 60_000 120_000 ≡ none
unfolding new_auto_lock
new_auto_lock_short = refl

lock_step_late : (lock_step 601_000 inputs running).locked ≡ some idle
unfolding lock_step on_input lock stop
lock_step_late = refl

lock_step-IsArmed_example : IsArmed (lock_step 301_000 inputs running)
lock_step-IsArmed_example = lock_step-IsArmed 301_000 inputs running (omega arith) running-IsArmed
