-- ===== src/AutoLock.antt =====
-- AutoLock of apps/pwa/src/device/auto-lock.ts. The clock is an argument and never goes back; a timer
-- is the time that it is due, and what fires when is a sequence of events.
pub mod Idle
use teacher_assistant.Base.{
  ℕ, ◌+◌, ◌-◌, Bool, true, false, ◌&&◌, ◌||◌, not, Option, none, some, is_some, leb, ltb,
  if◌then◌else◌,
}

pub data LockReason : Type 0 where
  idle hidden manual : LockReason

abbrev pub idle_ceiling_ms : ℕ
idle_ceiling_ms = 900_000

abbrev pub hidden_ceiling_ms : ℕ
hidden_ceiling_ms = 300_000

abbrev pub warn_before_ms : ℕ
warn_before_ms = 60_000

pub record AutoLock : Type 0 where
  pub idle_ms : ℕ
  pub hidden_ms : ℕ
  pub last_input : ℕ
  pub hidden_at : Option ℕ
  pub warn_timer : Option ℕ
  pub idle_timer : Option ℕ
  pub hidden_timer : Option ℕ
  pub warned : Bool
  pub started : Bool
  pub locked : Option LockReason

-- The constructor; none where it throws.
unfoldable pub new_auto_lock : ℕ → ℕ → Option AutoLock
new_auto_lock idle_ms hidden_ms =
    if ltb warn_before_ms idle_ms
      && leb idle_ms idle_ceiling_ms
      && ltb 0 hidden_ms
      && leb hidden_ms hidden_ceiling_ms
    then some (record {
      idle_ms = idle_ms;
      hidden_ms = hidden_ms;
      last_input = 0;
      hidden_at = none;
      warn_timer = none;
      idle_timer = none;
      hidden_timer = none;
      warned = false;
      started = false;
      locked = none;
    })
    else none

unfoldable pub stop : AutoLock → AutoLock
stop a =
    if a.started
    then record a { started = false; warn_timer = none; idle_timer = none; hidden_timer = none }
    else a

unfoldable pub lock : LockReason → AutoLock → AutoLock
lock reason a = if is_some a.locked then a else stop (record a { locked = some reason })

unfoldable pub schedule_idle : ℕ → AutoLock → AutoLock
schedule_idle now a =
    let elapsed = now - a.last_input in
    record a {
      warn_timer =
          if ltb (elapsed + warn_before_ms) a.idle_ms
          then some (now + (a.idle_ms - warn_before_ms - elapsed))
          else none;
      idle_timer = some (now + (a.idle_ms - elapsed));
    }

unfoldable pub on_hidden : ℕ → AutoLock → AutoLock
on_hidden now a = record a { hidden_at = some now; hidden_timer = some (now + a.hidden_ms) }

unfoldable pub start : ℕ → Bool → AutoLock → AutoLock
start now is_hidden a =
    let b : AutoLock = record a { started = true; last_input = now } in
    if a.started || is_some a.locked
    then a
    else schedule_idle now (if is_hidden then on_hidden now b else b)

unfoldable pub on_input : ℕ → AutoLock → AutoLock
on_input now a =
    if is_some a.locked
    then a
    else if leb a.idle_ms (now - a.last_input)
    then lock idle a
    else schedule_idle now (record a { last_input = now; warned = false })

unfoldable pub on_warn_due : AutoLock → AutoLock
on_warn_due a = if is_some a.locked || a.warned then a else record a { warned = true }

unfoldable pub on_idle_due : ℕ → AutoLock → AutoLock
on_idle_due now a = if leb a.idle_ms (now - a.last_input) then lock idle a else schedule_idle now a

abbrev pub hidden_long : ℕ → ℕ → Option ℕ → Bool
hidden_long now limit none = false
hidden_long now limit (some at) = leb limit (now - at)

unfoldable pub on_visible : ℕ → AutoLock → AutoLock
on_visible now a =
    let b : AutoLock = record a { hidden_timer = none; hidden_at = none } in
    if hidden_long now a.hidden_ms a.hidden_at
    then lock hidden b
    else if leb a.idle_ms (now - a.last_input)
    then lock idle b
    else schedule_idle now b

unfoldable pub on_visibility : ℕ → Bool → AutoLock → AutoLock
on_visibility now is_hidden a =
    if is_some a.locked then a else if is_hidden then on_hidden now a else on_visible now a

pub data LockEvent : Type 0 where
  starts : Bool → LockEvent
  stops inputs warn_due idle_due hidden_due lock_now : LockEvent
  visibility : Bool → LockEvent

-- What each listener and timer does; listeners are heard only between start and stop.
unfoldable pub lock_step : ℕ → LockEvent → AutoLock → AutoLock
lock_step now (starts is_hidden) a = start now is_hidden a
lock_step now stops a = stop a
lock_step now inputs a = if a.started then on_input now a else a
lock_step now warn_due a = if is_some a.warn_timer then on_warn_due a else a
lock_step now idle_due a = if is_some a.idle_timer then on_idle_due now a else a
lock_step now hidden_due a = if is_some a.hidden_timer then lock hidden a else a
lock_step now lock_now a = lock manual a
lock_step now (visibility is_hidden) a = if a.started then on_visibility now is_hidden a else a
