-- ===== src/Sync/World.antt =====
-- Several devices that share one stream through the relay: what each does at a time, in any order
-- (packages/sync/src/engine.ts with relay-client.ts and persistence.ts).
pub mod Sound
pub mod Safety
pub mod Agreement
use teacher_assistant.Base.{
  ℕ, Bool, true, false, List, [], ◌∷◌, Option, none, some, ◌==◌, if◌then◌else◌, length,
}
use teacher_assistant.Relay.Types.{Text, Blob}
use teacher_assistant.Sync.Stream.{Crdt}
use teacher_assistant.Sync.Relay.{RelayLog}
use teacher_assistant.Sync.Engine.{
  Engine, PersistedStream, PullResponse, pull_ok, pull_status, pull_result, new_engine, state_of,
  load, transact, receive, acknowledge,
}

-- `flight` is the length of the batch whose push the relay has accepted and the device has not heard
-- of yet.
pub record Device (C : Crdt) : Type 0 where
  pub engine : Engine C
  pub saved : Option PersistedStream
  pub flight : ℕ

pub record World (C : Crdt) (R : RelayLog) : Type 0 where
  pub relay : R.State
  pub device : ℕ → Device C

-- What may happen to a device: a capture and its save, the pull of a sync and what else its response
-- can be, the push of a sync, its answer or the loss of it, and a reload.
pub data Event (C : Crdt) : Type 0 where
  captures : ℕ → Option C.Update → Event C
  saves : ℕ → Event C
  pulls : Event C
  pull_answers : ℕ → Event C
  pushes : Event C
  push_answers : Event C
  push_fails : Event C
  reloads : Event C

abbrev pub set_at : {A : Type 0} → ℕ → A → (ℕ → A) → ℕ → A
set_at i a f j = if i == j then a else f j

module _ (C : Crdt) where
  abbrev pub or_new : Option (Engine C) → Engine C
  or_new none = new_engine C
  or_new (some e) = e

  -- What load() makes of a new engine; it is left empty where load() throws.
  abbrev pub reloaded : Option PersistedStream → Engine C
  reloaded saved = or_new (load C (new_engine C) saved)

module _ (C : Crdt) (R : RelayLog) where
  abbrev pub pulled : R.State → Device C → PullResponse → Device C
  pulled s d response = record d {
    engine = receive C d.engine (pull_result d.engine.cursor response);
  }

  -- The relay's answer to a pull.
  abbrev pub respond : R.State → Option Text → PullResponse
  respond s since = let (cursor, updates) = R.pull s since in pull_ok cursor updates

  -- One event of one device, and what it does to the relay.
  unfoldable pub device_step : R.State → Event C → Device C → R.State × Device C
  device_step s (captures n u) d = (s, record d { engine = transact C n u d.engine })
  device_step s (saves n) d = (s, record d { saved = some (state_of C n d.engine) })
  device_step s pulls d = (s, pulled s d (respond s d.engine.cursor))
  device_step s (pull_answers status) d = (s, pulled s d (pull_status status))
  device_step s pushes d =
      let (s', accepted) = R.push s d.engine.pending in
      if length d.engine.pending == 0
      then (s, d)
      else (s', record d { flight = if accepted then length d.engine.pending else 0 })
  device_step s push_answers d =
      (s, record d { engine = acknowledge C d.flight d.engine; flight = 0 })
  device_step s push_fails d = (s, record d { flight = 0 })
  device_step s reloads d = (s, record d { engine = reloaded C d.saved; flight = 0 })

  unfoldable pub world_step : ℕ → Event C → World C R → World C R
  world_step i e w =
      let (s, d) = device_step w.relay e (w.device i) in
      record { relay = s; device = set_at i d w.device }

  -- Any events of any devices, as long as the relay has room for what is pushed.
  pub data Run (from : World C R) : World C R → Type 0 where
    begins : Run from from
    then_step :
        {w : World C R}
        → Run from w
        → (i : ℕ) (e : Event C) → R.Room w.relay (w.device i).engine.pending
        → Run from (world_step i e w)

  abbrev pub new_device : Device C
  new_device = record { engine = new_engine C; saved = none; flight = 0 }

  abbrev pub new_world : R.State → World C R
  new_world s = record { relay = s; device = λ i. new_device }
