-- ===== src/Tests/Sync.antt =====
-- The theorems on the sync engine at two devices that share a doc of the relay's store, over documents
-- that keep the largest number they were given.
use Prim.Native.String.{[] as no_chars, ◌∷◌ as ◌then◌}
use teacher_assistant.Base.{
  ℕ, zero, suc, ◌≡◌, refl, ap, ◌⊎◌, inl, true, [], ◌∷◌, some, arith, ltb, if◌then◌else◌, In,
}
use teacher_assistant.Base.Map.{get, put}
use teacher_assistant.Base.Texts.{utf16_length, codes}
use teacher_assistant.Relay.Types.{Text, Blob}
use teacher_assistant.Relay.Cursor.{
  is_epoch, parse_cursor, format_cursor, split_last_dot, parse_parts, is_digits, number_from,
  decimal, digits_of, same_text,
}
use teacher_assistant.Relay.Store
use teacher_assistant.Relay.Store.{empty}
use teacher_assistant.Relay.Store.Log
use teacher_assistant.Sync.Stream.{Crdt, IsCrdt, integrate_remote}
use teacher_assistant.Sync.Relay.{RelayLog, IsRelayLog}
use teacher_assistant.Sync.Engine.{
  state_of, load, transact, receive, integrate_all, pull_result, acknowledge,
}
use teacher_assistant.Sync.InStore.{store_log, store_push, store-IsRelayLog}
use teacher_assistant.Sync.World.{
  World, Event, captures, saves, pulls, pushes, push_answers, Run, begins, then_step, device_step,
  world_step, new_world,
}
use teacher_assistant.Sync.World.Safety.{waiting_of}
use teacher_assistant.Sync.World.Agreement.{nothing_lost, synced_same}

abbrev larger : ℕ → ℕ → ℕ
larger a b = if ltb a b then b else a

-- A blob of as many letters as the number says.
abbrev letters : ℕ → Blob
letters zero = no_chars
letters (suc n) = "a" then letters n

abbrev numbers : Crdt
numbers = record {
  Doc = ℕ;
  Update = ℕ;
  new_doc = 0;
  apply_update = larger;
  encode = λ d. d;
  seal = λ n u. letters u;
  unseal = λ b. some (utf16_length b);
}

letters-length : (n : ℕ) → utf16_length (letters n) ≡ n
unfolding utf16_length
letters-length zero = refl
letters-length (suc n) = omega (arith, letters-length n)

numbers-IsCrdt : IsCrdt numbers
numbers-IsCrdt = record {
  swap = λ d u v. ground arith;
  again = λ d u. ground arith;
  rebuild = λ d. ground arith;
  unseal-seal = λ n u. ap some (letters-length u);
}

abbrev epoch : Text
epoch = codes "e"

epoch-is_epoch : is_epoch epoch ≡ true
unfolding is_epoch
epoch-is_epoch = refl

abbrev relay : RelayLog
relay = store_log 1 7 epoch

abbrev W : Type 0
W = World numbers relay

abbrev then_does : W → ℕ → Event numbers → W
then_does w i e = world_step numbers relay i e w

sync_world : Unit {0}
unfolding get put utf16_length is_epoch parse_cursor format_cursor split_last_dot parse_parts
    is_digits number_from decimal digits_of same_text Store.append Store.fetch Store.push_blobs
    Log.log integrate_remote state_of load transact receive integrate_all pull_result acknowledge
    store_push device_step world_step
sync_world = tt

abbrev start : W
start = new_world numbers relay empty

-- Device 1 captures a 3 and saves it.
abbrev captured : W
captured = then_does (then_does start 1 (captures 0 (some 3))) 1 (saves 0)

-- Device 2 captures a 5; both sync, and device 1 pulls once more.
abbrev synced : W
synced =
    then_does
      (then_does
        (then_does
          (then_does
            (then_does (then_does (then_does captured 1 pushes) 1 push_answers) 2
              (captures 0 (some 5)))
            2 pushes)
          2 push_answers)
        2 pulls)
      1 pulls

synced_test :
    ((synced.device 1).engine.doc ≡ 5) × (Log.log synced.relay 1 ≡ letters 3 ∷ letters 5 ∷ [])
unfolding sync_world
synced_test = (refl, refl)

captured-Run : Run numbers relay start captured
unfolding sync_world
captured-Run =
    then_step (then_step begins 1 (captures 0 (some 3)) (omega arith)) 1 (saves 0) (omega arith)

-- The rest of the run, after any run that ends where device 1 has saved.
on_to_synced : {w : W} → Run numbers relay w captured → Run numbers relay w synced
unfolding sync_world
on_to_synced r =
    then_step
      (then_step
        (then_step
          (then_step
            (then_step (then_step (then_step r 1 pushes (omega arith)) 1 push_answers (omega arith))
              2 (captures 0 (some 5)) (omega arith))
            2 pushes (omega arith))
          2 push_answers (omega arith))
        2 pulls (omega arith))
      1 pulls (omega arith)

empty-Good : RelayLog.Good relay empty
unfolding sync_world
empty-Good = ((λ d x e. absurd (ground (e, arith))), tt, omega arith)

nothing_lost_example :
    In (letters 3) (waiting_of (synced.device 1).saved) ⊎ In (letters 3) (Log.log synced.relay 1)
unfolding sync_world
nothing_lost_example =
    nothing_lost numbers relay numbers-IsCrdt (store-IsRelayLog 1 7 epoch epoch-is_epoch) empty
      empty-Good captured-Run (on_to_synced begins) 1 (letters 3) (inl refl)

synced_same_example : (synced.device 1).engine.doc ≡ (synced.device 2).engine.doc
unfolding sync_world
synced_same_example =
    synced_same numbers relay numbers-IsCrdt (store-IsRelayLog 1 7 epoch epoch-is_epoch) empty
      empty-Good (on_to_synced captured-Run) 1 2 refl refl refl refl

store-IsRelayLog_example : IsRelayLog (store_log 1 7 epoch)
store-IsRelayLog_example = store-IsRelayLog 1 7 epoch epoch-is_epoch
