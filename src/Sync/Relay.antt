-- ===== src/Sync/Relay.antt =====
-- What the sync engine relies on of the relay: for each doc a log of blobs, which a client reads past
-- a cursor and appends to (services/sync-relay/src/store.ts as packages/sync/src/relay-client.ts
-- sees it).
use teacher_assistant.Base.{◌≡◌, Bool, List, [], ◌++◌, Option, none, some, if◌then◌else◌}
use teacher_assistant.Relay.Types.{Text, Blob}

pub record RelayLog : Type 1 where
  pub State : Type 0
  pub log : State → List Blob
  pub pull : State → Option Text → Text × List Blob
  -- Whether the push is accepted, and the log after it.
  pub push : State → List Blob → State × Bool
  -- The blobs that a cursor stands for.
  pub covered : State → Option Text → List Blob
  -- A well-formed state, a cursor that it may have issued, and a push that it has room for.
  pub Good : State → Type 0
  pub Issued : State → Option Text → Type 0
  pub Room : State → List Blob → Type 0

pub record IsRelayLog (R : RelayLog) : Type 0 where
  pub no_cursor : (s : R.State) → R.covered s none ≡ []
  pub empty_cursor : (s : R.State) → R.covered s (some []) ≡ []
  pub issued_none : (s : R.State) → R.Issued s none
  pub issued_empty : (s : R.State) → R.Issued s (some [])
  -- A pull sends what the cursor does not stand for, and its own cursor stands for all of the log.
  pub pull_rest :
      (s : R.State) (c : Option Text) → R.Good s → R.log s ≡ R.covered s c ++ (R.pull s c).1
  pub pull_covered :
      (s : R.State) (c : Option Text) → R.Good s → R.covered s (some (R.pull s c).0) ≡ R.log s
  pub pull_issued : (s : R.State) (c : Option Text) → R.Good s → R.Issued s (some (R.pull s c).0)
  -- A push is added at the end, or refused; what a cursor stands for stays.
  pub push_log :
      (s : R.State) (bs : List Blob)
      → R.log (R.push s bs).0 ≡ R.log s ++ (if (R.push s bs).1 then bs else [])
  pub push_good : (s : R.State) (bs : List Blob) → R.Good s → R.Room s bs → R.Good (R.push s bs).0
  pub push_covered :
      (s : R.State) (bs : List Blob) (c : Option Text)
      → R.Issued s c
      → R.covered (R.push s bs).0 c ≡ R.covered s c
  pub push_issued :
      (s : R.State) (bs : List Blob) (c : Option Text) → R.Issued s c → R.Issued (R.push s bs).0 c
