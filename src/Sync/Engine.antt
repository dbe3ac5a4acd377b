-- ===== src/Sync/Engine.antt =====
-- SyncEngine of packages/sync/src/engine.ts, on the replies that RelayClient of relay-client.ts makes
-- of the relay's responses, with its PersistedStream (persistence.ts).
use teacher_assistant.Base.{
  ℕ, Bool, true, false, List, [], ◌∷◌, ◌++◌, Option, none, some, ◌==◌, if◌then◌else◌, drop,
}
use teacher_assistant.Relay.Types.{Text, Blob}
use teacher_assistant.Sync.Stream.{Crdt, integrate_remote}

pub record Engine (C : Crdt) : Type 0 where
  pub doc : C.Doc
  pub pending : List Blob
  pub cursor : Option Text

pub record PersistedStream : Type 0 where
  pub pending : List Blob
  pub cursor : Option Text
  pub snapshot : Option Blob

-- A response of the relay: its status and, of a 200, what it carries.
pub data PullResponse : Type 0 where
  pull_ok : Text → List Blob → PullResponse
  pull_status : ℕ → PullResponse

-- `since ?? ""`
abbrev pub cursor_or_empty : Option Text → Text
cursor_or_empty none = []
cursor_or_empty (some c) = c

-- RelayClient.pull: a 404 is an empty pull, and any other status throws.
unfoldable pub pull_result : Option Text → PullResponse → Option (Text × List Blob)
pull_result since (pull_ok cursor updates) = some (cursor, updates)
pull_result since (pull_status n) = if n == 404 then some (cursor_or_empty since, []) else none

module _ (C : Crdt) where
  abbrev pub new_engine : Engine C
  new_engine = record { doc = C.new_doc; pending = []; cursor = none }

  -- #state(): `n` is what sealing the snapshot draws.
  unfoldable pub state_of : ℕ → Engine C → PersistedStream
  state_of n e = record {
    pending = e.pending;
    cursor = e.cursor;
    snapshot = some (C.seal n (C.encode e.doc));
  }

  abbrev pub restored : Engine C → PersistedStream → Option C.Doc → Option (Engine C)
  restored e st none = none
  restored e st (some doc) = some (record { doc = doc; pending = st.pending; cursor = st.cursor })

  abbrev pub with_snapshot : C.Doc → Option Blob → Option C.Doc
  with_snapshot doc none = some doc
  with_snapshot doc (some blob) = integrate_remote C doc blob

  -- load(); none where the snapshot cannot be opened.
  unfoldable pub load : Engine C → Option PersistedStream → Option (Engine C)
  load e none = some e
  load e (some st) = restored e st (with_snapshot e.doc st.snapshot)

  -- The transaction of capture(): its update is applied, and queued as a blob sealed with the draw `n`.
  -- A mutator that changes nothing makes no update.
  unfoldable pub transact : ℕ → Option C.Update → Engine C → Engine C
  transact n none e = e
  transact n (some u) e = record e {
    doc = C.apply_update e.doc u;
    pending = e.pending ++ C.seal n u ∷ [];
  }

  -- The loop over the pulled updates; false where one of them throws.
  unfoldable pub integrate_all : C.Doc → List Blob → C.Doc × Bool
  integrate_all doc [] = (doc, true)
  integrate_all doc (b ∷ bs) = elim (integrate_remote C doc b) [
    | none ↦ (doc, false)
    | some doc' ↦ integrate_all doc' bs
  ]

  -- The cursor advances only when every update is integrated.
  abbrev pub received_as : Engine C → Text → C.Doc × Bool → Engine C
  received_as e cursor (doc, ok) =
      if ok then record e { doc = doc; cursor = some cursor } else record e { doc = doc }

  -- The first half of sync().
  unfoldable pub receive : Engine C → Option (Text × List Blob) → Engine C
  receive e none = e
  receive e (some (cursor, updates)) = received_as e cursor (integrate_all e.doc updates)

  -- `splice(0, batch.length)` once the push has resolved.
  unfoldable pub acknowledge : ℕ → Engine C → Engine C
  acknowledge n e = record e { pending = drop n e.pending }
