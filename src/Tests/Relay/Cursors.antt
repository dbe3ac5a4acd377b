-- ===== src/Tests/Relay/Cursors.antt =====
-- The theorems on cursors and logs at a concrete doc.
use teacher_assistant.Base.{◌≡◌, refl, [], ◌∷◌, ◌++◌, some, List, arith}
use teacher_assistant.Base.Map.{get, put}
use teacher_assistant.Relay.Types.{Text, Blob, StoredDoc, RelayStore}
use teacher_assistant.Relay.Cursor.{
  format_cursor, parse_cursor, decimal, digits_of, is_epoch, same_text, start, split_last_dot,
  parse_parts, is_digits, number_from,
}
use teacher_assistant.Relay.Cursor.RoundTrip.{parse_cursor-format_cursor}
use teacher_assistant.Relay.Store.{empty, append, fetch, push_blobs}
use teacher_assistant.Relay.Store.Log.{log, DocsNumbered, append-DocsNumbered}
use teacher_assistant.Relay.Calls.Logs.{fetch-append}
use teacher_assistant.Tests.Relay.{relay}

abbrev epoch : Text
epoch = b'e' ∷ b'-' ∷ b'1' ∷ []

cursors : Unit {0}
unfolding relay parse_cursor parse_parts split_last_dot is_digits is_epoch number_from format_cursor
    decimal digits_of same_text fetch log append push_blobs get put
cursors = tt

abbrev two : List Blob
two = "a" ∷ "b" ∷ []

abbrev pushed : RelayStore
pushed = (append empty epoch 1 11 two).0

abbrev doc : StoredDoc
doc = record {
  scope_tag = 11;
  epoch = epoch;
  updates = record { seq = 1; blob = "a" } ∷ record { seq = 2; blob = "b" } ∷ [];
}

abbrev twice : RelayStore
twice = (append pushed [] 1 11 ("c" ∷ [])).0

cursor_tests :
    (parse_cursor (some (b'e' ∷ b'.' ∷ b'4' ∷ b'2' ∷ []))
      ≡ record { epoch = some (b'e' ∷ []); seq = 42 })
    × (parse_cursor (some (b'.' ∷ b'4' ∷ [])) ≡ start)
    × (parse_cursor (some (b'e' ∷ b'.' ∷ b'4' ∷ b'x' ∷ [])) ≡ start)
    × (format_cursor epoch 120 ≡ epoch ++ b'.' ∷ b'1' ∷ b'2' ∷ b'0' ∷ [])
    × ((fetch pushed 1 (record { epoch = some epoch; seq = 1 })).1 ≡ "b" ∷ [])
    × ((fetch pushed 1 (record { epoch = some (b'f' ∷ []); seq = 1 })).1 ≡ two)
    × ((fetch pushed 1 (record { epoch = some epoch; seq = 3 })).1 ≡ two)
unfolding cursors
cursor_tests = (refl, refl, refl, refl, refl, refl, refl)

parse_cursor-format_cursor_example :
    parse_cursor (some (format_cursor epoch 120)) ≡ record { epoch = some epoch; seq = 120 }
unfolding cursors
parse_cursor-format_cursor_example = parse_cursor-format_cursor epoch 120 refl (omega arith)

empty-DocsNumbered : DocsNumbered empty
unfolding get
empty-DocsNumbered j d e = absurd (ground arith)

pushed-DocsNumbered : DocsNumbered pushed
pushed-DocsNumbered = append-DocsNumbered empty epoch 1 11 two empty-DocsNumbered

fetch-append_example :
    fetch twice 1 (parse_cursor (some (fetch pushed 1 start).0)) ≡ (format_cursor epoch 3, "c" ∷ [])
unfolding cursors
fetch-append_example =
    fetch-append pushed start [] 1 11 ("c" ∷ []) doc pushed-DocsNumbered refl refl (omega arith)
      refl
