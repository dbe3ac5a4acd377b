-- ===== src/Relay/Cursor.antt =====
-- parseCursor and formatCursor of services/sync-relay/src/store.ts, over character codes.
pub mod RoundTrip
use teacher_assistant.Base.{
  ℕ, zero, suc, ◌+◌, ◌-◌, ◌*◌, ◌/◌, ◌%◌, Bool, true, false, ◌&&◌, ◌||◌, [], ◌∷◌, ◌++◌, Option, none,
  some, ◌==◌, leb, ltb, if◌then◌else◌, length,
}
use teacher_assistant.Relay.Types.{Text, Cursor}

abbrev pub max_cursor_length : ℕ
max_cursor_length = 128

abbrev pub start : Cursor
start = record { epoch = none; seq = 0 }

unfoldable pub same_text : Text → Text → Bool
same_text [] [] = true
same_text [] (y ∷ ys) = false
same_text (x ∷ xs) [] = false
same_text (x ∷ xs) (y ∷ ys) = x == y && same_text xs ys

abbrev pub all : (ℕ → Bool) → Text → Bool
all p [] = true
all p (c ∷ cs) = p c && all p cs

abbrev pub is_digit : ℕ → Bool
is_digit c = leb b'0' c && leb c b'9'

-- [0-9A-Za-z-]
abbrev pub is_epoch_char : ℕ → Bool
is_epoch_char c = is_digit c || leb b'A' c && leb c b'Z' || leb b'a' c && leb c b'z' || c == b'-'

-- /^[0-9A-Za-z-]{1,64}$/
unfoldable pub is_epoch : Text → Bool
is_epoch e = leb 1 (length e) && leb (length e) 64 && all is_epoch_char e

-- /^\d+$/
unfoldable pub is_digits : Text → Bool
is_digits t = leb 1 (length t) && all is_digit t

-- The parts around the last dot, as `slice(0, dot)` and `slice(dot + 1)`; none without a dot.
unfoldable pub split_last_dot : Text → Option (Text × Text)
split_last_dot [] = none
split_last_dot (c ∷ cs) = elim (split_last_dot cs) [
  | some (before, after) ↦ some (c ∷ before, after)
  | none ↦ if c == b'.' then some ([], cs) else none
]

-- Number(digits) on a run of digits.
unfoldable pub number_from : ℕ → Text → ℕ
number_from acc [] = acc
number_from acc (c ∷ cs) = number_from (acc * 10 + (c - b'0')) cs

-- Number.isSafeInteger
abbrev pub is_safe_integer : ℕ → Bool
is_safe_integer n = ltb n 9_007_199_254_740_992

unfoldable pub parse_parts : Text → Text → Cursor
parse_parts epoch digits =
    if is_epoch epoch && is_digits digits && is_safe_integer (number_from 0 digits)
    then record { epoch = some epoch; seq = number_from 0 digits }
    else start

unfoldable pub parse_cursor : Option Text → Cursor
parse_cursor none = start
parse_cursor (some raw) =
    if ltb max_cursor_length (length raw) then start else elim (split_last_dot raw) [
      | none ↦ start
      | some (epoch, digits) ↦ if length epoch == 0 then start else parse_parts epoch digits
    ]

-- The decimal digits that a template string prints of a number, on fuel.
unfoldable pub digits_of : ℕ → ℕ → Text
digits_of zero n = []
digits_of (suc f) n =
    let more = digits_of f (n / 10) ++ (b'0' + n % 10) ∷ [] in
    if ltb n 10 then (b'0' + n) ∷ [] else more

unfoldable pub decimal : ℕ → Text
decimal n = digits_of (suc n) n

unfoldable pub format_cursor : Text → ℕ → Text
format_cursor epoch seq = epoch ++ b'.' ∷ decimal seq
