-- ===== src/Weeks/Ids.antt =====
-- The text of a week id, as isoWeekId of packages/domain-core/src/instructional-weeks.ts prints it and
-- isoWeekStart reads it. A part that is not a run of digits is read as none: Number gives NaN for it,
-- or reads a spelling that no id has.
pub mod Reading
use teacher_assistant.Base.{
  ℕ, Bool, true, false, ◌&&◌, [], ◌∷◌, ◌++◌, Option, none, some, ◌==◌, if◌then◌else◌,
}
use teacher_assistant.Relay.Types.{Text}
use teacher_assistant.Relay.Cursor.{all, is_digit, number_from, decimal}
use teacher_assistant.Weeks.{IsoWeek}

-- padStart(2, "0")
abbrev pub pad_two : Text → Text
pad_two [] = b'0' ∷ b'0' ∷ []
pad_two (c ∷ []) = b'0' ∷ c ∷ []
pad_two (c ∷ d ∷ cs) = c ∷ d ∷ cs

unfoldable pub week_text : IsoWeek → Text
week_text w = decimal w.year ++ b'-' ∷ b'W' ∷ pad_two (decimal w.week)

abbrev pub starts_with_w : Text → Bool
starts_with_w [] = false
starts_with_w (c ∷ cs) = c == b'W'

abbrev pub tail : Text → Text
tail [] = []
tail (c ∷ cs) = cs

-- The parts around the first "-W"; none without one.
unfoldable pub split_week : Text → Option (Text × Text)
split_week [] = none
split_week (c ∷ cs) = elim (split_week cs) [
  | some (before, after) ↦
      if c == b'-' && starts_with_w cs then some ([], tail cs) else some (c ∷ before, after)
  | none ↦ if c == b'-' && starts_with_w cs then some ([], tail cs) else none
]

-- The second part of the split, which a further "-W" ends.
abbrev pub first_part : Text → Text
first_part t = elim (split_week t) [ some (before, after) ↦ before | none ↦ t ]

abbrev pub week_of : Text → Text → Option IsoWeek
week_of y w =
    if all is_digit y && all is_digit w
    then some (record { year = number_from 0 y; week = number_from 0 w })
    else none

unfoldable pub parse_week : Text → Option IsoWeek
parse_week t = elim (split_week t) [ some (y, rest) ↦ week_of y (first_part rest) | none ↦ none ]
