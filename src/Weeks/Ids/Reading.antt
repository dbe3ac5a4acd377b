-- ===== src/Weeks/Ids/Reading.antt =====
-- A week id is read back from its text (packages/domain-core/src/instructional-weeks.ts).
use teacher_assistant.Base.{◌≡◌, refl, ap, ◌∙◌, true, [], ◌∷◌, ◌++◌, none, some, arith}
use teacher_assistant.Relay.Types.{Text}
use teacher_assistant.Relay.Cursor.{all, is_digit, number_from, decimal}
use teacher_assistant.Relay.Cursor.RoundTrip.{decimal-digits, number-decimal}
use teacher_assistant.Weeks.{IsoWeek}
use teacher_assistant.Weeks.Ids.{pad_two, week_text, split_week, week_of, first_part, parse_week}

split_week-digits : (ds : Text) → all is_digit ds ≡ true → split_week ds ≡ none
unfolding split_week
split_week-digits [] h = refl
split_week-digits (c ∷ cs) h = ground (arith, split_week-digits cs)

split_week_lem :
    (y w : Text)
    → all is_digit y ≡ true
    → all is_digit w ≡ true
    → split_week (y ++ b'-' ∷ b'W' ∷ w) ≡ some (y, w)
unfolding split_week
split_week_lem [] w h k = rw (split_week-digits w k) refl
split_week_lem (c ∷ cs) w h k = rw (split_week_lem cs w (ground arith) k) (ground arith)

pad_two-digits : (t : Text) → all is_digit t ≡ true → all is_digit (pad_two t) ≡ true
pad_two-digits [] h = refl
pad_two-digits (c ∷ []) h = ground arith
pad_two-digits (c ∷ d ∷ cs) h = h

number_from-pad_two : (t : Text) → number_from 0 (pad_two t) ≡ number_from 0 t
unfolding number_from
number_from-pad_two [] = refl
number_from-pad_two (c ∷ []) = refl
number_from-pad_two (c ∷ d ∷ cs) = refl

parse_week-split :
    (t y w : Text) → split_week t ≡ some (y, w) → parse_week t ≡ week_of y (first_part w)
unfolding parse_week
parse_week-split t y w e = rw (e, parse_week) refl

first_part-digits : (t : Text) → all is_digit t ≡ true → first_part t ≡ t
first_part-digits t h = ground (arith, split_week-digits t h)

week_of-digits :
    (y w : Text)
    → all is_digit y ≡ true
    → all is_digit w ≡ true
    → week_of y w ≡ some (record { year = number_from 0 y; week = number_from 0 w })
week_of-digits y w h k = rw (h, k) refl

-- The text of a week id, read back, is the week's year and number.
pub parse_week-week_text : (w : IsoWeek) → parse_week (week_text w) ≡ some w
unfolding week_text
parse_week-week_text w =
    let year = decimal w.year in
    let padded = pad_two (decimal w.week) in
    let digits = pad_two-digits (decimal w.week) (decimal-digits w.week) in
    let number = number_from-pad_two (decimal w.week) ∙ number-decimal w.week in
    parse_week-split (week_text w) year padded
      (split_week_lem year padded (decimal-digits w.year) digits)
    ∙ ap (week_of year) (first_part-digits padded digits)
    ∙ week_of-digits year padded (decimal-digits w.year) digits
    ∙ (λ i. some (record { year = number-decimal w.year i; week = number i }))
