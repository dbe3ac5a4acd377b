-- ===== src/Tests/Weeks.antt =====
-- The theorems on weeks in a calendar of years of 365 days and months of 30.
use teacher_assistant.Base.{
  ℕ, ◌+◌, ◌-◌, ◌*◌, ◌/◌, ◌%◌, ◌≤◌, ◌≡◌, refl, ◌↔◌, true, false, Bool, [], ◌∷◌, none, some, arith,
  ◌==◌, In,
}
use teacher_assistant.Tracking.Types.{monthly}
use teacher_assistant.Weeks.{
  Calendar, IsoWeek, day_num, iso_week_id, iso_week_start, weeks_from, enumerate_iso_weeks,
  window_walk, baseline_window_start,
}
use teacher_assistant.Base.Texts.{codes}
use teacher_assistant.Relay.Cursor.{number_from, decimal, digits_of}
use teacher_assistant.Weeks.Ids.{week_text, parse_week, split_week}
use teacher_assistant.Weeks.Iso.{IsCalendar, iso_week_start-iso_week_id, enumerate_iso_weeks-exact}
use teacher_assistant.Weeks.Owes.{
  is_due_in_week, is_first_instructional_of_period, walk_back, monthly_key,
}
use teacher_assistant.Weeks.Owes.Once.{HasMonths, period_of, IsFirst, is_due_in_week-IsFirst}

abbrev plain : Calendar
plain = record {
  year_of = λ d. d / 365;
  year_start = λ y. 365 * y;
  month_of = λ d. d / 30;
  day_of_month = λ d. d % 30 + 1;
}

plain-IsCalendar : IsCalendar plain
plain-IsCalendar = record { in_year = λ d. omega arith; before_next = λ d. omega arith }

plain-HasMonths : HasMonths plain
plain-HasMonths = record {
  forward = λ a b h. omega arith;
  counted = λ a b h e. omega arith;
  short = λ a b h. omega arith;
}

-- The weeks of the third year's first half are a break.
abbrev breaks : IsoWeek → Bool
breaks w = w.year == 2

weeks_tests :
    (iso_week_id plain 365 ≡ record { year = 1; week = 1 })
    × (enumerate_iso_weeks plain 366 380
        ≡ record { year = 1; week = 1 }
          ∷ record { year = 1; week = 2 }
          ∷ record { year = 1; week = 3 }
          ∷ [])
    × (is_due_in_week plain monthly (record { year = 1; week = 2 }) breaks ≡ false)
    × (is_due_in_week plain monthly (record { year = 1; week = 5 }) breaks ≡ true)
    × (baseline_window_start plain 800 3 breaks ≡ record { year = 1; week = 50 })
unfolding iso_week_id iso_week_start weeks_from enumerate_iso_weeks is_due_in_week monthly_key
    is_first_instructional_of_period walk_back window_walk baseline_window_start
weeks_tests = (refl, refl, refl, refl, refl)

texts_tests :
    (week_text (record { year = 2_026; week = 7 }) ≡ codes "2026-W07")
    × (parse_week (codes "2026-W07") ≡ some (record { year = 2_026; week = 7 }))
    × (parse_week (codes "2026") ≡ none)
unfolding week_text parse_week split_week number_from decimal digits_of
texts_tests = (refl, refl, refl)

iso_week_start-iso_week_id_example :
    (parse_week (week_text (iso_week_id plain 800)) ≡ some (iso_week_id plain 800))
    × (iso_week_start plain (iso_week_id plain 800) ≡ 800 - 800 % 7)
    × (plain.year_of (iso_week_start plain (iso_week_id plain 800) + 3)
        ≡ (iso_week_id plain 800).year)
    × (1 ≤ (iso_week_id plain 800).week)
    × ((iso_week_id plain 800).week ≤ 53)
iso_week_start-iso_week_id_example = iso_week_start-iso_week_id plain plain-IsCalendar 800

is_due_in_week-IsFirst_example :
    (is_due_in_week plain monthly (iso_week_id plain (7 * 60)) breaks ≡ true) ↔ (
      (breaks (iso_week_id plain (7 * 60)) ≡ false)
      × IsFirst plain (period_of plain monthly) breaks 60)
is_due_in_week-IsFirst_example =
    is_due_in_week-IsFirst plain plain-IsCalendar plain-HasMonths monthly breaks 60 (omega arith)

enumerate_iso_weeks-exact_example :
    ((i : ℕ)
      → 366 - day_num 366 ≤ 7 * i
      → 7 * i ≤ 380
      → In (iso_week_id plain (7 * i)) (enumerate_iso_weeks plain 366 380))
    × ((w : IsoWeek)
        → In w (enumerate_iso_weeks plain 366 380)
        → (i : ℕ) × (366 - day_num 366 ≤ 7 * i) × (7 * i ≤ 380) × (w ≡ iso_week_id plain (7 * i)))
enumerate_iso_weeks-exact_example = enumerate_iso_weeks-exact plain plain-IsCalendar 366 380
