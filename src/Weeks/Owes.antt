-- ===== src/Weeks/Owes.antt =====
-- packages/domain-core/src/owes.ts: whether a goal owes a point in a week.
pub mod Once
use teacher_assistant.Base.{
  ℕ, zero, suc, ◌+◌, ◌-◌, ◌*◌, Bool, true, false, ◌&&◌, not, ◌==◌, leb, if◌then◌else◌,
}
use teacher_assistant.Tracking.Types.{Frequency, daily, weekly, twice_monthly, monthly}
use teacher_assistant.Weeks.{Calendar, IsoWeek, iso_week_id, iso_week_start}

abbrev pub max_mondays : ℕ
max_mondays = 6

module _ (K : Calendar) where
  unfoldable pub monthly_key : ℕ → ℕ
  monthly_key monday = K.month_of monday

  unfoldable pub half_month_key : ℕ → ℕ
  half_month_key monday = 2 * monthly_key monday + (if leb (K.day_of_month monday) 15 then 0 else 1)

  -- The loop of isFirstInstructionalOfPeriod, on fuel: a period has no more than five Mondays.
  unfoldable pub walk_back : ℕ → (IsoWeek → Bool) → (ℕ → ℕ) → ℕ → ℕ → Bool
  walk_back zero breaks key_of my_key cursor = true
  walk_back (suc f) breaks key_of my_key cursor =
      let rest = walk_back f breaks key_of my_key (cursor - 7) in
      if not (key_of (cursor - 7) == my_key)
      then true
      else if not (breaks (iso_week_id K (cursor - 7)))
      then false
      else rest

  unfoldable pub is_first_instructional_of_period : IsoWeek → (IsoWeek → Bool) → (ℕ → ℕ) → Bool
  is_first_instructional_of_period w breaks key_of =
      walk_back max_mondays breaks key_of (key_of (iso_week_start K w)) (iso_week_start K w)

  abbrev pub due_by : Frequency → IsoWeek → (IsoWeek → Bool) → Bool
  due_by daily w breaks = true
  due_by weekly w breaks = true
  due_by monthly w breaks = is_first_instructional_of_period w breaks monthly_key
  due_by twice_monthly w breaks = is_first_instructional_of_period w breaks half_month_key

  unfoldable pub is_due_in_week : Frequency → IsoWeek → (IsoWeek → Bool) → Bool
  is_due_in_week frequency w breaks = not (breaks w) && due_by frequency w breaks
