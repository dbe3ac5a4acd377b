-- ===== src/Weeks.antt =====
-- packages/domain-core/src/instructional-weeks.ts and owes.ts. A date is its day number, counted from
-- a Monday; what Date says of months and years is a parameter.
pub mod Ids
pub mod Iso
pub mod Owes
use teacher_assistant.Base.{
  ℕ, zero, suc, ◌+◌, ◌-◌, ◌*◌, ◌/◌, ◌%◌, Bool, true, false, ◌&&◌, not, List, [], ◌∷◌, Option, none,
  some, ◌==◌, leb, ltb, if◌then◌else◌, length, filter,
}

pub record Calendar : Type 0 where
  -- The year of a day, and the first of January of a year.
  pub year_of : ℕ → ℕ
  pub year_start : ℕ → ℕ
  -- The months counted through, and the day of the month.
  pub month_of : ℕ → ℕ
  pub day_of_month : ℕ → ℕ

-- An ISO week's year and number.
pub record IsoWeek : Type 0 where
  pub year : ℕ
  pub week : ℕ

-- `(getUTCDay() + 6) % 7`: Monday is 0.
abbrev pub day_num : ℕ → ℕ
day_num d = d % 7

module _ (K : Calendar) where
  abbrev pub jan4 : ℕ → ℕ
  jan4 year = K.year_start year + 3

  -- isoWeekId: the two Thursdays are whole weeks apart, so the rounding is exact.
  unfoldable pub iso_week_id : ℕ → IsoWeek
  iso_week_id d =
      let thursday = d - day_num d + 3 in
      let iso_year = K.year_of thursday in
      let first_thursday = jan4 iso_year - day_num (jan4 iso_year) + 3 in
      record { year = iso_year; week = 1 + (thursday - first_thursday) / 7 }

  -- isoWeekStart
  unfoldable pub iso_week_start : IsoWeek → ℕ
  iso_week_start w = jan4 w.year - day_num (jan4 w.year) + (w.week - 1) * 7

  -- The loop of enumerateIsoWeeks, on fuel.
  unfoldable pub weeks_from : ℕ → ℕ → ℕ → List IsoWeek
  weeks_from zero cursor end = []
  weeks_from (suc f) cursor end =
      let rest = weeks_from f (cursor + 7) end in
      if leb cursor end then iso_week_id cursor ∷ rest else []

  unfoldable pub enumerate_iso_weeks : ℕ → ℕ → List IsoWeek
  enumerate_iso_weeks start end = weeks_from (suc end) (iso_week_start (iso_week_id start)) end

  -- `breaks` says which weeks are calendar breaks, `excused` which have only excused records.
  unfoldable pub instructional_weeks :
      Option ℕ → ℕ → (IsoWeek → Bool) → (IsoWeek → Bool) → List IsoWeek
  instructional_weeks none as_of breaks excused = []
  instructional_weeks (some first) as_of breaks excused =
      filter (λ w. not (breaks w) && not (excused w)) (enumerate_iso_weeks first as_of)

  abbrev pub instructional_week_count : Option ℕ → ℕ → (IsoWeek → Bool) → (IsoWeek → Bool) → ℕ
  instructional_week_count first as_of breaks excused =
      length (instructional_weeks first as_of breaks excused)

  -- The loop of baselineWindowStart: `left` weeks may still be scanned.
  unfoldable pub window_walk : ℕ → (IsoWeek → Bool) → ℕ → ℕ → ℕ → IsoWeek
  window_walk zero breaks n counted cursor = iso_week_id cursor
  window_walk (suc left) breaks n counted cursor =
      let counted' = if breaks (iso_week_id cursor) then counted else counted + 1 in
      let back = window_walk left breaks n counted' (cursor - 7) in
      if leb n counted' then iso_week_id cursor else back

  unfoldable pub baseline_window_start : ℕ → ℕ → (IsoWeek → Bool) → IsoWeek
  baseline_window_start arc_date n breaks =
      if n == 0
      then iso_week_id (iso_week_start (iso_week_id arc_date))
      else window_walk ((if ltb n 1 then 1 else n) * 8 + 1_040) breaks n 0
          (iso_week_start (iso_week_id arc_date))
