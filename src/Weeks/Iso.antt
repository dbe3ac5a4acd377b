-- ===== src/Weeks/Iso.antt =====
-- The ISO weeks of packages/domain-core/src/instructional-weeks.ts: a week is told by its name.
use teacher_assistant.Base.{
  ℕ, zero, suc, ◌+◌, ◌-◌, ◌*◌, ◌/◌, ◌%◌, ◌≤◌, ◌<◌, ◌≡◌, sym, ap, ◌∙◌, subst, true, List, [], ◌∷◌,
  some, arith, leb, if◌then◌else◌, ◌==◌, Bool-cases, inl, inr, In,
}
use teacher_assistant.Weeks.{
  Calendar, IsoWeek, day_num, iso_week_id, iso_week_start, weeks_from, enumerate_iso_weeks,
}
use teacher_assistant.Weeks.Ids.{week_text, parse_week}
use teacher_assistant.Weeks.Ids.Reading.{parse_week-week_text}

-- What Date promises: a day lies in its year, and a year has 365 or 366 days.
pub record IsCalendar (K : Calendar) : Type 0 where
  pub in_year : (d : ℕ) → K.year_start (K.year_of d) ≤ d
  pub before_next : (d : ℕ) → d < K.year_start (K.year_of d) + 366

-- The first Thursday of a year that starts at `s`, and a Thursday of that year.
thursdays :
    (s t k : ℕ)
    → s ≤ t
    → t ≡ 7 * k + 3
    → (s + 3 - (s + 3) % 7) + (1 + (t - (s + 3 - (s + 3) % 7 + 3)) / 7 - 1) * 7 ≡ 7 * k
thursdays s t k h e = omega arith

weeks_bound :
    (s t k : ℕ) → s ≤ t → t < s + 366 → t ≡ 7 * k + 3 → 1 + (t - (s + 3 - (s + 3) % 7 + 3)) / 7 ≤ 53
weeks_bound s t k h l e = omega arith

module _ (K : Calendar) (laws : IsCalendar K) where
  pub start_of_week : (d : ℕ) → iso_week_start K (iso_week_id K d) ≡ d - day_num d
  unfolding iso_week_start iso_week_id
  start_of_week d =
      thursdays (K.year_start (K.year_of (d - day_num d + 3))) (d - day_num d + 3) (d / 7)
        (laws.in_year (d - day_num d + 3)) (omega arith)
      ∙ omega arith

  iso_week_id-bounds : (d : ℕ) → (1 ≤ (iso_week_id K d).week) × ((iso_week_id K d).week ≤ 53)
  unfolding iso_week_id
  iso_week_id-bounds d = (
    omega arith,
    weeks_bound (K.year_start (K.year_of (d - day_num d + 3))) (d - day_num d + 3) (d / 7)
        (laws.in_year (d - day_num d + 3)) (laws.before_next (d - day_num d + 3)) (omega arith),
  )

  thursday_year :
      (d : ℕ) → K.year_of (iso_week_start K (iso_week_id K d) + 3) ≡ (iso_week_id K d).year
  unfolding iso_week_id
  thursday_year d = ap (λ monday. K.year_of (monday + 3)) (start_of_week d)

  -- A date's week id is read back from its text; the start of the week that it names is the Monday of
  -- the date's own week, its year is the year of the Thursday after that, and its number is from 1
  -- to 53.
  pub iso_week_start-iso_week_id :
      (d : ℕ)
      → (parse_week (week_text (iso_week_id K d)) ≡ some (iso_week_id K d))
        × (iso_week_start K (iso_week_id K d) ≡ d - d % 7)
        × (K.year_of (iso_week_start K (iso_week_id K d) + 3) ≡ (iso_week_id K d).year)
        × (1 ≤ (iso_week_id K d).week)
        × ((iso_week_id K d).week ≤ 53)
  iso_week_start-iso_week_id d = (
    parse_week-week_text (iso_week_id K d),
    start_of_week d,
    thursday_year d,
    (iso_week_id-bounds d).0,
    (iso_week_id-bounds d).1,
  )

  weeks_from_complete :
      (f k i end : ℕ)
      → k ≤ i
      → i < k + f
      → 7 * i ≤ end
      → In (iso_week_id K (7 * i)) (weeks_from K f (7 * k) end)
  unfolding weeks_from
  weeks_from_complete zero k i end le lt h = absurd (omega arith)
  weeks_from_complete (suc f) k i end le lt h =
      let on : leb (7 * k) end ≡ true = ground arith in
      let next : 7 * k + 7 ≡ 7 * suc k = omega arith in
      rw (on, next)
        (elim (Bool-cases (k == i)) [
          | inl y ↦ inl (ap (λ n. iso_week_id K (7 * n)) (ground arith))
          | inr n ↦ inr (weeks_from_complete f (suc k) i end (ground arith) (omega arith) h)
        ])

  weeks_from_sound :
      (f k end : ℕ) (w : IsoWeek)
      → In w (weeks_from K f (7 * k) end)
      → (i : ℕ) × (k ≤ i) × (7 * i ≤ end) × (w ≡ iso_week_id K (7 * i))
  unfolding weeks_from
  weeks_from_sound zero k end w h = elim h [ ]
  weeks_from_sound (suc f) k end w h = elim (Bool-cases (leb (7 * k) end)) [
    | inr off ↦ elim (subst (λ b. In w (if b then here else [])) off h) [ ]
    | inl on ↦
        place (ground arith)
          (λ r. weeks_from_sound f (suc k) end w (subst (λ c. In w (weeks_from K f c end)) next r))
          (subst (λ b. In w (if b then here else [])) on h)
  ]
    where
      here : List IsoWeek
      here = iso_week_id K (7 * k) ∷ weeks_from K f (7 * k + 7) end

      next : 7 * k + 7 ≡ 7 * suc k
      next = omega arith

      place :
          7 * k ≤ end
          → (In w (weeks_from K f (7 * k + 7) end)
              → (i : ℕ) × (suc k ≤ i) × (7 * i ≤ end) × (w ≡ iso_week_id K (7 * i)))
          → In w here
          → (i : ℕ) × (k ≤ i) × (7 * i ≤ end) × (w ≡ iso_week_id K (7 * i))
      place le later (inl e) = (k, omega arith, le, sym e)
      place le later (inr r) = let (i, l, u, e) = later r in (i, omega arith, u, e)

  -- The weeks from a start to an end are exactly those whose Monday lies between the Monday of the
  -- start's week and the end.
  pub enumerate_iso_weeks-exact :
      (start end : ℕ)
      → ((i : ℕ)
          → start - day_num start ≤ 7 * i
          → 7 * i ≤ end
          → In (iso_week_id K (7 * i)) (enumerate_iso_weeks K start end))
        × ((w : IsoWeek)
            → In w (enumerate_iso_weeks K start end)
            → (i : ℕ) × (start - day_num start ≤ 7 * i)
              × (7 * i ≤ end)
              × (w ≡ iso_week_id K (7 * i)))
  unfolding enumerate_iso_weeks
  enumerate_iso_weeks-exact start end =
      let monday : iso_week_start K (iso_week_id K start) ≡ 7 * (start / 7) =
        start_of_week start ∙ omega arith in
      (
        (λ i l u.
            subst (λ c. In (iso_week_id K (7 * i)) (weeks_from K (suc end) c end)) (sym monday)
              (weeks_from_complete (suc end) (start / 7) i end (omega arith) (omega arith) u)),
        λ w h.
            (let (i, l, u, e) =
                weeks_from_sound (suc end) (start / 7) end w
                  (subst (λ c. In w (weeks_from K (suc end) c end)) monday h) in
              (i, omega arith, u, e)),
      )
