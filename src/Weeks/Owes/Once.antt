-- ===== src/Weeks/Owes/Once.antt =====
-- A cadence owes one point in each of its periods (packages/domain-core/src/owes.ts).
use teacher_assistant.Base.{
  ℕ, zero, suc, ◌+◌, ◌-◌, ◌*◌, ◌≤◌, ◌<◌, ◌≡◌, refl, sym, ◌∙◌, subst, ◌↔◌, inl, inr, Bool, true,
  false, ◌&&◌, not, arith, leb, Bool-cases,
}
use teacher_assistant.Tracking.Types.{Frequency, daily, weekly, twice_monthly, monthly}
use teacher_assistant.Weeks.{Calendar, IsoWeek, iso_week_id, iso_week_start}
use teacher_assistant.Weeks.Iso.{IsCalendar, start_of_week}
use teacher_assistant.Weeks.Owes.{
  monthly_key, half_month_key, walk_back, max_mondays, is_first_instructional_of_period,
  is_due_in_week,
}

-- What Date promises of months: they do not go back, within one the days are counted up, and after
-- 31 days it is another.
pub record HasMonths (K : Calendar) : Type 0 where
  pub forward : (a b : ℕ) → a ≤ b → K.month_of a ≤ K.month_of b
  pub counted :
      (a b : ℕ)
      → a ≤ b
      → K.month_of a ≡ K.month_of b
      → K.day_of_month b ≡ K.day_of_month a + (b - a)
  pub short : (a b : ℕ) → a + 31 ≤ b → K.month_of a < K.month_of b

-- The period of a week, for a frequency that has periods longer than a week.
abbrev pub period_of : Calendar → Frequency → ℕ → ℕ
period_of K daily d = d
period_of K weekly d = d
period_of K monthly d = monthly_key K d
period_of K twice_monthly d = half_month_key K d

-- Periods that do not go back and end within 35 days.
record IsCadence (key : ℕ → ℕ) : Type 0 where
  onward : (a b : ℕ) → a ≤ b → key a ≤ key b
  ends : (a b : ℕ) → a + 35 ≤ b → key a < key b

module _ (K : Calendar) (months : HasMonths K) where
  monthly-IsCadence : IsCadence (monthly_key K)
  unfolding monthly_key
  monthly-IsCadence = record {
    onward = months.forward;
    ends = λ a b h. months.short a b (omega arith);
  }

  half-IsCadence : IsCadence (half_month_key K)
  unfolding half_month_key monthly_key
  half-IsCadence = record {
    onward = λ a b h. ground (arith, months.forward a b h, months.counted a b h);
    ends = λ a b h. ground (arith, months.short a b (omega arith));
  }

  -- An earlier Monday of the period that has an instructional week is found.
  walk_back_finds :
      (f : ℕ) (breaks : IsoWeek → Bool) (key : ℕ → ℕ) (m k : ℕ)
      → IsCadence key
      → k < f
      → key m ≡ key (m + 7 * (k + 1))
      → breaks (iso_week_id K m) ≡ false
      → walk_back K f breaks key (key m) (m + 7 * (k + 1)) ≡ false
  unfolding walk_back
  walk_back_finds zero breaks key m k cadence h e i = absurd (omega arith)
  walk_back_finds (suc f) breaks key m zero cadence h e i =
      let back : m + 7 * (0 + 1) - 7 ≡ m = omega arith in rw back (ground arith)
  walk_back_finds (suc f) breaks key m (suc k) cadence h e i =
      let back : m + 7 * (suc k + 1) - 7 ≡ m + 7 * (k + 1) = omega arith in
      let low = cadence.onward m (m + 7 * (k + 1)) (omega arith) in
      let high = cadence.onward (m + 7 * (k + 1)) (m + 7 * (suc k + 1)) (omega arith) in
      let same : key (m + 7 * (k + 1)) ≡ key m = omega (arith, low, high, e) in
      let rest = walk_back_finds f breaks key m k cadence (omega arith) (sym same) i in
      rw back (ground arith)

-- A week has no earlier instructional week in its period.
abbrev pub IsFirst : Calendar → (ℕ → ℕ) → (IsoWeek → Bool) → ℕ → Type 0
IsFirst K period breaks j =
    (i : ℕ) → i < j → period (7 * i) ≡ period (7 * j) → breaks (iso_week_id K (7 * i)) ≡ true

with_break :
    {A : Type 0} {first : Bool} (b : Bool)
    → (first ≡ true) ↔ A
    → ((not b && first) ≡ true) ↔ ((b ≡ false) × A)
with_break true f = ((λ h. absurd (ground arith)), λ h. absurd (let e = h.0 in ground arith))
with_break false f = ((λ h. (refl, f.0 h)), λ h. f.1 h.1)

module _ (K : Calendar) (laws : IsCalendar K) (months : HasMonths K) where
  -- The Monday of the i-th week.
  week_start : (i : ℕ) → iso_week_start K (iso_week_id K (7 * i)) ≡ 7 * i
  week_start i = start_of_week K laws (7 * i) ∙ omega arith

  later_not_first :
      (key : ℕ → ℕ) (breaks : IsoWeek → Bool) (i j : ℕ)
      → IsCadence key
      → i < j
      → key (7 * i) ≡ key (7 * j)
      → breaks (iso_week_id K (7 * i)) ≡ false
      → is_first_instructional_of_period K (iso_week_id K (7 * j)) breaks key ≡ false
  unfolding is_first_instructional_of_period
  later_not_first key breaks i j cadence h e n = elim (Bool-cases (leb (i + 5) j)) [
    | inl far ↦ absurd (omega (arith, cadence.ends (7 * i) (7 * j) (ground arith), e))
    | inr near ↦
        (let at : 7 * j ≡ 7 * i + 7 * (j - i - 1 + 1) = omega arith in
          let found =
            walk_back_finds K months max_mondays breaks key (7 * i) (j - i - 1) cadence
              (ground arith) (subst (λ c. key (7 * i) ≡ key c) at e) n in
          let there =
            subst (λ c. walk_back K max_mondays breaks key (key (7 * i)) c ≡ false) (sym at)
              found in
          let named = subst (λ v. walk_back K max_mondays breaks key v (7 * j) ≡ false) e there in
          subst (λ c. walk_back K max_mondays breaks key (key c) c ≡ false) (sym (week_start j))
            named)
  ]

  walk_back_clear :
      (f : ℕ) (breaks : IsoWeek → Bool) (key : ℕ → ℕ) (my_key c : ℕ)
      → f ≤ c
      → ((i : ℕ) → i < c → key (7 * i) ≡ my_key → breaks (iso_week_id K (7 * i)) ≡ true)
      → walk_back K f breaks key my_key (7 * c) ≡ true
  unfolding walk_back
  walk_back_clear zero breaks key my_key c h all = refl
  walk_back_clear (suc f) breaks key my_key zero h all = absurd (omega arith)
  walk_back_clear (suc f) breaks key my_key (suc c) h all =
      let back : 7 * suc c - 7 ≡ 7 * c = omega arith in
      let rest =
        walk_back_clear f breaks key my_key c (omega arith) (λ i k e. all i (omega arith) e) in
      let this = all c (omega arith) in rw back (ground arith)

  clear_first :
      (key : ℕ → ℕ) (breaks : IsoWeek → Bool) (j : ℕ)
      → max_mondays ≤ j
      → IsFirst K key breaks j
      → is_first_instructional_of_period K (iso_week_id K (7 * j)) breaks key ≡ true
  unfolding is_first_instructional_of_period
  clear_first key breaks j h all =
      subst (λ c. walk_back K max_mondays breaks key (key c) c ≡ true) (sym (week_start j))
        (walk_back_clear max_mondays breaks key (key (7 * j)) j h all)

  is_first_instructional_of_period-IsFirst :
      (key : ℕ → ℕ) (breaks : IsoWeek → Bool) (j : ℕ)
      → IsCadence key
      → max_mondays ≤ j
      → (is_first_instructional_of_period K (iso_week_id K (7 * j)) breaks key ≡ true)
        ↔ IsFirst K key breaks j
  is_first_instructional_of_period-IsFirst key breaks j cadence h = (
    (λ due i l e. elim (Bool-cases (breaks (iso_week_id K (7 * i)))) [
      | inl y ↦ y
      | inr n ↦ absurd (ground (due, later_not_first key breaks i j cadence l e n, arith))
    ]),
    clear_first key breaks j h,
  )

  -- A goal is due in a week exactly if the week is instructional and, where its frequency has longer
  -- periods, no earlier week of the period is.
  pub is_due_in_week-IsFirst :
      (frequency : Frequency) (breaks : IsoWeek → Bool) (j : ℕ)
      → max_mondays ≤ j
      → (is_due_in_week K frequency (iso_week_id K (7 * j)) breaks ≡ true)
        ↔ ((breaks (iso_week_id K (7 * j)) ≡ false) × IsFirst K (period_of K frequency) breaks j)
  unfolding is_due_in_week
  is_due_in_week-IsFirst daily breaks j h =
      ((λ d. (ground arith, λ i l e. absurd (omega arith))), λ d. (let a = d.0 in ground arith))
  is_due_in_week-IsFirst weekly breaks j h =
      ((λ d. (ground arith, λ i l e. absurd (omega arith))), λ d. (let a = d.0 in ground arith))
  is_due_in_week-IsFirst monthly breaks j h = with_break (breaks (iso_week_id K (7 * j))) (
      is_first_instructional_of_period-IsFirst (monthly_key K) breaks j (monthly-IsCadence K months)
        h)
  is_due_in_week-IsFirst twice_monthly breaks j h = with_break (breaks (iso_week_id K (7 * j))) (
      is_first_instructional_of_period-IsFirst (half_month_key K) breaks j (half-IsCadence K months)
        h)
