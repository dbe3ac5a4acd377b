-- ===== src/Tracking/Consistency/Mastery.antt =====
-- The date on which the window was first met, the observed mastery, and the counts of mismatched
-- points (packages/domain-core/src/consistency.ts).
use teacher_assistant.Base.{
  ℕ, suc, ◌+◌, ◌≤◌, ◌<◌, ◌≡◌, refl, sym, ◌⊎◌, inl, inr, Bool, true, false, ◌&&◌, not, List, [], ◌∷◌,
  Option, none, some, arith, ◌==◌, leb, if◌then◌else◌, Bool-cases, filter, length,
}
use teacher_assistant.Tracking.Types.{Arithmetic, IepGoal, ProgressDataPoint}
use teacher_assistant.Tracking.Order.{
  ArcKey, insert, sort, arc_key, in_computed_math, is_resolved_excluded, is_unresolved_mismatch,
}
use teacher_assistant.Tracking.Consistency.{
  ProbeDay, run_days, scored_probes_in_order, group_by_admin_date, meets_criterion,
  is_clamped_scored, percent_window, consistency_window, observe_mastery, is_percent,
  MasteryCandidate, candidate_if,
}
use teacher_assistant.Tracking.Consistency.Days.{run_of, run_days-run}

abbrev pub next_run : ℕ → ProbeDay → ℕ
next_run r d = if d.meets == d.count then r + d.count else 0

-- The window is first met on the day `d`: the run reaches `required` there and on no earlier day.
abbrev pub FirstMet : ℕ → ℕ → List ProbeDay → ProbeDay → Type 0
FirstMet required r [] d = ⊥
FirstMet required r (x ∷ ds) d =
    ((x ≡ d) × (required ≤ next_run r x))
    ⊎ ((next_run r x < required) × FirstMet required (next_run r x) ds d)

met_date_kept :
    (required r date : ℕ) (ds : List ProbeDay) → (run_days required r (some date) ds).1 ≡ some date
unfolding run_days
met_date_kept required r date [] = refl
met_date_kept required r date (d ∷ ds) =
    ground (arith, met_date_kept required (next_run r d) date ds)

first_met :
    (required r date : ℕ) (ds : List ProbeDay)
    → (run_days required r none ds).1 ≡ some date
    → (d : ProbeDay) × FirstMet required r ds d × (d.date ≡ date)
unfolding run_days
first_met required r date [] h = cc
first_met required r date (d ∷ ds) h = elim (Bool-cases (leb required (next_run r d))) [
  | inl enough ↦
      let kept = met_date_kept required (next_run r d) d.date ds in
      (d, inl (refl, ground arith), ground (arith, kept))
  | inr less ↦
      let later : (run_days required (next_run r d) none ds).1 ≡ some date = ground arith in
      let (x, first, e) = first_met required (next_run r d) date ds later in
      (x, inr (ground arith, first), e)
]

never_met :
    (required r : ℕ) (ds : List ProbeDay)
    → (run_days required r none ds).1 ≡ none
    → r < required
    → run_of r ds < required
unfolding run_days run_of
never_met required r [] h lt = lt
never_met required r (d ∷ ds) h lt = elim (Bool-cases (leb required (next_run r d))) [
  | inl enough ↦
      let kept = met_date_kept required (next_run r d) d.date ds in absurd (ground (arith, kept))
  | inr less ↦ never_met required (next_run r d) ds (ground arith) (ground arith)
]

module _ (A : Arithmetic) (goal : IepGoal A) (points : List (ProgressDataPoint A)) where
  abbrev pub days_of : List ProbeDay
  days_of = group_by_admin_date A (scored_probes_in_order A goal points) (meets_criterion A goal)

  -- What observeMastery makes of the run and of the date.
  abbrev pub Observed : Option MasteryCandidate → Bool → Type 0
  Observed none met = met ≡ false
  Observed (some c) met =
      (met ≡ true)
      × (c.goal_id ≡ goal.goal_id)
      × ((d : ProbeDay) × FirstMet goal.criterion_consistency.n_probes 0 days_of d
          × (c.window_met_date ≡ d.date))

  observed :
      1 ≤ goal.criterion_consistency.n_probes
      → (run : ℕ) (date : Option ℕ)
      → (run_days goal.criterion_consistency.n_probes 0 none days_of).0 ≡ run
      → (run_days goal.criterion_consistency.n_probes 0 none days_of).1 ≡ date
      → Observed
          (candidate_if goal.goal_id (leb goal.criterion_consistency.n_probes run) date)
          (leb goal.criterion_consistency.n_probes run)
  observed pos run none e f =
      let short = never_met goal.criterion_consistency.n_probes 0 days_of f pos in
      ground (arith, short, run_days-run goal.criterion_consistency.n_probes 0 none days_of)
  observed pos run (some date) e f =
      elim (Bool-cases (leb goal.criterion_consistency.n_probes run)) [
        | inr no_run ↦ rw no_run refl
        | inl enough ↦
            let (d, first, same) = first_met goal.criterion_consistency.n_probes 0 date days_of f in
            rw enough (refl, refl, (d, first, sym same))
      ]

  -- For a percent goal that asks for at least one probe, mastery is observed exactly when the window is
  -- met now; the candidate is for this goal, and its date is the first day on which the run reached the
  -- required number of probes.
  pub observe_mastery-Observed :
      is_percent goal.denominator_model ≡ true
      → 1 ≤ goal.criterion_consistency.n_probes
      → Observed (observe_mastery A goal points) (consistency_window A goal points).met
  unfolding observe_mastery consistency_window percent_window
  observe_mastery-Observed h pos = rw h (
      observed pos (run_days goal.criterion_consistency.n_probes 0 none days_of).0
        (run_days goal.criterion_consistency.n_probes 0 none days_of).1 refl refl)

module _ {ℓ} {P : Type ℓ} (key : P → ArcKey) where
  length-insert : (p : P) (qs : List P) → length (insert key p qs) ≡ suc (length qs)
  unfolding insert
  length-insert p [] = refl
  length-insert p (q ∷ qs) = ground (arith, length-insert p qs)

  length-sort : (ps : List P) → length (sort key ps) ≡ length ps
  unfolding sort
  length-sort [] = refl
  length-sort (p ∷ ps) = omega (arith, length-insert p (sort key ps), length-sort ps)

module _ (A : Arithmetic) (goal : IepGoal A) where
  mismatch_split :
      (points : List (ProgressDataPoint A))
      → length (filter (is_clamped_scored A goal) points)
        ≡ length (filter (λ p. is_clamped_scored A goal p && in_computed_math A p) points)
          + length
              (filter (λ p. not (in_computed_math A p)) (filter (is_clamped_scored A goal) points))
  mismatch_split [] = omega arith
  mismatch_split (p ∷ ps) = ground (arith, mismatch_split ps)

  excluded_split :
      (points : List (ProgressDataPoint A))
      → length (filter (λ p. not (in_computed_math A p)) points)
        ≡ length (filter (is_resolved_excluded A) points)
          + length (filter (is_unresolved_mismatch A) points)
  unfolding in_computed_math is_resolved_excluded is_unresolved_mismatch
  excluded_split [] = omega arith
  excluded_split (p ∷ ps) = ground (arith, excluded_split ps)

  -- Nothing is dropped silently: for a percent goal each scored point on or after the clamp is either a
  -- probe of the window or counted as an excluded mismatch, and an excluded one is either resolved so by
  -- the teacher or counted as unresolved.
  pub consistency_window-counts :
      (points : List (ProgressDataPoint A))
      → is_percent goal.denominator_model ≡ true
      → let w = consistency_window A goal points in
        let clamped = filter (is_clamped_scored A goal) points in
        (length clamped ≡ length (scored_probes_in_order A goal points) + w.excluded_mismatches)
        × (w.excluded_mismatches
            ≡ length (filter (is_resolved_excluded A) clamped) + w.unresolved_mismatches)
  unfolding consistency_window percent_window scored_probes_in_order
  consistency_window-counts points h = rw h (
    rw
        (length-sort (arc_key A)
          (filter (λ p. is_clamped_scored A goal p && in_computed_math A p) points))
        (mismatch_split points),
    excluded_split (filter (is_clamped_scored A goal) points),
  )
