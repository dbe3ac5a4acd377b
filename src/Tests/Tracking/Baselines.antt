-- ===== src/Tests/Tracking/Baselines.antt =====
-- The theorems on baselines and on the life of a goal at a proposed goal with four baseline points.
use teacher_assistant.Base.{
  ℕ, ◌≤◌, ◌≡◌, refl, ◌⊎◌, ◌↔◌, true, List, [], ◌∷◌, none, some, map, length,
}
use teacher_assistant.Tracking.Types.{
  proposed, mean, median, recorded, removed, BaselinePointStatus, IepGoal, BaselinePoint,
  ProgressDataPoint,
}
use teacher_assistant.Tracking.Order.{computed_ratio, percent_correct}
use teacher_assistant.Base.Texts.{all_chars}
use teacher_assistant.Tracking.Label.{
  is_goal_label, validate_goal_label, usable_goal_label, valid, invalid,
}
use teacher_assistant.Tracking.Baseline.{
  distinct_from, sum_from, mean_of, insert_number, sort_numbers, median_of, needs_total_decision,
  is_counted_baseline_point, baseline_value_of, derive_baseline,
}
use teacher_assistant.Tracking.Baseline.Counted.{AllSame, counted_points, derive_baseline-usable}
use teacher_assistant.Tracking.Lifecycle.{
  AdoptionBlock, blocked, passed, adopted, adoption_error, missing_label, not_proposed,
  AdoptOptions, can_adopt, adopt_goal, adoption_revision, lock_baseline, close_goal_by_arc,
}
use teacher_assistant.Tracking.Lifecycle.Adoption.{IsAdopted, adopt_goal-can_adopt}
use teacher_assistant.Tests.Tracking.{Fraction, fractions, goal, point, texts}

abbrev baseline : ℕ → ℕ → BaselinePointStatus → BaselinePoint fractions
baseline new_id n state = record {
  baseline_point_id = new_id;
  goal_id = 1;
  student_id = 2;
  admin_date = new_id;
  entry_ts = 0;
  numerator = (n, 1);
  denominator_used = (10, 1);
  computed_value = none;
  probe_condition_id = 9;
  status = state;
  removed_reason = none;
  removed_ts = none;
  removed_by = none;
  denominator_original = none;
  denominator_mismatch = none;
  mismatch_kept = none;
  corrected_after_adoption = none;
  revisions = [];
}

abbrev points : List (BaselinePoint fractions)
points =
    baseline 21 4 recorded
    ∷ baseline 22 0 removed
    ∷ baseline 23 3 recorded
    ∷ baseline 24 6 recorded
    ∷ []

abbrev open_goal : IepGoal fractions
open_goal = record goal { status = proposed }

abbrev by_median : AdoptOptions
by_median = record { who = "t"; when = 9_000; method = some median }

abbrev locked : IepGoal fractions
locked =
    lock_baseline fractions open_goal (400, 10)
      (adoption_revision fractions by_median (400, 10)
        (derive_baseline fractions open_goal points median))

baselines : Unit {0}
unfolding computed_ratio percent_correct all_chars is_goal_label validate_goal_label
    usable_goal_label distinct_from sum_from mean_of insert_number sort_numbers median_of
    needs_total_decision is_counted_baseline_point baseline_value_of derive_baseline can_adopt
    adopt_goal adoption_revision close_goal_by_arc
baselines = tt

baseline_tests :
    (can_adopt fractions texts open_goal points ≡ passed)
    × (can_adopt fractions texts goal points ≡ blocked not_proposed)
    × (can_adopt fractions texts (record open_goal { goal_label = some "goal 1" }) points
        ≡ blocked missing_label)
    × ((derive_baseline fractions open_goal points median).value ≡ some (400, 10))
    × (validate_goal_label texts "3.1" ≡ valid (some "3.1"))
    × (validate_goal_label texts "1234567" ≡ invalid)
    × (adopt_goal fractions texts open_goal points by_median ≡ adopted locked)
unfolding baselines
baseline_tests = (refl, refl, refl, refl, refl, refl, refl)

derive_baseline-usable_example :
    ((derive_baseline fractions open_goal points mean).usable ≡ true) ↔ (
      (3 ≤ length (counted_points fractions open_goal points))
      × AllSame (map (λ p. p.probe_condition_id) (counted_points fractions open_goal points)))
derive_baseline-usable_example = derive_baseline-usable fractions open_goal points mean

adopt_goal-can_adopt_example :
    ((reason : AdoptionBlock) × (can_adopt fractions texts open_goal points ≡ blocked reason)
      × (adopt_goal fractions texts open_goal points by_median ≡ adoption_error reason))
    ⊎ ((can_adopt fractions texts open_goal points ≡ passed)
        × ((value : Fraction) × ((derive_baseline fractions open_goal points median).value
              ≡ some value)
            × ((g : IepGoal fractions) × (adopt_goal fractions texts open_goal points by_median
                  ≡ adopted g)
                × IsAdopted fractions open_goal by_median value
                    (derive_baseline fractions open_goal points median)
                    g)))
adopt_goal-can_adopt_example = adopt_goal-can_adopt fractions texts open_goal points by_median

abbrev probes : List (ProgressDataPoint fractions)
probes = point 11 1 8 10 ∷ point 12 2 9 10 ∷ []
