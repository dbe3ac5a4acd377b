-- ===== src/Tests/Tracking/Windows.antt =====
-- The theorems on the consistency window at a goal with five points.
use teacher_assistant.Base.{
  ◌+◌, ◌≡◌, refl, arith, true, List, [], ◌∷◌, none, some, map, filter, length,
}
use teacher_assistant.Tracking.Types.{ProgressDataPoint, undefined, criterion_level}
use teacher_assistant.Tracking.Order.{
  insert, sort, compare_arc_oldest_first, compare_arc_newest_first, compare_code_points,
  computed_ratio, percent_correct, is_counted_off_basis, is_resolved_excluded,
  is_unresolved_mismatch, in_computed_math,
}
use teacher_assistant.Tracking.Consistency.{
  add_probe, run_days, revision_touches_clamp_key, latest_clamp, clamp_after_from_revisions,
  is_clamped_scored, scored_probes_in_order, meets_criterion, group_from, group_by_admin_date,
  percent_window, consistency_window, observe_mastery, glyph_of,
}
use teacher_assistant.Tracking.Consistency.Days.{run_spec}
use teacher_assistant.Tracking.Consistency.Run.{consistency_window-run, mark, eligible}
use teacher_assistant.Tracking.Consistency.Mastery.{
  Observed, observe_mastery-Observed, consistency_window-counts,
}
use teacher_assistant.Tests.Tracking.{fractions, goal, point}

-- A miss on day 1; hits on days 2, 3 and twice on 4; on day 5 a mismatched miss that is left out.
abbrev points : List (ProgressDataPoint fractions)
points =
    point 14 4 9 10
    ∷ point 11 1 5 10
    ∷ record (point 16 5 0 10) { denominator_mismatch = some true }
    ∷ point 13 3 8 10
    ∷ point 12 2 10 10
    ∷ point 15 4 8 10
    ∷ []

windows : Unit {0}
unfolding insert sort compare_arc_oldest_first compare_arc_newest_first compare_code_points
    computed_ratio percent_correct is_counted_off_basis is_resolved_excluded is_unresolved_mismatch
    in_computed_math add_probe run_days revision_touches_clamp_key latest_clamp
    clamp_after_from_revisions is_clamped_scored scored_probes_in_order meets_criterion group_from
    group_by_admin_date percent_window consistency_window observe_mastery glyph_of
windows = tt

window_tests :
    ((consistency_window fractions goal points).run ≡ 4)
    × ((consistency_window fractions goal points).window_met_date ≡ some 4)
    × ((consistency_window fractions goal points).unresolved_mismatches ≡ 1)
    × (observe_mastery fractions goal points ≡ some (record { goal_id = 1; window_met_date = 4 }))
    × (observe_mastery fractions goal (point 17 6 7 10 ∷ points) ≡ none)
    × ((consistency_window fractions
          (record goal {
            revisions =
                record {
                  who = "t";
                  when = 259_200_005;
                  old = (criterion_level, undefined) ∷ [];
                  new = [];
                }
                ∷ [];
          })
          points).run
        ≡ 3)
unfolding windows
window_tests = (refl, refl, refl, refl, refl, refl)

consistency_window-run_example :
    (consistency_window fractions goal points).run
    ≡ run_spec (map (mark fractions goal) (eligible fractions goal points))
consistency_window-run_example = consistency_window-run fractions goal points refl

observe_mastery-Observed_example :
    Observed fractions goal points
      (observe_mastery fractions goal points)
      (consistency_window fractions goal points).met
observe_mastery-Observed_example = observe_mastery-Observed fractions goal points refl (omega arith)

consistency_window-counts_example :
    (length (filter (is_clamped_scored fractions goal) points)
      ≡ length (scored_probes_in_order fractions goal points)
        + (consistency_window fractions goal points).excluded_mismatches)
    × ((consistency_window fractions goal points).excluded_mismatches
        ≡ length (
            filter
              (is_resolved_excluded fractions)
              (filter (is_clamped_scored fractions goal) points))
          + (consistency_window fractions goal points).unresolved_mismatches)
consistency_window-counts_example = consistency_window-counts fractions goal points refl
