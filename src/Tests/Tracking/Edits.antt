-- ===== src/Tests/Tracking/Edits.antt =====
-- The theorems on edits of baseline points at a point with eight of a probe's ten questions.
use teacher_assistant.Base.{◌≡◌, refl, true, false, ◌==◌, ◌%◌, [], ◌∷◌, none, some}
use teacher_assistant.Tracking.Types.{
  proposed, teacher, recorded, removed, IepGoal, BaselinePoint, ProbeDefinition,
}
use teacher_assistant.Tracking.Order.{computed_ratio, is_denominator_mismatch}
use teacher_assistant.Tracking.BaselineEdit.{
  EditChecks, refused, edited, already_removed, invalid_reason, remove_reason_of,
  BaselineEditOptions, check_baseline_score, baseline_total_prefill, takes_baseline_score,
  create_baseline_point, was_adopted_from,
}
use teacher_assistant.Tracking.BaselineEdit.Edits.{
  edit_block, fixed_point, removed_point, kept_point, fix_baseline_point, remove_baseline_point,
  keep_baseline_total, was_fixed, baseline_history, entries, entry_of, pair_of, numerator_in,
  denominator_in, reason_in,
}
use teacher_assistant.Tracking.BaselineEdit.Cases.{Edit, fixes, removes, edit_point, AllEdited}
use teacher_assistant.Tracking.BaselineEdit.Audit.{
  IsConsistent, create_baseline_point-IsConsistent, edit_point-IsConsistent,
}
use teacher_assistant.Tests.Tracking.{fractions, goal}

abbrev whole : EditChecks fractions
whole = record { is_integer = λ f. f.0 % f.1 == 0; is_date = λ d. true }

abbrev open_goal : IepGoal fractions
open_goal = record goal { status = proposed }

abbrev probe : ProbeDefinition fractions
probe = record {
  probe_definition_id = 9;
  goal_id = 1;
  expected_denominator = (10, 1);
  condition = "c";
  label = none;
}

abbrev eight : BaselinePoint fractions
eight = record {
  baseline_point_id = 30;
  goal_id = 1;
  student_id = 2;
  admin_date = 100;
  entry_ts = 7;
  numerator = (5, 1);
  denominator_used = (8, 1);
  computed_value = some (computed_ratio fractions (5, 1) (8, 1));
  probe_condition_id = 1;
  status = recorded;
  removed_reason = none;
  removed_ts = none;
  removed_by = none;
  denominator_original = some (10, 1);
  denominator_mismatch = some (is_denominator_mismatch fractions (10, 1) (8, 1));
  mismatch_kept = none;
  corrected_after_adoption = none;
  revisions = [];
}

edits : Unit {0}
unfolding computed_ratio is_denominator_mismatch check_baseline_score baseline_total_prefill
    takes_baseline_score create_baseline_point was_adopted_from edit_block fixed_point removed_point
    kept_point fix_baseline_point remove_baseline_point keep_baseline_total remove_reason_of
    baseline_history entries entry_of pair_of numerator_in denominator_in reason_in
edits = tt

abbrev by_teacher : BaselineEditOptions fractions
by_teacher = record { who = teacher; when = 500 }

abbrev to_six : Edit fractions
to_six = fixes (record { new_numerator = some (6, 1); new_denominator = none; new_date = none })

edits_tests :
    (create_baseline_point fractions whole 30 open_goal (some probe) 100 (5, 1) (8, 1) teacher 7
      ≡ edited eight)
    × (edit_point fractions whole
          (removes "duplicate")
          (record eight { status = removed })
          open_goal
          by_teacher
        ≡ refused already_removed)
    × (edit_point fractions whole (removes "unknown") eight open_goal by_teacher
        ≡ refused invalid_reason)
    × (baseline_history fractions
          (fixed_point fractions eight open_goal (6, 1) (8, 1) 100 true false by_teacher)
        ≡ was_fixed 500 ((5, 1), (8, 1)) ((6, 1), (8, 1)) ∷ [])
unfolding edits
edits_tests = (refl, refl, refl, refl)

eight-IsConsistent : IsConsistent fractions eight
unfolding edits
eight-IsConsistent =
    create_baseline_point-IsConsistent fractions whole 30 open_goal (some probe) 100 (5, 1) (8, 1)
      teacher 7

edit_point-IsConsistent_example :
    AllEdited fractions
      (IsConsistent fractions)
      (edit_point fractions whole to_six eight open_goal by_teacher)
edit_point-IsConsistent_example =
    edit_point-IsConsistent fractions whole to_six eight open_goal by_teacher eight-IsConsistent
