-- ===== src/Tests/Tracking/Points.antt =====
-- The theorems on data points at a captured and an edited point.
use teacher_assistant.Base.{◌≡◌, refl, true, false, none, some}
use teacher_assistant.Tracking.Types.{
  math_resource, teacher, no_data, no_time, counted, gen_ed, ProgressDataPoint,
}
use teacher_assistant.Tracking.Order.{computed_ratio, is_denominator_mismatch}
use teacher_assistant.Tracking.DataPoint.{
  ScoredPointInput, capture_scored_point, scored_point, EditableFields, apply_edit, old_values,
  new_values, merge, clear_value, resync,
}
use teacher_assistant.Tracking.DataPoint.Invariant.{
  IsConsistent, Recorded, capture, edit, Recorded-IsConsistent, apply_edit-forgets,
}
use teacher_assistant.Tests.Tracking.{fractions, texts}

abbrev input : ScoredPointInput fractions
input = record {
  goal_id = 1;
  student_id = 2;
  admin_date = 20;
  entry_ts = 5_000;
  numerator = (7, 1);
  denominator_used = (8, 1);
  expected_denominator = some (10, 1);
  mismatch_acknowledged = none;
  mismatch_window_disposition = some counted;
  probe_condition_id = none;
  construct = none;
  setting = math_resource;
  scorer = teacher;
}

abbrev taken : ProgressDataPoint fractions
taken = scored_point fractions 30 input

-- The denominator is corrected to the expected one.
abbrev corrected : EditableFields fractions
corrected = record {
  numerator = none;
  denominator_used = some (10, 1);
  state = none;
  no_data_reason = none;
  setting = some gen_ed;
}

-- The probe was not taken after all.
abbrev struck : EditableFields fractions
struck = record {
  numerator = none;
  denominator_used = none;
  state = some no_data;
  no_data_reason = some no_time;
  setting = none;
}

points : Unit {0}
unfolding computed_ratio is_denominator_mismatch capture_scored_point scored_point apply_edit
    old_values new_values merge clear_value resync
points = tt

abbrev edited : ProgressDataPoint fractions
edited = apply_edit fractions taken corrected "t" 6_000

point_tests :
    (taken.denominator_mismatch ≡ some true)
    × (taken.mismatch_window_disposition ≡ some counted)
    × (edited.denominator_mismatch ≡ some false)
    × (edited.mismatch_window_disposition ≡ none)
    × (edited.computed_value ≡ some (7, 10))
    × ((apply_edit fractions taken struck "t" 6_000).numerator ≡ none)
unfolding points
point_tests = (refl, refl, refl, refl, refl, refl)

taken-Recorded : Recorded fractions taken
unfolding points
taken-Recorded = capture texts 30 input taken refl

Recorded-IsConsistent_example :
    IsConsistent fractions (apply_edit fractions edited struck "t" 7_000)
Recorded-IsConsistent_example =
    Recorded-IsConsistent fractions
      (edit (edit taken-Recorded corrected "t" 6_000) struck "t" 7_000)

apply_edit-forgets_example :
    apply_edit fractions (record taken { numerator = some (3, 1) }) struck "t" 6_000
    ≡ apply_edit fractions taken struck "t" 6_000
apply_edit-forgets_example =
    apply_edit-forgets fractions taken struck "t" 6_000 (some (3, 1)) refl refl
