-- ===== src/Tests/Tracking.antt =====
-- Data points and the consistency window of a goal, over fractions as the numbers.
mod Points
mod Windows
mod Baselines
mod Edits
use teacher_assistant.Base.{ℕ, ◌+◌, ◌*◌, [], ◌∷◌, none, some, ◌==◌, false, ltb, leb}
use teacher_assistant.Tracking.Types.{
  Arithmetic, IsoDate, OpaqueId, percent_correct_over_total, math_resource, teacher, scored, active,
  cbm, weekly, none_needed, IepGoal, ProgressDataPoint,
}
use teacher_assistant.Tracking.DataPoint.{TextOps}

-- A fraction, by its numerator and denominator.
abbrev pub Fraction : Type 0
Fraction = ℕ × ℕ

abbrev pub fractions : Arithmetic
fractions = record {
  Number = Fraction;
  of_ℕ = λ n. (n, 1);
  add = λ a b. (a.0 * b.1 + b.0 * a.1, a.1 * b.1);
  div = λ a b. (a.0 * b.1, a.1 * b.0);
  mul = λ a b. (a.0 * b.0, a.1 * b.1);
  less = λ a b. ltb (a.0 * b.1) (b.0 * a.1);
  at_least = λ a b. leb (b.0 * a.1) (a.0 * b.1);
  equal = λ a b. a.0 * b.1 == b.0 * a.1;
}

-- Text that needs no trimming, and a test of containment by equality alone.
abbrev pub texts : TextOps
texts = record {
  trim = λ t. t;
  to_lower = λ t. t;
  collapse_spaces = λ t. t;
  includes = λ a b. false;
}

-- 80 percent on three probes.
abbrev pub goal : IepGoal fractions
goal = record {
  goal_id = 1;
  student_id = 2;
  goal_text = "Given a worksheet, A.B. will solve equations";
  goal_label = some "1a";
  behavior = "will solve equations";
  circumstance = "given a worksheet";
  criterion_level = (80, 1);
  criterion_consistency = record { n_probes = 3; phrase = "on 3 consecutive probes" };
  method_general = cbm;
  method_tool = "probe";
  frequency = weekly;
  denominator_model = percent_correct_over_total;
  denominator_basis = none;
  baseline_value = none;
  baseline_source = none;
  accom_mod = none_needed;
  accom_mod_detail = none;
  setting_default = math_resource;
  valid_settings = math_resource ∷ [];
  status = active;
  arc_date = none;
  arc_date_flag = none;
  iep_end_date = none;
  baseline_window_start = none;
  probe_definition_id = none;
  created_ts = 0;
  revisions = [];
}

abbrev pub point : OpaqueId → IsoDate → ℕ → ℕ → ProgressDataPoint fractions
point new_id date n used = record {
  data_point_id = new_id;
  goal_id = 1;
  student_id = 2;
  admin_date = date;
  entry_ts = date * 1_000;
  state = scored;
  numerator = some (n, 1);
  denominator_used = some (used, 1);
  denominator_original = none;
  denominator_mismatch = none;
  mismatch_acknowledged = none;
  mismatch_window_disposition = none;
  computed_value = some (n, used);
  probe_condition_id = none;
  setting = math_resource;
  scorer = teacher;
  validated_by = none;
  validated_ts = none;
  para_observations = none;
  accommodation_subtypes = none;
  no_data_reason = none;
  revisions = [];
}
