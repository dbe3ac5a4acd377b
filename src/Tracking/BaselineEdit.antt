-- ===== src/Tracking/BaselineEdit.antt =====
-- packages/domain-core/src/baseline-edit.ts: capture of baseline points, and the audited Fix, Remove
-- and Keep. The reason for a removal is a text, which need not be in the closed list.
pub mod Edits
pub mod Cases
pub mod Audit
use Prim.Native.String.{String}
use text.Mathlib.Text.{◌==◌ as str_eq}
use teacher_assistant.Base.{
  ℕ, Bool, true, false, ◌&&◌, ◌||◌, not, List, [], ◌∷◌, ◌++◌, Option, none, some, ◌==◌,
  if◌then◌else◌, filter, contains,
}
use teacher_assistant.Tracking.Types
use teacher_assistant.Tracking.Types.{
  Arithmetic, OpaqueId, IsoDate, Timestamp, GoalStatus, proposed, active, mastered, retired,
  DenominatorModel, percent_correct_over_total, DenominatorBasis, fixed, variable,
  BaselinePointStatus, recorded, removed, BaselineRemoveReason, entered_by_mistake, duplicate,
  wrong_student_or_goal, probe_not_per_goal_condition, Scorer, teacher, para,
  computed_from_baseline_points, BaselineMethod, mean, median, FieldName, numerator,
  denominator_used, status, baseline_source, baseline_method, baseline_point_ids, admin_date,
  mismatch_kept, removed_reason, FieldValue, number, flag, a_source, a_method, a_date,
  a_point_status, a_remove_reason, ids, Revision, IepGoal, BaselinePoint, ProbeDefinition,
}
use teacher_assistant.Tracking.Order.{computed_ratio, is_denominator_mismatch}
use teacher_assistant.Tracking.Baseline.{baseline_value_of}

pub data BaselineEditBlock : Type 0 where
  teacher_only not_proposed invalid_score invalid_date invalid_reason : BaselineEditBlock
  already_removed wrong_goal not_mismatched : BaselineEditBlock

pub data BaselineScoreProblem : Type 0 where
  numerator_missing total_missing over_total : BaselineScoreProblem

abbrev pub is_teacher : Scorer → Bool
is_teacher teacher = true
is_teacher para = false

-- The enum's text, which a revision carries.
abbrev pub scorer_text : Scorer → String
scorer_text teacher = "teacher"
scorer_text para = "para"

-- isBaselineRemoveReason: a text of the closed list, as the member that it is.
unfoldable pub remove_reason_of : String → Option BaselineRemoveReason
remove_reason_of s =
    if str_eq s "entered_by_mistake"
    then some entered_by_mistake
    else if str_eq s "duplicate"
    then some duplicate
    else if str_eq s "wrong_student_or_goal"
    then some wrong_student_or_goal
    else if str_eq s "probe_not_per_goal_condition"
    then some probe_not_per_goal_condition
    else none

abbrev pub is_proposed : GoalStatus → Bool
is_proposed proposed = true
is_proposed _ = false

abbrev pub is_removed_status : BaselinePointStatus → Bool
is_removed_status removed = true
is_removed_status recorded = false

abbrev pub is_variable : Option DenominatorBasis → Bool
is_variable (some variable) = true
is_variable _ = false

abbrev pub is_set : Option Bool → Bool
is_set (some true) = true
is_set _ = false

-- `given ?? old`
abbrev pub or_old : {A : Type 0} → Option A → A → A
or_old none old = old
or_old (some a) old = a

-- A flag that is set, or not there.
abbrev pub set_if : Bool → Option Bool
set_if true = some true
set_if false = none

module _ (A : Arithmetic) where
  open A use {Number, of_ℕ, less, equal}

  -- Number.isInteger, and whether a date is a calendar date.
  pub record EditChecks : Type 0 where
    pub is_integer : Number → Bool
    pub is_date : IsoDate → Bool

  -- What an edit comes to; an error is thrown in place of a result.
  pub data Edited : Type 0 where
    refused : BaselineEditBlock → Edited
    edited : BaselinePoint A → Edited

  pub record BaselineFix : Type 0 where
    pub new_numerator : Option Number
    pub new_denominator : Option Number
    pub new_date : Option IsoDate

  pub record BaselineEditOptions : Type 0 where
    pub who : Scorer
    pub when : Timestamp

  abbrev pub check_total : EditChecks → Number → Option Number → Option BaselineScoreProblem
  check_total X n none = some total_missing
  check_total X n (some d) =
      if not (X.is_integer d) || less d (of_ℕ 1)
      then some total_missing
      else if less d n
      then some over_total
      else none

  unfoldable pub check_baseline_score :
      EditChecks → Option Number → Option Number → Option BaselineScoreProblem
  check_baseline_score X none d = some numerator_missing
  check_baseline_score X (some n) d =
      if not (X.is_integer n) || less n (of_ℕ 0) then some numerator_missing else check_total X n d

  abbrev pub is_good : Option BaselineScoreProblem → Bool
  is_good none = true
  is_good (some problem) = false

  unfoldable pub takes_baseline_score : IepGoal A → Bool
  takes_baseline_score goal = elim goal.denominator_model [
    | percent_correct_over_total ↦ true
    | _ ↦ false
  ]

  abbrev pub expected_of : OpaqueId → Option (ProbeDefinition A) → Option Number
  expected_of goal none = none
  expected_of goal (some probe) =
      if probe.goal_id == goal then some probe.expected_denominator else none

  unfoldable pub baseline_total_prefill : IepGoal A → Option (ProbeDefinition A) → Option Number
  baseline_total_prefill goal probe =
      if not (takes_baseline_score goal) || is_variable goal.denominator_basis
      then none
      else expected_of goal.goal_id probe

  abbrev pub mismatch_of : Option Number → Number → Option Bool
  mismatch_of none used = none
  mismatch_of (some expected) used = some (is_denominator_mismatch A expected used)

  unfoldable pub create_baseline_point :
      EditChecks
      → OpaqueId
      → IepGoal A
      → Option (ProbeDefinition A)
      → IsoDate
      → Number
      → Number
      → Scorer
      → Timestamp
      → Edited
  create_baseline_point X id goal probe date n d who entry_ts =
      let expected = baseline_total_prefill goal probe in
      if not (is_teacher who)
      then refused teacher_only
      else if not (is_proposed goal.status)
      then refused not_proposed
      else if not (is_good (check_baseline_score X (some n) (some d)))
      then refused invalid_score
      else if not (X.is_date date)
      then refused invalid_date
      else edited (record {
        baseline_point_id = id;
        goal_id = goal.goal_id;
        student_id = goal.student_id;
        admin_date = date;
        entry_ts = entry_ts;
        numerator = n;
        denominator_used = d;
        computed_value = some (computed_ratio A n d);
        probe_condition_id = or_old goal.probe_definition_id goal.goal_id;
        status = recorded;
        removed_reason = none;
        removed_ts = none;
        removed_by = none;
        denominator_original = expected;
        denominator_mismatch = mismatch_of expected d;
        mismatch_kept = none;
        corrected_after_adoption = none;
        revisions = [];
      })

  -- fieldOf(rev.new, "baseline_source") of an adoption, and the two fields that adoptionRecord reads.
  unfoldable pub is_adoption : List (FieldName × FieldValue A) → Bool
  is_adoption [] = false
  is_adoption ((baseline_source, a_source computed_from_baseline_points) ∷ fs) = true
  is_adoption (f ∷ fs) = is_adoption fs

  unfoldable pub adopted_ids : List (FieldName × FieldValue A) → Option (List OpaqueId)
  adopted_ids [] = none
  adopted_ids ((baseline_point_ids, ids xs) ∷ fs) = some xs
  adopted_ids (f ∷ fs) = adopted_ids fs

  unfoldable pub adopted_method : List (FieldName × FieldValue A) → BaselineMethod
  adopted_method [] = mean
  adopted_method ((baseline_method, a_method median) ∷ fs) = median
  adopted_method (f ∷ fs) = adopted_method fs

  -- The last revision that is an adoption.
  unfoldable pub last_adoption : List (Revision A) → List (FieldName × FieldValue A)
  last_adoption [] = []
  last_adoption (r ∷ rs) = later (last_adoption rs) r
    where
      later : List (FieldName × FieldValue A) → Revision A → List (FieldName × FieldValue A)
      later [] r = if is_adoption r.new then r.new else []
      later (f ∷ fs) r = f ∷ fs

  unfoldable pub adoption_record : IepGoal A → Option (List OpaqueId) × BaselineMethod
  adoption_record goal =
      (adopted_ids (last_adoption goal.revisions), adopted_method (last_adoption goal.revisions))

  abbrev pub among : Option (List OpaqueId) → OpaqueId → Bool
  among none id = true
  among (some xs) id = contains id xs

  unfoldable pub was_adopted_from : IepGoal A → BaselinePoint A → Bool
  was_adopted_from goal p =
      not (is_proposed goal.status) && among (adoption_record goal).0 p.baseline_point_id
