-- ===== src/Tracking/DataPoint.antt =====
-- packages/domain-core/src/data-point.ts, with probeMatchesGoal of goal-validation.ts.
pub mod Invariant
pub mod Audit
use Prim.Native.String.{String}
use text.Mathlib.Text.{◌==◌ as str_eq}
use teacher_assistant.Base.{
  ℕ, Bool, true, false, ◌&&◌, ◌||◌, not, List, [], ◌∷◌, ◌++◌, Option, none, some, ◌==◌, is_some,
  if◌then◌else◌,
}
use teacher_assistant.Tracking.Types.{
  Arithmetic, OpaqueId, IsoDate, Timestamp, Setting, Scorer, DataPointState, scored, no_data,
  queued, MismatchDisposition, NoDataReason, FieldName, numerator, denominator_used, state,
  no_data_reason, setting, FieldValue, undefined, number, a_state, a_reason, a_setting, Revision,
  IepGoal, ProbeDefinition, ProgressDataPoint,
}
use teacher_assistant.Tracking.Order.{computed_ratio, is_denominator_mismatch, or_zero}

-- The string operations of JavaScript that the construct guard uses: trim, toLowerCase, the
-- replacement of each run of white space by one space, and includes.
pub record TextOps : Type 0 where
  pub trim : String → String
  pub to_lower : String → String
  pub collapse_spaces : String → String
  pub includes : String → String → Bool

unfoldable pub normalize : TextOps → String → String
normalize t text = t.collapse_spaces (t.to_lower (t.trim text))

abbrev pub is_no_data : DataPointState → Bool
is_no_data no_data = true
is_no_data _ = false

-- `a ?? b` on optional values.
abbrev pub coalesce {ℓ} : {A : Type ℓ} → Option A → Option A → Option A
coalesce none b = b
coalesce (some a) b = some a

abbrev pub value_or {ℓ} : {A : Type ℓ} → Option A → A → A
value_or none b = b
value_or (some a) b = a

module _ (A : Arithmetic) where
  open A use {Number}

  unfoldable pub probe_matches_goal : TextOps → IepGoal A → ProbeDefinition A → Bool
  probe_matches_goal t goal probe =
      let condition = normalize t probe.condition in
      let circumstance = normalize t goal.circumstance in
      if not (probe.goal_id == goal.goal_id)
      then false
      else str_eq condition circumstance || t.includes condition circumstance

  pub record ScoredPointInput : Type 0 where
    pub goal_id : OpaqueId
    pub student_id : OpaqueId
    pub admin_date : IsoDate
    pub entry_ts : Timestamp
    pub numerator : Number
    pub denominator_used : Number
    pub expected_denominator : Option Number
    pub mismatch_acknowledged : Option Bool
    pub mismatch_window_disposition : Option MismatchDisposition
    pub probe_condition_id : Option OpaqueId
    pub construct : Option (IepGoal A × ProbeDefinition A)
    pub setting : Setting
    pub scorer : Scorer

  pub data CaptureResult : Type 0 where
    captured : ProgressDataPoint A → CaptureResult
    construct_integrity_error : OpaqueId → CaptureResult

  abbrev pub construct_fails : TextOps → Option (IepGoal A × ProbeDefinition A) → Bool
  construct_fails t none = false
  construct_fails t (some (goal, probe)) = not (probe_matches_goal t goal probe)

  abbrev pub probe_id_of : Option (IepGoal A × ProbeDefinition A) → Option OpaqueId
  probe_id_of none = none
  probe_id_of (some (goal, probe)) = some probe.probe_definition_id

  abbrev pub mismatch_of : Option Number → Number → Bool
  mismatch_of none used = false
  mismatch_of (some expected) used = is_denominator_mismatch A expected used

  -- The flag is stored only where a total was expected.
  abbrev pub flag_of : Option Number → Number → Option Bool
  flag_of none used = none
  flag_of (some expected) used = some (is_denominator_mismatch A expected used)

  unfoldable pub scored_point : OpaqueId → ScoredPointInput → ProgressDataPoint A
  scored_point new_id input =
      let mismatch = mismatch_of input.expected_denominator input.denominator_used in
      let elected = mismatch && is_some input.mismatch_window_disposition in
      record {
        data_point_id = new_id;
        goal_id = input.goal_id;
        student_id = input.student_id;
        admin_date = input.admin_date;
        entry_ts = input.entry_ts;
        state = scored;
        numerator = some input.numerator;
        denominator_used = some input.denominator_used;
        denominator_original = input.expected_denominator;
        denominator_mismatch = flag_of input.expected_denominator input.denominator_used;
        mismatch_acknowledged =
            if elected then some (value_or input.mismatch_acknowledged true) else none;
        mismatch_window_disposition = if elected then input.mismatch_window_disposition else none;
        computed_value = some (computed_ratio A input.numerator input.denominator_used);
        probe_condition_id = coalesce (probe_id_of input.construct) input.probe_condition_id;
        setting = input.setting;
        scorer = input.scorer;
        validated_by = none;
        validated_ts = none;
        para_observations = none;
        accommodation_subtypes = none;
        no_data_reason = none;
        revisions = [];
      }

  unfoldable pub capture_scored_point : TextOps → OpaqueId → ScoredPointInput → CaptureResult
  capture_scored_point t new_id input =
      if construct_fails t input.construct
      then construct_integrity_error input.goal_id
      else captured (scored_point new_id input)

  -- What recordNoData and bookmarkForLater share: a point with no value.
  abbrev pub bare_point :
      OpaqueId
      → OpaqueId
      → OpaqueId
      → IsoDate
      → Timestamp
      → DataPointState
      → Option NoDataReason
      → Setting
      → Scorer
      → ProgressDataPoint A
  bare_point new_id goal student date ts st reason place by = record {
    data_point_id = new_id;
    goal_id = goal;
    student_id = student;
    admin_date = date;
    entry_ts = ts;
    state = st;
    numerator = none;
    denominator_used = none;
    denominator_original = none;
    denominator_mismatch = none;
    mismatch_acknowledged = none;
    mismatch_window_disposition = none;
    computed_value = none;
    probe_condition_id = none;
    setting = place;
    scorer = by;
    validated_by = none;
    validated_ts = none;
    para_observations = none;
    accommodation_subtypes = none;
    no_data_reason = reason;
    revisions = [];
  }

  -- No point without a reason: the source throws.
  unfoldable pub record_no_data :
      OpaqueId
      → OpaqueId
      → OpaqueId
      → IsoDate
      → Timestamp
      → Option NoDataReason
      → Setting
      → Scorer
      → Option (ProgressDataPoint A)
  record_no_data new_id goal student date ts none place by = none
  record_no_data new_id goal student date ts (some reason) place by =
      some (bare_point new_id goal student date ts no_data (some reason) place by)

  unfoldable pub bookmark_for_later :
      OpaqueId → OpaqueId → OpaqueId → IsoDate → Timestamp → Setting → Scorer → ProgressDataPoint A
  bookmark_for_later new_id goal student date ts place by =
      bare_point new_id goal student date ts queued none place by

  pub record EditableFields : Type 0 where
    pub numerator : Option Number
    pub denominator_used : Option Number
    pub state : Option DataPointState
    pub no_data_reason : Option NoDataReason
    pub setting : Option Setting

  abbrev pub number_value : Option Number → FieldValue A
  number_value none = undefined
  number_value (some n) = number n

  abbrev pub reason_value : Option NoDataReason → FieldValue A
  reason_value none = undefined
  reason_value (some r) = a_reason r

  -- One entry where the edit has the key, with the value given for it.
  abbrev pub entry {ℓ} :
      {B : Type ℓ}
      → Option B
      → FieldName
      → FieldValue A
      → List (FieldName × FieldValue A)
      → List (FieldName × FieldValue A)
  entry none name value rest = rest
  entry (some b) name value rest = (name, value) ∷ rest

  -- `old[key] = point[key]` over the keys of the edit.
  unfoldable pub old_values : ProgressDataPoint A → EditableFields → List (FieldName × FieldValue A)
  old_values p c = entry c.numerator numerator (number_value p.numerator) (
      entry c.denominator_used denominator_used (number_value p.denominator_used) (
        entry c.state state (a_state p.state) (
          entry c.no_data_reason no_data_reason (reason_value p.no_data_reason)
            (entry c.setting setting (a_setting p.setting) []))))

  unfoldable pub new_values : ProgressDataPoint A → EditableFields → List (FieldName × FieldValue A)
  new_values p c = entry c.numerator numerator (number_value c.numerator) (
      entry c.denominator_used denominator_used (number_value c.denominator_used) (
        entry c.state state (a_state (value_or c.state p.state)) (
          entry c.no_data_reason no_data_reason (reason_value c.no_data_reason)
            (entry c.setting setting (a_setting (value_or c.setting p.setting)) []))))

  -- `{ ...point, ...changes }`, with the revision appended.
  unfoldable pub merge : ProgressDataPoint A → EditableFields → Revision A → ProgressDataPoint A
  merge p c revision = record p {
    numerator = coalesce c.numerator p.numerator;
    denominator_used = coalesce c.denominator_used p.denominator_used;
    state = value_or c.state p.state;
    no_data_reason = coalesce c.no_data_reason p.no_data_reason;
    setting = value_or c.setting p.setting;
    revisions = p.revisions ++ revision ∷ [];
  }

  -- What a no-data point may not carry.
  unfoldable pub clear_value : ProgressDataPoint A → ProgressDataPoint A
  clear_value p = record p {
    numerator = none;
    denominator_used = none;
    denominator_original = none;
    denominator_mismatch = none;
    mismatch_acknowledged = none;
    mismatch_window_disposition = none;
    computed_value = none;
  }

  abbrev pub drop_election : ProgressDataPoint A → ProgressDataPoint A
  drop_election p = record p { mismatch_acknowledged = none; mismatch_window_disposition = none }

  -- The derived fields after an edit of the numerator or the denominator.
  unfoldable pub resync : ProgressDataPoint A → ProgressDataPoint A
  resync m =
      let value = some (computed_ratio A (or_zero A m.numerator) (or_zero A m.denominator_used)) in
      elim m.denominator_original [
        | none ↦ record m { computed_value = value }
        | some original ↦
            if is_denominator_mismatch A original (or_zero A m.denominator_used)
            then record m { computed_value = value; denominator_mismatch = some true }
            else record (drop_election m) {
              computed_value = value;
              denominator_mismatch = some false;
            }
      ]

  unfoldable pub apply_edit :
      ProgressDataPoint A → EditableFields → String → Timestamp → ProgressDataPoint A
  apply_edit p c who when =
      let revision : Revision A = record {
        who = who;
        when = when;
        old = old_values p c;
        new = new_values p c;
      } in
      let merged = merge p c revision in
      if is_no_data merged.state
      then clear_value merged
      else if is_some c.numerator || is_some c.denominator_used
      then resync merged
      else merged
