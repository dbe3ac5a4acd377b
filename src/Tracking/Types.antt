-- ===== src/Tracking/Types.antt =====
-- The types of packages/schema/src/entities.ts and enums.ts that domain-core computes with. Opaque
-- ids are numbers, in the code-unit order of their texts; an ISO date is its day number, which has
-- the order of the text; a timestamp is in milliseconds. JavaScript's numbers are an abstract type
-- with the operations that the code uses.
use teacher_assistant.Base.{ℕ, Bool, List, Option}
use Prim.Native.String.{String}

-- Floating-point numbers: sum, quotient, product, the two tests, and the whole numbers among them.
pub record Arithmetic : Type 1 where
  pub Number : Type 0
  pub of_ℕ : ℕ → Number
  pub add : Number → Number → Number
  pub div : Number → Number → Number
  pub mul : Number → Number → Number
  pub less : Number → Number → Bool
  pub at_least : Number → Number → Bool
  pub equal : Number → Number → Bool

abbrev pub OpaqueId : Type 0
OpaqueId = ℕ

abbrev pub IsoDate : Type 0
IsoDate = ℕ

abbrev pub Timestamp : Type 0
Timestamp = ℕ

pub data GoalStatus : Type 0 where
  proposed active mastered retired : GoalStatus

pub data DenominatorModel : Type 0 where
  percent_correct_over_total rubric_score frequency_count duration_latency : DenominatorModel

pub data MethodGeneral : Type 0 where
  cbm direct indirect authentic : MethodGeneral

pub data Frequency : Type 0 where
  daily weekly twice_monthly monthly : Frequency

pub data AccomMod : Type 0 where
  accommodation modification none_needed : AccomMod

pub data DenominatorBasis : Type 0 where
  fixed variable : DenominatorBasis

pub data ArcDateFlag : Type 0 where
  tentative confirmed : ArcDateFlag

pub data BaselinePointStatus : Type 0 where
  recorded removed : BaselinePointStatus

pub data BaselineRemoveReason : Type 0 where
  entered_by_mistake duplicate : BaselineRemoveReason
  wrong_student_or_goal probe_not_per_goal_condition : BaselineRemoveReason

pub data ParaObservation : Type 0 where
  independent with_accommodation within_2_prompts three_plus_prompts frustrated off_task :
      ParaObservation
  task_refusal on_task_needed_more_time used_learned_strategy self_corrected : ParaObservation

pub data AccommodationSubtype : Type 0 where
  calculator multiplication_grid worked_example manipulatives : AccommodationSubtype
  keyword_list symbol_chart : AccommodationSubtype

pub data Setting : Type 0 where
  math_resource gen_ed home_scored : Setting

pub data Scorer : Type 0 where
  teacher para : Scorer

pub data BaselineSource : Type 0 where
  eval computed_from_baseline_points : BaselineSource

pub data DataPointState : Type 0 where
  scored no_data incomplete queued pending : DataPointState

pub data MismatchDisposition : Type 0 where
  counted excluded : MismatchDisposition

pub data NoDataReason : Type 0 where
  no_time absent testing behavior no_school : NoDataReason

pub data BaselineMethod : Type 0 where
  mean median : BaselineMethod

-- The names and values that the audited edits put into a revision.
pub data FieldName : Type 0 where
  numerator denominator_used state no_data_reason setting : FieldName
  criterion_level denominator_model : FieldName
  status baseline_value baseline_source criterion_confirmed : FieldName
  baseline_method baseline_point_ids : FieldName
  admin_date mismatch_kept removed_reason : FieldName
  other_field : ℕ → FieldName

module _ (A : Arithmetic) where
  open A use {Number}

  pub data FieldValue : Type 0 where
    undefined : FieldValue
    number : Number → FieldValue
    flag : Bool → FieldValue
    a_state : DataPointState → FieldValue
    a_reason : NoDataReason → FieldValue
    a_setting : Setting → FieldValue
    a_status : GoalStatus → FieldValue
    a_source : BaselineSource → FieldValue
    a_method : BaselineMethod → FieldValue
    a_date : IsoDate → FieldValue
    a_point_status : BaselinePointStatus → FieldValue
    a_remove_reason : BaselineRemoveReason → FieldValue
    ids : List OpaqueId → FieldValue
    opaque_value : ℕ → FieldValue

  pub record Revision : Type 0 where
    pub who : String
    pub when : Timestamp
    pub old : List (FieldName × FieldValue)
    pub new : List (FieldName × FieldValue)

  pub record CriterionConsistency : Type 0 where
    pub n_probes : ℕ
    pub phrase : String

  pub record IepGoal : Type 0 where
    pub goal_id : OpaqueId
    pub student_id : OpaqueId
    pub goal_text : String
    pub goal_label : Option String
    pub behavior : String
    pub circumstance : String
    pub criterion_level : Number
    pub criterion_consistency : CriterionConsistency
    pub method_general : MethodGeneral
    pub method_tool : String
    pub frequency : Frequency
    pub denominator_model : DenominatorModel
    pub denominator_basis : Option DenominatorBasis
    pub baseline_value : Option Number
    pub baseline_source : Option BaselineSource
    pub accom_mod : AccomMod
    pub accom_mod_detail : Option String
    pub setting_default : Setting
    pub valid_settings : List Setting
    pub status : GoalStatus
    pub arc_date : Option IsoDate
    pub arc_date_flag : Option ArcDateFlag
    pub iep_end_date : Option IsoDate
    pub baseline_window_start : Option IsoDate
    pub probe_definition_id : Option OpaqueId
    pub created_ts : Timestamp
    pub revisions : List Revision

  -- The scorer of a baseline point is always the teacher, so it is no field.
  pub record BaselinePoint : Type 0 where
    pub baseline_point_id : OpaqueId
    pub goal_id : OpaqueId
    pub student_id : OpaqueId
    pub admin_date : IsoDate
    pub entry_ts : Timestamp
    pub numerator : Number
    pub denominator_used : Number
    pub computed_value : Option Number
    pub probe_condition_id : OpaqueId
    pub status : BaselinePointStatus
    pub removed_reason : Option BaselineRemoveReason
    pub removed_ts : Option Timestamp
    pub removed_by : Option Scorer
    pub denominator_original : Option Number
    pub denominator_mismatch : Option Bool
    pub mismatch_kept : Option Bool
    pub corrected_after_adoption : Option Bool
    pub revisions : List Revision

  pub record ProbeDefinition : Type 0 where
    pub probe_definition_id : OpaqueId
    pub goal_id : OpaqueId
    pub expected_denominator : Number
    pub condition : String
    pub label : Option String

  pub record ProgressDataPoint : Type 0 where
    pub data_point_id : OpaqueId
    pub goal_id : OpaqueId
    pub student_id : OpaqueId
    pub admin_date : IsoDate
    pub entry_ts : Timestamp
    pub state : DataPointState
    pub numerator : Option Number
    pub denominator_used : Option Number
    pub denominator_original : Option Number
    pub denominator_mismatch : Option Bool
    pub mismatch_acknowledged : Option Bool
    pub mismatch_window_disposition : Option MismatchDisposition
    pub computed_value : Option Number
    pub probe_condition_id : Option OpaqueId
    pub setting : Setting
    pub scorer : Scorer
    pub validated_by : Option Scorer
    pub validated_ts : Option Timestamp
    pub no_data_reason : Option NoDataReason
    pub para_observations : Option (List ParaObservation)
    pub accommodation_subtypes : Option (List AccommodationSubtype)
    pub revisions : List Revision
