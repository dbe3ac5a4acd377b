-- ===== src/Tracking/Consistency.antt =====
-- packages/domain-core/src/consistency.ts, with clampAfterFromRevisions of quarterly.ts.
pub mod Days
pub mod Run
pub mod Mastery
use teacher_assistant.Base.{
  ℕ, suc, ◌+◌, ◌-◌, ◌/◌, Bool, true, false, ◌&&◌, ◌||◌, not, List, [], ◌∷◌, map, Option, none, some,
  ◌==◌, leb, ltb, if◌then◌else◌, is_some, length, filter, drop, contains,
}
use teacher_assistant.Tracking.Types.{
  Arithmetic, OpaqueId, IsoDate, Timestamp, DataPointState, scored, FieldName, criterion_level,
  denominator_model, FieldValue, Revision, IepGoal, ProgressDataPoint,
}
use teacher_assistant.Tracking.Order.{
  sort, arc_key, or_zero, percent_correct, is_percent, is_counted_off_basis, is_unresolved_mismatch,
  in_computed_math,
}

abbrev pub is_scored : DataPointState → Bool
is_scored scored = true
is_scored _ = false

abbrev pub is_clamp_key : FieldName → Bool
is_clamp_key criterion_level = true
is_clamp_key denominator_model = true
is_clamp_key _ = false

abbrev pub ms_per_day : ℕ
ms_per_day = 86_400_000

-- One admin date's scored probes, and how many of them meet the criterion.
pub record ProbeDay : Type 0 where
  pub date : IsoDate
  pub count : ℕ
  pub meets : ℕ

pub record ConsistencyGlyph : Type 0 where
  pub data_point_id : OpaqueId
  pub meets : Bool
  pub off_basis : Bool
  pub same_day_mixed : Bool

pub record ConsistencyResult : Type 0 where
  pub run : ℕ
  pub required : ℕ
  pub met : Bool
  pub recent_glyphs : List ConsistencyGlyph
  pub window_met_date : Option IsoDate
  pub excluded_mismatches : ℕ
  pub counted_off_basis : ℕ
  pub unresolved_mismatches : ℕ

abbrev pub hit_of : Bool → ℕ
hit_of b = if b then 1 else 0

-- One round of groupByAdminDate: the last day takes the probe, or a new day begins.
unfoldable pub add_probe : List ProbeDay → IsoDate → Bool → List ProbeDay
add_probe [] date hit = record { date = date; count = 1; meets = hit_of hit } ∷ []
add_probe (d ∷ []) date hit =
    if d.date == date
    then record { date = d.date; count = d.count + 1; meets = d.meets + hit_of hit } ∷ []
    else d ∷ record { date = date; count = 1; meets = hit_of hit } ∷ []
add_probe (d ∷ d' ∷ ds) date hit = d ∷ add_probe (d' ∷ ds) date hit

-- The loop over the days that computes `run` and `windowMetDate`.
unfoldable pub run_days : ℕ → ℕ → Option IsoDate → List ProbeDay → ℕ × Option IsoDate
run_days required run met_date [] = (run, met_date)
run_days required run met_date (d ∷ ds) =
    let run' = if d.meets == d.count then run + d.count else 0 in
    run_days required run'
      (if leb required run' && not (is_some met_date) then some d.date else met_date) ds

abbrev pub is_mixed : ProbeDay → Bool
is_mixed d = ltb 0 d.meets && ltb d.meets d.count

abbrev pub not_before : Option IsoDate → IsoDate → Bool
not_before none date = true
not_before (some clamp) date = leb clamp date

pub record MasteryCandidate : Type 0 where
  pub goal_id : OpaqueId
  pub window_met_date : IsoDate

-- `!result.met || result.windowMetDate === undefined` gives no candidate.
abbrev pub candidate_if : OpaqueId → Bool → Option IsoDate → Option MasteryCandidate
candidate_if goal_id met none = none
candidate_if goal_id met (some date) =
    if met then some (record { goal_id = goal_id; window_met_date = date }) else none

module _ (A : Arithmetic) where
  open A use {Number, at_least}

  abbrev pub touches : List (FieldName × FieldValue A) → Bool
  touches [] = false
  touches ((name, value) ∷ fields) = is_clamp_key name || touches fields

  unfoldable pub revision_touches_clamp_key : Revision A → Bool
  revision_touches_clamp_key r = touches r.old || touches r.new

  -- The loop of clampAfterFromRevisions: the latest revision that touches a clamp key.
  abbrev pub later : Option Timestamp → Timestamp → Option Timestamp
  later none when = some when
  later (some latest) when = if ltb latest when then some when else some latest

  unfoldable pub latest_clamp : Option Timestamp → List (Revision A) → Option Timestamp
  latest_clamp latest [] = latest
  latest_clamp latest (r ∷ rs) =
      latest_clamp (if revision_touches_clamp_key r then later latest r.when else latest) rs

  -- `new Date(latest).toISOString().slice(0, 10)`: the day of the instant.
  abbrev pub day_of : Option Timestamp → Option IsoDate
  day_of none = none
  day_of (some ms) = some (ms / ms_per_day)

  unfoldable pub clamp_after_from_revisions : IepGoal A → Option IsoDate
  clamp_after_from_revisions goal = day_of (latest_clamp none goal.revisions)

  -- The goal's scored points on or after the clamp.
  unfoldable pub is_clamped_scored : IepGoal A → ProgressDataPoint A → Bool
  is_clamped_scored goal p =
      p.goal_id == goal.goal_id
      && is_scored p.state
      && not_before (clamp_after_from_revisions goal) p.admin_date

  unfoldable pub scored_probes_in_order :
      IepGoal A → List (ProgressDataPoint A) → List (ProgressDataPoint A)
  scored_probes_in_order goal points =
      sort (arc_key A) (filter (λ p. is_clamped_scored goal p && in_computed_math A p) points)

  unfoldable pub meets_criterion : IepGoal A → ProgressDataPoint A → Bool
  meets_criterion goal p =
      at_least (percent_correct A (or_zero A p.numerator) (or_zero A p.denominator_used))
        goal.criterion_level

  unfoldable pub group_from :
      List ProbeDay → (ProgressDataPoint A → Bool) → List (ProgressDataPoint A) → List ProbeDay
  group_from days meets [] = days
  group_from days meets (p ∷ ps) = group_from (add_probe days p.admin_date (meets p)) meets ps

  unfoldable pub group_by_admin_date :
      List (ProgressDataPoint A) → (ProgressDataPoint A → Bool) → List ProbeDay
  group_by_admin_date probes meets = group_from [] meets probes

  unfoldable pub glyph_of : IepGoal A → List IsoDate → ProgressDataPoint A → ConsistencyGlyph
  glyph_of goal mixed_days p = record {
    data_point_id = p.data_point_id;
    meets = meets_criterion goal p;
    off_basis = is_counted_off_basis A p;
    same_day_mixed = contains p.admin_date mixed_days;
  }

  -- The window of a percent goal.
  unfoldable pub percent_window : IepGoal A → List (ProgressDataPoint A) → ConsistencyResult
  percent_window goal points =
      let required = goal.criterion_consistency.n_probes in
      let probes = scored_probes_in_order goal points in
      let days = group_by_admin_date probes (meets_criterion goal) in
      let mixed_days = map (λ d. d.date) (filter is_mixed days) in
      let clamped = filter (is_clamped_scored goal) points in
      let (run, window_met_date) = run_days required 0 none days in
      record {
        run = run;
        required = required;
        met = leb required run;
        recent_glyphs = map (glyph_of goal mixed_days) (drop (length probes - required) probes);
        window_met_date = window_met_date;
        excluded_mismatches = length (filter (λ p. not (in_computed_math A p)) clamped);
        counted_off_basis = length (filter (is_counted_off_basis A) clamped);
        unresolved_mismatches = length (filter (is_unresolved_mismatch A) clamped);
      }

  unfoldable pub consistency_window : IepGoal A → List (ProgressDataPoint A) → ConsistencyResult
  consistency_window goal points =
      if is_percent goal.denominator_model then percent_window goal points else record {
        run = 0;
        required = goal.criterion_consistency.n_probes;
        met = false;
        recent_glyphs = [];
        window_met_date = none;
        excluded_mismatches = 0;
        counted_off_basis = 0;
        unresolved_mismatches = 0;
      }

  unfoldable pub observe_mastery : IepGoal A → List (ProgressDataPoint A) → Option MasteryCandidate
  observe_mastery goal points =
      let result = consistency_window goal points in
      candidate_if goal.goal_id result.met result.window_met_date
