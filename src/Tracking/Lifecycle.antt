-- ===== src/Tracking/Lifecycle.antt =====
-- packages/domain-core/src/lifecycle.ts. A call that throws returns the reason of its error.
pub mod Adoption
use Prim.Native.String.{String}
use teacher_assistant.Base.{
  ℕ, Bool, true, false, not, List, [], ◌∷◌, ◌++◌, Option, none, some, is_some, if◌then◌else◌,
}
use teacher_assistant.Tracking.Types.{
  Arithmetic, Timestamp, GoalStatus, proposed, active, mastered, retired, BaselineMethod, mean,
  computed_from_baseline_points, FieldName, status, baseline_value, baseline_source,
  criterion_confirmed, baseline_method, baseline_point_ids, FieldValue, number, flag, a_status,
  a_source, a_method, ids, Revision, IepGoal, BaselinePoint,
}
use teacher_assistant.Tracking.DataPoint.{TextOps, value_or}
use teacher_assistant.Tracking.Label.{usable_goal_label}
use teacher_assistant.Tracking.Baseline.{BaselineEstimate, derive_baseline}

pub data AdoptionBlock : Type 0 where
  not_proposed insufficient_baseline mixed_conditions missing_label : AdoptionBlock

pub data AdoptionCheck : Type 0 where
  passed : AdoptionCheck
  blocked : AdoptionBlock → AdoptionCheck

pub record AdoptOptions : Type 0 where
  pub who : String
  pub when : Timestamp
  pub method : Option BaselineMethod

-- The statuses that close a goal.
pub data Closing : Type 0 where
  as_mastered as_retired : Closing

abbrev pub closed_status : Closing → GoalStatus
closed_status as_mastered = mastered
closed_status as_retired = retired

abbrev pub is_proposed : GoalStatus → Bool
is_proposed proposed = true
is_proposed _ = false

module _ (A : Arithmetic) where
  open A use {Number}

  pub data AdoptionResult : Type 0 where
    adopted : IepGoal A → AdoptionResult
    adoption_error : AdoptionBlock → AdoptionResult

  unfoldable pub can_adopt : TextOps → IepGoal A → List (BaselinePoint A) → AdoptionCheck
  can_adopt t goal points =
      let estimate = derive_baseline A goal points mean in
      if not (is_proposed goal.status)
      then blocked not_proposed
      else if not estimate.comparable
      then blocked mixed_conditions
      else if not estimate.usable
      then blocked insufficient_baseline
      else if not (is_some (usable_goal_label t goal.goal_label))
      then blocked missing_label
      else passed

  unfoldable pub adoption_revision : AdoptOptions → Number → BaselineEstimate A → Revision A
  adoption_revision options value estimate = record {
    who = options.who;
    when = options.when;
    old = (status, a_status proposed) ∷ [];
    new =
        (status, a_status active)
        ∷ (baseline_value, number value)
        ∷ (baseline_source, a_source computed_from_baseline_points)
        ∷ (criterion_confirmed, flag true)
        ∷ (baseline_method, a_method estimate.method)
        ∷ (baseline_point_ids, ids estimate.point_ids)
        ∷ [];
  }

  abbrev pub lock_baseline : IepGoal A → Number → Revision A → IepGoal A
  lock_baseline goal value revision = record goal {
    status = active;
    baseline_value = some value;
    baseline_source = some computed_from_baseline_points;
    revisions = goal.revisions ++ revision ∷ [];
  }

  abbrev pub adopt_with :
      IepGoal A → AdoptOptions → BaselineEstimate A → Option Number → AdoptionResult
  adopt_with goal options estimate none = adoption_error insufficient_baseline
  adopt_with goal options estimate (some value) =
      adopted (lock_baseline goal value (adoption_revision options value estimate))

  unfoldable pub adopt_goal :
      TextOps → IepGoal A → List (BaselinePoint A) → AdoptOptions → AdoptionResult
  adopt_goal t goal points options = elim (can_adopt t goal points) [
    | blocked reason ↦ adoption_error reason
    | passed ↦
        let estimate = derive_baseline A goal points (value_or options.method mean) in
        adopt_with goal options estimate estimate.value
  ]

  unfoldable pub close_goal_by_arc : IepGoal A → Closing → String → Timestamp → IepGoal A
  close_goal_by_arc goal closing who when = record goal {
    status = closed_status closing;
    revisions =
        goal.revisions
        ++ record {
          who = who;
          when = when;
          old = (status, a_status goal.status) ∷ [];
          new = (status, a_status (closed_status closing)) ∷ [];
        }
          ∷ [];
  }
