-- ===== src/Tracking/Label.antt =====
-- The goal label and the activation check of packages/domain-core/src/goal-validation.ts.
use Prim.Native.String.{String, count}
use text.Mathlib.Text.{◌==◌ as str_eq}
use teacher_assistant.Base.{
  ℕ, List, [], ◌∷◌, ◌++◌, length, is_some, not, Bool, ◌&&◌, ◌||◌, Option, none, some, ◌==◌, leb,
  if◌then◌else◌,
}
use teacher_assistant.Base.Texts.{all_chars}
use teacher_assistant.Tracking.Types.{Arithmetic, IepGoal}
use teacher_assistant.Tracking.DataPoint.{TextOps, value_or}

-- [A-Za-z0-9.]
abbrev pub is_label_char : ℕ → Bool
is_label_char c =
    leb b'A' c && leb c b'Z' || leb b'a' c && leb c b'z' || leb b'0' c && leb c b'9' || c == b'.'

-- /^[A-Za-z0-9.]{1,6}$/
unfoldable pub is_goal_label : String → Bool
is_goal_label s = leb 1 (count s) && leb (count s) 6 && all_chars is_label_char s

pub data GoalLabelCheck : Type 0 where
  valid : Option String → GoalLabelCheck
  invalid : GoalLabelCheck

unfoldable pub validate_goal_label : TextOps → String → GoalLabelCheck
validate_goal_label t raw =
    let label = t.trim raw in
    if str_eq label ""
    then valid none
    else if is_goal_label label
    then valid (some label)
    else invalid

abbrev pub label_of : GoalLabelCheck → Option String
label_of (valid label) = label
label_of invalid = none

unfoldable pub usable_goal_label : TextOps → Option String → Option String
usable_goal_label t raw = label_of (validate_goal_label t (value_or raw ""))

pub record GoalActivationCheck : Type 0 where
  pub ok : Bool
  pub missing : List String

abbrev pub unless : Bool → String → List String
unless present name = if present then [] else name ∷ []

-- The checks of canBeginMonitoring, each of which pushes its field's name.
unfoldable pub can_begin_monitoring : (A : Arithmetic) → TextOps → IepGoal A → GoalActivationCheck
can_begin_monitoring A t goal =
    let missing =
      unless (is_some goal.baseline_value) "baseline_value"
      ++ unless (is_some goal.baseline_source) "baseline_source"
      ++ unless (leb 2 goal.criterion_consistency.n_probes) "criterion_consistency"
      ++ unless (not (A.at_least (A.of_ℕ 0) goal.criterion_level)) "criterion_level"
      ++ unless (not (str_eq (t.trim goal.behavior) "")) "behavior"
      ++ unless (not (str_eq (t.trim goal.circumstance) "")) "circumstance" in
    record { ok = length missing == 0; missing = missing }
