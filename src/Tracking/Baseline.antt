-- ===== src/Tracking/Baseline.antt =====
-- packages/domain-core/src/baseline.ts.
pub mod Counted
use teacher_assistant.Base.{
  ℕ, ◌-◌, ◌/◌, ◌%◌, Bool, true, false, ◌&&◌, not, List, [], ◌∷◌, ◌++◌, map, Option, none, some,
  ◌==◌, leb, if◌then◌else◌, length, filter, drop, contains,
}
use teacher_assistant.Tracking.Types.{
  Arithmetic, OpaqueId, BaselineMethod, mean, median, BaselinePointStatus, recorded, removed,
  IepGoal, BaselinePoint,
}
use teacher_assistant.Tracking.Order.{percent_correct, is_true}

abbrev pub is_removed : BaselinePointStatus → Bool
is_removed recorded = false
is_removed removed = true

-- `new Set(ids)`, in insertion order.
unfoldable pub distinct_from : List ℕ → List ℕ → List ℕ
distinct_from seen [] = seen
distinct_from seen (x ∷ xs) = distinct_from (if contains x seen then seen else seen ++ x ∷ []) xs

module _ (A : Arithmetic) where
  open A use {Number, of_ℕ, add, div, less}

  pub record BaselineEstimate : Type 0 where
    pub value : Option Number
    pub n : ℕ
    pub usable : Bool
    pub comparable : Bool
    pub method : BaselineMethod
    pub point_ids : List OpaqueId

  unfoldable pub sum_from : Number → List Number → Number
  sum_from sum [] = sum
  sum_from sum (v ∷ vs) = sum_from (add sum v) vs

  unfoldable pub mean_of : List Number → Number
  mean_of values = div (sum_from (of_ℕ 0) values) (of_ℕ (length values))

  -- `sort((a, b) => a - b)`: a stable sort.
  unfoldable pub insert_number : Number → List Number → List Number
  insert_number v [] = v ∷ []
  insert_number v (w ∷ ws) = if less w v then w ∷ insert_number v ws else v ∷ w ∷ ws

  unfoldable pub sort_numbers : List Number → List Number
  sort_numbers [] = []
  sort_numbers (v ∷ vs) = insert_number v (sort_numbers vs)

  -- `sorted[i] ?? 0`
  abbrev pub first_or_zero : List Number → Number
  first_or_zero [] = of_ℕ 0
  first_or_zero (v ∷ vs) = v

  -- An index below 0 is out of range.
  unfoldable pub median_of : List Number → Number
  median_of values =
      let sorted = sort_numbers values in
      let mid = length sorted / 2 in
      let before = if mid == 0 then of_ℕ 0 else first_or_zero (drop (mid - 1) sorted) in
      if length sorted % 2 == 0
      then div (add before (first_or_zero (drop mid sorted))) (of_ℕ 2)
      else first_or_zero (drop mid sorted)

  unfoldable pub needs_total_decision : BaselinePoint A → Bool
  needs_total_decision p =
      not (is_removed p.status) && is_true p.denominator_mismatch && not (is_true p.mismatch_kept)

  unfoldable pub is_counted_baseline_point : BaselinePoint A → Bool
  is_counted_baseline_point p = not (is_removed p.status) && not (needs_total_decision p)

  abbrev pub percents : List (BaselinePoint A) → List Number
  percents = map λ p. percent_correct A p.numerator p.denominator_used

  abbrev pub by_method : BaselineMethod → List Number → Number
  by_method mean values = mean_of values
  by_method median values = median_of values

  unfoldable pub baseline_value_of : List (BaselinePoint A) → BaselineMethod → Option Number
  baseline_value_of [] method = none
  baseline_value_of (p ∷ ps) method = some (by_method method (percents (p ∷ ps)))

  unfoldable pub derive_baseline :
      IepGoal A → List (BaselinePoint A) → BaselineMethod → BaselineEstimate
  derive_baseline goal points method =
      let cohort = filter (λ p. p.goal_id == goal.goal_id && is_counted_baseline_point p) points in
      let conditions = distinct_from [] (map (λ p. p.probe_condition_id) cohort) in
      let comparable = leb (length conditions) 1 in
      let usable = comparable && leb 3 (length cohort) in
      record {
        value = if usable then baseline_value_of cohort method else none;
        n = length cohort;
        usable = usable;
        comparable = comparable;
        method = method;
        point_ids = map (λ p. p.baseline_point_id) cohort;
      }
