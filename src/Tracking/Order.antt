-- ===== src/Tracking/Order.antt =====
-- compareCodePoints, compareArcNewestFirst and compareArcOldestFirst of
-- packages/domain-core/src/comparators.ts, packages/domain-core/src/value.ts and mismatch.ts, and the
-- stable sort of JavaScript's arrays.
use Prim.Native.Nat.{compare, Ordering}
use teacher_assistant.Base.{
  ℕ, Bool, true, false, ◌&&◌, ◌||◌, not, List, [], ◌∷◌, Option, none, some, if◌then◌else◌,
}
use teacher_assistant.Tracking.Types.{
  Arithmetic, ProgressDataPoint, DenominatorModel, percent_correct_over_total, MismatchDisposition,
  counted, excluded,
}

-- The sign of a comparator's result: negative, zero or positive.
unfoldable pub compare_code_points : ℕ → ℕ → Ordering
compare_code_points a b = compare a b

-- `first || second` on comparator results.
abbrev pub or_else : Ordering → Ordering → Ordering
or_else Ordering.lt second = Ordering.lt
or_else Ordering.eq second = second
or_else Ordering.gt second = Ordering.gt

-- The three fields that the ARC order reads.
pub record ArcKey : Type 0 where
  pub date : ℕ
  pub ts : ℕ
  pub id : ℕ

unfoldable pub compare_arc_newest_first : ArcKey → ArcKey → Ordering
unfolding compare_code_points
compare_arc_newest_first a b =
    or_else (compare_code_points b.date a.date)
      (or_else (compare b.ts a.ts) (compare_code_points a.id b.id))

unfoldable pub compare_arc_oldest_first : ArcKey → ArcKey → Ordering
unfolding compare_arc_newest_first
compare_arc_oldest_first a b = compare_arc_newest_first b a

abbrev pub precedes : Ordering → Bool
precedes Ordering.gt = false
precedes _ = true

module _ {ℓ} {P : Type ℓ} (key : P → ArcKey) where
  -- `sort(compareArcOldestFirst)`: stable, so an element goes before its equals.
  unfoldable pub insert : P → List P → List P
  insert p [] = p ∷ []
  insert p (q ∷ qs) =
      if precedes (compare_arc_oldest_first (key p) (key q)) then p ∷ q ∷ qs else q ∷ insert p qs

  unfoldable pub sort : List P → List P
  sort [] = []
  sort (p ∷ ps) = insert p (sort ps)

abbrev pub is_percent : DenominatorModel → Bool
is_percent percent_correct_over_total = true
is_percent _ = false

-- `=== true` on an optional flag.
abbrev pub is_true : Option Bool → Bool
is_true none = false
is_true (some b) = b

abbrev pub is_counted : Option MismatchDisposition → Bool
is_counted none = false
is_counted (some counted) = true
is_counted (some excluded) = false

abbrev pub is_excluded : Option MismatchDisposition → Bool
is_excluded none = false
is_excluded (some counted) = false
is_excluded (some excluded) = true

abbrev pub is_absent : Option MismatchDisposition → Bool
is_absent none = true
is_absent (some d) = false

module _ (A : Arithmetic) where
  open A use {Number, of_ℕ, div, mul, less, equal}

  abbrev pub or_zero : Option Number → Number
  or_zero none = of_ℕ 0
  or_zero (some n) = n

  unfoldable pub computed_ratio : Number → Number → Number
  computed_ratio numerator denominator_used =
      if less (of_ℕ 0) denominator_used then div numerator denominator_used else of_ℕ 0

  unfoldable pub percent_correct : Number → Number → Number
  percent_correct numerator denominator_used =
      mul (computed_ratio numerator denominator_used) (of_ℕ 100)

  unfoldable pub is_denominator_mismatch : Number → Number → Bool
  is_denominator_mismatch expected used = not (equal used expected)

  unfoldable pub is_counted_off_basis : ProgressDataPoint A → Bool
  is_counted_off_basis p =
      is_true p.denominator_mismatch && is_counted p.mismatch_window_disposition

  unfoldable pub is_resolved_excluded : ProgressDataPoint A → Bool
  is_resolved_excluded p =
      is_true p.denominator_mismatch && is_excluded p.mismatch_window_disposition

  unfoldable pub is_unresolved_mismatch : ProgressDataPoint A → Bool
  is_unresolved_mismatch p =
      is_true p.denominator_mismatch && is_absent p.mismatch_window_disposition

  unfoldable pub in_computed_math : ProgressDataPoint A → Bool
  in_computed_math p =
      not (is_true p.denominator_mismatch) || is_counted p.mismatch_window_disposition

  abbrev pub arc_key : ProgressDataPoint A → ArcKey
  arc_key p = record { date = p.admin_date; ts = p.entry_ts; id = p.data_point_id }
