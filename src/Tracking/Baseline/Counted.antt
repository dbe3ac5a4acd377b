-- ===== src/Tracking/Baseline/Counted.antt =====
-- When a baseline is usable (packages/domain-core/src/baseline.ts).
use teacher_assistant.Base.{
  ℕ, ◌≤◌, ◌≡◌, refl, inl, inr, ◌↔◌, Bool, true, ◌&&◌, List, [], ◌∷◌, ◌++◌, map, none, arith, ◌==◌,
  leb, is_some, if◌then◌else◌, length, filter, contains, All, Bool-cases, length-append,
}
use teacher_assistant.Tracking.Types.{Arithmetic, BaselineMethod, IepGoal, BaselinePoint}
use teacher_assistant.Tracking.Baseline.{
  distinct_from, is_counted_baseline_point, baseline_value_of, derive_baseline,
}

length-distinct_from : (seen xs : List ℕ) → length seen ≤ length (distinct_from seen xs)
unfolding distinct_from
length-distinct_from seen [] = omega arith
length-distinct_from seen (x ∷ xs) = elim (Bool-cases (contains x seen)) [
  | inl known ↦ rw known (length-distinct_from seen xs)
  | inr new ↦
      rw new (omega (arith, length-append seen (x ∷ []), length-distinct_from (seen ++ x ∷ []) xs))
]

one_condition :
    (c : ℕ) (xs : List ℕ) → (length (distinct_from (c ∷ []) xs) ≤ 1) ↔ All (λ x. x ≡ c) xs
unfolding distinct_from
one_condition c [] = (λ h. tt, λ h. omega arith)
one_condition c (x ∷ xs) = elim (Bool-cases (c == x)) [
  | inl same ↦
      rw same (let rest = one_condition c xs in (λ h. (ground arith, rest.0 h), λ h. rest.1 h.1))
  | inr other ↦ rw other (
      let more = length-distinct_from (c ∷ x ∷ []) xs in
      (λ h. absurd (omega (arith, h, more)), λ h. absurd (ground (arith, h.0))))
]

-- The numbers are all the same.
abbrev pub AllSame : List ℕ → Type 0
AllSame [] = Unit
AllSame (x ∷ xs) = All (λ y. y ≡ x) xs

length-distinct_from-AllSame : (xs : List ℕ) → (length (distinct_from [] xs) ≤ 1) ↔ AllSame xs
unfolding distinct_from
length-distinct_from-AllSame [] = (λ h. tt, λ h. omega arith)
length-distinct_from-AllSame (x ∷ xs) = one_condition x xs

filter-filter {ℓ} :
    {B : Type ℓ} (p q : B → Bool) (xs : List B)
    → filter (λ x. p x && q x) (filter q xs) ≡ filter (λ x. p x && q x) xs
filter-filter p q [] = refl
filter-filter p q (x ∷ xs) = ground (arith, filter-filter p q xs)

module _ (A : Arithmetic) (goal : IepGoal A) where
  -- The goal's points that count: not removed, and no mismatched total left to decide.
  abbrev pub counted_points : List (BaselinePoint A) → List (BaselinePoint A)
  counted_points points =
      filter (λ p. p.goal_id == goal.goal_id && is_counted_baseline_point A p) points

  -- A baseline is usable exactly when at least three points count and all of them share one probe
  -- condition.
  pub derive_baseline-usable :
      (points : List (BaselinePoint A)) (method : BaselineMethod)
      → ((derive_baseline A goal points method).usable ≡ true) ↔ (
          (3 ≤ length (counted_points points))
          × AllSame (map (λ p. p.probe_condition_id) (counted_points points)))
  unfolding derive_baseline
  derive_baseline-usable points method =
      let same =
        length-distinct_from-AllSame (map (λ p. p.probe_condition_id) (counted_points points)) in
      (
        λ h. (ground arith, same.0 (ground arith)),
        λ h. let few = same.1 h.1 in ground (arith, h.0, few),
      )

  value_some :
      (cohort : List (BaselinePoint A)) (comparable : Bool) (method : BaselineMethod)
      → is_some
          (if comparable && leb 3 (length cohort) then baseline_value_of A cohort method else none)
        ≡ (comparable && leb 3 (length cohort))
  unfolding baseline_value_of
  value_some [] comparable method = ground arith
  value_some (p ∷ ps) comparable method = ground arith

  -- Points that are removed, or whose mismatched total awaits a decision, change nothing in the
  -- estimate, and there is a value exactly when the baseline is usable.
  pub derive_baseline-counted :
      (points : List (BaselinePoint A)) (method : BaselineMethod)
      → (derive_baseline A goal (filter (is_counted_baseline_point A) points) method
          ≡ derive_baseline A goal points method)
        × (is_some (derive_baseline A goal points method).value
            ≡ (derive_baseline A goal points method).usable)
  unfolding derive_baseline baseline_value_of
  derive_baseline-counted points method = (
    rw (filter-filter (λ p. p.goal_id == goal.goal_id) (is_counted_baseline_point A) points) refl,
    value_some (counted_points points)
        (leb (length (distinct_from [] (map (λ p. p.probe_condition_id) (counted_points points))))
          1)
        method,
  )
