-- ===== src/Tracking/Lifecycle/Adoption.antt =====
-- What adoption and closing do to a goal (packages/domain-core/src/lifecycle.ts).
use Prim.Native.String.{String}
use mathlib.Core.Path.{fun_ext}
use teacher_assistant.Base.{
  ◌≡◌, refl, sym, subst, ◌∙◌, ◌⊎◌, inl, inr, true, false, List, [], ◌∷◌, ◌++◌, Option, none, some,
  arith, if◌then◌else◌, Option-cases,
}
use teacher_assistant.Tracking.Types.{
  Arithmetic, Timestamp, GoalStatus, proposed, active, computed_from_baseline_points, status,
  baseline_value, baseline_source, criterion_confirmed, baseline_method, baseline_point_ids, number,
  a_status, a_source, a_method, flag, ids, BaselineSource, BaselineMethod, mean, Revision, IepGoal,
  BaselinePoint, ProgressDataPoint,
}
use teacher_assistant.Tracking.DataPoint.{TextOps, value_or}
use teacher_assistant.Tracking.Baseline.{BaselineEstimate, derive_baseline}
use teacher_assistant.Tracking.Baseline.Counted.{derive_baseline-counted}
use teacher_assistant.Tracking.Consistency.{
  revision_touches_clamp_key, later, latest_clamp, clamp_after_from_revisions, consistency_window,
  percent_window, is_clamped_scored, scored_probes_in_order, meets_criterion, glyph_of,
}
use teacher_assistant.Tracking.Lifecycle.{
  AdoptionBlock, AdoptionCheck, passed, blocked, AdoptOptions, Closing, adopted, adoption_error,
  can_adopt, adoption_revision, lock_baseline, adopt_goal, close_goal_by_arc,
}

module _ (A : Arithmetic) where
  open A use {Number}

  can_adopt-usable :
      (t : TextOps) (goal : IepGoal A) (points : List (BaselinePoint A)) (method : BaselineMethod)
      → can_adopt A t goal points ≡ passed
      → (derive_baseline A goal points method).usable ≡ true
  unfolding can_adopt derive_baseline
  can_adopt-usable t goal points method h = ground arith

  check_cases :
      (c : AdoptionCheck) → ((reason : AdoptionBlock) × (c ≡ blocked reason)) ⊎ (c ≡ passed)
  check_cases passed = inr refl
  check_cases (blocked reason) = inl (reason, refl)

  adopt_goal-cases :
      (t : TextOps) (goal : IepGoal A) (points : List (BaselinePoint A)) (options : AdoptOptions)
      → let estimate = derive_baseline A goal points (value_or options.method mean) in
        ((reason : AdoptionBlock) × (can_adopt A t goal points ≡ blocked reason)
          × (adopt_goal A t goal points options ≡ adoption_error reason))
        ⊎ ((can_adopt A t goal points ≡ passed)
            × ((value : Number) × (estimate.value ≡ some value)
                × (adopt_goal A t goal points options
                    ≡ adopted
                        (lock_baseline A goal value (adoption_revision A options value estimate)))))
  unfolding adopt_goal
  adopt_goal-cases t goal points options = elim (check_cases (can_adopt A t goal points)) [
    | inl (reason, refused) ↦ inl (reason, refused, rw (refused, adopt_goal) refl)
    | inr ready ↦
        let method = value_or options.method mean in
        let usable = can_adopt-usable t goal points method ready in
        let has_value = (derive_baseline-counted A goal points method).1 in
        elim (Option-cases (derive_baseline A goal points method).value) [
          | inl missing ↦ absurd (ground (arith, missing, has_value, usable))
          | inr (value, found) ↦ inr (ready, (value, found, rw (ready, adopt_goal, found) refl))
        ]
  ]

  -- The goal after adoption: active, with the value locked in, computed from baseline points; its
  -- history has one more revision, which tells all this with the method and the points counted;
  -- everything else is as it was.
  pub record IsAdopted (goal : IepGoal A) (options : AdoptOptions) (value : Number)
      (estimate : BaselineEstimate A) (g : IepGoal A) : Type 0 where
    pub is_active : g.status ≡ active
    pub locked : g.baseline_value ≡ some value
    pub from_points : g.baseline_source ≡ some computed_from_baseline_points
    pub audited :
        g.revisions
        ≡ goal.revisions
          ++ record {
            who = options.who;
            when = options.when;
            old = (status, a_status proposed) ∷ [];
            new =
                (status, a_status active)
                ∷ (baseline_value, number value)
                ∷ (baseline_source, a_source computed_from_baseline_points)
                ∷ (criterion_confirmed, flag true)
                ∷ (baseline_method, a_method estimate.method)
                ∷ (baseline_point_ids, ids estimate.point_ids)
                ∷ [];
          }
            ∷ []
    pub rest :
        record g {
          status = goal.status;
          baseline_value = goal.baseline_value;
          baseline_source = goal.baseline_source;
          revisions = goal.revisions;
        }
        ≡ goal

  lock_baseline-IsAdopted :
      (goal : IepGoal A) (options : AdoptOptions) (value : Number) (estimate : BaselineEstimate A)
      → IsAdopted goal options value estimate
          (lock_baseline A goal value (adoption_revision A options value estimate))
  unfolding adoption_revision
  lock_baseline-IsAdopted goal options value estimate = record {
    is_active = refl;
    locked = refl;
    from_points = refl;
    audited = refl;
    rest = refl;
  }

  -- Adoption gives the error that canAdopt names, or canAdopt passes and there is an estimate by the
  -- chosen method: the case that the code calls unreachable never comes. Then the adopted goal is
  -- active with the estimate's value as its baseline, computed from baseline points, has one
  -- revision more, which tells this with the method and the points counted, and is else as it was.
  pub adopt_goal-can_adopt :
      (t : TextOps) (goal : IepGoal A) (points : List (BaselinePoint A)) (options : AdoptOptions)
      → let estimate = derive_baseline A goal points (value_or options.method mean) in
        ((reason : AdoptionBlock) × (can_adopt A t goal points ≡ blocked reason)
          × (adopt_goal A t goal points options ≡ adoption_error reason))
        ⊎ ((can_adopt A t goal points ≡ passed)
            × ((value : Number) × (estimate.value ≡ some value)
                × ((g : IepGoal A) × (adopt_goal A t goal points options ≡ adopted g)
                    × IsAdopted goal options value estimate g)))
  adopt_goal-can_adopt t goal points options = elim (adopt_goal-cases t goal points options) [
    | inl refused ↦ inl refused
    | inr (ready, (value, found, e)) ↦
        let estimate = derive_baseline A goal points (value_or options.method mean) in
        inr (ready, (value, found, (_, e, lock_baseline-IsAdopted goal options value estimate)))
  ]

  latest_clamp-append :
      (from : Option Timestamp) (rs : List (Revision A)) (r : Revision A)
      → revision_touches_clamp_key A r ≡ false
      → latest_clamp A from (rs ++ r ∷ []) ≡ latest_clamp A from rs
  unfolding latest_clamp
  latest_clamp-append from [] r h = ground (arith, h)
  latest_clamp-append from (x ∷ rs) r h =
      latest_clamp-append (if revision_touches_clamp_key A x then later A from x.when else from) rs
        r h

  -- The window reads of a goal its id, criterion, model and clamp alone.
  same_criterion :
      (g h : IepGoal A)
      → g.criterion_level ≡ h.criterion_level
      → meets_criterion A g ≡ meets_criterion A h
  unfolding meets_criterion
  same_criterion g h e = fun_ext λ p. rw e refl

  same_clamped :
      (g h : IepGoal A)
      → g.goal_id ≡ h.goal_id
      → latest_clamp A none g.revisions ≡ latest_clamp A none h.revisions
      → is_clamped_scored A g ≡ is_clamped_scored A h
  unfolding is_clamped_scored clamp_after_from_revisions
  same_clamped g h e c = fun_ext λ p. rw (c, e) refl

  same_glyphs :
      (g h : IepGoal A) → g.criterion_level ≡ h.criterion_level → glyph_of A g ≡ glyph_of A h
  unfolding glyph_of
  same_glyphs g h e = fun_ext λ days. fun_ext λ p. rw (same_criterion g h e) refl

  with_status :
      (goal : IepGoal A) (to : GoalStatus) (value : Option Number) (source : Option BaselineSource)
      (history : List (Revision A)) (points : List (ProgressDataPoint A))
      → latest_clamp A none history ≡ latest_clamp A none goal.revisions
      → consistency_window A
          (record goal {
            status = to;
            baseline_value = value;
            baseline_source = source;
            revisions = history;
          })
          points
        ≡ consistency_window A goal points
  unfolding consistency_window percent_window scored_probes_in_order
  with_status goal to value source history points e =
      let g : IepGoal A = record goal {
        status = to;
        baseline_value = value;
        baseline_source = source;
        revisions = history;
      } in
      let criterion : meets_criterion A g ≡ meets_criterion A goal = same_criterion g goal refl in
      let clamped : is_clamped_scored A g ≡ is_clamped_scored A goal = same_clamped g goal refl e in
      let glyphs : glyph_of A g ≡ glyph_of A goal = same_glyphs g goal refl in
      rw (criterion, clamped, glyphs) refl

  -- Closing a goal leaves its consistency window as it is.
  close_goal-consistency_window :
      (goal : IepGoal A) (closing : Closing) (who : String) (when : Timestamp)
      (points : List (ProgressDataPoint A))
      → consistency_window A (close_goal_by_arc A goal closing who when) points
        ≡ consistency_window A goal points
  unfolding close_goal_by_arc clamp_after_from_revisions revision_touches_clamp_key
  close_goal-consistency_window goal closing who when points =
      with_status goal _ _ _ _ points (latest_clamp-append none goal.revisions _ refl)

  lock_baseline-consistency_window :
      (goal : IepGoal A) (options : AdoptOptions) (value : Number) (estimate : BaselineEstimate A)
      (probes : List (ProgressDataPoint A))
      → consistency_window A
          (lock_baseline A goal value (adoption_revision A options value estimate))
          probes
        ≡ consistency_window A goal probes
  unfolding adoption_revision clamp_after_from_revisions revision_touches_clamp_key
  lock_baseline-consistency_window goal options value estimate probes =
      with_status goal _ _ _ _ probes (latest_clamp-append none goal.revisions _ refl)

  adopted_inj : (g g' : IepGoal A) → adopted g ≡ adopted g' → g ≡ g'
  adopted_inj g g' h = cc

  -- Adopting a goal, which confirms the criterion in its history, leaves its consistency window as it is.
  pub adopt_goal-consistency_window :
      (t : TextOps) (goal : IepGoal A) (points : List (BaselinePoint A)) (options : AdoptOptions)
      (probes : List (ProgressDataPoint A)) {goal' : IepGoal A}
      → adopt_goal A t goal points options ≡ adopted goal'
      → consistency_window A goal' probes ≡ consistency_window A goal probes
  adopt_goal-consistency_window t goal points options probes {goal'} h =
      elim (adopt_goal-cases t goal points options) [
        | inl (reason, refused, error) ↦ absurd (ground (arith, error, h))
        | inr (ready, (value, found, result)) ↦
            let estimate = derive_baseline A goal points (value_or options.method mean) in
            let same : lock_baseline A goal value (adoption_revision A options value estimate)
                ≡ goal' =
              adopted_inj _ _ (sym result ∙ h) in
            subst (λ g. consistency_window A g probes ≡ consistency_window A goal probes) same
              (lock_baseline-consistency_window goal options value estimate probes)
      ]
