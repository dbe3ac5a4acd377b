-- ===== src/Tracking/BaselineEdit/Audit.antt =====
-- What an edit of a baseline point leaves of it (packages/domain-core/src/baseline-edit.ts).
use teacher_assistant.Base.{
  ◌≡◌, refl, ap, ◌∙◌, ◌≢◌, ◌⊎◌, Bool, true, false, ◌&&◌, not, [], ◌∷◌, ◌++◌, Option, none, some,
  is_some, arith,
}
use teacher_assistant.Tracking.Types.{
  Arithmetic, OpaqueId, IsoDate, Timestamp, removed, BaselineRemoveReason, Scorer, teacher,
  Revision, IepGoal, BaselinePoint, ProbeDefinition,
}
use teacher_assistant.Tracking.Order.{computed_ratio}
use teacher_assistant.Tracking.BaselineEdit.{
  is_teacher, scorer_text, is_proposed, is_removed_status, is_set, set_if, EditChecks,
  BaselineEditOptions, check_baseline_score, is_good, mismatch_of, create_baseline_point,
}
use teacher_assistant.Tracking.BaselineEdit.Edits.{
  fixed_point, removed_point, kept_point, or_else, pair_of,
}
use teacher_assistant.Tracking.BaselineEdit.Cases.{
  Edit, edit_point, AllEdited, if_all, edit_point_all,
}

module _ (A : Arithmetic) where
  open A use {Number, equal}

  -- A point's value is its ratio, its mismatch flag compares its total with the probe's, a total is
  -- kept only where it differs, and a removed point has its reason.
  pub record IsConsistent (p : BaselinePoint A) : Type 0 where
    pub value : p.computed_value ≡ some (computed_ratio A p.numerator p.denominator_used)
    pub mismatch : p.denominator_mismatch ≡ mismatch_of A p.denominator_original p.denominator_used
    pub kept : is_set p.mismatch_kept ≡ true → is_set p.denominator_mismatch ≡ true
    pub reason : is_some p.removed_reason ≡ is_removed_status p.status

  mismatch-or_else :
      (o : Option Number) (d : Number) (old : Option Bool)
      → (o ≡ none → old ≡ none)
      → or_else A (mismatch_of A o d) old ≡ mismatch_of A o d
  mismatch-or_else none d old h = h refl
  mismatch-or_else (some e) d old h = refl

  kept_fixed :
      (mismatch old : Option Bool) (b c : Bool)
      → is_set (set_if (is_set mismatch && b && c)) ≡ true
      → is_set (or_else A mismatch old) ≡ true
  kept_fixed none old b c h = absurd (ground arith)
  kept_fixed (some false) old b c h = absurd (ground arith)
  kept_fixed (some true) old b c h = refl

  fixed_point-IsConsistent :
      (p : BaselinePoint A) (goal : IepGoal A) (n d : Number) (date : IsoDate)
      (value_changed date_changed : Bool) (options : BaselineEditOptions A)
      → IsConsistent p
      → IsConsistent (fixed_point A p goal n d date value_changed date_changed options)
  unfolding fixed_point
  fixed_point-IsConsistent p goal n d date vc dc options v = record {
    value = refl;
    mismatch =
        mismatch-or_else p.denominator_original d p.denominator_mismatch
          (λ e. v.mismatch ∙ ap (λ o. mismatch_of A o p.denominator_used) e);
    kept = λ h.
        kept_fixed (mismatch_of A p.denominator_original d) p.denominator_mismatch
          (equal d p.denominator_used) (is_set p.mismatch_kept) h;
    reason = v.reason;
  }

  -- A point that is captured is consistent, and every edit keeps it so, unless it is refused.
  pub create_baseline_point-IsConsistent :
      (X : EditChecks A) (id : OpaqueId) (goal : IepGoal A) (probe : Option (ProbeDefinition A))
      (date : IsoDate) (n d : Number) (who : Scorer) (entry_ts : Timestamp)
      → AllEdited A IsConsistent (create_baseline_point A X id goal probe date n d who entry_ts)
  unfolding create_baseline_point
  create_baseline_point-IsConsistent X id goal probe date n d who entry_ts =
      if_all A IsConsistent (not (is_teacher who)) _ _ (λ e. tt)
        (λ e.
          if_all A IsConsistent (not (is_proposed goal.status)) _ _ (λ e. tt)
            (λ e.
              if_all A IsConsistent (not (is_good A (check_baseline_score A X (some n) (some d)))) _
                _ (λ e. tt)
                (λ e.
                  if_all A IsConsistent (not (X.is_date date)) _ _ (λ e. tt)
                    (λ e. record {
                      value = refl;
                      mismatch = refl;
                      kept = λ h. absurd (ground (h, arith));
                      reason = refl;
                    }))))

  removed_point-IsConsistent :
      (p : BaselinePoint A) (reason : BaselineRemoveReason) (options : BaselineEditOptions A)
      → IsConsistent p
      → IsConsistent (removed_point A p reason options)
  unfolding removed_point
  removed_point-IsConsistent p reason options v = record {
    value = v.value;
    mismatch = v.mismatch;
    kept = v.kept;
    reason = refl;
  }

  kept_point-IsConsistent :
      (p : BaselinePoint A) (options : BaselineEditOptions A)
      → is_set p.denominator_mismatch ≡ true
      → IsConsistent p
      → IsConsistent (kept_point A p options)
  unfolding kept_point
  kept_point-IsConsistent p options e v = record {
    value = v.value;
    mismatch = v.mismatch;
    kept = λ h. e;
    reason = v.reason;
  }

  -- An edit of a consistent point, whichever it is, is refused or gives a consistent point.
  pub edit_point-IsConsistent :
      (X : EditChecks A) (e : Edit A) (p : BaselinePoint A) (goal : IepGoal A)
      (options : BaselineEditOptions A)
      → IsConsistent p
      → AllEdited A IsConsistent (edit_point A X e p goal options)
  edit_point-IsConsistent X e p goal options v =
      edit_point_all A X p goal options IsConsistent v
        (λ n d date vc dc. fixed_point-IsConsistent p goal n d date vc dc options v)
        (λ reason. removed_point-IsConsistent p reason options v)
        (λ h. kept_point-IsConsistent p options h v) e

  -- Why a point cannot be edited: it is removed, of another goal, or the editor is not the teacher.
  abbrev pub IsFrozen : BaselinePoint A → IepGoal A → Scorer → Type 0
  IsFrozen p goal who = (p.status ≡ removed) ⊎ ((p.goal_id ≢ goal.goal_id) ⊎ (who ≢ teacher))

  -- The revision has the scores before and after it, as the history reads them, or the score stays.
  abbrev pub TellsScore : BaselinePoint A → Revision A → BaselinePoint A → Type 0
  TellsScore p r q =
      ((pair_of A r.old ≡ some (p.numerator, p.denominator_used))
        × (pair_of A r.new ≡ some (q.numerator, q.denominator_used)))
      ⊎ ((q.numerator ≡ p.numerator) × (q.denominator_used ≡ p.denominator_used))

  -- What an edit never changes, and the one revision that it adds if it changes anything.
  abbrev pub IsAudited : BaselinePoint A → BaselineEditOptions A → BaselinePoint A → Type 0
  IsAudited p options q =
      (q ≡ p)
      ⊎ ((r : Revision A) × (q.revisions ≡ p.revisions ++ r ∷ [])
          × (r.who ≡ scorer_text options.who)
          × (r.when ≡ options.when)
          × (q.baseline_point_id ≡ p.baseline_point_id)
          × (q.goal_id ≡ p.goal_id)
          × (q.student_id ≡ p.student_id)
          × (q.entry_ts ≡ p.entry_ts)
          × (q.denominator_original ≡ p.denominator_original)
          × TellsScore p r q)
