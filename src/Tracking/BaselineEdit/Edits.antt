-- ===== src/Tracking/BaselineEdit/Edits.antt =====
-- packages/domain-core/src/baseline-edit.ts: Fix, Remove and Keep, and the history that they write.
use Prim.Native.String.{String}
use teacher_assistant.Base.{
  Bool, true, false, ◌&&◌, ◌||◌, not, List, [], ◌∷◌, ◌++◌, Option, none, some, ◌==◌, if◌then◌else◌,
  filter, contains,
}
use teacher_assistant.Tracking.Types.{
  Arithmetic, OpaqueId, IsoDate, Timestamp, recorded, removed, BaselineRemoveReason, Scorer,
  FieldName, numerator, denominator_used, status, admin_date, mismatch_kept, removed_reason,
  FieldValue, number, flag, a_date, a_point_status, a_remove_reason, Revision, IepGoal,
  BaselinePoint,
}
use teacher_assistant.Tracking.Order.{computed_ratio}
use teacher_assistant.Tracking.Baseline.{baseline_value_of}
use teacher_assistant.Tracking.BaselineEdit.{
  BaselineEditBlock, teacher_only, not_proposed, invalid_score, invalid_date, invalid_reason,
  already_removed, wrong_goal, not_mismatched, is_teacher, scorer_text, remove_reason_of,
  is_proposed, is_removed_status, is_set, or_old, set_if, EditChecks, Edited, refused, edited,
  BaselineFix, BaselineEditOptions, check_baseline_score, is_good, mismatch_of, adoption_record,
  was_adopted_from,
}

module _ (A : Arithmetic) where
  open A use {Number, equal}

  abbrev pub Fields : Type 0
  Fields = List (FieldName × FieldValue A)

  -- assertEditable: what it throws.
  unfoldable pub edit_block : BaselinePoint A → IepGoal A → Scorer → Option BaselineEditBlock
  edit_block p goal who =
      if not (is_teacher who)
      then some teacher_only
      else if not (p.goal_id == goal.goal_id)
      then some wrong_goal
      else if is_removed_status p.status
      then some already_removed
      else none

  abbrev pub with_date : Bool → IsoDate → Fields
  with_date true date = (admin_date, a_date date) ∷ []
  with_date false date = []

  abbrev pub score_fields : Number → Number → Fields → Fields
  score_fields n d rest = (numerator, number n) ∷ (denominator_used, number d) ∷ rest

  -- A field that the new object gives, or the one that is spread into it.
  abbrev pub or_else : Option Bool → Option Bool → Option Bool
  or_else none old = old
  or_else (some b) old = some b

  -- The point after a fix to these values, some of which differ from its own.
  unfoldable pub fixed_point :
      BaselinePoint A
      → IepGoal A
      → Number
      → Number
      → IsoDate
      → Bool
      → Bool
      → BaselineEditOptions A
      → BaselinePoint A
  fixed_point p goal n d date value_changed date_changed options =
      let mismatch = mismatch_of A p.denominator_original d in
      record p {
        numerator = n;
        denominator_used = d;
        admin_date = date;
        computed_value = some (computed_ratio A n d);
        denominator_mismatch = or_else mismatch p.denominator_mismatch;
        mismatch_kept =
            set_if (is_set mismatch && equal d p.denominator_used && is_set p.mismatch_kept);
        corrected_after_adoption =
            or_else
              (set_if
                (is_set p.corrected_after_adoption || value_changed && was_adopted_from A goal p))
              p.corrected_after_adoption;
        revisions =
            p.revisions
            ++ record {
              who = scorer_text options.who;
              when = options.when;
              old =
                  score_fields p.numerator p.denominator_used (with_date date_changed p.admin_date);
              new = score_fields n d (with_date date_changed date);
            }
              ∷ [];
      }

  abbrev pub fix_to :
      EditChecks A
      → BaselinePoint A
      → IepGoal A
      → Number
      → Number
      → IsoDate
      → BaselineEditOptions A
      → Edited A
  fix_to X p goal n d date options =
      let date_changed = not (date == p.admin_date) in
      let value_changed = not (equal n p.numerator) || not (equal d p.denominator_used) in
      if not (is_good A (check_baseline_score A X (some n) (some d)))
      then refused invalid_score
      else if not (X.is_date date)
      then refused invalid_date
      else if not value_changed && not date_changed
      then edited p
      else edited (fixed_point p goal n d date value_changed date_changed options)

  abbrev pub unless_blocked : Option BaselineEditBlock → Edited A → Edited A
  unless_blocked none result = result
  unless_blocked (some reason) result = refused reason

  unfoldable pub fix_baseline_point :
      EditChecks A → BaselinePoint A → IepGoal A → BaselineFix A → BaselineEditOptions A → Edited A
  fix_baseline_point X p goal fix options = unless_blocked (edit_block p goal options.who) (
      fix_to X p goal (or_old fix.new_numerator p.numerator)
        (or_old fix.new_denominator p.denominator_used) (or_old fix.new_date p.admin_date) options)

  unfoldable pub removed_point :
      BaselinePoint A → BaselineRemoveReason → BaselineEditOptions A → BaselinePoint A
  removed_point p reason options = record p {
    status = removed;
    removed_reason = some reason;
    removed_ts = some options.when;
    removed_by = some options.who;
    revisions =
        p.revisions
        ++ record {
          who = scorer_text options.who;
          when = options.when;
          old = (status, a_point_status recorded) ∷ score_fields p.numerator p.denominator_used [];
          new = (status, a_point_status removed) ∷ (removed_reason, a_remove_reason reason) ∷ [];
        }
          ∷ [];
  }

  abbrev pub remove_for :
      BaselinePoint A → IepGoal A → Option BaselineRemoveReason → BaselineEditOptions A → Edited A
  remove_for p goal none options = refused invalid_reason
  remove_for p goal (some reason) options =
      if not (is_proposed goal.status)
      then refused not_proposed
      else edited (removed_point p reason options)

  unfoldable pub remove_baseline_point :
      BaselinePoint A → IepGoal A → String → BaselineEditOptions A → Edited A
  remove_baseline_point p goal reason options =
      unless_blocked (edit_block p goal options.who)
        (remove_for p goal (remove_reason_of reason) options)

  unfoldable pub kept_point : BaselinePoint A → BaselineEditOptions A → BaselinePoint A
  kept_point p options = record p {
    mismatch_kept = some true;
    revisions =
        p.revisions
        ++ record {
          who = scorer_text options.who;
          when = options.when;
          old = (mismatch_kept, flag false) ∷ [];
          new = (mismatch_kept, flag true) ∷ [];
        }
          ∷ [];
  }

  unfoldable pub keep_baseline_total :
      BaselinePoint A → IepGoal A → BaselineEditOptions A → Edited A
  keep_baseline_total p goal options = unless_blocked (edit_block p goal options.who) (
      if not (is_set p.denominator_mismatch) || is_set p.mismatch_kept
      then refused not_mismatched
      else edited (kept_point p options))

  pub data BaselineHistoryEntry : Type 0 where
    was_fixed : Timestamp → Number × Number → Number × Number → BaselineHistoryEntry
    was_removed : Timestamp → BaselineRemoveReason → Number × Number → BaselineHistoryEntry

  unfoldable pub numerator_in : Fields → Option Number
  numerator_in [] = none
  numerator_in ((numerator, number n) ∷ fs) = some n
  numerator_in (f ∷ fs) = numerator_in fs

  unfoldable pub denominator_in : Fields → Option Number
  denominator_in [] = none
  denominator_in ((denominator_used, number n) ∷ fs) = some n
  denominator_in (f ∷ fs) = denominator_in fs

  unfoldable pub reason_in : Fields → Option BaselineRemoveReason
  reason_in [] = none
  reason_in ((removed_reason, a_remove_reason r) ∷ fs) = some r
  reason_in (f ∷ fs) = reason_in fs

  abbrev pub both : Option Number → Option Number → Option (Number × Number)
  both (some n) (some d) = some (n, d)
  both _ _ = none

  unfoldable pub pair_of : Fields → Option (Number × Number)
  pair_of fs = both (numerator_in fs) (denominator_in fs)

  abbrev pub removal :
      BaselinePoint A
      → Timestamp
      → Option BaselineRemoveReason
      → Option (Number × Number)
      → List BaselineHistoryEntry
  removal p when none was = []
  removal p when (some reason) was =
      was_removed when reason (or_old was (p.numerator, p.denominator_used)) ∷ []

  abbrev pub entries_by :
      BaselinePoint A
      → Timestamp
      → Option (Number × Number)
      → Option (Number × Number)
      → Option BaselineRemoveReason
      → List BaselineHistoryEntry
  entries_by p when (some was) (some now) reason = was_fixed when was now ∷ []
  entries_by p when none now reason = removal p when reason none
  entries_by p when (some was) none reason = removal p when reason (some was)

  unfoldable pub entry_of : BaselinePoint A → Revision A → List BaselineHistoryEntry
  entry_of p r = entries_by p r.when (pair_of r.old) (pair_of r.new) (reason_in r.new)

  unfoldable pub entries : BaselinePoint A → List (Revision A) → List BaselineHistoryEntry
  entries p [] = []
  entries p (r ∷ rs) = entry_of p r ++ entries p rs

  unfoldable pub baseline_history : BaselinePoint A → List BaselineHistoryEntry
  baseline_history p = entries p p.revisions

  abbrev pub still_adopted : Option (List OpaqueId) → BaselinePoint A → Bool
  still_adopted none p = not (is_removed_status p.status)
  still_adopted (some xs) p = contains p.baseline_point_id xs

  abbrev pub any_corrected : List (BaselinePoint A) → Bool
  any_corrected [] = false
  any_corrected (p ∷ ps) = is_set p.corrected_after_adoption || any_corrected ps

  -- The value that the IEP has, and what the estimate would now be.
  unfoldable pub baseline_correction_after_arc :
      IepGoal A → List (BaselinePoint A) → Option (Number × Number)
  baseline_correction_after_arc goal points =
      let own = filter (λ p. p.goal_id == goal.goal_id) points in
      let (ids, method) = adoption_record A goal in
      if any_corrected own
      then both goal.baseline_value (baseline_value_of A (filter (still_adopted ids) own) method)
      else none
