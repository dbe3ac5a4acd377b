-- ===== src/Tracking/BaselineEdit/Cases.antt =====
-- The edits of a baseline point as data, and how a property is shown of whatever one comes to
-- (packages/domain-core/src/baseline-edit.ts).
use Prim.Native.String.{String}
use teacher_assistant.Base.{
  ◌≡◌, refl, Bool, true, false, ◌&&◌, ◌||◌, not, Option, none, some, arith, ◌==◌, if◌then◌else◌,
}
use teacher_assistant.Tracking.Types.{
  Arithmetic, IsoDate, BaselineRemoveReason, IepGoal, BaselinePoint,
}
use teacher_assistant.Tracking.BaselineEdit.{
  BaselineEditBlock, not_proposed, invalid_score, invalid_date, not_mismatched, is_proposed, is_set,
  or_old, remove_reason_of, EditChecks, Edited, refused, edited, BaselineFix, BaselineEditOptions,
  check_baseline_score, is_good,
}
use teacher_assistant.Tracking.BaselineEdit.Edits.{
  edit_block, fix_to, unless_blocked, remove_for, fixed_point, removed_point, kept_point,
  fix_baseline_point, remove_baseline_point, keep_baseline_total,
}

module _ (A : Arithmetic) where
  open A use {Number, equal}

  pub data Edit : Type 0 where
    fixes : BaselineFix A → Edit
    removes : String → Edit
    keeps : Edit

  abbrev pub edit_point :
      EditChecks A → Edit → BaselinePoint A → IepGoal A → BaselineEditOptions A → Edited A
  edit_point X (fixes fix) p goal options = fix_baseline_point A X p goal fix options
  edit_point X (removes reason) p goal options = remove_baseline_point A p goal reason options
  edit_point X keeps p goal options = keep_baseline_total A p goal options

  -- What an edit may come to.
  abbrev pub AllEdited : (BaselinePoint A → Type 0) → Edited A → Type 0
  AllEdited P (refused block) = Unit
  AllEdited P (edited p) = P p

  pub blocked_all :
      (P : BaselinePoint A → Type 0) (block : Option BaselineEditBlock) (result : Edited A)
      → (block ≡ none → AllEdited P result)
      → AllEdited P (unless_blocked A block result)
  blocked_all P none result h = h refl
  blocked_all P (some block) result h = tt

  pub if_all :
      (P : BaselinePoint A → Type 0) (b : Bool) (x y : Edited A)
      → (b ≡ true → AllEdited P x)
      → (b ≡ false → AllEdited P y)
      → AllEdited P (if b then x else y)
  if_all P true x y h k = h refl
  if_all P false x y h k = k refl

  three_all :
      (P : BaselinePoint A → Type 0) (score date same : Bool) (p q : BaselinePoint A)
      → P p
      → P q
      → AllEdited P (
          if score
          then refused invalid_score
          else if date
          then refused invalid_date
          else if same
          then edited p
          else edited q)
  three_all P true date same p q h k = tt
  three_all P false true same p q h k = tt
  three_all P false false true p q h k = h
  three_all P false false false p q h k = k

  -- What holds of the point, and of it after a fix, a removal or a keep, holds after every edit.
  module _ (X : EditChecks A) (p : BaselinePoint A) (goal : IepGoal A)
      (options : BaselineEditOptions A) (P : BaselinePoint A → Type 0) (same : P p)
      (fix_case : (n d : Number) (date : IsoDate) (value_changed date_changed : Bool)
        → P (fixed_point A p goal n d date value_changed date_changed options))
      (remove_case : (reason : BaselineRemoveReason) → P (removed_point A p reason options))
      (keep_case : is_set p.denominator_mismatch ≡ true → P (kept_point A p options)) where
    fix_to_all : (n d : Number) (date : IsoDate) → AllEdited P (fix_to A X p goal n d date options)
    fix_to_all n d date =
        let date_changed = not (date == p.admin_date) in
        let value_changed = not (equal n p.numerator) || not (equal d p.denominator_used) in
        three_all P (not (is_good A (check_baseline_score A X (some n) (some d))))
          (not (X.is_date date)) (not value_changed && not date_changed) p
          (fixed_point A p goal n d date value_changed date_changed options) same
          (fix_case n d date value_changed date_changed)

    remove_for_all :
        (reason : Option BaselineRemoveReason) → AllEdited P (remove_for A p goal reason options)
    remove_for_all none = tt
    remove_for_all (some reason) =
        if_all P (not (is_proposed goal.status)) (refused not_proposed)
          (edited (removed_point A p reason options)) (λ e. tt) (λ e. remove_case reason)

    pub edit_point_all : (e : Edit) → AllEdited P (edit_point X e p goal options)
    unfolding fix_baseline_point remove_baseline_point keep_baseline_total
    edit_point_all (fixes fix) =
        blocked_all P (edit_block A p goal options.who)
          (fix_to A X p goal (or_old fix.new_numerator p.numerator)
            (or_old fix.new_denominator p.denominator_used) (or_old fix.new_date p.admin_date)
            options)
          (λ b.
            fix_to_all (or_old fix.new_numerator p.numerator)
              (or_old fix.new_denominator p.denominator_used) (or_old fix.new_date p.admin_date))
    edit_point_all (removes reason) =
        blocked_all P (edit_block A p goal options.who)
          (remove_for A p goal (remove_reason_of reason) options)
          (λ b. remove_for_all (remove_reason_of reason))
    edit_point_all keeps =
        blocked_all P (edit_block A p goal options.who)
          (if not (is_set p.denominator_mismatch) || is_set p.mismatch_kept
            then refused not_mismatched
            else edited (kept_point A p options))
          (λ b.
            if_all P (not (is_set p.denominator_mismatch) || is_set p.mismatch_kept)
              (refused not_mismatched) (edited (kept_point A p options)) (λ e. tt)
              (λ e. keep_case (ground arith)))
