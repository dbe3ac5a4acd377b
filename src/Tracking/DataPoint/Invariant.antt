-- ===== src/Tracking/DataPoint/Invariant.antt =====
-- What holds of every recorded point, and what an edit loses
-- (packages/domain-core/src/data-point.ts).
use Prim.Native.String.{String}
use teacher_assistant.Base.{
  ◌≡◌, refl, ◌⊎◌, inl, inr, true, false, ◌||◌, Option, none, some, arith, is_some, Bool-cases,
}
use teacher_assistant.Tracking.Types.{
  Arithmetic, OpaqueId, IsoDate, Timestamp, Setting, Scorer, no_data, NoDataReason, Revision,
  ProgressDataPoint,
}
use teacher_assistant.Tracking.Order.{computed_ratio, or_zero, is_true}
use teacher_assistant.Tracking.DataPoint.{
  TextOps, ScoredPointInput, captured, capture_scored_point, scored_point, record_no_data,
  bookmark_for_later, EditableFields, merge, clear_value, resync, apply_edit, is_no_data, flag_of,
  old_values, new_values,
}

module _ (A : Arithmetic) where
  open A use {Number}

  -- A point that carries a value at all carries the ratio of its numerator to its denominator; its
  -- mismatch flag says whether its denominator differs from the retained original; a teacher's
  -- election stands on a mismatched point only; and a no-data point carries no value.
  pub record IsConsistent (p : ProgressDataPoint A) : Type 0 where
    pub value :
        (p.computed_value ≡ none)
        ⊎ (p.computed_value
            ≡ some (computed_ratio A (or_zero A p.numerator) (or_zero A p.denominator_used)))
    pub mismatch :
        p.denominator_mismatch ≡ flag_of A p.denominator_original (or_zero A p.denominator_used)
    pub election :
        is_some p.mismatch_window_disposition ≡ true → is_true p.denominator_mismatch ≡ true
    pub bare :
        is_no_data p.state ≡ true
        → (p.numerator ≡ none) × (p.denominator_used ≡ none) × (p.computed_value ≡ none)

  scored_point-IsConsistent :
      (new_id : OpaqueId) (input : ScoredPointInput A) → IsConsistent (scored_point A new_id input)
  unfolding scored_point
  scored_point-IsConsistent new_id input = record {
    value = inr refl;
    mismatch = refl;
    election = λ h. ground arith;
    bare = λ h. cc;
  }

  clear_value-IsConsistent : (p : ProgressDataPoint A) → IsConsistent (clear_value A p)
  unfolding clear_value
  clear_value-IsConsistent p = record {
    value = inl refl;
    mismatch = refl;
    election = λ h. cc;
    bare = λ h. (refl, refl, refl);
  }

  -- The fields that an edit of the value derives anew, where the original total is none or given.
  resync-IsConsistent :
      (m : ProgressDataPoint A)
      → is_no_data m.state ≡ false
      → (m.denominator_original ≡ none → m.denominator_mismatch ≡ none)
      → (is_some m.mismatch_window_disposition ≡ true → is_true m.denominator_mismatch ≡ true)
      → IsConsistent (resync A m)
  unfolding resync
  resync-IsConsistent m live flag election = record {
    value = inr (ground arith);
    mismatch = ground arith;
    election = λ h. ground arith;
    bare = λ h. absurd (ground arith);
  }

  merge-IsConsistent :
      (p : ProgressDataPoint A) (c : EditableFields A) (r : Revision A)
      → (is_some c.numerator || is_some c.denominator_used) ≡ false
      → is_no_data (merge A p c r).state ≡ false
      → IsConsistent p
      → IsConsistent (merge A p c r)
  unfolding merge
  merge-IsConsistent p c r same live v = record {
    value = ground (arith, v.value);
    mismatch = ground (arith, v.mismatch);
    election = v.election;
    bare = λ h. cc;
  }

  pub apply_edit-IsConsistent :
      (p : ProgressDataPoint A) (c : EditableFields A) (who : String) (when : Timestamp)
      → IsConsistent p
      → IsConsistent (apply_edit A p c who when)
  unfolding apply_edit
  apply_edit-IsConsistent p c who when v =
      let r : Revision A = record {
        who = who;
        when = when;
        old = old_values A p c;
        new = new_values A p c;
      } in
      elim (Bool-cases (is_no_data (merge A p c r).state)) [
        | inl bare ↦ rw bare (clear_value-IsConsistent (merge A p c r))
        | inr live ↦ elim (Bool-cases (is_some c.numerator || is_some c.denominator_used)) [
          | inl changed ↦
              rw (live, changed)
                (unfold merge in
                  resync-IsConsistent (merge A p c r) live (λ e. ground (arith, v.mismatch))
                    v.election)
          | inr same ↦ rw (live, same) (merge-IsConsistent p c r same live v)
        ]
      ]

  -- The points that the app can hold: captured, recorded as no data or bookmarked, and edited any
  -- number of times.
  pub data Recorded : ProgressDataPoint A → Type 0 where
    capture :
        (t : TextOps) (new_id : OpaqueId) (input : ScoredPointInput A) (p : ProgressDataPoint A)
        → capture_scored_point A t new_id input ≡ captured p
        → Recorded p
    no_data_point :
        (new_id goal student : OpaqueId) (date : IsoDate) (ts : Timestamp)
        (reason : Option NoDataReason) (place : Setting) (by : Scorer) (p : ProgressDataPoint A)
        → record_no_data A new_id goal student date ts reason place by ≡ some p
        → Recorded p
    bookmark :
        (new_id goal student : OpaqueId) (date : IsoDate) (ts : Timestamp) (place : Setting)
        (by : Scorer)
        → Recorded (bookmark_for_later A new_id goal student date ts place by)
    edit :
        {p : ProgressDataPoint A}
        → Recorded p
        → (c : EditableFields A) (who : String) (when : Timestamp)
        → Recorded (apply_edit A p c who when)

  capture-IsConsistent :
      (t : TextOps) (new_id : OpaqueId) (input : ScoredPointInput A) (p : ProgressDataPoint A)
      → capture_scored_point A t new_id input ≡ captured p
      → IsConsistent p
  unfolding capture_scored_point
  capture-IsConsistent t new_id input p e =
      let same : scored_point A new_id input ≡ p = ground arith in
      rw same at (scored_point-IsConsistent new_id input)

  no_data-IsConsistent :
      (new_id goal student : OpaqueId) (date : IsoDate) (ts : Timestamp)
      (reason : Option NoDataReason) (place : Setting) (by : Scorer) (p : ProgressDataPoint A)
      → record_no_data A new_id goal student date ts reason place by ≡ some p
      → IsConsistent p
  unfolding record_no_data
  no_data-IsConsistent new_id goal student date ts none place by p e = cc
  no_data-IsConsistent new_id goal student date ts (some reason) place by p e = record {
    value = inl (ground arith);
    mismatch = ground arith;
    election = λ h. ground arith;
    bare = λ h. ground arith;
  }

  -- Every point that a capture, a no-data record or a bookmark makes is consistent, after any number of
  -- edits.
  pub Recorded-IsConsistent : {p : ProgressDataPoint A} → Recorded p → IsConsistent p
  unfolding bookmark_for_later
  Recorded-IsConsistent (capture t new_id input p e) = capture-IsConsistent t new_id input p e
  Recorded-IsConsistent (no_data_point new_id goal student date ts reason place by p e) =
      no_data-IsConsistent new_id goal student date ts reason place by p e
  Recorded-IsConsistent (bookmark new_id goal student date ts place by) = record {
    value = inl refl;
    mismatch = refl;
    election = λ h. cc;
    bare = λ h. cc;
  }
  Recorded-IsConsistent (edit {p} r c who when) =
      apply_edit-IsConsistent p c who when (Recorded-IsConsistent r)

  -- The audit trail loses a value: where an edit turns a point into a no-data one and gives no
  -- numerator, the result, its revisions included, is the same whatever the numerator was.
  pub apply_edit-forgets :
      (p : ProgressDataPoint A) (c : EditableFields A) (who : String) (when : Timestamp)
      (n : Option Number)
      → c.state ≡ some no_data
      → c.numerator ≡ none
      → apply_edit A (record p { numerator = n }) c who when ≡ apply_edit A p c who when
  unfolding apply_edit merge clear_value old_values new_values
  apply_edit-forgets p c who when n e f = ground arith
