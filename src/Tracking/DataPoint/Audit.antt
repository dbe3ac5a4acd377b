-- ===== src/Tracking/DataPoint/Audit.antt =====
-- The revision that an edit of a progress point leaves (packages/domain-core/src/data-point.ts).
use Prim.Native.String.{String}
use teacher_assistant.Base.{
  ◌≡◌, Bool, false, List, [], ◌∷◌, Option, none, some, is_some, filter, map,
}
use teacher_assistant.Tracking.Types.{
  Arithmetic, Timestamp, FieldName, numerator, denominator_used, state, no_data_reason, setting,
  FieldValue, undefined, number, a_state, a_reason, a_setting, Revision, ProgressDataPoint,
}
use teacher_assistant.Tracking.DataPoint.{EditableFields, number_value, reason_value}

module _ (A : Arithmetic) where
  open A use {Number}

  abbrev pub editable : List FieldName
  editable = numerator ∷ denominator_used ∷ state ∷ no_data_reason ∷ setting ∷ []

  -- What a point has in an editable field.
  abbrev pub value_of : ProgressDataPoint A → FieldName → FieldValue A
  value_of p numerator = number_value A p.numerator
  value_of p denominator_used = number_value A p.denominator_used
  value_of p state = a_state p.state
  value_of p no_data_reason = reason_value A p.no_data_reason
  value_of p setting = a_setting p.setting
  value_of p _ = undefined

  -- Whether the edit gives the field, and what it gives.
  abbrev pub gives : EditableFields A → FieldName → Bool
  gives c numerator = is_some c.numerator
  gives c denominator_used = is_some c.denominator_used
  gives c state = is_some c.state
  gives c no_data_reason = is_some c.no_data_reason
  gives c setting = is_some c.setting
  gives c _ = false

  abbrev or_undefined : {B : Type 0} → (B → FieldValue A) → Option B → FieldValue A
  or_undefined f none = undefined
  or_undefined f (some b) = f b

  abbrev pub given_value : EditableFields A → FieldName → FieldValue A
  given_value c numerator = or_undefined number c.numerator
  given_value c denominator_used = or_undefined number c.denominator_used
  given_value c state = or_undefined a_state c.state
  given_value c no_data_reason = or_undefined a_reason c.no_data_reason
  given_value c setting = or_undefined a_setting c.setting
  given_value c _ = undefined

  -- A revision by who at when, which has for each field that the edit gives, and for no other, what
  -- the point had and what is given.
  pub record IsRevisionOf (p : ProgressDataPoint A) (c : EditableFields A) (who : String)
      (when : Timestamp) (r : Revision A) : Type 0 where
    pub by : r.who ≡ who
    pub at : r.when ≡ when
    pub old : r.old ≡ map (λ f. (f, value_of p f)) (filter (gives c) editable)
    pub new : r.new ≡ map (λ f. (f, given_value c f)) (filter (gives c) editable)
