-- ===== src/Records/Accepted.antt =====
-- crates/db/src/validation.rs: what an accepted record holds can be encoded.
use lazypock.Base.{
  Bool, true, false, not, ◌&&◌, List, [], ◌∷◌, Option, none, some, ◌≡◌, ◌⊎◌, refl, if◌then◌else◌,
  Bool-cases, inl, inr, ok,
}
use lazypock.Base.Text.{Text}
use lazypock.Schema.Json.{Json, Members, Number, Numbers, find_member}
use lazypock.Schema.Types.{FieldType, is_auth}
use lazypock.Schema.Collections.{Collection, Field}
use lazypock.Records.{
  Errors, check_fields, check_keys, check_sent, failed, is_autodate, report, validate,
  validate_auth_keys,
}
use lazypock.Records.Values.{Checked, Code, is_blank_text, validate_as, validate_value}
use lazypock.Records.Reports.{
  false-ne-true, report-ne-nil, report_if-nil, failed-nil, auth-nil, verdict-nil,
}
use lazypock.Records.Encoding.{encode_value, is_empty_text, is_null}
use lazypock.Records.Encoding.Encodable.{Encodes, encode_value-Encodes}

autodate-valid :
    (numbers : Numbers) (parse_f64 : Text → Option Number) (t : FieldType) (f : Field)
    (value : Json)
    → is_autodate t ≡ true
    → validate_as numbers parse_f64 t f value ≡ ok tt
unfolding validate_as
autodate-valid numbers parse_f64 FieldType.autodate f value h = refl
autodate-valid numbers parse_f64 _ f value h = absurd (false-ne-true h)

abbrev pub Member : Field → List Field → Type 0
Member f [] = ⊥
Member f (g ∷ gs) = (f ≡ g) ⊎ Member f gs

module _ (numbers : Numbers) (parse_f64 : Text → Option Number) where
  -- A value that the checks let through.
  abbrev Acceptable : Field → Json → Type 0
  Acceptable f value =
      (is_null value ≡ true)
      ⊎ ((is_empty_text value ≡ true) ⊎ (validate_value numbers parse_f64 f value ≡ ok tt))

  kept-nil :
      (b : Bool) (r : Checked) (name : Text) (errors : Errors)
      → (if b then report name Code.required errors else failed r name errors) ≡ []
      → (errors ≡ []) × (r ≡ ok tt)
  kept-nil true r name errors h = absurd (report-ne-nil name Code.required errors h)
  kept-nil false r name errors h = failed-nil r name errors h

  stored-nil :
      (f : Field) (value : Json) (errors : Errors)
      → (if f.required && is_blank_text f.field_type value
          then report f.name Code.required errors
          else failed (validate_value numbers parse_f64 f value) f.name errors)
        ≡ []
      → (errors ≡ []) × Acceptable f value
  stored-nil f value errors h =
      let (clean, valid) =
        kept-nil (f.required && is_blank_text f.field_type value)
          (validate_value numbers parse_f64 f value) f.name errors h in
      (clean, inr (inr valid))

  check_sent-nil :
      (f : Field) (partial : Bool) (value : Json) (errors : Errors)
      → check_sent numbers parse_f64 f partial (some value) errors ≡ []
      → (errors ≡ []) × Acceptable f value
  unfolding check_sent
  check_sent-nil f partial Json.null errors h =
      (report_if-nil f.required f.name Code.required errors h, inl refl)
  check_sent-nil f partial (Json.string []) errors h =
      (report_if-nil f.required f.name Code.required errors h, inr (inl refl))
  check_sent-nil f partial (Json.string (c ∷ s)) errors h =
      stored-nil f (Json.string (c ∷ s)) errors h
  check_sent-nil f partial (Json.bool b) errors h = stored-nil f (Json.bool b) errors h
  check_sent-nil f partial (Json.number n) errors h = stored-nil f (Json.number n) errors h
  check_sent-nil f partial (Json.array items) errors h = stored-nil f (Json.array items) errors h
  check_sent-nil f partial (Json.object members) errors h =
      stored-nil f (Json.object members) errors h

  check_absent-nil :
      (f : Field) (partial : Bool) (o : Option Json) (errors : Errors)
      → check_sent numbers parse_f64 f partial o errors ≡ []
      → errors ≡ []
  unfolding check_sent
  check_absent-nil f partial none errors h =
      report_if-nil (f.required && not partial) f.name Code.required errors h
  check_absent-nil f partial (some value) errors h = (check_sent-nil f partial value errors h).0

  turn-nil :
      (b : Bool) (f : Field) (partial : Bool) (o : Option Json) (errors : Errors)
      → (if b then errors else check_sent numbers parse_f64 f partial o errors) ≡ []
      → errors ≡ []
  turn-nil true f partial o errors h = h
  turn-nil false f partial o errors h = check_absent-nil f partial o errors h

  turn-Acceptable :
      (f : Field) (partial : Bool) (value : Json) (errors : Errors)
      → (if is_autodate f.field_type
          then errors
          else check_sent numbers parse_f64 f partial (some value) errors)
        ≡ []
      → Acceptable f value
  unfolding validate_value
  turn-Acceptable f partial value errors h = elim (Bool-cases (is_autodate f.field_type)) [
    | inl dated ↦ inr (inr (autodate-valid numbers parse_f64 f.field_type f value dated))
    | inr sent ↦ (check_sent-nil f partial value errors (rw sent at h)).1
  ]

  check_fields-nil :
      (fs : List Field) (input : Members) (partial : Bool) (errors : Errors)
      → check_fields numbers parse_f64 fs input partial errors ≡ []
      → errors ≡ []
  unfolding check_fields
  check_fields-nil [] input partial errors h = h
  check_fields-nil (f ∷ fs) input partial errors h =
      turn-nil (is_autodate f.field_type) f partial (find_member f.name input) errors
        (check_fields-nil fs input partial _ h)

  check_fields-Acceptable :
      (fs : List Field) (input : Members) (partial : Bool) (errors : Errors) (f : Field)
      (value : Json)
      → check_fields numbers parse_f64 fs input partial errors ≡ []
      → Member f fs
      → find_member f.name input ≡ some value
      → Acceptable f value
  unfolding check_fields
  check_fields-Acceptable [] input partial errors f value h absent sent = absurd absent
  check_fields-Acceptable (g ∷ fs) input partial errors f value h (inr later) sent =
      check_fields-Acceptable fs input partial _ f value h later sent
  check_fields-Acceptable (g ∷ fs) input partial errors f value h (inl same) sent =
      let turn = check_fields-nil fs input partial _ h in
      rw same (turn-Acceptable g partial value errors (rw (rw same at sent) at turn))

-- Where a record is accepted, whole or partial, the encoding of a value does not fail: of
-- whatever was sent for a field of the collection, `encode_value` gives a text or nothing, and no
-- error.
pub validate-Encodes :
    (numbers : Numbers) (parse_f64 : Text → Option Number) (c : Collection) (input : Members)
    (partial : Bool) (f : Field) (value : Json)
    → validate numbers parse_f64 c input partial ≡ ok tt
    → Member f c.fields
    → find_member f.name input ≡ some value
    → Encodes (encode_value numbers parse_f64 f value)
unfolding validate
validate-Encodes numbers parse_f64 c input partial f value h known sent =
    let found = check_fields numbers parse_f64 c.fields input partial (check_keys c input []) in
    let told =
      verdict-nil
        (if is_auth c.collection_type then validate_auth_keys c input partial found else found) h in
    encode_value-Encodes numbers parse_f64 f value (
      check_fields-Acceptable numbers parse_f64 c.fields input partial (check_keys c input []) f
        value (auth-nil (is_auth c.collection_type) c input partial found told) known sent)
