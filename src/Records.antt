-- ===== src/Records.antt =====
-- crates/db/src/validation.rs: records are validated against their collection, and their values encoded. The failures of a
-- record are a list with the first one of each name.
pub mod Values
pub mod Encoding
pub mod Reports
pub mod Accepted
mod Tests
use lazypock.Base.{
  ℕ, Bool, true, false, not, ◌&&◌, ◌||◌, List, [], ◌∷◌, ◌++◌, Option, none, some, ltb,
  if◌then◌else◌, null, length, Result, ok, err,
}
use lazypock.Base.Text.{Text, codes, text_eq}
use lazypock.Base.Dict.{Dict, lookup}
use lazypock.Schema.Json.{Json, Members, Number, Numbers, find_member, is_some}
use lazypock.Schema.Types.{FieldType, contains, is_auth}
use lazypock.Schema.Collections.{Collection, Field, find_field, password_field}
use lazypock.Records.Values.{Code, is_blank_text, looks_like_email, parse_bool, validate_value}

abbrev pub server_managed_keys : List Text
server_managed_keys =
    codes "created" ∷ codes "updated" ∷ codes "collectionId" ∷ codes "collectionName" ∷ []

abbrev pub auth_input_keys : List Text
auth_input_keys = codes "email" ∷ codes "verified" ∷ codes "password" ∷ codes "passwordConfirm" ∷ []

abbrev pub min_password_len : ℕ
min_password_len = 8

abbrev pub Errors : Type 0
Errors = Dict Code

-- `ValidationErrors::insert`.
unfoldable pub report : Text → Code → Errors → Errors
unfolding lookup
report name code errors =
    if is_some (lookup name errors) then errors else errors ++ (name, code) ∷ []

unfoldable pub report_if : Bool → Text → Code → Errors → Errors
unfolding report
report_if false name code errors = errors
report_if true name code errors = report name code errors

-- A key that the collection does not have.
unfoldable pub is_unknown : Collection → Text → Bool
unfolding text_eq contains find_field
is_unknown c key =
    not (text_eq key (codes "id") || contains key server_managed_keys)
    && (not (is_auth c.collection_type && contains key auth_input_keys)
        && not (is_some (find_field key c.fields)))

unfoldable pub check_keys : Collection → Members → Errors → Errors
unfolding is_unknown report_if
check_keys c Members.close errors = errors
check_keys c (Members.member key value rest) errors =
    check_keys c rest (report_if (is_unknown c key) key Code.unknown_field errors)

abbrev pub is_autodate : FieldType → Bool
is_autodate FieldType.autodate = true
is_autodate _ = false

unfoldable pub failed : Result Code (Unit {0}) → Text → Errors → Errors
unfolding report
failed (ok done) name errors = errors
failed (err code) name errors = report name code errors

-- `Collection::password_input`.
unfoldable pub password_input : Option Field → Members → Option Json
unfolding find_member
password_input none input = none
password_input (some f) input =
    if is_some (find_member (codes "password") input)
    then find_member (codes "password") input
    else find_member f.name input

-- A password that is there.
abbrev pub supplied : Option Json → Option Json
supplied (some Json.null) = none
supplied (some (Json.string [])) = none
supplied o = o

unfoldable pub check_email : Bool → Option Json → Errors → Errors
unfolding report report_if looks_like_email
check_email true none errors = errors
check_email false none errors = report (codes "email") Code.required errors
check_email partial (some Json.null) errors = report (codes "email") Code.required errors
check_email partial (some (Json.string s)) errors =
    report_if (not (looks_like_email s)) (codes "email") Code.invalid_email errors
check_email partial (some _) errors = report (codes "email") Code.invalid_value errors

unfoldable pub check_verified : Option Json → Errors → Errors
unfolding report_if parse_bool
check_verified none errors = errors
check_verified (some Json.null) errors = errors
check_verified (some value) errors =
    report_if (not (is_some (parse_bool value))) (codes "verified") Code.invalid_value errors

unfoldable pub check_password : Option Json → Errors → Errors
unfolding report report_if
check_password none errors = errors
check_password (some (Json.string s)) errors =
    report_if (ltb (length s) min_password_len) (codes "password") Code.min_text errors
check_password (some _) errors = report (codes "password") Code.invalid_value errors

abbrev is_text : Option Json → Text → Bool
unfolding text_eq
is_text (some (Json.string s)) t = text_eq s t
is_text _ t = false

unfoldable pub check_confirmation : Option Json → Option Json → Errors → Errors
unfolding report_if is_text
check_confirmation password (some (Json.string s)) errors =
    report_if (not (is_text password s)) (codes "passwordConfirm") Code.mismatch errors
check_confirmation password _ errors = errors

unfoldable pub validate_auth_keys : Collection → Members → Bool → Errors → Errors
unfolding check_email check_verified check_password check_confirmation password_input password_field
    find_member
validate_auth_keys c input partial errors =
    let password = supplied (password_input (password_field c.fields) input) in
    check_confirmation password (find_member (codes "passwordConfirm") input) (
      check_password password (
        check_verified (find_member (codes "verified") input)
          (check_email partial (find_member (codes "email") input) errors)))

abbrev pub verdict : Errors → Result Errors (Unit {0})
verdict [] = ok tt
verdict (e ∷ errors) = err (e ∷ errors)

module _ (numbers : Numbers) (parse_f64 : Text → Option Number) where
  -- One turn of the loop over the fields, on the value that was sent.
  unfoldable pub check_sent : Field → Bool → Option Json → Errors → Errors
  unfolding report_if failed is_blank_text validate_value
  check_sent f partial none errors =
      report_if (f.required && not partial) f.name Code.required errors
  check_sent f partial (some Json.null) errors = report_if f.required f.name Code.required errors
  check_sent f partial (some (Json.string [])) errors =
      report_if f.required f.name Code.required errors
  check_sent f partial (some value) errors =
      if f.required && is_blank_text f.field_type value
      then report f.name Code.required errors
      else failed (validate_value numbers parse_f64 f value) f.name errors

  unfoldable pub check_fields : List Field → Members → Bool → Errors → Errors
  unfolding check_sent find_member
  check_fields [] input partial errors = errors
  check_fields (f ∷ fs) input partial errors =
      let next =
        if is_autodate f.field_type
        then errors
        else check_sent f partial (find_member f.name input) errors in
      check_fields fs input partial next

  -- `validate`.
  unfoldable pub validate : Collection → Members → Bool → Result Errors (Unit {0})
  unfolding check_fields check_keys validate_auth_keys
  validate c input partial =
      let found = check_fields c.fields input partial (check_keys c input []) in
      verdict
        (if is_auth c.collection_type then validate_auth_keys c input partial found else found)
