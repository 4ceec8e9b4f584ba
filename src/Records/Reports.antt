-- ===== src/Records/Reports.antt =====
-- crates/db/src/validation.rs: where nothing is reported in the end, nothing was reported on the way.
use lazypock.Base.{
  Bool, true, false, not, List, [], ◌∷◌, Option, none, some, ltb, length, ◌≡◌, refl, if◌then◌else◌,
  Bool-cases, inl, inr, ok, err,
}
use lazypock.Base.Text.{Text, codes}
use lazypock.Base.Dict.{lookup}
use lazypock.Schema.Json.{Json, Members, find_member, is_some}
use lazypock.Schema.Collections.{Collection, password_field}
use lazypock.Records.{
  Errors, check_confirmation, check_email, check_password, check_verified, failed, is_text,
  min_password_len, password_input, report, report_if, supplied, validate_auth_keys, verdict,
}
use lazypock.Records.Values.{Checked, Code, looks_like_email, parse_bool}

pub false-ne-true : false ≡ true → ⊥
false-ne-true h = cc

err-ne-ok {ℓ κ} : {E : Type κ} {A : Type ℓ} {e : E} {a : A} → err e ≡ ok a → ⊥
err-ne-ok h = cc

cons-ne-nil {ℓ} : {A : Type ℓ} {x : A} {xs : List A} → x ∷ xs ≡ [] → ⊥
cons-ne-nil h = cc

pub report-ne-nil : (name : Text) (code : Code) (errors : Errors) → report name code errors ≡ [] → ⊥
unfolding report
report-ne-nil name code [] h = cons-ne-nil h
report-ne-nil name code (e ∷ errors) h = elim (Bool-cases (is_some (lookup name (e ∷ errors)))) [
  | inl old ↦ cons-ne-nil (rw old at h)
  | inr new ↦ cons-ne-nil (rw new at h)
]

pub report_if-nil :
    (b : Bool) (name : Text) (code : Code) (errors : Errors)
    → report_if b name code errors ≡ []
    → errors ≡ []
unfolding report_if
report_if-nil false name code errors h = h
report_if-nil true name code errors h = absurd (report-ne-nil name code errors h)

pub failed-nil :
    (r : Checked) (name : Text) (errors : Errors)
    → failed r name errors ≡ []
    → (errors ≡ []) × (r ≡ ok tt)
unfolding failed
failed-nil (ok done) name errors h = (h, refl)
failed-nil (err code) name errors h = absurd (report-ne-nil name code errors h)

check_email-nil :
    (partial : Bool) (o : Option Json) (errors : Errors)
    → check_email partial o errors ≡ []
    → errors ≡ []
unfolding check_email
check_email-nil true none errors h = h
check_email-nil false none errors h = absurd (report-ne-nil (codes "email") Code.required errors h)
check_email-nil partial (some Json.null) errors h =
    absurd (report-ne-nil (codes "email") Code.required errors h)
check_email-nil partial (some (Json.string s)) errors h =
    report_if-nil (not (looks_like_email s)) (codes "email") Code.invalid_email errors h
check_email-nil partial (some (Json.bool b)) errors h =
    absurd (report-ne-nil (codes "email") Code.invalid_value errors h)
check_email-nil partial (some (Json.number n)) errors h =
    absurd (report-ne-nil (codes "email") Code.invalid_value errors h)
check_email-nil partial (some (Json.array items)) errors h =
    absurd (report-ne-nil (codes "email") Code.invalid_value errors h)
check_email-nil partial (some (Json.object members)) errors h =
    absurd (report-ne-nil (codes "email") Code.invalid_value errors h)

check_verified-nil :
    (o : Option Json) (errors : Errors) → check_verified o errors ≡ [] → errors ≡ []
unfolding check_verified
check_verified-nil none errors h = h
check_verified-nil (some Json.null) errors h = h
check_verified-nil (some (Json.string s)) errors h =
    report_if-nil (not (is_some (parse_bool (Json.string s)))) (codes "verified") Code.invalid_value
      errors h
check_verified-nil (some (Json.bool b)) errors h =
    report_if-nil (not (is_some (parse_bool (Json.bool b)))) (codes "verified") Code.invalid_value
      errors h
check_verified-nil (some (Json.number n)) errors h =
    report_if-nil (not (is_some (parse_bool (Json.number n)))) (codes "verified") Code.invalid_value
      errors h
check_verified-nil (some (Json.array items)) errors h =
    report_if-nil (not (is_some (parse_bool (Json.array items)))) (codes "verified")
      Code.invalid_value errors h
check_verified-nil (some (Json.object members)) errors h =
    report_if-nil (not (is_some (parse_bool (Json.object members)))) (codes "verified")
      Code.invalid_value errors h

check_password-nil :
    (o : Option Json) (errors : Errors) → check_password o errors ≡ [] → errors ≡ []
unfolding check_password
check_password-nil none errors h = h
check_password-nil (some (Json.string s)) errors h =
    report_if-nil (ltb (length s) min_password_len) (codes "password") Code.min_text errors h
check_password-nil (some Json.null) errors h =
    absurd (report-ne-nil (codes "password") Code.invalid_value errors h)
check_password-nil (some (Json.bool b)) errors h =
    absurd (report-ne-nil (codes "password") Code.invalid_value errors h)
check_password-nil (some (Json.number n)) errors h =
    absurd (report-ne-nil (codes "password") Code.invalid_value errors h)
check_password-nil (some (Json.array items)) errors h =
    absurd (report-ne-nil (codes "password") Code.invalid_value errors h)
check_password-nil (some (Json.object members)) errors h =
    absurd (report-ne-nil (codes "password") Code.invalid_value errors h)

check_confirmation-nil :
    (password o : Option Json) (errors : Errors)
    → check_confirmation password o errors ≡ []
    → errors ≡ []
unfolding check_confirmation
check_confirmation-nil password none errors h = h
check_confirmation-nil password (some (Json.string s)) errors h =
    report_if-nil (not (is_text password s)) (codes "passwordConfirm") Code.mismatch errors h
check_confirmation-nil password (some Json.null) errors h = h
check_confirmation-nil password (some (Json.bool b)) errors h = h
check_confirmation-nil password (some (Json.number n)) errors h = h
check_confirmation-nil password (some (Json.array items)) errors h = h
check_confirmation-nil password (some (Json.object members)) errors h = h

validate_auth_keys-nil :
    (c : Collection) (input : Members) (partial : Bool) (errors : Errors)
    → validate_auth_keys c input partial errors ≡ []
    → errors ≡ []
unfolding validate_auth_keys
validate_auth_keys-nil c input partial errors h =
    let password = supplied (password_input (password_field c.fields) input) in
    let told = check_email partial (find_member (codes "email") input) errors in
    let checked = check_verified (find_member (codes "verified") input) told in
    check_email-nil partial (find_member (codes "email") input) errors (
      check_verified-nil (find_member (codes "verified") input) told (
        check_password-nil password checked (
          check_confirmation-nil password (find_member (codes "passwordConfirm") input)
            (check_password password checked) h)))

pub auth-nil :
    (b : Bool) (c : Collection) (input : Members) (partial : Bool) (errors : Errors)
    → (if b then validate_auth_keys c input partial errors else errors) ≡ []
    → errors ≡ []
auth-nil true c input partial errors h = validate_auth_keys-nil c input partial errors h
auth-nil false c input partial errors h = h

pub verdict-nil : (errors : Errors) → verdict errors ≡ ok tt → errors ≡ []
verdict-nil [] h = refl
verdict-nil (e ∷ errors) h = absurd (err-ne-ok h)
