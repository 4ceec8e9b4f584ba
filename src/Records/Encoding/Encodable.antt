-- ===== src/Records/Encoding/Encodable.antt =====
-- What is validated can be encoded.
use lazypock.Base.{
  Bool, true, false, not, ◌&&◌, List, [], ◌∷◌, Option, none, some, ◌≡◌, ◌⊎◌, refl, if◌then◌else◌,
  Bool-cases, inl, inr, Result, ok, err, Fault,
}
use lazypock.Base.Text.{Text, codes}
use lazypock.Schema.Json.{Items, Json, Number, Numbers}
use lazypock.Schema.Types.{FieldType}
use lazypock.Schema.Options.{is_multiple}
use lazypock.Schema.Collections.{Field}
use lazypock.Records.Values.{
  Checked, check_number, check_truth, expect_string, expect_string_list, one, several, string_items,
  parse_bool, parse_number, validate_as, validate_number, validate_value, is_text_like,
}
use lazypock.Records.Encoding.{
  bound, encode_as, encode_value, is_empty_text, is_null, pg_text_array, require_str,
  require_str_list, shown_bool, shown_number, string_list, text_or_array,
}

-- A call returns.
abbrev pub Encodes {ℓ κ} : {E : Type κ} {A : Type ℓ} → Result E A → Type (ℓ ⊔ κ)
Encodes {A = A} r = (a : A) × (r ≡ ok a)

Result-cases {ℓ κ} :
    {E : Type κ} {A : Type ℓ} (r : Result E A) → Encodes r ⊎ ((e : E) × (r ≡ err e))
Result-cases (ok a) = inl (a, refl)
Result-cases (err e) = inr (e, refl)

err-ne-ok {ℓ κ} : {E : Type κ} {A : Type ℓ} {e : E} {a : A} → err e ≡ ok a → ⊥
err-ne-ok h = cc

false-ne-true : false ≡ true → ⊥
false-ne-true h = cc

bound-Encodes : (r : Result Fault Text) → Encodes r → Encodes (bound r)
bound-Encodes (ok s) h = (some s, refl)
bound-Encodes (err e) h = absurd (err-ne-ok h.1)

-- Where one text is checked, there is one.
one-text :
    (value : Json) (check : Text → Checked) → one value check ≡ ok tt → Encodes (require_str value)
unfolding one expect_string require_str
one-text (Json.string s) check h = (s, refl)
one-text Json.null check h = absurd (err-ne-ok h)
one-text (Json.bool b) check h = absurd (err-ne-ok h)
one-text (Json.number n) check h = absurd (err-ne-ok h)
one-text (Json.array items) check h = absurd (err-ne-ok h)
one-text (Json.object members) check h = absurd (err-ne-ok h)

string_items-Encodes : (items : Items) → Encodes (string_items items) → Encodes (string_list items)
unfolding string_items string_list
string_items-Encodes Items.end h = ([], refl)
string_items-Encodes (Items.item (Json.string s) items) h =
    elim (Result-cases (string_items items)) [
      | inl known ↦ let more = string_items-Encodes items known in (s ∷ more.0, rw more.1 refl)
      | inr (e, p) ↦ absurd (err-ne-ok (rw p at h.1))
    ]
string_items-Encodes (Items.item Json.null items) h = absurd (err-ne-ok h.1)
string_items-Encodes (Items.item (Json.bool b) items) h = absurd (err-ne-ok h.1)
string_items-Encodes (Items.item (Json.number n) items) h = absurd (err-ne-ok h.1)
string_items-Encodes (Items.item (Json.array a) items) h = absurd (err-ne-ok h.1)
string_items-Encodes (Items.item (Json.object o) items) h = absurd (err-ne-ok h.1)

several-texts :
    (f : Field) (value : Json) (check : List Text → Checked)
    → several f value check ≡ ok tt
    → Encodes (require_str_list value)
unfolding several expect_string_list require_str_list
several-texts f (Json.array items) check h = elim (Result-cases (string_items items)) [
  | inl known ↦ string_items-Encodes items known
  | inr (e, p) ↦ absurd (err-ne-ok (rw p at h))
]
several-texts f Json.null check h = absurd (err-ne-ok h)
several-texts f (Json.bool b) check h = absurd (err-ne-ok h)
several-texts f (Json.number n) check h = absurd (err-ne-ok h)
several-texts f (Json.string s) check h = absurd (err-ne-ok h)
several-texts f (Json.object members) check h = absurd (err-ne-ok h)

bool-Encodes : (o : Option Bool) → check_truth o ≡ ok tt → Encodes (shown_bool o)
bool-Encodes none h = absurd (err-ne-ok h)
bool-Encodes (some true) h = (codes "true", refl)
bool-Encodes (some false) h = (codes "false", refl)

-- Several texts, or one.
texts-Encodes :
    (b : Bool) (f : Field) (value : Json) (all_of : List Text → Checked) (one_of : Text → Checked)
    → (if b then several f value all_of else one value one_of) ≡ ok tt
    → Encodes (text_or_array b value)
unfolding text_or_array
texts-Encodes false f value all_of one_of h = one-text value one_of h
texts-Encodes true f value all_of one_of h =
    let items = several-texts f value all_of h in (pg_text_array items.0, rw items.1 refl)

module _ (numbers : Numbers) (parse_f64 : Text → Option Number) where
  number-Encodes :
      (f : Field) (o : Option Number)
      → check_number numbers parse_f64 f o ≡ ok tt
      → Encodes (shown_number numbers parse_f64 o)
  unfolding check_number
  number-Encodes f none h = absurd (err-ne-ok h)
  number-Encodes f (some n) h = (numbers.show n, refl)

  encode_as-Encodes :
      (t : FieldType) (f : Field) (value : Json)
      → validate_as numbers parse_f64 t f value ≡ ok tt
      → Encodes (encode_as numbers parse_f64 t f value)
  unfolding validate_as encode_as validate_number
  encode_as-Encodes FieldType.text f value h = bound-Encodes _ (one-text value _ h)
  encode_as-Encodes FieldType.editor f value h = bound-Encodes _ (one-text value _ h)
  encode_as-Encodes FieldType.email f value h = bound-Encodes _ (one-text value _ h)
  encode_as-Encodes FieldType.url f value h = bound-Encodes _ (one-text value _ h)
  encode_as-Encodes FieldType.password f value h = bound-Encodes _ (one-text value _ h)
  encode_as-Encodes FieldType.date f value h = bound-Encodes _ (one-text value _ h)
  encode_as-Encodes FieldType.number f value h =
      bound-Encodes _ (number-Encodes f (parse_number numbers parse_f64 value) h)
  encode_as-Encodes FieldType.bool f value h = bound-Encodes _ (bool-Encodes (parse_bool value) h)
  encode_as-Encodes FieldType.select f value h =
      bound-Encodes _ (texts-Encodes (is_multiple f.options) f value _ _ h)
  encode_as-Encodes FieldType.relation f value h =
      bound-Encodes _ (texts-Encodes (is_multiple f.options) f value _ _ h)
  encode_as-Encodes FieldType.file f value h = elim (Bool-cases (is_multiple f.options)) [
    | inl e ↦ rw e (some (numbers.to_string value), refl)
    | inr e ↦ rw e (bound-Encodes _ (one-text value (λ name. ok tt) (rw e at h)))
  ]
  encode_as-Encodes FieldType.json f value h = (some (numbers.to_string value), refl)
  encode_as-Encodes FieldType.geo_point f value h = (some (numbers.to_string value), refl)
  encode_as-Encodes FieldType.autodate f value h = (none, refl)

  -- A text, of a field that holds text.
  like-Encodes :
      (t : FieldType) (f : Field) (s : Text)
      → is_text_like t ≡ true
      → Encodes (encode_as numbers parse_f64 t f (Json.string s))
  unfolding encode_as require_str
  like-Encodes FieldType.text f s texts = (some s, refl)
  like-Encodes FieldType.editor f s texts = (some s, refl)
  like-Encodes FieldType.email f s texts = (some s, refl)
  like-Encodes FieldType.url f s texts = (some s, refl)
  like-Encodes FieldType.password f s texts = (some s, refl)
  like-Encodes FieldType.number f s texts = absurd (false-ne-true texts)
  like-Encodes FieldType.bool f s texts = absurd (false-ne-true texts)
  like-Encodes FieldType.date f s texts = absurd (false-ne-true texts)
  like-Encodes FieldType.select f s texts = absurd (false-ne-true texts)
  like-Encodes FieldType.file f s texts = absurd (false-ne-true texts)
  like-Encodes FieldType.relation f s texts = absurd (false-ne-true texts)
  like-Encodes FieldType.json f s texts = absurd (false-ne-true texts)
  like-Encodes FieldType.geo_point f s texts = absurd (false-ne-true texts)
  like-Encodes FieldType.autodate f s texts = absurd (false-ne-true texts)

  text_like-Encodes :
      (t : FieldType) (f : Field) (value : Json)
      → is_empty_text value ≡ true
      → is_text_like t ≡ true
      → Encodes (encode_as numbers parse_f64 t f value)
  text_like-Encodes t f (Json.string s) h texts = like-Encodes t f s texts
  text_like-Encodes t f Json.null h texts = absurd (false-ne-true h)
  text_like-Encodes t f (Json.bool b) h texts = absurd (false-ne-true h)
  text_like-Encodes t f (Json.number n) h texts = absurd (false-ne-true h)
  text_like-Encodes t f (Json.array items) h texts = absurd (false-ne-true h)
  text_like-Encodes t f (Json.object members) h texts = absurd (false-ne-true h)

-- A value that a record may have for a field, since it is null or empty or passes the checks of the field, is encoded:
-- the encoding never fails on it.
pub encode_value-Encodes :
    (numbers : Numbers) (parse_f64 : Text → Option Number) (f : Field) (value : Json)
    → (is_null value ≡ true)
      ⊎ ((is_empty_text value ≡ true) ⊎ (validate_value numbers parse_f64 f value ≡ ok tt))
    → Encodes (encode_value numbers parse_f64 f value)
unfolding encode_value validate_value
encode_value-Encodes numbers parse_f64 f value (inl absent) = rw absent (none, refl)
encode_value-Encodes numbers parse_f64 f value (inr (inl cleared)) =
    elim (Bool-cases (is_null value)) [
      | inl e ↦ rw e (none, refl)
      | inr e ↦ elim (Bool-cases (is_text_like f.field_type)) [
        | inl texts ↦
            rw (e, cleared, texts)
              (text_like-Encodes numbers parse_f64 f.field_type f value cleared texts)
        | inr others ↦ rw (e, cleared, others) (none, refl)
      ]
    ]
encode_value-Encodes numbers parse_f64 f value (inr (inr valid)) =
    elim (Bool-cases (is_null value)) [
      | inl e ↦ rw e (none, refl)
      | inr e ↦ elim (Bool-cases (is_empty_text value && not (is_text_like f.field_type))) [
        | inl cleared ↦ rw (e, cleared) (none, refl)
        | inr kept ↦ rw (e, kept) (encode_as-Encodes numbers parse_f64 f.field_type f value valid)
      ]
    ]
