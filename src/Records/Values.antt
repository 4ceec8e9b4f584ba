-- ===== src/Records/Values.antt =====
-- crates/db/src/validation.rs: the checks of one value against its field, and its encoding as a parameter. An error stands by
-- its code, without its message. The reading of a text as a double is a parameter.
use lazypock.Base.{
  ℕ, ◌+◌, ◌-◌, Bool, true, false, not, ◌&&◌, ◌||◌, List, [], ◌∷◌, Option, none, some, ltb, leb,
  ◌==◌, if◌then◌else◌, all, any, null, length, Result, ok, err, guard, ◌>>=◌, ◌>>◌,
}
use lazypock.Base.Text.{
  Text, codes, trim, split, byte_length, is_whitespace, is_ascii_digit, is_ascii_alphanumeric,
}
use lazypock.Schema.Json.{Items, Json, Number, Numbers, as_number, find_member, get, unwrap_or}
use lazypock.Schema.Types.{FieldType, contains}
use lazypock.Schema.Options.{is_multiple, option_bool, option_str_list, option_u64}
use lazypock.Schema.Collections.{Field}

-- The codes of a field's failure.
pub data Code : Type 0 where
  unknown_field required invalid_email invalid_value min_text max_text mismatch invalid_url
        invalid_date :
      Code
  invalid_relation invalid_geo_point not_a_number not_an_integer min_number max_number : Code
  too_many_values not_in_values : Code

abbrev pub Checked : Type 0
Checked = Result Code (Unit {0})

abbrev pub to_ascii_lowercase : Text → Text
to_ascii_lowercase [] = []
to_ascii_lowercase (c ∷ s) = (if leb b'A' c && leb c b'Z' then c + 32 else c) ∷ to_ascii_lowercase s

abbrev pub is_text_like : FieldType → Bool
is_text_like FieldType.text = true
is_text_like FieldType.editor = true
is_text_like FieldType.email = true
is_text_like FieldType.url = true
is_text_like FieldType.password = true
is_text_like _ = false

abbrev pub id_len : ℕ
id_len = 15

-- `is_valid_id` of crates/core/src/id.rs.
unfoldable pub is_valid_id : Text → Bool
unfolding is_ascii_alphanumeric
is_valid_id id = byte_length id == id_len && all is_ascii_alphanumeric id

unfoldable pub expect_string : Json → Result Code Text
expect_string (Json.string s) = ok s
expect_string _ = err Code.invalid_value

unfoldable pub string_items : Items → Result Code (List Text)
string_items Items.end = ok []
string_items (Items.item (Json.string s) items) = do more ← string_items items; ok (s ∷ more)
string_items (Items.item _ items) = err Code.invalid_value

unfoldable pub expect_string_list : Json → Result Code (List Text)
unfolding string_items
expect_string_list (Json.array items) = string_items items
expect_string_list _ = err Code.invalid_value

-- A text that names a truth value.
unfoldable pub truth_of : Text → Option Bool
unfolding contains
truth_of s =
    if contains s (codes "true" ∷ codes "1" ∷ codes "yes" ∷ codes "on" ∷ [])
    then some true
    else if contains s (codes "false" ∷ codes "0" ∷ codes "no" ∷ codes "off" ∷ [])
    then some false
    else none

unfoldable pub parse_bool : Json → Option Bool
unfolding truth_of trim
parse_bool (Json.bool b) = some b
parse_bool (Json.string s) = truth_of (to_ascii_lowercase (trim s))
parse_bool _ = none

abbrev has_dot : List Text → Bool
has_dot [] = false
has_dot (host ∷ []) = false
has_dot (host ∷ tld ∷ []) = not (null host) && not (null tld)
has_dot (host ∷ tld ∷ more) = not (null host)

-- The parts around the signs, and those of the domain around its points.
abbrev is_address : List Text → Bool
unfolding split
is_address (local ∷ domain ∷ []) = not (null local) && has_dot (split b'.' domain)
is_address _ = false

unfoldable pub looks_like_email : Text → Bool
unfolding is_whitespace is_address split
looks_like_email s =
    not (ltb 320 (byte_length s) || any is_whitespace s) && is_address (split b'@' s)

abbrev starts_with : Text → Text → Bool
starts_with [] s = true
starts_with (c ∷ prefix) [] = false
starts_with (c ∷ prefix) (d ∷ s) = c == d && starts_with prefix s

unfoldable pub looks_like_url : Text → Bool
looks_like_url s = starts_with (codes "http://") s || starts_with (codes "https://") s

unfoldable pub looks_like_date : Text → Bool
unfolding is_ascii_digit
looks_like_date (y ∷ e ∷ a ∷ r ∷ dash ∷ m ∷ n ∷ hyphen ∷ d ∷ f ∷ s) =
    all is_ascii_digit (y ∷ e ∷ a ∷ r ∷ m ∷ n ∷ d ∷ f ∷ []) && (dash == b'-' && hyphen == b'-')
looks_like_date _ = false

unfoldable pub is_blank_text : FieldType → Json → Bool
unfolding trim
is_blank_text t (Json.string s) = is_text_like t && null (trim s)
is_blank_text t _ = false

unfoldable pub check_max_select : Field → ℕ → Checked
unfolding option_u64
check_max_select f count =
    guard (not (ltb (unwrap_or (option_u64 f.options (codes "maxSelect")) 1) count))
      Code.too_many_values

unfoldable pub check_allowed : Text → List Text → Checked
unfolding contains
check_allowed chosen allowed = guard (contains chosen allowed) Code.not_in_values

abbrev check_each : (Text → Bool) → Code → List Text → Checked
check_each p e [] = ok tt
check_each p e (s ∷ ss) = guard (p s) e >> check_each p e ss

unfoldable pub several : Field → Json → (List Text → Checked) → Checked
unfolding expect_string_list check_max_select
several f value check = do
  items ← expect_string_list value
  check_max_select f (length items)
  check items

unfoldable pub one : Json → (Text → Checked) → Checked
unfolding expect_string
one value check = do s ← expect_string value; check s

abbrev pub check_truth : Option Bool → Checked
check_truth none = err Code.invalid_value
check_truth (some b) = ok tt

module _ (numbers : Numbers) (parse_f64 : Text → Option Number) where
  abbrev at_least : Option Number → Number → Code → Checked
  at_least none n e = ok tt
  at_least (some low) n e = guard (not (numbers.gt low n)) e

  abbrev at_most : Option Number → Number → Code → Checked
  at_most none n e = ok tt
  at_most (some high) n e = guard (not (numbers.gt n high)) e

  unfoldable pub check_length : Field → Text → Checked
  unfolding get
  check_length f s =
      at_least (as_number (get f.options (codes "min"))) (Number.natural (length s)) Code.min_text
      >> at_most (as_number (get f.options (codes "max"))) (Number.natural (length s)) Code.max_text

  unfoldable pub parse_number : Json → Option Number
  unfolding trim
  parse_number (Json.number n) = some n
  parse_number (Json.string s) = parse_f64 (trim s)
  parse_number _ = none

  unfoldable pub check_number : Field → Option Number → Checked
  unfolding option_bool get
  check_number f none = err Code.not_a_number
  check_number f (some n) =
      guard (not (option_bool f.options (codes "onlyInt") && not (numbers.is_whole n)))
        Code.not_an_integer
      >> (at_least (as_number (get f.options (codes "min"))) n Code.min_number
          >> at_most (as_number (get f.options (codes "max"))) n Code.max_number)

  unfoldable pub validate_number : Field → Json → Checked
  unfolding check_number parse_number
  validate_number f value = check_number f (parse_number value)

  abbrev within : ℕ → Option Number → Bool
  within bound none = false
  within bound (some n) =
      not (numbers.gt (Number.below (bound - 1)) n) && not (numbers.gt n (Number.natural bound))

  abbrev check_point : Json → Checked
  unfolding find_member
  check_point (Json.object members) =
      guard
        (within 180 (as_number (find_member (codes "lon") members))
          && within 90 (as_number (find_member (codes "lat") members)))
        Code.invalid_geo_point
  check_point _ = err Code.invalid_value

  -- The match of `validate_value`.
  unfoldable pub validate_as : FieldType → Field → Json → Checked
  unfolding check_length validate_number check_point several one looks_like_email looks_like_url
      looks_like_date is_multiple option_str_list check_allowed contains is_valid_id parse_bool
  validate_as FieldType.text f value = one value (check_length f)
  validate_as FieldType.editor f value = one value (check_length f)
  validate_as FieldType.email f value =
      one value (λ s. check_length f s >> guard (looks_like_email s) Code.invalid_email)
  validate_as FieldType.url f value =
      one value (λ s. check_length f s >> guard (looks_like_url s) Code.invalid_url)
  validate_as FieldType.password f value = one value (check_length f)
  validate_as FieldType.number f value = validate_number f value
  validate_as FieldType.bool f value = check_truth (parse_bool value)
  validate_as FieldType.date f value = one value (λ s. guard (looks_like_date s) Code.invalid_date)
  validate_as FieldType.select f value =
      let allowed = option_str_list f.options (codes "values") in
      if is_multiple f.options
      then several f value (check_each (λ s. contains s allowed) Code.not_in_values)
      else one value (λ s. check_allowed s allowed)
  validate_as FieldType.file f value =
      if is_multiple f.options then several f value (λ names. ok tt) else one value (λ name. ok tt)
  validate_as FieldType.relation f value =
      if is_multiple f.options
      then several f value (check_each is_valid_id Code.invalid_relation)
      else one value (λ id. guard (is_valid_id id) Code.invalid_relation)
  validate_as FieldType.json f value = ok tt
  validate_as FieldType.geo_point f value = check_point value
  validate_as FieldType.autodate f value = ok tt

  unfoldable pub validate_value : Field → Json → Checked
  unfolding validate_as
  validate_value f value = validate_as f.field_type f value
