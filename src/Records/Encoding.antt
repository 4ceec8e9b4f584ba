-- ===== src/Records/Encoding.antt =====
-- crates/db/src/validation.rs: the text that a value is bound as, where it is not null.
pub mod Arrays
pub mod Encodable
use lazypock.Base.{
  ℕ, Bool, true, false, not, ◌&&◌, ◌||◌, List, [], ◌∷◌, ◌++◌, Option, none, some, ◌==◌,
  if◌then◌else◌, null, Result, ok, err, ◌>>=◌, Fault,
}
use lazypock.Base.Text.{Text, codes}
use lazypock.Schema.Json.{Items, Json, Number, Numbers}
use lazypock.Schema.Types.{FieldType}
use lazypock.Schema.Options.{is_multiple}
use lazypock.Schema.Collections.{Field}
use lazypock.Records.Values.{is_text_like, parse_bool, parse_number}

unfoldable pub require_str : Json → Result Fault Text
require_str (Json.string s) = ok s
require_str _ = err Fault.invalid

unfoldable pub string_list : Items → Result Fault (List Text)
string_list Items.end = ok []
string_list (Items.item (Json.string s) items) = do more ← string_list items; ok (s ∷ more)
string_list (Items.item _ items) = err Fault.invalid

unfoldable pub require_str_list : Json → Result Fault (List Text)
unfolding string_list
require_str_list (Json.array items) = string_list items
require_str_list _ = err Fault.invalid

abbrev pub is_array_mark : ℕ → Bool
is_array_mark c = c == 0x5c || c == 0x22

-- An element, between its quotes.
unfoldable pub escape_element : Text → Text
escape_element [] = []
escape_element (c ∷ s) =
    let rest = escape_element s in if is_array_mark c then 0x5c ∷ c ∷ rest else c ∷ rest

abbrev pub quoted_element : Text → Text
unfolding escape_element
quoted_element s = 0x22 ∷ (escape_element s ++ 0x22 ∷ [])

-- The elements behind the first one.
unfoldable pub more_elements : List Text → Text
unfolding quoted_element
more_elements [] = b'}' ∷ []
more_elements (s ∷ ss) = b',' ∷ (quoted_element s ++ more_elements ss)

unfoldable pub pg_text_array : List Text → Text
unfolding quoted_element more_elements
pg_text_array [] = b'{' ∷ b'}' ∷ []
pg_text_array (s ∷ ss) = b'{' ∷ (quoted_element s ++ more_elements ss)

abbrev pub is_empty_text : Json → Bool
is_empty_text (Json.string s) = null s
is_empty_text _ = false

abbrev pub is_null : Json → Bool
is_null Json.null = true
is_null _ = false

abbrev pub shown_bool : Option Bool → Result Fault Text
shown_bool none = err Fault.invalid
shown_bool (some true) = ok (codes "true")
shown_bool (some false) = ok (codes "false")

abbrev pub text_or_array : Bool → Json → Result Fault Text
unfolding require_str require_str_list pg_text_array
text_or_array false value = require_str value
text_or_array true value = do items ← require_str_list value; ok (pg_text_array items)

abbrev pub bound : Result Fault Text → Result Fault (Option Text)
bound (ok s) = ok (some s)
bound (err e) = err e

module _ (numbers : Numbers) (parse_f64 : Text → Option Number) where
  abbrev pub shown_number : Option Number → Result Fault Text
  shown_number none = err Fault.invalid
  shown_number (some n) = ok (numbers.show n)

  -- The match of `encode_value`.
  unfoldable pub encode_as : FieldType → Field → Json → Result Fault (Option Text)
  unfolding require_str parse_number parse_bool text_or_array is_multiple
  encode_as FieldType.text f value = bound (require_str value)
  encode_as FieldType.editor f value = bound (require_str value)
  encode_as FieldType.email f value = bound (require_str value)
  encode_as FieldType.url f value = bound (require_str value)
  encode_as FieldType.password f value = bound (require_str value)
  encode_as FieldType.date f value = bound (require_str value)
  encode_as FieldType.number f value = bound (shown_number (parse_number numbers parse_f64 value))
  encode_as FieldType.bool f value = bound (shown_bool (parse_bool value))
  encode_as FieldType.select f value = bound (text_or_array (is_multiple f.options) value)
  encode_as FieldType.relation f value = bound (text_or_array (is_multiple f.options) value)
  encode_as FieldType.file f value =
      bound (if is_multiple f.options then ok (numbers.to_string value) else require_str value)
  encode_as FieldType.json f value = ok (some (numbers.to_string value))
  encode_as FieldType.geo_point f value = ok (some (numbers.to_string value))
  encode_as FieldType.autodate f value = ok none

  unfoldable pub encode_value : Field → Json → Result Fault (Option Text)
  unfolding encode_as
  encode_value f value =
      if is_null value
      then ok none
      else if is_empty_text value && not (is_text_like f.field_type)
      then ok none
      else encode_as f.field_type f value
