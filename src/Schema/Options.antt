-- ===== src/Schema/Options.antt =====
-- crates/db/src/types.rs: the options of a field, the column that it gets, and the placeholder of a required one.
use lazypock.Base.{
  ℕ, Bool, true, false, not, ◌&&◌, List, [], ◌∷◌, ◌++◌, Option, none, some, ltb, if◌then◌else◌,
  null, Result, ok, err, guard, ◌>>=◌, ◌>>◌, Fault,
}
use lazypock.Base.Text.{Text, codes, trim}
use lazypock.Schema.Json.{
  Json, Items, Number, Numbers, get, as_bool, as_str, as_number, as_u64, as_array, present, is_some,
  unwrap_or, is_object, strings, all_items,
}
use lazypock.Schema.Types.{FieldType, supports_multiple, contains, sql_literal}

unfoldable pub option_bool : Json → Text → Bool
unfolding get
option_bool options key = unwrap_or (as_bool (get options key)) false

unfoldable pub option_u64 : Json → Text → Option ℕ
unfolding get
option_u64 options key = as_u64 (get options key)

abbrev pub listed : Option Items → List Text
listed none = []
listed (some items) = strings items

unfoldable pub option_str_list : Json → Text → List Text
unfolding get
option_str_list options key = listed (as_array (get options key))

unfoldable pub is_multiple : Json → Bool
unfolding option_u64
is_multiple options = ltb 1 (unwrap_or (option_u64 options (codes "maxSelect")) 1)

-- A text that is not empty.
abbrev pub nonempty : Option Text → Option Text
nonempty none = none
nonempty (some s) = if null s then none else some s

abbrev pub or_else : Option Text → Option Text → Option Text
or_else none o = o
or_else (some s) o = some s

unfoldable pub relation_target : Json → Option Text
unfolding get
relation_target options =
    or_else (nonempty (as_str (get options (codes "collectionId"))))
      (nonempty (as_str (get options (codes "collection"))))

abbrev is_set : Json → Text → Bool
unfolding get
is_set options key = is_some (present (get options key))

abbrev refuse_set : Json → List Text → Result Fault (Unit {0})
unfolding is_set
refuse_set options [] = ok tt
refuse_set options (key ∷ keys) =
    guard (not (is_set options key)) Fault.invalid >> refuse_set options keys

abbrev positive_size : Json → Text → Result Fault (Unit {0})
unfolding is_set option_u64
positive_size options key =
    guard (not (is_set options key && not (ltb 0 (unwrap_or (option_u64 options key) 0))))
      Fault.invalid

abbrev is_mime_entry : Json → Bool
unfolding trim
is_mime_entry (Json.string s) = not (null (trim s))
is_mime_entry _ = false

abbrev check_mime_types : Option Json → Result Fault (Unit {0})
unfolding is_mime_entry
check_mime_types none = ok tt
check_mime_types (some (Json.array Items.end)) = err Fault.invalid
check_mime_types (some (Json.array (Items.item j items))) =
    guard (all_items is_mime_entry (Items.item j items)) Fault.invalid
check_mime_types (some _) = err Fault.invalid

abbrev pub is_file : FieldType → Bool
is_file FieldType.file = true
is_file _ = false

unfoldable pub validate_file_options : FieldType → Json → Result Fault (Unit {0})
unfolding refuse_set positive_size check_mime_types is_set
validate_file_options t options =
    if not (is_file t)
    then refuse_set options
        (codes "maxFileSize" ∷ codes "maxSize" ∷ codes "mimeTypes" ∷ codes "thumbs" ∷ [])
    else do
      positive_size options (codes "maxFileSize")
      positive_size options (codes "maxSize")
      check_mime_types (present (get options (codes "mimeTypes")))
      guard (not (is_set options (codes "thumbs"))) Fault.unsupported

-- `file_size_limit`.
abbrev pub or_else_number : Option ℕ → Option ℕ → Option ℕ
or_else_number none o = o
or_else_number (some n) o = some n

unfoldable pub file_size_limit : Json → Option ℕ
unfolding option_u64
file_size_limit options =
    or_else_number (option_u64 options (codes "maxFileSize")) (option_u64 options (codes "maxSize"))

-- A literal with its cast, of a text that has to be there.
abbrev cast_text : Text → Option Text → Result Fault (Option Text)
unfolding sql_literal
cast_text cast none = err Fault.invalid
cast_text cast (some s) = ok (some (sql_literal s ++ cast))

abbrev check_select : List Text → Option Text → Result Fault (Option Text)
unfolding cast_text contains
check_select values none = err Fault.invalid
check_select values (some s) = do
  guard (contains s values) Fault.invalid
  cast_text (codes "::text") (some s)

abbrev check_values : Option Json → Result Fault (Unit {0})
check_values (some (Json.array Items.end)) = err Fault.invalid
check_values (some (Json.array (Items.item j items))) = ok tt
check_values _ = err Fault.invalid

abbrev check_target : Option Text → Result Fault (Unit {0})
check_target none = err Fault.invalid
check_target (some s) = ok tt

-- The match of `column_type`.
unfoldable pub type_name : FieldType → Json → Text
unfolding is_multiple option_bool
type_name FieldType.number options =
    if option_bool options (codes "onlyInt") then codes "bigint" else codes "double precision"
type_name FieldType.bool options = codes "boolean"
type_name FieldType.date options = codes "timestamptz"
type_name FieldType.autodate options = codes "timestamptz"
type_name FieldType.select options = if is_multiple options then codes "text[]" else codes "text"
type_name FieldType.file options = if is_multiple options then codes "jsonb" else codes "text"
type_name FieldType.relation options = if is_multiple options then codes "text[]" else codes "text"
type_name FieldType.json options = codes "jsonb"
type_name FieldType.geo_point options = codes "jsonb"
type_name _ options = codes "text"

module _ (numbers : Numbers) where
  abbrev default_number : Json → Option Number → Result Fault (Option Text)
  unfolding option_bool
  default_number options none = err Fault.invalid
  default_number options (some n) = do
    guard (numbers.is_finite n) Fault.invalid
    guard (not (option_bool options (codes "onlyInt") && not (numbers.is_whole n))) Fault.invalid
    ok (
        some (
          numbers.show n
          ++ (if option_bool options (codes "onlyInt")
              then codes "::bigint"
              else codes "::double precision")))

  abbrev default_bool : Option Bool → Result Fault (Option Text)
  default_bool none = err Fault.invalid
  default_bool (some true) = ok (some (codes "true::boolean"))
  default_bool (some false) = ok (some (codes "false::boolean"))

  -- The literal for a declared default.
  unfoldable pub default_literal : FieldType → Json → Json → Result Fault (Option Text)
  unfolding is_multiple check_select option_str_list cast_text default_number
  default_literal FieldType.select options value =
      if is_multiple options
      then err Fault.unsupported
      else check_select (option_str_list options (codes "values")) (as_str (some value))
  default_literal FieldType.number options value = default_number options (as_number (some value))
  default_literal FieldType.bool options value = default_bool (as_bool (some value))
  default_literal FieldType.date options value =
      cast_text (codes "::timestamptz") (as_str (some value))
  default_literal FieldType.autodate options value =
      cast_text (codes "::timestamptz") (as_str (some value))
  default_literal FieldType.json options value =
      cast_text (codes "::jsonb") (some (numbers.to_string value))
  default_literal FieldType.geo_point options value =
      cast_text (codes "::jsonb") (some (numbers.to_string value))
  default_literal FieldType.relation options value = err Fault.unsupported
  default_literal _ options value = cast_text (codes "::text") (as_str (some value))

  abbrev declared : FieldType → Json → Option Json → Result Fault (Option Text)
  unfolding default_literal
  declared t options none = ok none
  declared t options (some value) = default_literal t options value

  unfoldable pub default_sql : FieldType → Json → Result Fault (Option Text)
  unfolding declared option_bool
  default_sql t options =
      if option_bool options (codes "reflected")
      then ok none
      else declared t options (present (get options (codes "default")))

  abbrev check_max_select : FieldType → Json → Result Fault (Unit {0})
  unfolding option_u64
  check_max_select t options =
      if supports_multiple t
      then guard (ltb 0 (unwrap_or (option_u64 options (codes "maxSelect")) 1)) Fault.invalid
      else guard (not (is_some (get options (codes "maxSelect")))) Fault.invalid

  abbrev check_order : Option Number → Option Number → Result Fault (Unit {0})
  check_order (some low) (some high) = guard (not (numbers.gt low high)) Fault.invalid
  check_order _ _ = ok tt

  abbrev check_kind : FieldType → Json → Result Fault (Unit {0})
  unfolding relation_target get
  check_kind FieldType.select options = check_values (get options (codes "values"))
  check_kind FieldType.relation options = check_target (relation_target options)
  check_kind _ options = ok tt

  -- `validate_options`.
  unfoldable pub validate_options : FieldType → Json → Result Fault (Unit {0})
  unfolding check_max_select check_kind validate_file_options default_sql is_set
  validate_options t options = do
    guard (is_object options) Fault.invalid
    check_max_select t options
    check_order (as_number (get options (codes "min"))) (as_number (get options (codes "max")))
    check_kind t options
    guard (not (is_set options (codes "pattern"))) Fault.unsupported
    validate_file_options t options
    default ← default_sql t options
    ok tt

  unfoldable pub column_type : FieldType → Json → Result Fault Text
  unfolding validate_options type_name
  column_type t options = do validate_options t options; ok (type_name t options)

unfoldable pub zero_default : FieldType → Json → Option Text
unfolding is_multiple
zero_default FieldType.number options = some (codes "0")
zero_default FieldType.bool options = some (codes "false")
zero_default FieldType.date options = some (codes "now()")
zero_default FieldType.autodate options = some (codes "now()")
zero_default FieldType.select options =
    some (if is_multiple options then codes "'{}'::text[]" else codes "''")
zero_default FieldType.file options =
    some (if is_multiple options then codes "'[]'::jsonb" else codes "''")
zero_default FieldType.json options = some (codes "'{}'::jsonb")
zero_default FieldType.geo_point options = some (codes "'{}'::jsonb")
zero_default FieldType.relation options =
    if is_multiple options then some (codes "'{}'::text[]") else none
zero_default _ options = some (codes "''")
