-- ===== src/Schema/Types.antt =====
-- crates/db/src/types.rs: the kinds of collections and fields, identifiers and quoting.
use lazypock.Base.{
  ℕ, Bool, true, false, not, ◌&&◌, ◌||◌, List, [], ◌∷◌, ◌++◌, ltb, leb, ◌==◌, if◌then◌else◌, any,
  all, Result, ok, err, guard, ◌>>◌, Fault,
}
use lazypock.Base.Text.{Text, codes, text_eq, byte_length, is_ascii_alphanumeric}

abbrev pub max_identifier_len : ℕ
max_identifier_len = 63

abbrev pub system_columns : List Text
system_columns = codes "id" ∷ codes "created" ∷ codes "updated" ∷ []

abbrev pub auth_system_columns : List Text
auth_system_columns =
    codes "email"
    ∷ codes "password_hash"
    ∷ codes "verified"
    ∷ codes "token_key"
    ∷ codes "emailVisibility"
    ∷ []

abbrev pub credential_columns : List Text
credential_columns = codes "password_hash" ∷ codes "token_key" ∷ []

abbrev pub auth_system_column_definitions : List (Text × Text)
auth_system_column_definitions =
    (codes "email", codes "text")
    ∷ (codes "password_hash", codes "text")
    ∷ (codes "verified", codes "boolean not null default false")
    ∷ (codes "token_key", codes "text")
    ∷ (codes "emailVisibility", codes "boolean not null default false")
    ∷ []

-- `[T]::contains` of texts.
unfoldable pub contains : Text → List Text → Bool
unfolding text_eq
contains x xs = any (λ y. text_eq y x) xs

pub data CollectionType : Type 0 where
  base auth view : CollectionType

pub data FieldType : Type 0 where
  text editor email url number bool date select file relation json geo_point autodate password :
      FieldType

-- `CollectionType::as_str` and `parse`.
unfoldable pub collection_type_name : CollectionType → Text
collection_type_name CollectionType.base = codes "base"
collection_type_name CollectionType.auth = codes "auth"
collection_type_name CollectionType.view = codes "view"

unfoldable pub parse_collection_type : Text → Result Fault CollectionType
unfolding text_eq
parse_collection_type raw =
    if text_eq raw (codes "base")
    then ok CollectionType.base
    else if text_eq raw (codes "auth")
    then ok CollectionType.auth
    else if text_eq raw (codes "view")
    then ok CollectionType.view
    else err Fault.invalid

abbrev pub is_auth : CollectionType → Bool
is_auth CollectionType.auth = true
is_auth _ = false

abbrev pub is_view : CollectionType → Bool
is_view CollectionType.view = true
is_view _ = false

-- `FieldType::as_str` and `parse`.
unfoldable pub field_type_name : FieldType → Text
field_type_name FieldType.text = codes "text"
field_type_name FieldType.editor = codes "editor"
field_type_name FieldType.email = codes "email"
field_type_name FieldType.url = codes "url"
field_type_name FieldType.number = codes "number"
field_type_name FieldType.bool = codes "bool"
field_type_name FieldType.date = codes "date"
field_type_name FieldType.select = codes "select"
field_type_name FieldType.file = codes "file"
field_type_name FieldType.relation = codes "relation"
field_type_name FieldType.json = codes "json"
field_type_name FieldType.geo_point = codes "geoPoint"
field_type_name FieldType.autodate = codes "autodate"
field_type_name FieldType.password = codes "password"

-- The names of each type, in the order of the match.
abbrev field_type_names : List (Text × FieldType)
field_type_names =
    (codes "text", FieldType.text)
    ∷ (codes "editor", FieldType.editor)
    ∷ (codes "email", FieldType.email)
    ∷ (codes "url", FieldType.url)
    ∷ (codes "number", FieldType.number)
    ∷ (codes "bool", FieldType.bool)
    ∷ (codes "date", FieldType.date)
    ∷ (codes "datetime", FieldType.date)
    ∷ (codes "select", FieldType.select)
    ∷ (codes "multi_select", FieldType.select)
    ∷ (codes "file", FieldType.file)
    ∷ (codes "multi_file", FieldType.file)
    ∷ (codes "relation", FieldType.relation)
    ∷ (codes "json", FieldType.json)
    ∷ (codes "geoPoint", FieldType.geo_point)
    ∷ (codes "geo", FieldType.geo_point)
    ∷ (codes "autodate", FieldType.autodate)
    ∷ (codes "password", FieldType.password)
    ∷ []

unfoldable pub match_name : Text → List (Text × FieldType) → Result Fault FieldType
unfolding text_eq
match_name raw [] = err Fault.invalid
match_name raw ((name, t) ∷ names) = if text_eq raw name then ok t else match_name raw names

unfoldable pub parse_field_type : Text → Result Fault FieldType
unfolding match_name
parse_field_type raw = match_name raw field_type_names

abbrev pub supports_multiple : FieldType → Bool
supports_multiple FieldType.select = true
supports_multiple FieldType.file = true
supports_multiple FieldType.relation = true
supports_multiple _ = false

abbrev pub is_ascii_lowercase : ℕ → Bool
is_ascii_lowercase c = leb b'a' c && leb c b'z'

abbrev pub is_identifier_character : ℕ → Bool
unfolding is_ascii_alphanumeric
is_identifier_character c = is_ascii_alphanumeric c || c == b'_'

-- `validate_identifier`, behind the test for an empty name.
abbrev check_identifier : Text → Result Fault (Unit {0})
check_identifier [] = err Fault.invalid
check_identifier (first ∷ rest) = do
  guard (not (ltb max_identifier_len (byte_length (first ∷ rest)))) Fault.invalid
  guard (not (first == b'_')) Fault.invalid
  guard (is_ascii_lowercase first) Fault.invalid
  guard (all is_identifier_character (first ∷ rest)) Fault.invalid

unfoldable pub validate_identifier : Text → Result Fault (Unit {0})
unfolding is_identifier_character
validate_identifier name = check_identifier name

unfoldable pub validate_field_name : Text → CollectionType → Result Fault (Unit {0})
unfolding validate_identifier contains
validate_field_name name t = do
  validate_identifier name
  guard (not (contains name system_columns)) Fault.invalid
  guard (not (is_auth t && contains name auth_system_columns)) Fault.invalid

-- `str::replace` of a character by its double.
unfoldable pub doubled : ℕ → Text → Text
doubled q [] = []
doubled q (c ∷ s) = let rest = doubled q s in if c == q then c ∷ c ∷ rest else c ∷ rest

-- `quote_ident` of ddl.rs, and `sql_literal`.
unfoldable pub quote_ident : Text → Text
unfolding doubled
quote_ident name = 0x22 ∷ (doubled 0x22 name ++ 0x22 ∷ [])

unfoldable pub sql_literal : Text → Text
unfolding doubled
sql_literal value = 0x27 ∷ (doubled 0x27 value ++ 0x27 ∷ [])
