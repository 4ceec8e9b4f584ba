-- ===== src/Schema/Collections.antt =====
-- crates/db/src/collections.rs: collections and fields, and what they are validated for.
use lazypock.Base.{
  ℕ, Bool, true, false, not, List, [], ◌∷◌, Option, none, some, if◌then◌else◌, Result, ok, guard,
  ◌>>◌, Fault,
}
use lazypock.Base.Text.{Text, codes, text_eq}
use lazypock.Schema.Json.{Json, Numbers, get, as_bool, present, unwrap_or}
use lazypock.Schema.Types.{
  CollectionType, FieldType, validate_identifier, validate_field_name, contains,
}
use lazypock.Schema.Options.{option_bool, validate_options}

pub record Field : Type 0 where
  pub id : Text
  pub collection_id : Text
  pub name : Text
  pub field_type : FieldType
  pub required : Bool
  pub is_unique : Bool
  pub options : Json
  pub position : ℕ

-- The instants of a collection are seconds.
pub record Collection : Type 0 where
  pub id : Text
  pub name : Text
  pub collection_type : CollectionType
  pub options : Json
  pub rules : Json
  pub fields : List Field
  pub created : ℕ
  pub updated : ℕ

abbrev is_password : FieldType → Bool
is_password FieldType.password = true
is_password _ = false

-- `Collection::field` and `password_field`.
unfoldable pub find_field : Text → List Field → Option Field
unfolding text_eq
find_field name [] = none
find_field name (f ∷ fs) =
    let rest = find_field name fs in if text_eq f.name name then some f else rest

unfoldable pub password_field : List Field → Option Field
password_field [] = none
password_field (f ∷ fs) =
    let rest = password_field fs in if is_password f.field_type then some f else rest

unfoldable pub realtime_enabled : Collection → Bool
unfolding get
realtime_enabled c = unwrap_or (as_bool (get c.options (codes "realtime"))) true

unfoldable pub is_indexed : Field → Bool
unfolding option_bool
is_indexed f = option_bool f.options (codes "indexed")

unfoldable pub default_value : Field → Option Json
unfolding option_bool
default_value f =
    if option_bool f.options (codes "reflected")
    then none
    else present (get f.options (codes "default"))

abbrev is_switch : Option Json → Bool
is_switch none = true
is_switch (some (Json.bool b)) = true
is_switch (some _) = false

module _ (numbers : Numbers) where
  unfoldable pub validate_field : Field → CollectionType → Result Fault (Unit {0})
  unfolding validate_field_name validate_options
  validate_field f t = do
    validate_field_name f.name t
    guard (not (is_password f.field_type)) Fault.unsupported
    validate_options numbers f.field_type f.options

  -- The loop of `Collection::validate`, with the names that it has seen.
  unfoldable pub validate_fields : List Text → List Field → CollectionType → Result Fault (Unit {0})
  unfolding contains validate_field
  validate_fields seen [] t = ok tt
  validate_fields seen (f ∷ fs) t = do
    guard (not (contains f.name seen)) Fault.invalid
    validate_field f t
    validate_fields (f.name ∷ seen) fs t

  unfoldable pub validate_collection : Collection → Result Fault (Unit {0})
  unfolding validate_identifier get validate_fields
  validate_collection c = do
    validate_identifier c.name
    guard (is_switch (get c.options (codes "realtime"))) Fault.invalid
    validate_fields [] c.fields c.collection_type
