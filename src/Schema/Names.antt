-- ===== src/Schema/Names.antt =====
-- The names under which the kinds of collections and fields are stored are read back as what they name.
use lazypock.Base.{◌≡◌, refl, ok}
use lazypock.Base.Text.{text_eq}
use lazypock.Schema.Types.{
  CollectionType, FieldType, collection_type_name, field_type_name, match_name,
  parse_collection_type, parse_field_type,
}

parse-field_type_name : (t : FieldType) → parse_field_type (field_type_name t) ≡ ok t
unfolding parse_field_type match_name field_type_name text_eq
parse-field_type_name FieldType.text = refl
parse-field_type_name FieldType.editor = refl
parse-field_type_name FieldType.email = refl
parse-field_type_name FieldType.url = refl
parse-field_type_name FieldType.number = refl
parse-field_type_name FieldType.bool = refl
parse-field_type_name FieldType.date = refl
parse-field_type_name FieldType.select = refl
parse-field_type_name FieldType.file = refl
parse-field_type_name FieldType.relation = refl
parse-field_type_name FieldType.json = refl
parse-field_type_name FieldType.geo_point = refl
parse-field_type_name FieldType.autodate = refl
parse-field_type_name FieldType.password = refl

parse-collection_type_name :
    (t : CollectionType) → parse_collection_type (collection_type_name t) ≡ ok t
unfolding parse_collection_type collection_type_name text_eq
parse-collection_type_name CollectionType.base = refl
parse-collection_type_name CollectionType.auth = refl
parse-collection_type_name CollectionType.view = refl

-- What is stored of a field's type and of a collection's kind is read back as what was stored.
parse-type_name :
    (t : FieldType) (kind : CollectionType)
    → (parse_field_type (field_type_name t) ≡ ok t)
      × (parse_collection_type (collection_type_name kind) ≡ ok kind)
parse-type_name t kind = (parse-field_type_name t, parse-collection_type_name kind)
