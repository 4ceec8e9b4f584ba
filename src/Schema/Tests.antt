-- ===== src/Schema/Tests.antt =====
-- Collections at concrete inputs: numbers that are all whole, and written as nothing.
use lazypock.Base.{true, false, [], ◌∷◌, ◌++◌, Option, none, some, ◌≡◌, ◌↔◌, refl, ok, err, Fault}
use lazypock.Base.Text.{Text, codes}
use lazypock.Schema.Json.{Json, Members, Numbers}
use lazypock.Schema.Types.{CollectionType, FieldType, quote_ident, sql_literal, validate_identifier}
use lazypock.Schema.Options.{column_type, default_sql, is_multiple}
use lazypock.Schema.Collections.{Collection, Field, validate_collection}
use lazypock.Schema.Ddl.{add_column_statements, create_table_statement}
use lazypock.Schema.Quoting.{Ends, read_quoted, read_quoted-quote}
use lazypock.Schema.Columns.{add_column-refused}
use lazypock.Schema.Distinct.{
  AllDistinct, built_in_columns, field_names, validate_collection-AllDistinct,
}

abbrev pub whole_numbers : Numbers
whole_numbers = record {
  gt = λ n m. false;
  is_finite = λ n. true;
  is_whole = λ n. true;
  show = λ n. [];
  to_string = λ j. [];
}

abbrev pub no_options : Json
no_options = Json.object Members.close

abbrev pub to_users : Json
to_users =
    Json.object (Members.member (codes "collectionId") (Json.string (codes "users")) Members.close)

abbrev pub title : Field
title = record {
  id = codes "f1";
  collection_id = codes "c1";
  name = codes "title";
  field_type = FieldType.text;
  required = true;
  is_unique = false;
  options = no_options;
  position = 0;
}

abbrev pub author : Field
author = record {
  id = codes "f2";
  collection_id = codes "c1";
  name = codes "author";
  field_type = FieldType.relation;
  required = true;
  is_unique = false;
  options = to_users;
  position = 1;
}

abbrev pub posts : Collection
posts = record {
  id = codes "c1";
  name = codes "posts";
  collection_type = CollectionType.base;
  options = no_options;
  rules = no_options;
  fields = title ∷ author ∷ [];
  created = 0;
  updated = 0;
}

abbrev pub users : Collection
users = record {
  id = codes "users";
  name = codes "users";
  collection_type = CollectionType.auth;
  options = no_options;
  rules = no_options;
  fields = [];
  created = 0;
  updated = 0;
}

create_table_runs :
    create_table_statement whole_numbers (λ key. some (codes "users")) posts
    ≡ ok (
        codes "create table \"posts\" (\n    \"id\" text primary key,\n    "
        ++ (codes
              "\"created\" timestamptz not null default now(),\n    \"updated\" timestamptz not null default now(),\n    "
            ++ codes
                "\"title\" text not null,\n    \"author\" text not null references \"users\" (\"id\") on delete set null\n)"))
unfolding create_table_statement
create_table_runs = refl

read_quoted-quote_example :
    (Ends 0x22 (codes " x")
      → (t : Text) × ((quote_ident (codes "a\"b") ++ codes " x" ≡ 0x22 ∷ t)
          × (read_quoted 0x22 t ≡ some (codes "a\"b", codes " x"))))
    × (Ends 0x27 (codes " x")
        → (t : Text) × ((sql_literal (codes "a\"b") ++ codes " x" ≡ 0x27 ∷ t)
            × (read_quoted 0x27 t ≡ some (codes "a\"b", codes " x"))))
read_quoted-quote_example = read_quoted-quote (codes "a\"b") (codes " x")

posts-valid : validate_collection whole_numbers posts ≡ ok tt
unfolding validate_collection
posts-valid = refl

validate_collection-AllDistinct_example :
    AllDistinct (built_in_columns CollectionType.base ++ field_names (title ∷ author ∷ []))
validate_collection-AllDistinct_example =
    validate_collection-AllDistinct whole_numbers posts posts-valid

posts-named : validate_identifier (codes "posts") ≡ ok tt
unfolding validate_identifier
posts-named = refl

author-type : column_type whole_numbers author.field_type author.options ≡ ok (codes "text")
unfolding column_type
author-type = refl

author-default : default_sql whole_numbers author.field_type author.options ≡ ok none
unfolding default_sql
author-default = refl

add_column-refused_example :
    (add_column_statements whole_numbers (codes "posts") author ≡ err Fault.invalid) ↔ (
      (◌≡◌ {A = Option Text} none none)
      × ((FieldType.relation ≡ FieldType.relation) × (is_multiple to_users ≡ false)))
add_column-refused_example =
    add_column-refused whole_numbers (codes "posts") author (codes "text") none posts-named
      author-type author-default refl
