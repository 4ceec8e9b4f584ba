-- ===== src/Schema/Ddl.antt =====
-- crates/db/src/ddl.rs: the statements that define tables, columns, indexes, triggers and views. The digest is a parameter,
-- as is `resolve_table`, which finds the table of a relation's target.
use lazypock.Base.{
  ℕ, ◌-◌, ◌/◌, ◌%◌, ◌+◌, Bool, true, false, not, ◌&&◌, ◌||◌, List, [], ◌∷◌, ◌++◌, Option, none,
  some, map, ltb, leb, ◌==◌, if◌then◌else◌, any, null, take, Result, ok, err, guard, ◌>>=◌, ◌>>◌,
  Fault,
}
use lazypock.Base.Text.{Text, codes, byte_length, trim}
use lazypock.Schema.Json.{Numbers}
use lazypock.Schema.Types.{
  FieldType, max_identifier_len, system_columns, auth_system_columns,
  auth_system_column_definitions, contains, is_auth, is_view, validate_identifier, quote_ident,
}
use lazypock.Schema.Options.{
  column_type, default_sql, is_multiple, option_bool, relation_target, zero_default,
}
use lazypock.Schema.Collections.{Collection, Field}

-- `[T]::join` with a text.
unfoldable pub joined : Text → List Text → Text
joined sep [] = []
joined sep (s ∷ []) = s
joined sep (s ∷ t ∷ ss) = s ++ (sep ++ joined sep (t ∷ ss))

abbrev hex_digit : ℕ → ℕ
hex_digit n = if ltb n 10 then b'0' + n else 87 + n

abbrev hex : List ℕ → Text
hex [] = []
hex (byte ∷ bytes) = hex_digit (byte / 16) ∷ hex_digit (byte % 16) ∷ hex bytes

unfoldable pub is_known_column_type : Text → Bool
unfolding contains
is_known_column_type name = contains name (
    codes "text"
    ∷ codes "bigint"
    ∷ codes "double precision"
    ∷ codes "boolean"
    ∷ codes "timestamptz"
    ∷ codes "text[]"
    ∷ codes "jsonb"
    ∷ [])

-- `view_query`.
unfoldable pub view_query : Text → Result Fault Text
unfolding trim
view_query query = do
  guard (not (null (trim query))) Fault.invalid
  guard (not (any (λ c. c == b';') (trim query))) Fault.invalid
  ok (trim query)

unfoldable pub create_view_statement : Text → Text → Result Fault Text
unfolding validate_identifier view_query quote_ident
create_view_statement name query = do
  validate_identifier name
  body ← view_query query
  ok (
      codes "create view "
      ++ (quote_ident name ++ (codes " with (security_invoker = true) as " ++ body)))

unfoldable pub replace_view_statement : Text → Text → Result Fault Text
unfolding validate_identifier view_query quote_ident
replace_view_statement name query = do
  validate_identifier name
  body ← view_query query
  ok (
      codes "create or replace view "
      ++ (quote_ident name ++ (codes " with (security_invoker = true) as " ++ body)))

unfoldable pub drop_view_statement : Text → Result Fault Text
unfolding validate_identifier quote_ident
drop_view_statement name = do
  validate_identifier name
  ok (codes "drop view if exists " ++ (quote_ident name ++ codes " cascade"))

unfoldable pub drop_table_statement : Text → Result Fault Text
unfolding validate_identifier quote_ident
drop_table_statement table = do
  validate_identifier table
  ok (codes "drop table if exists " ++ (quote_ident table ++ codes " cascade"))

unfoldable pub drop_column_statement : Text → Text → Result Fault Text
unfolding validate_identifier contains quote_ident
drop_column_statement table column = do
  validate_identifier table
  validate_identifier column
  guard (not (contains column system_columns || contains column auth_system_columns)) Fault.invalid
  ok (codes "alter table " ++ (quote_ident table ++ (codes " drop column " ++ quote_ident column)))

unfoldable pub alter_column_type_statement : Text → Text → Text → Result Fault Text
unfolding validate_identifier is_known_column_type quote_ident
alter_column_type_statement table column type = do
  validate_identifier table
  validate_identifier column
  guard (is_known_column_type type) Fault.invalid
  ok (
      codes "alter table "
      ++ (quote_ident table
          ++ (codes " alter column "
              ++ (quote_ident column
                  ++ (codes " type "
                      ++ (type
                          ++ (codes " using " ++ (quote_ident column ++ (codes "::" ++ type)))))))))

unfoldable pub rename_column_statement : Text → Text → Text → Result Fault Text
unfolding validate_identifier quote_ident
rename_column_statement table from to = do
  validate_identifier table
  validate_identifier from
  validate_identifier to
  ok (
      codes "alter table "
      ++ (quote_ident table
          ++ (codes " rename column " ++ (quote_ident from ++ (codes " to " ++ quote_ident to)))))

abbrev pub realtime_trigger : Text
realtime_trigger = codes "lazypock_change"

unfoldable pub realtime_trigger_statements : Text → Bool → Result Fault (List Text)
unfolding validate_identifier quote_ident
realtime_trigger_statements table enabled = do
  validate_identifier table
  let drop =
      codes "drop trigger if exists " ++ (realtime_trigger ++ (codes " on " ++ quote_ident table))
  let create =
      codes "create trigger "
      ++ (realtime_trigger
          ++ (codes " after insert or update or delete on "
              ++ (quote_ident table
                  ++ codes " for each row execute function lazypock_change_event()")))
  ok (if not enabled then drop ∷ [] else drop ∷ create ∷ [])

module _ (sha256 : Text → List ℕ) where
  -- A name that is too long keeps its first bytes, which are its first characters where it has no other than ASCII.
  unfoldable pub index_name : Text → Text → Text
  index_name table column =
      let base = codes "idx_" ++ (table ++ (codes "_" ++ column)) in
      let suffix = hex (take 4 (sha256 base)) in
      if leb (byte_length base) max_identifier_len
      then base
      else take (max_identifier_len - byte_length suffix - 1) base ++ (codes "_" ++ suffix)

  abbrev on_table : Text → Text → Text → Text
  unfolding quote_ident index_name
  on_table start table column =
      start ++ (quote_ident (index_name table column) ++ (codes " on " ++ quote_ident table))

  unfoldable pub create_unique_index_statement : Text → Text → Text
  unfolding on_table quote_ident
  create_unique_index_statement table column =
      on_table (codes "create unique index ") table column
      ++ (codes " (" ++ (quote_ident column ++ codes ")"))

  unfoldable pub create_index_statement : Text → Text → Text
  unfolding on_table quote_ident
  create_index_statement table column =
      on_table (codes "create index ") table column
      ++ (codes " (" ++ (quote_ident column ++ codes ")"))

  unfoldable pub create_auth_email_index_statement : Text → Text
  unfolding on_table
  create_auth_email_index_statement table =
      on_table (codes "create unique index ") table (codes "email")
      ++ codes " (lower(\"email\")) where \"email\" is not null"

  unfoldable pub drop_index_statement : Text → Text → Text
  unfolding quote_ident index_name
  drop_index_statement table column =
      codes "drop index if exists " ++ quote_ident (index_name table column)

module _ (numbers : Numbers) where
  abbrev pub default_clause : Option Text → Text
  default_clause none = []
  default_clause (some literal) = codes " default " ++ literal

  -- How the rows that exist get a value for a required column.
  abbrev required_column : Text → Option Text → Option Text → Result Fault (List Text)
  required_column added (some literal) zero_value =
      ok ((added ++ (codes " not null default " ++ literal)) ∷ [])
  required_column added none none = err Fault.invalid
  required_column added none (some zero_value) =
      ok ((added ++ (codes " not null default " ++ zero_value)) ∷ [])

  abbrev and_drop : Option Text → Text → List Text → List Text
  and_drop (some literal) drop statements = statements
  and_drop none drop statements = statements ++ drop ∷ []

  abbrev added_column : Bool → Text → Option Text → Option Text → Text → Result Fault (List Text)
  added_column false added default zero_value drop = ok ((added ++ default_clause default) ∷ [])
  added_column true added default zero_value drop = do
    statements ← required_column added default zero_value
    ok (and_drop default drop statements)

  unfoldable pub add_column_statements : Text → Field → Result Fault (List Text)
  unfolding validate_identifier quote_ident column_type default_sql zero_default
  add_column_statements table f = do
    validate_identifier table
    type ← column_type numbers f.field_type f.options
    default ← default_sql numbers f.field_type f.options
    let target = codes "alter table " ++ quote_ident table
    let added = target ++ (codes " add column " ++ (quote_ident f.name ++ (codes " " ++ type)))
    let drop = target ++ (codes " alter column " ++ (quote_ident f.name ++ codes " drop default"))
    added_column f.required added default (zero_default f.field_type f.options) drop

  module _ (resolve_table : Text → Option Text) where
    abbrev found : Option Text → Result Fault Text
    found none = err Fault.invalid
    found (some s) = ok s

    abbrev is_relation : FieldType → Bool
    is_relation FieldType.relation = true
    is_relation _ = false

    abbrev reference_clause : Field → Result Fault Text
    unfolding quote_ident relation_target option_bool
    reference_clause f = do
      target_id ← found (relation_target f.options)
      target ← found (resolve_table target_id)
      ok (
          codes " references "
          ++ (quote_ident target
              ++ (codes " ("
                  ++ (quote_ident (codes "id")
                      ++ (codes ") "
                          ++ (if option_bool f.options (codes "cascadeDelete")
                              then codes "on delete cascade"
                              else codes "on delete set null"))))))

    abbrev referring : Bool → Text → Field → Result Fault Text
    unfolding reference_clause
    referring false plain f = ok plain
    referring true plain f = do reference ← reference_clause f; ok (plain ++ reference)

    unfoldable pub column_definition : Field → Result Fault Text
    unfolding quote_ident column_type default_sql is_multiple referring
    column_definition f = do
      type ← column_type numbers f.field_type f.options
      default ← default_sql numbers f.field_type f.options
      let plain =
          quote_ident f.name
          ++ (codes " "
              ++ (type
                  ++ (default_clause default ++ (if f.required then codes " not null" else []))))
      referring (is_relation f.field_type && not (is_multiple f.options)) plain f

    unfoldable pub column_definitions : List Field → Result Fault (List Text)
    unfolding column_definition
    column_definitions [] = ok []
    column_definitions (f ∷ fs) = do
      first ← column_definition f
      more ← column_definitions fs
      ok (first ∷ more)

    abbrev built_in : Text × Text → Text
    unfolding quote_ident
    built_in column = quote_ident column.0 ++ (codes " " ++ column.1)

    unfoldable pub create_table_statement : Collection → Result Fault Text
    unfolding validate_identifier quote_ident column_definitions built_in joined
    create_table_statement c = do
      validate_identifier c.name
      guard (not (is_view c.collection_type)) Fault.unsupported
      columns ← column_definitions c.fields
      let own =
          (quote_ident (codes "id") ++ codes " text primary key")
          ∷ (quote_ident (codes "created") ++ codes " timestamptz not null default now()")
          ∷ (quote_ident (codes "updated") ++ codes " timestamptz not null default now()")
          ∷ []
      let account =
          if is_auth c.collection_type then map built_in auth_system_column_definitions else []
      ok (
          codes "create table "
          ++ (quote_ident c.name
              ++ (codes " (\n    "
                  ++ (joined (codes ",\n    ") (own ++ (account ++ columns)) ++ codes "\n)"))))
