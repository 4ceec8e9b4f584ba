-- ===== src/Query/Context.antt =====
-- crates/db/src/query/compile.rs: what a filter on a collection may name.
pub mod Fields
pub mod Reach
pub mod Depth
use lazypock.Base.{
  ℕ, zero, suc, Bool, true, false, not, ◌&&◌, ◌||◌, List, [], ◌∷◌, ◌++◌, Option, none, some,
  if◌then◌else◌, any, Result, ok, err, ◌>>=◌, Fault,
}
use lazypock.Base.Text.{Text, codes, text_eq}
use lazypock.Base.Dict.{Dict, insert}
use lazypock.Schema.Json.{Json, Members, Numbers}
use lazypock.Schema.Types.{
  CollectionType, FieldType, contains, credential_columns, is_auth, is_view,
}
use lazypock.Schema.Options.{column_type, is_multiple, relation_target}
use lazypock.Schema.Collections.{Collection, Field}

-- `MAX_PATH_DEPTH`.
abbrev pub max_path_depth : ℕ
max_path_depth = 4

pub record AuthContext : Type 0 where
  pub id : Option Text
  pub email : Option Text
  pub collection_id : Option Text
  pub collection_name : Option Text
  pub claims : Dict Text

-- A context is its table, the id of its collection, its columns with their types, and its relations. A relation is its
-- column, whether it holds several ids, the table it leads to, and the context there.
mutual
  pub data FilterContext : Type 0 where
    context : Text → Text → Dict Text → Relations → FilterContext

  pub data RelationTarget : Type 0 where
    target : Text → Bool → Text → FilterContext → RelationTarget

  pub data Relations : Type 0 where
    nothing : Relations
    relation : Text → RelationTarget → Relations → Relations

abbrev pub columns : FilterContext → Dict Text
columns (context table id cs rs) = cs

abbrev pub relations : FilterContext → Relations
relations (context table id cs rs) = rs

abbrev pub table : FilterContext → Text
table (context t id cs rs) = t

abbrev pub target_context : RelationTarget → FilterContext
target_context (target column multiple t inner) = inner

unfoldable pub find_relation : Text → Relations → Option RelationTarget
unfolding text_eq
find_relation name nothing = none
find_relation name (relation key r more) =
    let deeper = find_relation name more in if text_eq key name then some r else deeper

-- `relations.insert`.
unfoldable pub insert_relation : Text → RelationTarget → Relations → Relations
unfolding text_eq
insert_relation name r nothing = relation name r nothing
insert_relation name r (relation key old more) =
    let deeper = insert_relation name r more in
    if text_eq key name then relation name r more else relation key old deeper

abbrev pub implicit_fields : Collection → List (Text × FieldType)
implicit_fields c =
    if is_view c.collection_type
    then (codes "id", FieldType.text) ∷ []
    else (codes "id", FieldType.text)
      ∷ (codes "created", FieldType.autodate)
      ∷ (codes "updated", FieldType.autodate)
      ∷ []

unfoldable pub find_target : Text → List Collection → Option Collection
unfolding text_eq
find_target key [] = none
find_target key (c ∷ cs) =
    let more = find_target key cs in if text_eq c.id key || text_eq c.name key then some c else more

abbrev pub is_relation : FieldType → Bool
is_relation FieldType.relation = true
is_relation _ = false

abbrev pub required_target : Option Text → Result Fault Text
required_target none = err Fault.invalid
required_target (some key) = ok key

-- A field that a context leaves out.
unfoldable pub is_credential : Collection → Text → Bool
unfolding contains
is_credential c name = is_auth c.collection_type && contains name credential_columns

abbrev pub account_columns : Bool → Dict Text → Dict Text
unfolding insert
account_columns false cs = cs
account_columns true cs =
    insert (codes "verified") (codes "boolean") (insert (codes "email") (codes "text") cs)

module _ (numbers : Numbers) where
  unfoldable pub add_implicit : List (Text × FieldType) → Dict Text → Result Fault (Dict Text)
  unfolding column_type insert
  add_implicit [] cs = ok cs
  add_implicit ((name, t) ∷ more) cs = do
    type ← column_type numbers t (Json.object Members.close)
    add_implicit more (insert name type cs)

  module _ (all_collections : List Collection) where
    -- The context of the relation's target, where the depth allows one and the schema has it.
    unfoldable pub add_target :
        Option (Collection → Result Fault FilterContext)
        → Field
        → Option Collection
        → Relations
        → Result Fault Relations
    unfolding insert_relation is_multiple
    add_target none f found rs = ok rs
    add_target (some deeper) f none rs = ok rs
    add_target (some deeper) f (some c) rs = do
      inner ← deeper c
      ok (insert_relation f.name (target f.name (is_multiple f.options) c.name inner) rs)

    unfoldable pub add_relation :
        Option (Collection → Result Fault FilterContext)
        → Field
        → Relations
        → Result Fault Relations
    unfolding add_target find_target relation_target
    add_relation none f rs = ok rs
    add_relation (some deeper) f rs = do
      key ← required_target (relation_target f.options)
      add_target (some deeper) f (find_target key all_collections) rs

    unfoldable pub relation_of :
        Bool
        → Option (Collection → Result Fault FilterContext)
        → Field
        → Relations
        → Result Fault Relations
    unfolding add_relation
    relation_of false deeper f rs = ok rs
    relation_of true deeper f rs = add_relation deeper f rs

    -- One turn of the loop over the fields.
    unfoldable pub add_field :
        Bool
        → Option (Collection → Result Fault FilterContext)
        → Field
        → Dict Text × Relations
        → Result Fault (Dict Text × Relations)
    unfolding column_type insert relation_of
    add_field true deeper f so_far = ok so_far
    add_field false deeper f so_far = do
      type ← column_type numbers f.field_type f.options
      rs ← relation_of (is_relation f.field_type) deeper f so_far.1
      ok (insert f.name type so_far.0, rs)

    unfoldable pub add_fields :
        Collection
        → Option (Collection → Result Fault FilterContext)
        → List Field
        → Dict Text × Relations
        → Result Fault (Dict Text × Relations)
    unfolding is_credential add_field
    add_fields c deeper [] so_far = ok so_far
    add_fields c deeper (f ∷ fs) so_far = do
      next ← add_field (is_credential c f.name) deeper f so_far
      add_fields c deeper fs next

    unfoldable pub build_with :
        Option (Collection → Result Fault FilterContext) → Collection → Result Fault FilterContext
    unfolding add_implicit add_fields account_columns
    build_with deeper c = do
      cs ← add_implicit (implicit_fields c) []
      done ← add_fields c deeper c.fields (account_columns (is_auth c.collection_type) cs, nothing)
      ok (context c.name c.id done.0 done.1)

    -- `FilterContext::build`, with the depth that is left in place of the depth that is reached.
    unfoldable pub build : ℕ → Collection → Result Fault FilterContext
    unfolding build_with
    build zero c = build_with none c
    build (suc left) c = build_with (some (build left)) c

    unfoldable pub for_collection : Collection → Result Fault FilterContext
    unfolding build
    for_collection c = build max_path_depth c
