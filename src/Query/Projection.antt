-- ===== src/Query/Projection.antt =====
-- crates/db/src/query/projection.rs: the `fields` projection and the `expand` selection. The order of a map's keys is that of
-- their code points.
pub mod Visible
use lazypock.Base.{
  ℕ, suc, Bool, true, false, not, ◌&&◌, ◌||◌, List, [], ◌∷◌, ◌++◌, map, Option, none, some, ltb,
  leb, ◌==◌, if◌then◌else◌, all, any, null, length, Result, ok, err, guard, ◌>>=◌, ◌>>◌, Fault,
}
use lazypock.Base.Text.{
  Text, codes, text_eq, trim, split, is_ascii_alphabetic, is_ascii_alphanumeric,
}
use lazypock.Base.Dict.{Dict, lookup}
use lazypock.Schema.Json.{is_some}
use lazypock.Schema.Types.{contains}
use lazypock.Query.Context.{
  FilterContext, Relations, columns, find_relation, nothing, relation, relations, target_context,
}
use lazypock.Query.Compile.{known}

-- `MAX_EXPAND_DEPTH`, `MAX_EXPAND_ENTRIES` and `MAX_FIELD_ENTRIES`.
abbrev pub max_expand_depth : ℕ
max_expand_depth = 6

abbrev pub max_expand_entries : ℕ
max_expand_entries = 16

abbrev pub max_field_entries : ℕ
max_field_entries = 128

-- The columns, whether all are included, whether `collectionId` and `collectionName` were asked for, and the relations.
mutual
  pub data FieldSelection : Type 0 where
    selection : List Text → Bool → Bool → Bool → Nested → FieldSelection

  pub data Nested : Type 0 where
    leaf : Nested
    entry : Text → FieldSelection → Nested → Nested

mutual
  pub data ExpandSpec : Type 0 where
    expand : Expansions → Bool → ExpandSpec

  pub data Expansions : Type 0 where
    stop : Expansions
    through : Text → ExpandSpec → Expansions → Expansions

abbrev pub empty_selection : FieldSelection
empty_selection = selection [] false false false leaf

-- `FieldSelection::all`.
abbrev pub all_fields : FieldSelection
all_fields = selection [] true false false leaf

abbrev pub empty_spec : ExpandSpec
empty_spec = expand stop false

-- The order of the keys.
unfoldable pub precedes : Text → Text → Bool
precedes [] t = true
precedes (c ∷ s) [] = false
precedes (c ∷ s) (d ∷ t) = let rest = precedes s t in ltb c d || (c == d && rest)

unfoldable pub insert_name : Text → List Text → List Text
unfolding precedes
insert_name x [] = x ∷ []
insert_name x (y ∷ ys) =
    let deeper = insert_name x ys in if precedes x y then x ∷ y ∷ ys else y ∷ deeper

unfoldable pub sorted : List Text → List Text
unfolding insert_name
sorted [] = []
sorted (x ∷ xs) = insert_name x (sorted xs)

unfoldable pub nested_for : Text → Nested → Option FieldSelection
unfolding text_eq
nested_for name leaf = none
nested_for name (entry key s more) =
    let deeper = nested_for name more in if text_eq key name then some s else deeper

-- `nested.entry(name)`, with what it holds afterwards.
unfoldable pub with_nested : Text → FieldSelection → Nested → Nested
unfolding text_eq precedes
with_nested name s leaf = entry name s leaf
with_nested name s (entry key old more) =
    let deeper = with_nested name s more in
    if text_eq key name
    then entry name s more
    else if precedes name key
    then entry name s (entry key old more)
    else entry key old deeper

abbrev pub or_empty : Option FieldSelection → FieldSelection
or_empty none = empty_selection
or_empty (some s) = s

abbrev pub nested : FieldSelection → Nested
nested (selection cs every id name n) = n

abbrev pub set_nested : FieldSelection → Nested → FieldSelection
set_nested (selection cs every id name n) m = selection cs every id name m

abbrev select_all : FieldSelection → FieldSelection
select_all (selection cs every id name n) = selection cs true id name n

abbrev select_id : FieldSelection → FieldSelection
select_id (selection cs every id name n) = selection cs every true name n

abbrev select_name : FieldSelection → FieldSelection
select_name (selection cs every id name n) = selection cs every id true n

abbrev pub select_column : Text → FieldSelection → FieldSelection
unfolding contains
select_column column (selection cs every id name n) =
    selection (if contains column cs then cs else cs ++ column ∷ []) every id name n

abbrev pub has_column : FilterContext → Text → Bool
unfolding lookup
has_column ctx column = is_some (lookup column (columns ctx))

abbrev pub is_collection : FilterContext → Bool
is_collection (FilterContext.context table id cs rs) = not (null id)

-- The last segment of a path.
unfoldable pub insert_last : Text → FilterContext → FieldSelection → Result Fault FieldSelection
unfolding text_eq has_column select_column
insert_last segment ctx s =
    if text_eq segment (codes "*")
    then ok (select_all s)
    else if not (has_column ctx segment)
        && (is_collection ctx && text_eq segment (codes "collectionId"))
    then ok (select_id s)
    else if not (has_column ctx segment)
        && (is_collection ctx && text_eq segment (codes "collectionName"))
    then ok (select_name s)
    else guard (has_column ctx segment) Fault.invalid >> ok (select_column segment s)

unfoldable pub insert_path :
    List Text → FilterContext → FieldSelection → Result Fault FieldSelection
unfolding insert_last text_eq find_relation nested_for with_nested
insert_path [] ctx s = err Fault.invalid
insert_path (segment ∷ []) ctx s = insert_last segment ctx s
insert_path (segment ∷ next ∷ rest) ctx s = do
  guard (not (text_eq segment (codes "*"))) Fault.invalid
  r ← known (find_relation segment (relations ctx))
  guard (leb (length (next ∷ rest)) max_expand_depth) Fault.invalid
  inner ← insert_path (next ∷ rest) (target_context r) (or_empty (nested_for segment (nested s)))
  ok (set_nested s (with_nested segment inner (nested s)))

abbrev is_start : ℕ → Bool
unfolding is_ascii_alphabetic
is_start c = is_ascii_alphabetic c || c == b'_'

abbrev is_inner : ℕ → Bool
unfolding is_ascii_alphanumeric
is_inner c = is_ascii_alphanumeric c || c == b'_'

abbrev check_name : Text → Result Fault (Unit {0})
unfolding is_start is_inner
check_name [] = err Fault.invalid
check_name (c ∷ s) = guard (is_start c && all is_inner s) Fault.invalid

abbrev check_parts : List Text → Result Fault (Unit {0})
unfolding text_eq check_name
check_parts [] = ok tt
check_parts (s ∷ ss) = (if text_eq s (codes "*") then ok tt else check_name s) >> check_parts ss

unfoldable pub split_path : Text → Result Fault (List Text)
unfolding check_parts split
split_path raw = check_parts (split b'.' raw) >> ok (split b'.' raw)

-- `expand` is a namespace in front of a relation.
unfoldable pub without_namespace : FilterContext → List Text → List Text
unfolding text_eq find_relation
without_namespace ctx (first ∷ second ∷ rest) =
    if text_eq first (codes "expand") && is_some (find_relation second (relations ctx))
    then second ∷ rest
    else first ∷ second ∷ rest
without_namespace ctx path = path

-- The loop over the entries, with the number of those before.
unfoldable pub parse_entries :
    List Text → ℕ → FilterContext → FieldSelection → Result Fault FieldSelection
unfolding trim split_path without_namespace insert_path
parse_entries [] entries ctx s = ok s
parse_entries (raw ∷ raws) entries ctx s = elim (null (trim raw)) [
  | true ↦ parse_entries raws entries ctx s
  | false ↦
      guard (leb (suc entries) max_field_entries) Fault.invalid
      >> (split_path (trim raw) >>= λ path.
          insert_path (without_namespace ctx path) ctx s >>= λ next.
          parse_entries raws (suc entries) ctx next)
]

abbrev is_leaf : Nested → Bool
is_leaf leaf = true
is_leaf (entry key s more) = false

abbrev names_something : FieldSelection → Bool
names_something (selection cs every id name n) =
    every || (id || (name || (not (null cs) || not (is_leaf n))))

abbrev parse_text : Text → FilterContext → Result Fault FieldSelection
unfolding parse_entries split
parse_text [] ctx = ok all_fields
parse_text (c ∷ s) ctx = do
  found ← parse_entries (split b',' (c ∷ s)) 0 ctx empty_selection
  guard (names_something found) Fault.invalid
  ok found

unfoldable pub parse_fields : Option Text → FilterContext → Result Fault FieldSelection
unfolding parse_text trim
parse_fields none ctx = ok all_fields
parse_fields (some input) ctx = parse_text (trim input) ctx

abbrev pub keys : Dict Text → List Text
keys cs = map (λ entry. entry.0) cs

unfoldable pub effective_columns : FieldSelection → FilterContext → List Text
unfolding sorted
effective_columns (selection cs true id name n) ctx = sorted (keys (columns ctx))
effective_columns (selection cs false id name n) ctx = cs

-- The expansion of relations.
unfoldable pub expansion_for : Text → Expansions → Option ExpandSpec
unfolding text_eq
expansion_for name stop = none
expansion_for name (through key s more) =
    let deeper = expansion_for name more in if text_eq key name then some s else deeper

unfoldable pub with_expansion : Text → ExpandSpec → Expansions → Expansions
unfolding text_eq precedes
with_expansion name s stop = through name s stop
with_expansion name s (through key old more) =
    let deeper = with_expansion name s more in
    if text_eq key name
    then through name s more
    else if precedes name key
    then through name s (through key old more)
    else through key old deeper

abbrev or_none : Option ExpandSpec → ExpandSpec
or_none none = empty_spec
or_none (some s) = s

abbrev pub expansions : ExpandSpec → Expansions
expansions (expand n every) = n

abbrev set_expansions : ExpandSpec → Expansions → ExpandSpec
set_expansions (expand n every) m = expand m every

unfoldable pub insert_expansion : List Text → FilterContext → ExpandSpec → Result Fault ExpandSpec
unfolding find_relation expansion_for with_expansion
insert_expansion [] ctx s = err Fault.invalid
insert_expansion (segment ∷ []) ctx s = do
  r ← known (find_relation segment (relations ctx))
  ok (
      set_expansions s
        (with_expansion segment (or_none (expansion_for segment (expansions s))) (expansions s)))
insert_expansion (segment ∷ next ∷ rest) ctx s = do
  r ← known (find_relation segment (relations ctx))
  guard (ltb (length (next ∷ rest)) max_expand_depth) Fault.invalid
  inner ←
      insert_expansion (next ∷ rest) (target_context r)
        (or_none (expansion_for segment (expansions s)))
  ok (set_expansions s (with_expansion segment inner (expansions s)))

abbrev expand_all : ExpandSpec → ExpandSpec
expand_all (expand n every) = expand n true

abbrev add_expansion : Text → FilterContext → ExpandSpec → Result Fault ExpandSpec
unfolding text_eq split_path insert_expansion
add_expansion raw ctx s =
    if text_eq raw (codes "*")
    then ok (expand_all s)
    else (split_path raw >>= λ path. insert_expansion path ctx s)

unfoldable pub parse_expansions :
    List Text → ℕ → FilterContext → ExpandSpec → Result Fault ExpandSpec
unfolding trim add_expansion
parse_expansions [] entries ctx s = ok s
parse_expansions (raw ∷ raws) entries ctx s = elim (null (trim raw)) [
  | true ↦ parse_expansions raws entries ctx s
  | false ↦
      guard (leb (suc entries) max_expand_entries) Fault.invalid
      >> (add_expansion (trim raw) ctx s >>= λ next. parse_expansions raws (suc entries) ctx next)
]

unfoldable pub parse_expand : Option Text → FilterContext → Result Fault ExpandSpec
unfolding parse_expansions trim split
parse_expand none ctx = ok empty_spec
parse_expand (some input) ctx =
    if null (trim input)
    then ok empty_spec
    else parse_expansions (split b',' (trim input)) 0 ctx empty_spec

abbrev relation_names : Relations → List Text
relation_names nothing = []
relation_names (relation name r more) = name ∷ relation_names more

abbrev expansion_names : Expansions → List Text
expansion_names stop = []
expansion_names (through name s more) = name ∷ expansion_names more

unfoldable pub relations_to_expand : ExpandSpec → FilterContext → List Text
unfolding sorted
relations_to_expand (expand n true) ctx = sorted (relation_names (relations ctx))
relations_to_expand (expand n false) ctx = expansion_names n
