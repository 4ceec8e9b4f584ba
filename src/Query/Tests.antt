-- ===== src/Query/Tests.antt =====
-- Filters on posts that refer to users, compiled. A number is written as its numeral.
use lazypock.Base.{
  false, true, Option, List, [], ◌∷◌, ◌++◌, none, some, ◌==◌, ◌≡◌, ◌≤◌, refl, length, String, ok,
}
use lazypock.Base.Text.{Text, codes, text_eq}
use lazypock.Base.Dict.{lookup}
use lazypock.Filter.Syntax.{AuthRef, CompareOp, Expr, Operand, Side}
use lazypock.Schema.Collections.{Collection}
use lazypock.Schema.Tests.{posts, users, whole_numbers}
use lazypock.Query.Context.{
  AuthContext, FilterContext, columns, context, for_collection, max_path_depth, nothing, relation,
  target,
}
use lazypock.Query.Context.Depth.{Shown, compile-Shown, walk-cast, walk-depth}
use lazypock.Query.Operators.{cast_for, escape_like}
use lazypock.Query.Compile.{compile_with_root}
use lazypock.Query.Compile.Bound.{bound, compile-bound}
use lazypock.Query.Compile.Interference.{shape, statement, statement-shape}
use lazypock.Query.Compile.Paths.{Paths, walk}
use lazypock.Query.Context.Reach.{Visible}
use lazypock.Query.Projection.{
  FieldSelection, empty_spec, entry, expand, leaf, parse_expand, selection, stop, through,
}
use lazypock.Query.Like.{like, like-escape, occurs}

abbrev show_number : Text → Text
show_number n = n

abbrev anyone : AuthContext
anyone = record {
  id = none;
  email = none;
  collection_id = none;
  collection_name = none;
  claims = [];
}

abbrev member : AuthContext
member = record {
  id = some (codes "u1");
  email = none;
  collection_id = none;
  collection_name = none;
  claims = [];
}

abbrev all_collections : List Collection
all_collections = posts ∷ users ∷ []

abbrev users_context : FilterContext
users_context =
    context (codes "users") (codes "users")
      ((codes "id", codes "text")
        ∷ (codes "created", codes "timestamptz")
        ∷ (codes "updated", codes "timestamptz")
        ∷ (codes "email", codes "text")
        ∷ (codes "verified", codes "boolean")
        ∷ [])
      nothing

abbrev posts_context : FilterContext
posts_context =
    context (codes "posts") (codes "c1")
      ((codes "id", codes "text")
        ∷ (codes "created", codes "timestamptz")
        ∷ (codes "updated", codes "timestamptz")
        ∷ (codes "title", codes "text")
        ∷ (codes "author", codes "text")
        ∷ [])
      (relation (codes "author") (target (codes "author") false (codes "users") users_context)
        nothing)

posts-built : for_collection whole_numbers all_collections posts ≡ ok posts_context
unfolding for_collection
posts-built = refl

-- `author.email = <email> && title ~ <title>`
abbrev by_author : Operand → String → Expr
by_author email title =
    Expr.and
      (Expr.compare (Side.path (codes "author" ∷ codes "email" ∷ [])) CompareOp.eq
        (Side.value email))
      (Expr.compare (Side.path (codes "title" ∷ [])) CompareOp.like
        (Side.value (Operand.text (codes title))))

abbrev filter : Expr
filter = by_author (Operand.text (codes "a@b.c")) "50%"

abbrev sql : Text
sql =
    codes
      "(exists (select 1 from \"users\" rt1 where rt1.\"id\" = r.\"author\" and rt1.\"email\" = $1::text)"
    ++ codes " and r.\"title\" ilike '%' || $2::text || '%' escape '\\')"

abbrev params : List Text
params = codes "a@b.c" ∷ codes "50\\%" ∷ []

compiled : compile_with_root show_number anyone filter posts_context (codes "r") ≡ ok (sql, params)
unfolding compile_with_root
compiled = refl

compile-bound_example : params ≡ bound show_number anyone filter
compile-bound_example =
    compile-bound show_number anyone filter posts_context (codes "r") sql params compiled

same_shape : shape filter ≡ shape (by_author (Operand.text (codes "' or 1=1 --")) "")
unfolding shape
same_shape = refl

statement-shape_example :
    statement (compile_with_root show_number anyone filter posts_context (codes "r"))
    ≡ statement (
        compile_with_root show_number member
          (by_author (Operand.text (codes "' or 1=1 --")) "")
          posts_context
          (codes "r"))
statement-shape_example =
    statement-shape show_number anyone member filter
      (by_author (Operand.text (codes "' or 1=1 --")) "") posts_context (codes "r") same_shape

compile-Shown_example : Paths (Shown whole_numbers posts all_collections posts_context) filter
compile-Shown_example =
    compile-Shown whole_numbers show_number all_collections posts posts_context anyone filter
      (codes "r") (sql, params) posts-built compiled

to_author : walk posts_context (codes "author" ∷ []) ≡ some users_context
unfolding walk
to_author = refl

walk-depth_example : length (codes "author" ∷ []) ≤ max_path_depth
walk-depth_example =
    walk-depth whole_numbers all_collections posts posts_context users_context (codes "author" ∷ [])
      posts-built to_author

verified-boolean : lookup (codes "verified") (columns users_context) ≡ some (codes "boolean")
unfolding lookup text_eq
verified-boolean = refl

walk-cast_example : cast_for (codes "boolean") ≡ codes "boolean"
walk-cast_example =
    walk-cast whole_numbers all_collections posts posts_context users_context (codes "author" ∷ [])
      (codes "verified") (codes "boolean") posts-built to_author verified-boolean

like-escape_example :
    like (λ c d. c == d) (b'%' ∷ (escape_like (codes "5%_") ++ b'%' ∷ [])) (codes "a5%_b")
    ≡ some (occurs (λ c d. c == d) (codes "5%_") (codes "a5%_b"))
like-escape_example = like-escape (λ c d. c == d) (codes "5%_") (codes "a5%_b")

-- A missing value of the request is the empty text, which differs from every other.
anonymous_differs :
    compile_with_root show_number anyone
      (Expr.compare
        (Side.path (codes "title" ∷ []))
        CompareOp.not_eq
        (Side.value (Operand.auth AuthRef.id)))
      posts_context
      (codes "r")
    ≡ ok (codes "r.\"title\" <> $1::text", [] ∷ [])
unfolding compile_with_root
anonymous_differs = refl

-- `fields=*,author.email`
abbrev input : Option Text
input = some (codes "*, author.email")

abbrev chosen : FieldSelection
chosen =
    selection [] true false false
      (entry (codes "author") (selection (codes "email" ∷ []) false false false leaf) leaf)

expand_runs :
    parse_expand (some (codes "author")) posts_context
    ≡ ok (expand (through (codes "author") empty_spec stop) false)
unfolding parse_expand
expand_runs = refl

-- `"a_b" ~ title`: the text that is searched is escaped, and does not hold itself any more.
searched_escaped :
    compile_with_root show_number anyone
      (Expr.compare
        (Side.value (Operand.text (codes "a_b")))
        CompareOp.like
        (Side.path (codes "title" ∷ [])))
      posts_context
      (codes "r")
    ≡ ok (codes "$1::text ilike '%' || r.\"title\" || '%' escape '\\'", codes "a\\_b" ∷ [])
unfolding compile_with_root
searched_escaped = refl

searched_missed : like (λ c d. c == d) (codes "%a_b%") (escape_like (codes "a_b")) ≡ some false
unfolding like escape_like
searched_missed = refl
