-- ===== src/Query/Operators.antt =====
-- crates/db/src/query/compile.rs: the SQL of one comparison, and the parameters that it binds.
-- The rounding of a numeral to a double and its printing are a parameter.
use lazypock.Base.{
  ℕ, suc, Bool, true, false, not, ◌||◌, List, [], ◌∷◌, ◌++◌, Option, none, some, ◌==◌,
  if◌then◌else◌, length, Result, ok, err, guard, ◌>>=◌, ◌>>◌, Fault, decimal,
}
use lazypock.Base.Text.{Text, codes, text_eq}
use lazypock.Base.Dict.{lookup}
use lazypock.Filter.Syntax.{AuthRef, CompareOp, Operand}
use lazypock.Query.Context.{AuthContext}

unfoldable pub cast_for : Text → Text
unfolding text_eq
cast_for type =
    if text_eq type (codes "bigint")
    then codes "bigint"
    else if text_eq type (codes "double precision")
    then codes "double precision"
    else if text_eq type (codes "boolean")
    then codes "boolean"
    else if text_eq type (codes "timestamptz")
    then codes "timestamptz"
    else if text_eq type (codes "jsonb")
    then codes "jsonb"
    else if text_eq type (codes "text[]")
    then codes "text[]"
    else codes "text"

abbrev pub is_like_mark : ℕ → Bool
is_like_mark c = c == 0x5c || c == b'%' || c == b'_'

unfoldable pub escape_like : Text → Text
escape_like [] = []
escape_like (c ∷ s) =
    let rest = escape_like s in if is_like_mark c then 0x5c ∷ c ∷ rest else c ∷ rest

unfoldable pub sql_operator : CompareOp → Text
sql_operator CompareOp.eq = codes "="
sql_operator CompareOp.not_eq = codes "<>"
sql_operator CompareOp.gt = codes ">"
sql_operator CompareOp.gte = codes ">="
sql_operator CompareOp.lt = codes "<"
sql_operator CompareOp.lte = codes "<="
sql_operator CompareOp.like = codes "ilike"
sql_operator CompareOp.not_like = codes "not ilike"
sql_operator CompareOp.any = codes "= any"
sql_operator CompareOp.not_any = codes "<> all"

abbrev pub is_array : Text → Bool
unfolding text_eq
is_array type = text_eq type (codes "text[]")

abbrev pub has_order : Text → Bool
unfolding is_array text_eq
has_order type =
    not (is_array type || text_eq type (codes "jsonb") || text_eq type (codes "boolean"))

unfoldable pub check_operator_supported : CompareOp → Text → Result Fault (Unit {0})
unfolding text_eq is_array has_order
check_operator_supported CompareOp.any type = guard (is_array type) Fault.invalid
check_operator_supported CompareOp.not_any type = guard (is_array type) Fault.invalid
check_operator_supported CompareOp.like type = guard (text_eq type (codes "text")) Fault.invalid
check_operator_supported CompareOp.not_like type = guard (text_eq type (codes "text")) Fault.invalid
check_operator_supported CompareOp.eq type = guard (not (is_array type)) Fault.invalid
check_operator_supported CompareOp.not_eq type = guard (not (is_array type)) Fault.invalid
check_operator_supported _ type = guard (has_order type) Fault.invalid

-- `unwrap_or_default`.
abbrev or_empty : Option Text → Text
or_empty none = []
or_empty (some s) = s

unfoldable pub auth_value : AuthContext → AuthRef → Text
unfolding lookup
auth_value auth AuthRef.id = or_empty auth.id
auth_value auth AuthRef.email = or_empty auth.email
auth_value auth AuthRef.collection_id = or_empty auth.collection_id
auth_value auth AuthRef.collection_name = or_empty auth.collection_name
auth_value auth (AuthRef.claim name) = or_empty (lookup name auth.claims)

-- The SQL of a call, and the parameters as it leaves them.
abbrev pub Compiled : Type 0
Compiled = Result Fault (Text × List Text)

unfoldable pub push_param : Text → Text → List Text → Text × List Text
unfolding text_eq decimal
push_param value cast params =
    let index = codes "$" ++ decimal (suc (length params)) in
    (
      if text_eq cast (codes "text")
          then index ++ codes "::text"
          else index ++ (codes "::text::" ++ cast),
      params ++ value ∷ [],
    )

abbrev pub is_now : Operand → Bool
is_now Operand.now = true
is_now _ = false

abbrev pub is_null : Operand → Bool
is_null Operand.null = true
is_null _ = false

abbrev pub is_number : Operand → Bool
is_number (Operand.number n) = true
is_number _ = false

-- What `escape '\'` closes a pattern match with.
abbrev any_run : Text
any_run = 0x27 ∷ b'%' ∷ 0x27 ∷ []

abbrev escape_clause : Text
escape_clause = codes " escape " ++ 0x27 ∷ 0x5c ∷ 0x27 ∷ []

abbrev pub pattern_match : Text → Text → Text → Text
pattern_match haystack keyword needle =
    haystack
    ++ (codes " "
        ++ (keyword
            ++ (codes " "
                ++ (any_run
                    ++ (codes " || "
                        ++ (needle ++ (codes " || " ++ (any_run ++ escape_clause))))))))

abbrev pub spaced : Text → Text → Text → Text
spaced left op right = left ++ (codes " " ++ (op ++ (codes " " ++ right)))

unfoldable pub null_test : Text → CompareOp → List Text → Compiled
null_test target CompareOp.eq params = ok (target ++ codes " is null", params)
null_test target CompareOp.not_eq params = ok (target ++ codes " is not null", params)
null_test target _ params = err Fault.invalid

unfoldable pub compile_now : Text → Text → CompareOp → Bool → List Text → Compiled
unfolding text_eq sql_operator
compile_now target type op swapped params = do
  guard (text_eq type (codes "timestamptz")) Fault.invalid
  ok (
    if swapped
        then spaced (codes "now()") (sql_operator op) target
        else spaced target (sql_operator op) (codes "now()"),
    params,
  )

abbrev pub cast_of : Operand → Operand → Text
cast_of left right =
    if is_now left || is_now right
    then codes "timestamptz"
    else if is_number left || is_number right
    then codes "double precision"
    else codes "text"

module _ (show_number : Text → Text) where
  unfoldable pub literal_value : Operand → AuthContext → Result Fault Text
  unfolding auth_value
  literal_value (Operand.text s) auth = ok s
  literal_value (Operand.number n) auth = ok (show_number n)
  literal_value (Operand.bool true) auth = ok (codes "true")
  literal_value (Operand.bool false) auth = ok (codes "false")
  literal_value (Operand.auth reference) auth = ok (auth_value auth reference)
  literal_value Operand.null auth = err Fault.internal
  literal_value Operand.now auth = err Fault.internal

  -- The branches of the match on the operator: `?=`, `~`, and the others, with `@now` or with a value.
  unfoldable pub compile_any : Text → Bool → Operand → AuthContext → List Text → Compiled
  unfolding literal_value push_param
  compile_any target positive operand auth params = do
    value ← literal_value operand auth
    let bound = push_param value (codes "text") params
    let predicate = bound.0 ++ (codes " = any(" ++ (target ++ codes ")"))
    ok (if positive then predicate else codes "not (" ++ (predicate ++ codes ")"), bound.1)

  unfoldable pub compile_like : Text → Text → Operand → Bool → AuthContext → List Text → Compiled
  unfolding literal_value push_param escape_like
  compile_like target keyword operand swapped auth params = do
    value ← literal_value operand auth
    let bound = push_param (escape_like value) (codes "text") params
    ok (
      if swapped
          then pattern_match bound.0 keyword target
          else pattern_match target keyword bound.0,
      bound.1,
    )

  unfoldable pub compile_value :
      Text → Text → CompareOp → Operand → Bool → AuthContext → List Text → Compiled
  unfolding literal_value push_param cast_for sql_operator
  compile_value target type op operand swapped auth params = do
    value ← literal_value operand auth
    let bound = push_param value (cast_for type) params
    ok (
      if swapped
          then spaced bound.0 (sql_operator op) target
          else spaced target (sql_operator op) bound.0,
      bound.1,
    )

  unfoldable pub compile_order :
      Text → Text → CompareOp → Operand → Bool → AuthContext → List Text → Compiled
  unfolding compile_now compile_value
  compile_order target type op Operand.now swapped auth params =
      compile_now target type op swapped params
  compile_order target type op operand swapped auth params =
      compile_value target type op operand swapped auth params

  unfoldable pub compile_checked :
      Text → Text → CompareOp → Operand → Bool → AuthContext → List Text → Compiled
  unfolding compile_any compile_like compile_order
  compile_checked target type CompareOp.any operand swapped auth params =
      compile_any target true operand auth params
  compile_checked target type CompareOp.not_any operand swapped auth params =
      compile_any target false operand auth params
  compile_checked target type CompareOp.like operand swapped auth params =
      compile_like target (codes "ilike") operand swapped auth params
  compile_checked target type CompareOp.not_like operand swapped auth params =
      compile_like target (codes "not ilike") operand swapped auth params
  compile_checked target type op operand swapped auth params =
      compile_order target type op operand swapped auth params

  unfoldable pub compile_operator :
      Text → Text → CompareOp → Operand → Bool → AuthContext → List Text → Compiled
  unfolding null_test check_operator_supported compile_checked
  compile_operator target type op Operand.null swapped auth params = null_test target op params
  compile_operator target type op operand swapped auth params =
      check_operator_supported op type >> compile_checked target type op operand swapped auth params

  unfoldable pub value_sql : Operand → Text → AuthContext → List Text → Compiled
  unfolding literal_value push_param
  value_sql Operand.now cast auth params = ok (codes "now()", params)
  value_sql operand cast auth params = do
    value ← literal_value operand auth
    ok (push_param value cast params)

  unfoldable pub values_like : Operand → Text → Operand → AuthContext → List Text → Compiled
  unfolding literal_value push_param escape_like value_sql
  values_like left keyword right auth params = do
    haystack ← value_sql left (codes "text") auth params
    needle ← literal_value right auth
    let bound = push_param (escape_like needle) (codes "text") haystack.1
    ok (pattern_match haystack.0 keyword bound.0, bound.1)

  unfoldable pub values_order : Operand → CompareOp → Operand → AuthContext → List Text → Compiled
  unfolding value_sql sql_operator
  values_order left op right auth params = do
    first ← value_sql left (cast_of left right) auth params
    second ← value_sql right (cast_of left right) auth first.1
    ok (spaced first.0 (sql_operator op) second.0, second.1)

  unfoldable pub values_checked : Operand → CompareOp → Operand → AuthContext → List Text → Compiled
  unfolding values_like values_order
  values_checked left CompareOp.any right auth params = err Fault.invalid
  values_checked left CompareOp.not_any right auth params = err Fault.invalid
  values_checked left CompareOp.like right auth params =
      values_like left (codes "ilike") right auth params
  values_checked left CompareOp.not_like right auth params =
      values_like left (codes "not ilike") right auth params
  values_checked left op right auth params = values_order left op right auth params

  unfoldable pub compile_values : Operand → CompareOp → Operand → AuthContext → List Text → Compiled
  unfolding values_checked
  compile_values left op right auth params =
      guard (not (is_null left || is_null right)) Fault.invalid
      >> values_checked left op right auth params
