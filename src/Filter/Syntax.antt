-- ===== src/Filter/Syntax.antt =====
-- crates/db/src/query/filter.rs: tokens, expressions and errors. A number is kept as its numeral,
-- whose rounding to a double is not modelled; an error is its message without the byte position.
use lazypock.Base.{ℕ, Bool, List}
use lazypock.Base.Text.{Text, codes}

-- `MAX_TOKENS` and `MAX_DEPTH`.
abbrev pub max_tokens : ℕ
max_tokens = 512

abbrev pub max_depth : ℕ
max_depth = 32

pub data CompareOp : Type 0 where
  eq not_eq gt gte lt lte like not_like any not_any : CompareOp

-- Wire syntax.
unfoldable pub as_str : CompareOp → Text
as_str eq = codes "="
as_str not_eq = codes "!="
as_str gt = codes ">"
as_str gte = codes ">="
as_str lt = codes "<"
as_str lte = codes "<="
as_str like = codes "~"
as_str not_like = codes "!~"
as_str any = codes "?="
as_str not_any = codes "?!="

-- What stands behind `@request.auth.`.
pub data AuthRef : Type 0 where
  id email collection_id collection_name : AuthRef
  claim : Text → AuthRef

pub data Operand : Type 0 where
  text : Text → Operand
  number : Text → Operand
  bool : Bool → Operand
  null : Operand
  now : Operand
  auth : AuthRef → Operand

pub data Side : Type 0 where
  path : List Text → Side
  value : Operand → Side

pub data Expr : Type 0 where
  and : Expr → Expr → Expr
  or : Expr → Expr → Expr
  compare : Side → CompareOp → Side → Expr

pub data Token : Type 0 where
  path : List Text → Token
  text : Text → Token
  number : Text → Token
  bool : Bool → Token
  null : Token
  now : Token
  auth : AuthRef → Token
  op : CompareOp → Token
  and : Token
  or : Token
  l_paren : Token
  r_paren : Token

-- One constructor for each message; `out_of_fuel` has no counterpart in the program.
pub data FilterError : Type 0 where
  expected_and expected_or expected_not expected_any unexpected_character : FilterError
  unterminated_string unterminated_escape unsupported_escape : FilterError
  bare_auth unsupported_request unsupported_reference : FilterError
  empty_segment segment_start segment_character bad_number : FilterError
  empty_filter too_many_tokens trailing_token : FilterError
  expected_close unbalanced expected_field ended_at_field : FilterError
  expected_operator expected_value ended_at_value too_deep : FilterError
  out_of_fuel : FilterError
