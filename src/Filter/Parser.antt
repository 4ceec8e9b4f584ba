-- ===== src/Filter/Parser.antt =====
-- crates/db/src/query/filter.rs: the recursive descent parser. Its state is the nesting depth and the
-- tokens that are left. The depth of the calls is not structural in the tokens, so each call costs
-- a unit of fuel.
mod Sound
mod Complete
pub mod Exact
pub mod Printed
pub mod Total
use lazypock.Base.{
  ℕ, zero, suc, ◌+◌, ◌*◌, ◌-◌, List, [], ◌∷◌, Option, none, some, Result, ok, err, ◌>>=◌, ltb,
  if◌then◌else◌, length, null,
}
use lazypock.Base.Text.{Text, trim}
use lazypock.Filter.Syntax.{Operand, Side, Expr, Token, FilterError, max_tokens, max_depth}
use lazypock.Filter.Lexer.{tokenize}

abbrev pub Parsed : Type 0 → Type 0
Parsed A = Result FilterError (A × ℕ × List Token)

unfoldable pub enter : ℕ → Result FilterError ℕ
enter depth = if ltb max_depth (depth + 1) then err FilterError.too_deep else ok (depth + 1)

-- `saturating_sub`.
unfoldable pub leave : ℕ → ℕ
leave depth = depth - 1

-- One comparison side that is not the leading one.
unfoldable pub parse_side : List Token → Result FilterError (Side × List Token)
parse_side (Token.path p ∷ ts) = ok (Side.path p, ts)
parse_side (Token.text v ∷ ts) = ok (Side.value (Operand.text v), ts)
parse_side (Token.number v ∷ ts) = ok (Side.value (Operand.number v), ts)
parse_side (Token.bool v ∷ ts) = ok (Side.value (Operand.bool v), ts)
parse_side (Token.null ∷ ts) = ok (Side.value Operand.null, ts)
parse_side (Token.now ∷ ts) = ok (Side.value Operand.now, ts)
parse_side (Token.auth r ∷ ts) = ok (Side.value (Operand.auth r), ts)
parse_side (t ∷ ts) = err FilterError.expected_value
parse_side [] = err FilterError.ended_at_value

-- The operator and the right-hand side for a left side that is read.
unfoldable pub parse_compare_from : Side → ℕ → List Token → Parsed Expr
unfolding parse_side
parse_compare_from left depth (Token.op o ∷ ts) =
    parse_side ts >>= λ r. ok (Expr.compare left o r.0, depth, r.1)
parse_compare_from left depth _ = err FilterError.expected_operator

-- The closing parenthesis of a group.
unfoldable pub close : Expr → ℕ → List Token → Parsed Expr
close inner depth (Token.r_paren ∷ ts) = ok (inner, depth, ts)
close inner depth (t ∷ ts) = err FilterError.expected_close
close inner depth [] = err FilterError.unbalanced

unfoldable mutual
  unfolding enter leave parse_side parse_compare_from close

  pub parse_or : ℕ → ℕ → List Token → Parsed Expr
  parse_or zero depth ts = err FilterError.out_of_fuel
  parse_or (suc f) depth ts = enter depth >>= λ inside.
      parse_and f inside ts >>= λ l. parse_or_loop f l.0 l.1 l.2 >>= λ r. ok (r.0, leave r.1, r.2)

  -- The loop of `parse_or`.
  pub parse_or_loop : ℕ → Expr → ℕ → List Token → Parsed Expr
  parse_or_loop zero left depth ts = err FilterError.out_of_fuel
  parse_or_loop (suc f) left depth (Token.or ∷ ts) =
      parse_and f depth ts >>= λ r. parse_or_loop f (Expr.or left r.0) r.1 r.2
  parse_or_loop (suc f) left depth ts = ok (left, depth, ts)

  pub parse_and : ℕ → ℕ → List Token → Parsed Expr
  parse_and zero depth ts = err FilterError.out_of_fuel
  parse_and (suc f) depth ts = parse_comparison f depth ts >>= λ l. parse_and_loop f l.0 l.1 l.2

  -- The loop of `parse_and`.
  pub parse_and_loop : ℕ → Expr → ℕ → List Token → Parsed Expr
  parse_and_loop zero left depth ts = err FilterError.out_of_fuel
  parse_and_loop (suc f) left depth (Token.and ∷ ts) =
      parse_comparison f depth ts >>= λ r. parse_and_loop f (Expr.and left r.0) r.1 r.2
  parse_and_loop (suc f) left depth ts = ok (left, depth, ts)

  pub parse_comparison : ℕ → ℕ → List Token → Parsed Expr
  parse_comparison zero depth ts = err FilterError.out_of_fuel
  parse_comparison (suc f) depth (Token.l_paren ∷ ts) =
      parse_or f depth ts >>= λ r. close r.0 r.1 r.2
  parse_comparison (suc f) depth (Token.path p ∷ ts) = parse_compare_from (Side.path p) depth ts
  parse_comparison (suc f) depth (Token.auth r ∷ ts) =
      parse_compare_from (Side.value (Operand.auth r)) depth ts
  parse_comparison (suc f) depth (Token.now ∷ ts) =
      parse_compare_from (Side.value Operand.now) depth ts
  parse_comparison (suc f) depth (t ∷ ts) = err FilterError.expected_field
  parse_comparison (suc f) depth [] = err FilterError.ended_at_field

-- Nothing may follow the expression.
unfoldable pub finish : Expr → List Token → Result FilterError Expr
finish e [] = ok e
finish e (t ∷ ts) = err FilterError.trailing_token

-- The part of `parse_optional` behind the lexer.
unfoldable pub parse_tokens : List Token → Result FilterError Expr
unfolding parse_or finish
parse_tokens ts =
    if ltb max_tokens (length ts)
    then err FilterError.too_many_tokens
    else (parse_or (3 * length ts + 3) 0 ts >>= λ r. finish r.0 r.2)

unfoldable pub parse_optional : Text → Result FilterError (Option Expr)
unfolding trim tokenize parse_tokens
parse_optional input =
    if null (trim input)
    then ok none
    else (tokenize input >>= λ ts. parse_tokens ts >>= λ e. ok (some e))

abbrev required : Option Expr → Result FilterError Expr
required (some e) = ok e
required none = err FilterError.empty_filter

unfoldable pub parse : Text → Result FilterError Expr
unfolding parse_optional
parse input = parse_optional input >>= required
