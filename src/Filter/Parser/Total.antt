-- ===== src/Filter/Parser/Total.antt =====
-- Parsing a text always comes to a result.
use lazypock.Base.{
  ◌≢◌, refl, err, Option, some, none, null, Meets, returns, fails, Meets-bind, Meets-if, Meets-err,
}
use lazypock.Base.Text.{Text, trim}
use lazypock.Filter.Syntax.{Expr, FilterError}
use lazypock.Filter.Lexer.Total.{tokenize-Meets}
use lazypock.Filter.Parser.{parse, parse_optional, required}
use lazypock.Filter.Parser.Sound.{Kept}
use lazypock.Filter.Parser.Exact.{parse_tokens-Meets}

required-Meets : (e : Option Expr) → Meets Kept (λ _. Unit {0}) (required e)
required-Meets (some e) = returns tt
required-Meets none = fails (λ p. cc)

parse_optional-Meets : (s : Text) → Meets Kept (λ _. Unit {0}) (parse_optional s)
unfolding parse_optional
parse_optional-Meets s =
    Meets-if (null (trim s)) (λ _. returns tt)
      λ _.
        Meets-bind (tokenize-Meets s) λ ts _. Meets-bind (parse_tokens-Meets ts) λ e _. returns tt

-- Parsing any text gives an expression or one of the program's own errors: neither the lexer nor
-- the parser ever runs out of the fuel that the model hands them.
pub parse-ne-out_of_fuel : (s : Text) → parse s ≢ err FilterError.out_of_fuel
unfolding parse
parse-ne-out_of_fuel s e =
    Meets-err (Meets-bind (parse_optional-Meets s) λ o _. required-Meets o) e refl
