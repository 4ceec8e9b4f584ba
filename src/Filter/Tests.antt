-- ===== src/Filter/Tests.antt =====
-- The filter language at concrete inputs.
use lazypock.Base.{◌≡◌, ◌≢◌, ◌↔◌, refl, arith, true, List, String, [], ◌∷◌, ok, err}
use lazypock.Base.Text.{codes, join, text_eq}
use lazypock.Filter.Syntax.{CompareOp, AuthRef, Operand, Side, Expr, Token, FilterError}
use lazypock.Filter.Grammar.{
  Left, Disjunction, OrTail, Conjunction, AndTail, Atom, yield, meaning, nesting,
}
use lazypock.Filter.Lexer.{
  tokenize, is_numeral, is_number_character, is_segment_start, is_segment_character, auth_property,
}
use lazypock.Filter.Lexer.Spelling.{spell_all}
use lazypock.Filter.Lexer.RoundTrip.{tokenize-spell_all}
use lazypock.Filter.Parser.{parse, parse_tokens}
use lazypock.Filter.Parser.Exact.{Derivation, parse_tokens-eq-ok_iff}
use lazypock.Filter.Parser.Printed.{parse-spell_all}
use lazypock.Filter.Parser.Total.{parse-ne-out_of_fuel}

abbrev number : String → String → Expr
number f n =
    Expr.compare (Side.path (codes f ∷ [])) CompareOp.eq (Side.value (Operand.number (codes n)))

tokenize_runs :
    tokenize (codes "a.b ?!= -1.5 && (@now>\"x\\\"\" || @request.auth.role=true)")
    ≡ ok (
        Token.path (codes "a" ∷ codes "b" ∷ [])
        ∷ Token.op CompareOp.not_any
        ∷ Token.number (codes "-1.5")
        ∷ Token.and
        ∷ Token.l_paren
        ∷ Token.now
        ∷ Token.op CompareOp.gt
        ∷ Token.text (codes "x\"")
        ∷ Token.or
        ∷ Token.auth (AuthRef.claim (codes "role"))
        ∷ Token.op CompareOp.eq
        ∷ Token.bool true
        ∷ Token.r_paren
        ∷ [])
unfolding tokenize
tokenize_runs = refl

parse_precedence :
    parse (codes "a=1||b=2&&c=3")
    ≡ ok (Expr.or (number "a" "1") (Expr.and (number "b" "2") (number "c" "3")))
unfolding parse
parse_precedence = refl

parse_unbalanced : parse (codes "(a=1") ≡ err FilterError.unbalanced
unfolding parse
parse_unbalanced = refl

-- published = true && (title = "say \"hi\"" || @request.auth.id != author.name)
abbrev published : Disjunction
published =
    Disjunction.disjunction
      (Conjunction.conjunction flag (AndTail.and_more (Atom.group either) AndTail.and_end))
      OrTail.or_end
  where
    flag : Atom
    flag =
        Atom.comparison (Left.path (codes "published" ∷ [])) CompareOp.eq
          (Side.value (Operand.bool true))

    title : Atom
    title =
        Atom.comparison (Left.path (codes "title" ∷ [])) CompareOp.like
          (Side.value (Operand.text (codes "say \"hi\"")))

    mine : Atom
    mine =
        Atom.comparison (Left.auth AuthRef.id) CompareOp.not_eq
          (Side.path (codes "author" ∷ codes "name" ∷ []))

    alone : Atom → Conjunction
    alone a = Conjunction.conjunction a AndTail.and_end

    either : Disjunction
    either = Disjunction.disjunction (alone title) (OrTail.or_more (alone mine) OrTail.or_end)

abbrev sample_tokens : List Token
sample_tokens =
    Token.path (codes "a" ∷ codes "b" ∷ [])
    ∷ Token.op CompareOp.lte
    ∷ Token.number (codes "-1.5")
    ∷ Token.text (codes "say \"hi\"")
    ∷ Token.auth (AuthRef.claim (codes "role"))
    ∷ []

tokenize-spell_all_example : tokenize (spell_all sample_tokens) ≡ ok sample_tokens
unfolding is_segment_start is_segment_character is_numeral is_number_character auth_property join
    text_eq
tokenize-spell_all_example = tokenize-spell_all sample_tokens (ground arith)

parse-spell_all_example : parse (spell_all (yield published)) ≡ ok (meaning published)
unfolding yield nesting is_segment_start is_segment_character join text_eq
parse-spell_all_example = parse-spell_all published (ground arith) (omega arith) (omega arith)

parse_tokens-eq-ok_iff_example :
    (parse_tokens (yield published) ≡ ok (meaning published))
    ↔ Derivation (yield published) (meaning published)
parse_tokens-eq-ok_iff_example = parse_tokens-eq-ok_iff (yield published) (meaning published)

parse-ne-out_of_fuel_example : parse (codes "((a") ≢ err FilterError.out_of_fuel
parse-ne-out_of_fuel_example = parse-ne-out_of_fuel (codes "((a")
