-- ===== src/Filter/Parser/Printed.antt =====
-- From text to expression: a filter that is written out token by token means what its tree means.
use lazypock.Base.{
  ◌≤◌, ◌≡◌, ◌<◌, refl, ap, false, [], ◌∷◌, ◌++◌, All, arith, ok, length, null, ℕ, List,
}
use lazypock.Base.Text.{Text, trim, is_whitespace}
use lazypock.Filter.Syntax.{Token, max_tokens, max_depth}
use lazypock.Filter.Grammar.{Disjunction, yield, meaning, nesting}
use lazypock.Filter.Lexer.Spelling.{spell_all, IsLexical}
use lazypock.Filter.Lexer.RoundTrip.{spell-first, tokenize-spell_all}
use lazypock.Filter.Parser.{parse, parse_optional}
use lazypock.Filter.Parser.Sound.{length-yield}
use lazypock.Filter.Parser.Exact.{parse_tokens-eq-ok_iff}

null-trim_cons : (c : ℕ) (s : Text) → is_whitespace c ≡ false → null (trim (c ∷ s)) ≡ false
unfolding trim
null-trim_cons c s h = rw h (rw h)

null-trim-spell_all :
    (t : Token) (ts : List Token) → IsLexical t → null (trim (spell_all (t ∷ ts))) ≡ false
unfolding spell_all
null-trim-spell_all t ts h =
    let (c, s, e, w) = spell-first t h in rw e (null-trim_cons c (s ++ 0x20 ∷ spell_all ts) w)

-- A filter written out from a tree of the grammar, whose tokens have spellings and which keeps
-- within both limits, parses to the expression that the tree means.
pub parse-spell_all :
    (d : Disjunction)
    → All IsLexical (yield d)
    → nesting d ≤ max_depth
    → length (yield d) ≤ max_tokens
    → parse (spell_all (yield d)) ≡ ok (meaning d)
unfolding parse parse_optional
parse-spell_all d h n k = go (yield d) refl h
  where
    yields : 0 < length (yield d)
    yields = length-yield d

    go : (ts : List Token) → yield d ≡ ts → All IsLexical ts → parse (spell_all ts) ≡ ok (meaning d)
    go [] e h = absurd (omega (arith, ap length e, yields))
    go (t ∷ ts) e h = rw (
      null-trim-spell_all t ts h.0,
      tokenize-spell_all (t ∷ ts) h,
      (parse_tokens-eq-ok_iff (t ∷ ts) (meaning d)).1 (d, e, refl, n, omega (arith, ap length e)),
    )
