-- ===== src/Filter/Parser/Exact.antt =====
-- The parser accepts exactly the grammar, within its two limits.
use lazypock.Base.{
  ◌+◌, ◌*◌, ◌≤◌, ◌≡◌, refl, sym, ap, ◌∙◌, ◌↔◌, List, [], ◌∷◌, append-nil, arith, ok, ltb, Meets,
  returns, fails, Meets-bind, Meets-imp, Meets-if, Meets-ok, length, false,
}
use lazypock.Filter.Syntax.{Expr, Token, max_tokens, max_depth}
use lazypock.Filter.Grammar.{Disjunction, yield, meaning, nesting}
use lazypock.Filter.Parser.{parse_or, finish, parse_tokens}
use lazypock.Filter.Parser.Sound.{Kept, parse_or-Meets}
use lazypock.Filter.Parser.Complete.{parse_or-yield}

-- A tree of the grammar with these tokens and this meaning, within both limits.
abbrev pub Derivation : List Token → Expr → Type 0
Derivation ts e =
    (t : Disjunction) × (yield t ≡ ts)
    × (meaning t ≡ e)
    × (nesting t ≤ max_depth)
    × (length ts ≤ max_tokens)

finish-Meets : (e : Expr) (ts : List Token) → Meets Kept (λ r. (ts ≡ []) × (r ≡ e)) (finish e ts)
unfolding finish
finish-Meets e [] = returns (refl, refl)
finish-Meets e (t ∷ ts) = fails (λ p. cc)

pub parse_tokens-Meets : (ts : List Token) → Meets Kept (Derivation ts) (parse_tokens ts)
unfolding parse_tokens
parse_tokens-Meets ts =
    Meets-if (ltb max_tokens (length ts)) (λ h. fails (λ e. cc))
      λ short.
        Meets-bind (parse_or-Meets (3 * length ts + 3) 0 ts (omega arith)) λ r (t, p, m, k, n).
          Meets-imp (finish-Meets r.0 r.2) λ e (done, same).
            (t, sym (p ∙ rw done (append-nil (yield t))), m ∙ sym same, omega arith, ground arith)

parse_tokens-Derivation : (ts : List Token) (e : Expr) → Derivation ts e → parse_tokens ts ≡ ok e
unfolding parse_tokens finish
parse_tokens-Derivation ts e (t, p, m, n, k) = simp (short, whole)
  where
    short : ltb max_tokens (length ts) ≡ false
    short = ground arith

    whole : parse_or (3 * length ts + 3) 0 ts ≡ ok (e, 0, [])
    whole =
        rw (← p, ← m)
          (rw (← append-nil (yield t)) (
            parse_or-yield t _ 0 [] (omega (arith, ap length (append-nil (yield t)))) (omega arith)
              tt))

-- The parser accepts a token list with the value `e` exactly when the grammar derives that list,
-- the derivation means `e`, its groups are nested at most `max_depth` deep and the list is at
-- most `max_tokens` long.
pub parse_tokens-eq-ok_iff :
    (ts : List Token) (e : Expr) → (parse_tokens ts ≡ ok e) ↔ Derivation ts e
parse_tokens-eq-ok_iff ts e = (Meets-ok (parse_tokens-Meets ts), parse_tokens-Derivation ts e)
