-- ===== src/Filter/Parser/Complete.antt =====
-- The parser reads every tree of the grammar whose groups are not nested too deep.
use lazypock.Base.{
  ℕ, zero, suc, ◌+◌, ◌*◌, ◌≤◌, ◌<◌, ◌≡◌, refl, List, [], ◌∷◌, ◌++◌, append_assoc, arith, ok, length,
}
use lazypock.Filter.Syntax.{CompareOp, Operand, Side, Expr, Token, max_depth}
use lazypock.Filter.Grammar.{
  Left, left_token, left_side, side_token, Disjunction, OrTail, Conjunction, AndTail, Atom, yield,
  yield_or_tail, yield_and, yield_and_tail, yield_atom, meaning, meaning_or, meaning_and,
  meaning_and_tail, meaning_atom, nesting, nesting_or_tail, nesting_and, nesting_and_tail,
  nesting_atom,
}
use lazypock.Filter.Parser.{
  enter, leave, parse_side, parse_compare_from, close, parse_or, parse_or_loop, parse_and,
  parse_and_loop, parse_comparison,
}
use lazypock.Filter.Parser.Sound.{length-tokens, length-yield_atom, length-yield_and}

-- What may follow a conjunction, and what may follow a disjunction.
abbrev pub EndsAnd : List Token → Type 0
EndsAnd (Token.and ∷ ts) = ⊥
EndsAnd _ = Unit {0}

abbrev pub EndsOr : List Token → Type 0
EndsOr (Token.and ∷ ts) = ⊥
EndsOr (Token.or ∷ ts) = ⊥
EndsOr _ = Unit {0}

EndsOr-EndsAnd : (ts : List Token) → EndsOr ts → EndsAnd ts
EndsOr-EndsAnd [] h = tt
EndsOr-EndsAnd (Token.and ∷ ts) h = h
EndsOr-EndsAnd (Token.or ∷ ts) h = tt
EndsOr-EndsAnd (_ ∷ ts) h = tt

yield_or_tail-EndsAnd :
    (t : OrTail) (rest : List Token) → EndsOr rest → EndsAnd (yield_or_tail t ++ rest)
unfolding yield
yield_or_tail-EndsAnd OrTail.or_end rest h = EndsOr-EndsAnd rest h
yield_or_tail-EndsAnd (OrTail.or_more c t) rest h = tt

parse_or_loop-end :
    (f : ℕ) (e : Expr) (d : ℕ) (ts : List Token)
    → EndsOr ts
    → parse_or_loop (suc f) e d ts ≡ ok (e, d, ts)
unfolding parse_or
parse_or_loop-end f e d [] h = refl
parse_or_loop-end f e d (Token.or ∷ ts) h = absurd h
parse_or_loop-end f e d (_ ∷ ts) h = refl

parse_and_loop-end :
    (f : ℕ) (e : Expr) (d : ℕ) (ts : List Token)
    → EndsAnd ts
    → parse_and_loop (suc f) e d ts ≡ ok (e, d, ts)
unfolding parse_or
parse_and_loop-end f e d [] h = refl
parse_and_loop-end f e d (Token.and ∷ ts) h = absurd h
parse_and_loop-end f e d (_ ∷ ts) h = refl

parse_side-side_token : (s : Side) (ts : List Token) → parse_side (side_token s ∷ ts) ≡ ok (s, ts)
unfolding parse_side
parse_side-side_token (Side.path p) ts = refl
parse_side-side_token (Side.value (Operand.text v)) ts = refl
parse_side-side_token (Side.value (Operand.number v)) ts = refl
parse_side-side_token (Side.value (Operand.bool v)) ts = refl
parse_side-side_token (Side.value Operand.null) ts = refl
parse_side-side_token (Side.value Operand.now) ts = refl
parse_side-side_token (Side.value (Operand.auth r)) ts = refl

parse_comparison-comparison :
    (f d : ℕ) (l : Left) (o : CompareOp) (s : Side) (ts : List Token)
    → parse_comparison (suc f) d (left_token l ∷ Token.op o ∷ side_token s ∷ ts)
      ≡ ok (Expr.compare (left_side l) o s, d, ts)
unfolding parse_or parse_compare_from
parse_comparison-comparison f d (Left.path p) o s ts = rw (parse_side-side_token s ts)
parse_comparison-comparison f d (Left.auth r) o s ts = rw (parse_side-side_token s ts)
parse_comparison-comparison f d Left.now o s ts = rw (parse_side-side_token s ts)

enter-ok : (d : ℕ) → d + 1 ≤ max_depth → enter d ≡ ok (d + 1)
unfolding enter
enter-ok d h = ground arith

leave-add : (d : ℕ) → leave (d + 1) ≡ d
unfolding leave
leave-add d = omega arith

mutual
  unfolding parse_or yield meaning nesting close

  pub parse_or-yield :
      (t : Disjunction) (f d : ℕ) (rest : List Token)
      → 3 * length (yield t) + 2 < f
      → d + nesting t ≤ max_depth
      → EndsOr rest
      → parse_or f d (yield t ++ rest) ≡ ok (meaning t, d, rest)
  parse_or-yield (Disjunction.disjunction c t) zero d rest h k e = absurd (omega arith)
  parse_or-yield (Disjunction.disjunction c t) (suc f) d rest h k e = simp (
    append_assoc,
    enter-ok d (omega arith),
    parse_and-yield c f (d + 1) (yield_or_tail t ++ rest)
        (omega (arith, length-tokens (yield_and c) (yield_or_tail t))) (omega arith)
        (yield_or_tail-EndsAnd t rest e),
    parse_or_loop-yield t f (meaning_and c) (d + 1) rest
        (omega (arith, length-tokens (yield_and c) (yield_or_tail t), length-yield_and c))
        (omega arith) e,
    leave-add,
  )

  parse_or_loop-yield :
      (t : OrTail) (f : ℕ) (left : Expr) (d : ℕ) (rest : List Token)
      → 3 * length (yield_or_tail t) < f
      → d + nesting_or_tail t ≤ max_depth
      → EndsOr rest
      → parse_or_loop f left d (yield_or_tail t ++ rest) ≡ ok (meaning_or left t, d, rest)
  parse_or_loop-yield OrTail.or_end zero left d rest h k e = absurd (omega arith)
  parse_or_loop-yield OrTail.or_end (suc f) left d rest h k e = parse_or_loop-end f left d rest e
  parse_or_loop-yield (OrTail.or_more c t) zero left d rest h k e = absurd (omega arith)
  parse_or_loop-yield (OrTail.or_more c t) (suc f) left d rest h k e = simp (
    append_assoc,
    parse_and-yield c f d (yield_or_tail t ++ rest)
        (omega (arith, length-tokens (yield_and c) (yield_or_tail t))) (omega arith)
        (yield_or_tail-EndsAnd t rest e),
    parse_or_loop-yield t f (Expr.or left (meaning_and c)) d rest
        (omega (arith, length-tokens (yield_and c) (yield_or_tail t), length-yield_and c))
        (omega arith) e,
  )

  parse_and-yield :
      (c : Conjunction) (f d : ℕ) (rest : List Token)
      → 3 * length (yield_and c) + 1 < f
      → d + nesting_and c ≤ max_depth
      → EndsAnd rest
      → parse_and f d (yield_and c ++ rest) ≡ ok (meaning_and c, d, rest)
  parse_and-yield (Conjunction.conjunction a t) zero d rest h k e = absurd (omega arith)
  parse_and-yield (Conjunction.conjunction a t) (suc f) d rest h k e = simp (
    append_assoc,
    parse_comparison-yield a f d (yield_and_tail t ++ rest)
        (omega (arith, length-tokens (yield_atom a) (yield_and_tail t))) (omega arith),
    parse_and_loop-yield t f (meaning_atom a) d rest
        (omega (arith, length-tokens (yield_atom a) (yield_and_tail t), length-yield_atom a))
        (omega arith) e,
  )

  parse_and_loop-yield :
      (t : AndTail) (f : ℕ) (left : Expr) (d : ℕ) (rest : List Token)
      → 3 * length (yield_and_tail t) < f
      → d + nesting_and_tail t ≤ max_depth
      → EndsAnd rest
      → parse_and_loop f left d (yield_and_tail t ++ rest) ≡ ok (meaning_and_tail left t, d, rest)
  parse_and_loop-yield AndTail.and_end zero left d rest h k e = absurd (omega arith)
  parse_and_loop-yield AndTail.and_end (suc f) left d rest h k e =
      parse_and_loop-end f left d rest e
  parse_and_loop-yield (AndTail.and_more a t) zero left d rest h k e = absurd (omega arith)
  parse_and_loop-yield (AndTail.and_more a t) (suc f) left d rest h k e = simp (
    append_assoc,
    parse_comparison-yield a f d (yield_and_tail t ++ rest)
        (omega (arith, length-tokens (yield_atom a) (yield_and_tail t))) (omega arith),
    parse_and_loop-yield t f (Expr.and left (meaning_atom a)) d rest
        (omega (arith, length-tokens (yield_atom a) (yield_and_tail t), length-yield_atom a))
        (omega arith) e,
  )

  parse_comparison-yield :
      (a : Atom) (f d : ℕ) (rest : List Token)
      → 3 * length (yield_atom a) < f
      → d + nesting_atom a ≤ max_depth
      → parse_comparison f d (yield_atom a ++ rest) ≡ ok (meaning_atom a, d, rest)
  parse_comparison-yield (Atom.comparison l o s) zero d rest h k = absurd (omega arith)
  parse_comparison-yield (Atom.comparison l o s) (suc f) d rest h k =
      parse_comparison-comparison f d l o s rest
  parse_comparison-yield (Atom.group t) zero d rest h k = absurd (omega arith)
  parse_comparison-yield (Atom.group t) (suc f) d rest h k = simp (
    append_assoc,
    parse_or-yield t f d (Token.r_paren ∷ rest)
        (omega (arith, length-tokens (yield t) (Token.r_paren ∷ []))) k tt,
  )
