-- ===== src/Filter/Parser/Sound.antt =====
-- What the parser accepts is a tree of the grammar, and its fuel is enough.
use lazypock.Base.{
  ℕ, zero, suc, ◌+◌, ◌*◌, ◌≤◌, ◌<◌, ◌≡◌, refl, ap, sym, ◌∙◌, ◌≢◌, List, [], ◌∷◌, ◌++◌, append_assoc,
  arith, ltb, Meets, returns, fails, Meets-bind, Meets-imp, Meets-if, length, length-append,
}
use lazypock.Filter.Syntax.{Expr, Token, FilterError, max_depth}
use lazypock.Filter.Grammar.{
  Left, left_token, left_side, side_token, Disjunction, OrTail, Conjunction, AndTail, Atom, yield,
  yield_or_tail, yield_and, yield_and_tail, yield_atom, meaning, meaning_or, meaning_and,
  meaning_and_tail, meaning_atom, nesting, nesting_or_tail, nesting_and, nesting_and_tail,
  nesting_atom,
}
use lazypock.Filter.Parser.{
  enter, leave, parse_side, parse_compare_from, close, parse_or, parse_or_loop, parse_and,
  parse_and_loop, parse_comparison,
}

abbrev pub Kept : FilterError → Type 0
Kept e = e ≢ FilterError.out_of_fuel

-- The call read the tokens of a tree off the front, within the depth, and restored the depth.
abbrev pub Reads {ℓ} :
    {T : Type ℓ}
    → (T → List Token)
    → (T → Expr)
    → (T → ℕ)
    → ℕ
    → List Token
    → Expr × ℕ × List Token
    → Type ℓ
Reads {T = T} toks means deep depth ts r =
    (t : T) × (ts ≡ toks t ++ r.2) × (means t ≡ r.0) × (r.1 ≡ depth) × (depth + deep t ≤ max_depth)

enter-Meets : (d : ℕ) → Meets Kept (λ inside. (inside ≡ d + 1) × (d + 1 ≤ max_depth)) (enter d)
unfolding enter
enter-Meets d =
    Meets-if (ltb max_depth (d + 1)) (λ h. fails (λ e. cc)) (λ h. returns (refl, ground arith))

parse_side-Meets : (ts : List Token) → Meets Kept (λ r. ts ≡ side_token r.0 ∷ r.1) (parse_side ts)
unfolding parse_side
parse_side-Meets [] = fails (λ e. cc)
parse_side-Meets (Token.path p ∷ ts) = returns refl
parse_side-Meets (Token.text p ∷ ts) = returns refl
parse_side-Meets (Token.number p ∷ ts) = returns refl
parse_side-Meets (Token.bool p ∷ ts) = returns refl
parse_side-Meets (Token.null ∷ ts) = returns refl
parse_side-Meets (Token.now ∷ ts) = returns refl
parse_side-Meets (Token.auth p ∷ ts) = returns refl
parse_side-Meets (t ∷ ts) = fails (λ e. cc)

parse_compare_from-Meets :
    (l : Left) (d : ℕ) (ts : List Token)
    → d ≤ max_depth
    → Meets Kept
        (Reads yield_atom meaning_atom nesting_atom d (left_token l ∷ ts))
        (parse_compare_from (left_side l) d ts)
unfolding parse_compare_from yield meaning nesting
parse_compare_from-Meets l d (Token.op o ∷ ts) h =
    Meets-bind (parse_side-Meets ts)
      λ r p. returns (Atom.comparison l o r.0, rw p, refl, refl, omega arith)
parse_compare_from-Meets l d [] h = fails (λ e. cc)
parse_compare_from-Meets l d (t ∷ ts) h = fails (λ e. cc)

close-Meets :
    (e : Expr) (d : ℕ) (ts : List Token)
    → Meets Kept (λ r. (ts ≡ Token.r_paren ∷ r.2) × (r.0 ≡ e) × (r.1 ≡ d)) (close e d ts)
unfolding close
close-Meets e d [] = fails (λ e. cc)
close-Meets e d (Token.r_paren ∷ ts) = returns (refl, refl, refl)
close-Meets e d (t ∷ ts) = fails (λ e. cc)

pub length-tokens : (xs ys : List Token) → length (xs ++ ys) ≡ length xs + length ys
length-tokens = length-append

pub length-yield_atom : (a : Atom) → 0 < length (yield_atom a)
unfolding yield
length-yield_atom (Atom.group d) = omega arith
length-yield_atom (Atom.comparison l o r) = omega arith

pub length-yield_and : (c : Conjunction) → 0 < length (yield_and c)
unfolding yield
length-yield_and (Conjunction.conjunction a t) =
    omega (arith, length-tokens (yield_atom a) (yield_and_tail t), length-yield_atom a)

pub length-yield : (d : Disjunction) → 0 < length (yield d)
unfolding yield
length-yield (Disjunction.disjunction c t) =
    omega (arith, length-tokens (yield_and c) (yield_or_tail t), length-yield_and c)

-- A call that read an atom or a conjunction left fewer tokens.
shorter : (xs ts rest : List Token) → ts ≡ xs ++ rest → 0 < length xs → length rest < length ts
shorter xs ts rest p h = omega (arith, ap length p, length-tokens xs rest)

mutual
  unfolding parse_or yield meaning nesting leave

  pub parse_or-Meets :
      (f d : ℕ) (ts : List Token)
      → 3 * length ts + 2 < f
      → Meets Kept (Reads yield meaning nesting d ts) (parse_or f d ts)
  parse_or-Meets zero d ts h = absurd (omega arith)
  parse_or-Meets (suc f) d ts h = Meets-bind (enter-Meets d) λ inside (same, deep).
      Meets-bind (parse_and-Meets f inside ts (omega arith) (omega arith)) λ l (c, p, m, k, n).
        Meets-bind
          (parse_or_loop-Meets f l.0 l.1 l.2
            (omega (arith, shorter (yield_and c) ts l.2 p (length-yield_and c))) (omega arith))
          λ r (t, p', m', k', n'). returns (
            Disjunction.disjunction c t,
            rw p (rw p' (rw append_assoc)),
            rw m m',
            omega arith,
            omega arith,
          )

  parse_or_loop-Meets :
      (f : ℕ) (left : Expr) (d : ℕ) (ts : List Token)
      → 3 * length ts < f
      → d ≤ max_depth
      → Meets Kept
          (Reads yield_or_tail (meaning_or left) nesting_or_tail d ts)
          (parse_or_loop f left d ts)
  parse_or_loop-Meets zero left d ts h k = absurd (omega arith)
  parse_or_loop-Meets (suc f) left d (Token.or ∷ ts) h k =
      Meets-bind (parse_and-Meets f d ts (omega arith) k) λ l (c, p, m, k, n).
        Meets-imp
          (parse_or_loop-Meets f (Expr.or left l.0) l.1 l.2
            (omega (arith, shorter (yield_and c) ts l.2 p (length-yield_and c))) (omega arith))
          λ r (t, p', m', k', n').
            (OrTail.or_more c t, rw p (rw p' (rw append_assoc)), rw m m', omega arith, omega arith)
  parse_or_loop-Meets (suc f) left d [] h k = returns (OrTail.or_end, refl, refl, refl, omega arith)
  parse_or_loop-Meets (suc f) left d (t ∷ ts) h k =
      returns (OrTail.or_end, refl, refl, refl, omega arith)

  parse_and-Meets :
      (f d : ℕ) (ts : List Token)
      → 3 * length ts + 1 < f
      → d ≤ max_depth
      → Meets Kept (Reads yield_and meaning_and nesting_and d ts) (parse_and f d ts)
  parse_and-Meets zero d ts h k = absurd (omega arith)
  parse_and-Meets (suc f) d ts h k =
      Meets-bind (parse_comparison-Meets f d ts (omega arith) k) λ l (a, p, m, k, n).
        Meets-imp
          (parse_and_loop-Meets f l.0 l.1 l.2
            (omega (arith, shorter (yield_atom a) ts l.2 p (length-yield_atom a))) (omega arith))
          λ r (t, p', m', k', n'). (
            Conjunction.conjunction a t,
            rw p (rw p' (rw append_assoc)),
            rw m m',
            omega arith,
            omega arith,
          )

  parse_and_loop-Meets :
      (f : ℕ) (left : Expr) (d : ℕ) (ts : List Token)
      → 3 * length ts < f
      → d ≤ max_depth
      → Meets Kept
          (Reads yield_and_tail (meaning_and_tail left) nesting_and_tail d ts)
          (parse_and_loop f left d ts)
  parse_and_loop-Meets zero left d ts h k = absurd (omega arith)
  parse_and_loop-Meets (suc f) left d (Token.and ∷ ts) h k =
      Meets-bind (parse_comparison-Meets f d ts (omega arith) k) λ l (a, p, m, k, n).
        Meets-imp
          (parse_and_loop-Meets f (Expr.and left l.0) l.1 l.2
            (omega (arith, shorter (yield_atom a) ts l.2 p (length-yield_atom a))) (omega arith))
          λ r (t, p', m', k', n'). (
            AndTail.and_more a t,
            rw p (rw p' (rw append_assoc)),
            rw m m',
            omega arith,
            omega arith,
          )
  parse_and_loop-Meets (suc f) left d [] h k =
      returns (AndTail.and_end, refl, refl, refl, omega arith)
  parse_and_loop-Meets (suc f) left d (t ∷ ts) h k =
      returns (AndTail.and_end, refl, refl, refl, omega arith)

  parse_comparison-Meets :
      (f d : ℕ) (ts : List Token)
      → 3 * length ts < f
      → d ≤ max_depth
      → Meets Kept (Reads yield_atom meaning_atom nesting_atom d ts) (parse_comparison f d ts)
  parse_comparison-Meets zero d ts h k = absurd (omega arith)
  parse_comparison-Meets (suc f) d (Token.l_paren ∷ ts) h k =
      Meets-bind (parse_or-Meets f d ts (omega arith)) λ l (t, p, m, k, n).
        Meets-imp (close-Meets l.0 l.1 l.2) λ r (p', m', k').
          (Atom.group t, rw p (rw p' (rw append_assoc)), m ∙ sym m', omega arith, omega arith)
  parse_comparison-Meets (suc f) d (Token.path p ∷ ts) h k =
      parse_compare_from-Meets (Left.path p) d ts k
  parse_comparison-Meets (suc f) d (Token.auth r ∷ ts) h k =
      parse_compare_from-Meets (Left.auth r) d ts k
  parse_comparison-Meets (suc f) d (Token.now ∷ ts) h k = parse_compare_from-Meets Left.now d ts k
  parse_comparison-Meets (suc f) d [] h k = fails (λ e. cc)
  parse_comparison-Meets (suc f) d (t ∷ ts) h k = fails (λ e. cc)
