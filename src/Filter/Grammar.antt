-- ===== src/Filter/Grammar.antt =====
-- The grammar that the filter parser promises, as concrete syntax trees: `||` binds more loosely
-- than `&&`, both are chains, and a group is a whole filter in parentheses.
use Prim.Native.Nat.{max}
use lazypock.Base.{ℕ, suc, List, [], ◌∷◌, ◌++◌}
use lazypock.Base.Text.{Text}
use lazypock.Filter.Syntax.{CompareOp, AuthRef, Operand, Side, Expr, Token}

-- The side that may begin a comparison.
pub data Left : Type 0 where
  path : List Text → Left
  auth : AuthRef → Left
  now : Left

mutual
  -- conjunction ("||" conjunction)*
  pub data Disjunction : Type 0 where
    disjunction : Conjunction → OrTail → Disjunction

  pub data OrTail : Type 0 where
    or_end : OrTail
    or_more : Conjunction → OrTail → OrTail

  -- atom ("&&" atom)*
  pub data Conjunction : Type 0 where
    conjunction : Atom → AndTail → Conjunction

  pub data AndTail : Type 0 where
    and_end : AndTail
    and_more : Atom → AndTail → AndTail

  -- "(" disjunction ")", or left op side
  pub data Atom : Type 0 where
    group : Disjunction → Atom
    comparison : Left → CompareOp → Side → Atom

abbrev pub left_token : Left → Token
left_token (path p) = Token.path p
left_token (auth r) = Token.auth r
left_token now = Token.now

abbrev pub left_side : Left → Side
left_side (path p) = Side.path p
left_side (auth r) = Side.value (Operand.auth r)
left_side now = Side.value Operand.now

abbrev pub side_token : Side → Token
side_token (Side.path p) = Token.path p
side_token (Side.value (Operand.text v)) = Token.text v
side_token (Side.value (Operand.number v)) = Token.number v
side_token (Side.value (Operand.bool v)) = Token.bool v
side_token (Side.value Operand.null) = Token.null
side_token (Side.value Operand.now) = Token.now
side_token (Side.value (Operand.auth r)) = Token.auth r

-- The tokens of a tree.
unfoldable mutual
  pub yield : Disjunction → List Token
  yield (disjunction c t) = yield_and c ++ yield_or_tail t

  pub yield_or_tail : OrTail → List Token
  yield_or_tail or_end = []
  yield_or_tail (or_more c t) = Token.or ∷ (yield_and c ++ yield_or_tail t)

  pub yield_and : Conjunction → List Token
  yield_and (conjunction a t) = yield_atom a ++ yield_and_tail t

  pub yield_and_tail : AndTail → List Token
  yield_and_tail and_end = []
  yield_and_tail (and_more a t) = Token.and ∷ (yield_atom a ++ yield_and_tail t)

  pub yield_atom : Atom → List Token
  yield_atom (group d) = Token.l_paren ∷ (yield d ++ Token.r_paren ∷ [])
  yield_atom (comparison l o r) = left_token l ∷ Token.op o ∷ side_token r ∷ []

-- The expression that a tree stands for: chains associate to the left.
unfoldable mutual
  pub meaning : Disjunction → Expr
  meaning (disjunction c t) = meaning_or (meaning_and c) t

  pub meaning_or : Expr → OrTail → Expr
  meaning_or e or_end = e
  meaning_or e (or_more c t) = meaning_or (Expr.or e (meaning_and c)) t

  pub meaning_and : Conjunction → Expr
  meaning_and (conjunction a t) = meaning_and_tail (meaning_atom a) t

  pub meaning_and_tail : Expr → AndTail → Expr
  meaning_and_tail e and_end = e
  meaning_and_tail e (and_more a t) = meaning_and_tail (Expr.and e (meaning_atom a)) t

  pub meaning_atom : Atom → Expr
  meaning_atom (group d) = meaning d
  meaning_atom (comparison l o r) = Expr.compare (left_side l) o r

-- How deep groups are nested, the outermost filter counted.
unfoldable mutual
  pub nesting : Disjunction → ℕ
  nesting (disjunction c t) = suc (max (nesting_and c) (nesting_or_tail t))

  pub nesting_or_tail : OrTail → ℕ
  nesting_or_tail or_end = 0
  nesting_or_tail (or_more c t) = max (nesting_and c) (nesting_or_tail t)

  pub nesting_and : Conjunction → ℕ
  nesting_and (conjunction a t) = max (nesting_atom a) (nesting_and_tail t)

  pub nesting_and_tail : AndTail → ℕ
  nesting_and_tail and_end = 0
  nesting_and_tail (and_more a t) = max (nesting_atom a) (nesting_and_tail t)

  pub nesting_atom : Atom → ℕ
  nesting_atom (group d) = nesting d
  nesting_atom (comparison l o r) = 0
