-- ===== src/Query/Compile.antt =====
-- crates/db/src/query/compile.rs: a filter becomes SQL, along the relations that its paths name. A path without a segment,
-- which the code expects no caller to give and panics on, is an internal error here.
pub mod Bound
pub mod Interference
pub mod Paths
use lazypock.Base.{
  ℕ, suc, Bool, true, false, List, [], ◌∷◌, ◌++◌, Option, none, some, leb, if◌then◌else◌, length,
  Result, ok, err, guard, ◌>>=◌, ◌>>◌, Fault, decimal,
}
use lazypock.Base.Text.{Text, codes}
use lazypock.Base.Dict.{lookup}
use lazypock.Filter.Syntax.{CompareOp, Expr, Operand, Side}
use lazypock.Schema.Types.{quote_ident}
use lazypock.Query.Context.{
  AuthContext, FilterContext, RelationTarget, columns, find_relation, max_path_depth, relations,
  table, target, target_context,
}
use lazypock.Query.Operators.{Compiled, compile_operator, compile_values}

-- The last segment, behind the others.
unfoldable pub split_last : Text → List Text → List Text × Text
split_last first [] = ([], first)
split_last first (next ∷ more) = let rest = split_last next more in (first ∷ rest.0, rest.1)

abbrev pub known {ℓ} : {A : Type ℓ} → Option A → Result Fault A
known none = err Fault.invalid
known (some a) = ok a

-- The condition that joins a relation's table to the row that refers to it.
abbrev join_condition : RelationTarget → Text → Text → Text
unfolding quote_ident
join_condition (target column true t inner) alias parent =
    alias
    ++ (codes ".\"id\" = any(" ++ (parent ++ (codes "." ++ (quote_ident column ++ codes ")"))))
join_condition (target column false t inner) alias parent =
    alias ++ (codes ".\"id\" = " ++ (parent ++ (codes "." ++ quote_ident column)))

abbrev target_table : RelationTarget → Text
target_table (target column multiple t inner) = t

unfoldable pub exists_in : RelationTarget → Text → Text → Text → Text
unfolding quote_ident join_condition
exists_in r alias parent inner =
    codes "exists (select 1 from "
    ++ (quote_ident (target_table r)
        ++ (codes " "
            ++ (alias
                ++ (codes " where "
                    ++ (join_condition r alias parent
                        ++ (codes " and " ++ (inner ++ codes ")")))))))

abbrev pub alias_of : ℕ → Text
unfolding decimal
alias_of n = codes "rt" ++ decimal n

abbrev pub bracketed : Text → Text → Text → Text
bracketed left word right =
    codes "(" ++ (left ++ (codes " " ++ (word ++ (codes " " ++ (right ++ codes ")")))))

module _ (show_number : Text → Text) (auth : AuthContext) where
  unfoldable pub compile_at :
      FilterContext
      → Text
      → List Text
      → Text
      → CompareOp
      → Operand
      → Bool
      → List Text
      → ℕ
      → Compiled
  unfolding compile_operator quote_ident lookup find_relation exists_in alias_of
  compile_at ctx parent [] column op operand swapped params count = do
    type ← known (lookup column (columns ctx))
    compile_operator show_number (parent ++ (codes "." ++ quote_ident column)) type op operand
        swapped auth params
  compile_at ctx parent (name ∷ hops) column op operand swapped params count = do
    r ← known (find_relation name (relations ctx))
    inner ←
        compile_at (target_context r) (alias_of (suc count)) hops column op operand swapped params
          (suc count)
    ok (exists_in r (alias_of (suc count)) parent inner.0, inner.1)

  unfoldable pub compile_path :
      List Text → CompareOp → Operand → Bool → FilterContext → Text → List Text → Compiled
  unfolding split_last compile_at
  compile_path [] op operand swapped ctx root params = err Fault.internal
  compile_path (first ∷ more) op operand swapped ctx root params =
      guard (leb (length (first ∷ more)) max_path_depth) Fault.invalid
      >> compile_at ctx root (split_last first more).0 (split_last first more).1 op operand swapped
          params 0

  unfoldable pub compile_comparison :
      Side → CompareOp → Side → FilterContext → Text → List Text → Compiled
  unfolding compile_path compile_values
  compile_comparison (Side.path p) op (Side.value v) ctx root params =
      compile_path p op v false ctx root params
  compile_comparison (Side.value v) op (Side.path p) ctx root params =
      compile_path p op v true ctx root params
  compile_comparison (Side.value v) op (Side.value w) ctx root params =
      compile_values show_number v op w auth params
  compile_comparison (Side.path p) op (Side.path q) ctx root params = err Fault.unsupported

  unfoldable pub compile_expr : Expr → FilterContext → Text → List Text → Compiled
  unfolding compile_comparison
  compile_expr (Expr.and e f) ctx root params = do
    left ← compile_expr e ctx root params
    right ← compile_expr f ctx root left.1
    ok (bracketed left.0 (codes "and") right.0, right.1)
  compile_expr (Expr.or e f) ctx root params = do
    left ← compile_expr e ctx root params
    right ← compile_expr f ctx root left.1
    ok (bracketed left.0 (codes "or") right.0, right.1)
  compile_expr (Expr.compare left op right) ctx root params =
      compile_comparison left op right ctx root params

  unfoldable pub compile_with_root : Expr → FilterContext → Text → Compiled
  unfolding compile_expr
  compile_with_root e ctx root = compile_expr e ctx root []

  unfoldable pub compile : Expr → FilterContext → Compiled
  unfolding compile_with_root quote_ident
  compile e ctx = compile_with_root e ctx (quote_ident (table ctx))
