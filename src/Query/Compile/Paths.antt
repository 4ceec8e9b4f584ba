-- ===== src/Query/Compile/Paths.antt =====
-- A filter that compiles names columns of the contexts that its paths lead to.
use lazypock.Base.{
  ℕ, suc, Bool, true, false, List, [], ◌∷◌, Option, none, some, ◌≡◌, refl, ◌≤◌, length, leb→le, ok,
  err, guard, ◌>>=◌, ◌>>◌, Fault, Meets, returns, fails, Meets-bind, Meets-imp, Meets-ok,
}
use lazypock.Base.Text.{Text}
use lazypock.Base.Dict.{lookup}
use lazypock.Filter.Syntax.{CompareOp, Expr, Operand, Side}
use lazypock.Query.Context.{
  AuthContext, FilterContext, RelationTarget, columns, find_relation, max_path_depth, relations,
  target_context,
}
use lazypock.Query.Operators.{Compiled}
use lazypock.Query.Compile.{
  compile_at, compile_comparison, compile_expr, compile_path, compile_with_root, known, split_last,
  alias_of,
}

abbrev pub through {ℓ} :
    {A : Type ℓ} → Option RelationTarget → (RelationTarget → Option A) → Option A
through none k = none
through (some r) k = k r

-- The context that a sequence of relations leads to.
unfoldable pub walk : FilterContext → List Text → Option FilterContext
unfolding find_relation
walk ctx [] = some ctx
walk ctx (name ∷ hops) =
    through (find_relation name (relations ctx)) (λ r. walk (target_context r) hops)

-- A column behind relations.
unfoldable pub Holds : FilterContext → List Text → Text → Type 0
unfolding walk lookup
Holds ctx hops column =
    (inner : FilterContext) × ((walk ctx hops ≡ some inner)
      × ((type : Text) × (lookup column (columns inner) ≡ some type)))

unfoldable pub Names : FilterContext → List Text → Type 0
unfolding Holds split_last
Names ctx [] = ⊥
Names ctx (first ∷ more) = Holds ctx (split_last first more).0 (split_last first more).1

-- A predicate on every path of a filter.
abbrev pub Paths : (List Text → Type 0) → Expr → Type 0
Paths P (Expr.and e f) = Paths P e × Paths P f
Paths P (Expr.or e f) = Paths P e × Paths P f
Paths P (Expr.compare (Side.path p) op (Side.value v)) = P p
Paths P (Expr.compare (Side.value v) op (Side.path p)) = P p
Paths P (Expr.compare (Side.value v) op (Side.value w)) = Unit
Paths P (Expr.compare (Side.path p) op (Side.path q)) = P p × P q

pub Paths-imp :
    (P Q : List Text → Type 0) → ((p : List Text) → P p → Q p) → (e : Expr) → Paths P e → Paths Q e
Paths-imp P Q k (Expr.and e f) h = (Paths-imp P Q k e h.0, Paths-imp P Q k f h.1)
Paths-imp P Q k (Expr.or e f) h = (Paths-imp P Q k e h.0, Paths-imp P Q k f h.1)
Paths-imp P Q k (Expr.compare (Side.path p) op (Side.value v)) h = k p h
Paths-imp P Q k (Expr.compare (Side.value v) op (Side.path p)) h = k p h
Paths-imp P Q k (Expr.compare (Side.value v) op (Side.value w)) h = tt
Paths-imp P Q k (Expr.compare (Side.path p) op (Side.path q)) h = (k p h.0, k q h.1)

-- Every path names a column, and is not too deep.
unfoldable pub Whitelisted : FilterContext → Expr → Type 0
unfolding Names
Whitelisted ctx e = Paths (λ p. Names ctx p × (length p ≤ max_path_depth)) e

-- A call that returns only where `P` holds.
abbrev Needs {ℓ} : Type ℓ → Compiled → Type ℓ
Needs P r = Meets (λ e. Unit {0}) (λ done. P) r

Needs-known {ℓ κ} :
    {A : Type κ} (P : Type ℓ) (o : Option A) (next : A → Compiled)
    → ((a : A) → o ≡ some a → Needs P (next a))
    → Needs P (known o >>= next)
Needs-known P none next h = fails tt
Needs-known P (some a) next h = h a refl

Needs-any {ℓ} : (P : Type ℓ) (r : Compiled) → P → Needs P r
Needs-any P (ok done) h = returns h
Needs-any P (err e) h = fails tt

Needs-check {ℓ} :
    (P : Type ℓ) (b : Bool) (e : Fault) (r : Compiled)
    → (b ≡ true → Needs P r)
    → Needs P (guard b e >> r)
Needs-check P true e r h = h refl
Needs-check P false e r h = fails tt

module _ (show_number : Text → Text) (auth : AuthContext) where
  compile_at-Holds :
      (ctx : FilterContext) (parent : Text) (hops : List Text) (column : Text) (op : CompareOp)
      (v : Operand) (swapped : Bool) (params : List Text) (count : ℕ)
      → Needs
          (Holds ctx hops column)
          (compile_at show_number auth ctx parent hops column op v swapped params count)
  unfolding compile_at walk Holds
  compile_at-Holds ctx parent [] column op v swapped params count =
      Needs-known _ (lookup column (columns ctx)) _
        (λ type h. Needs-any _ _ (ctx, (refl, (type, h))))
  compile_at-Holds ctx parent (name ∷ hops) column op v swapped params count =
      Needs-known _ (find_relation name (relations ctx)) _ (λ r h.
        Meets-bind
          (compile_at-Holds (target_context r) (alias_of (suc count)) hops column op v swapped
            params (suc count))
          (λ done held. returns (held.0, (rw h held.1.0, held.1.1))))

  compile_path-Names :
      (p : List Text) (op : CompareOp) (v : Operand) (swapped : Bool) (ctx : FilterContext)
      (root : Text) (params : List Text)
      → Needs
          (Names ctx p × (length p ≤ max_path_depth))
          (compile_path show_number auth p op v swapped ctx root params)
  unfolding compile_path Names
  compile_path-Names [] op v swapped ctx root params = fails tt
  compile_path-Names (first ∷ more) op v swapped ctx root params = Needs-check _ _ _ _ (λ short.
      Meets-imp (compile_at-Holds ctx root _ _ op v swapped params 0)
        (λ done held. (held, leb→le (length (first ∷ more)) max_path_depth short)))

  compile_expr-Whitelisted :
      (e : Expr) (ctx : FilterContext) (root : Text) (params : List Text)
      → Needs (Whitelisted ctx e) (compile_expr show_number auth e ctx root params)
  unfolding compile_expr compile_comparison Whitelisted
  compile_expr-Whitelisted (Expr.and e f) ctx root params =
      Meets-bind (compile_expr-Whitelisted e ctx root params) (λ a first.
        Meets-bind (compile_expr-Whitelisted f ctx root a.1) (λ b second. returns (first, second)))
  compile_expr-Whitelisted (Expr.or e f) ctx root params =
      Meets-bind (compile_expr-Whitelisted e ctx root params) (λ a first.
        Meets-bind (compile_expr-Whitelisted f ctx root a.1) (λ b second. returns (first, second)))
  compile_expr-Whitelisted (Expr.compare (Side.path p) op (Side.value v)) ctx root params =
      compile_path-Names p op v false ctx root params
  compile_expr-Whitelisted (Expr.compare (Side.value v) op (Side.path p)) ctx root params =
      compile_path-Names p op v true ctx root params
  compile_expr-Whitelisted (Expr.compare (Side.value v) op (Side.value w)) ctx root params =
      Needs-any _ _ tt
  compile_expr-Whitelisted (Expr.compare (Side.path p) op (Side.path q)) ctx root params = fails tt

-- A filter that compiles names, by each of its paths, a column of the context that the path's relations lead to, and no
-- path of it is deeper than the limit.
pub compile-Whitelisted :
    (show_number : Text → Text) (auth : AuthContext) (e : Expr) (ctx : FilterContext) (root : Text)
    (done : Text × List Text)
    → compile_with_root show_number auth e ctx root ≡ ok done
    → Whitelisted ctx e
unfolding compile_with_root
compile-Whitelisted show_number auth e ctx root done h =
    Meets-ok (compile_expr-Whitelisted show_number auth e ctx root []) h
