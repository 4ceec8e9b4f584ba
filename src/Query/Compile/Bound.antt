-- ===== src/Query/Compile/Bound.antt =====
-- The parameters of a compiled filter are its values, in the order in which the filter has them.
use lazypock.Base.{
  Bool, true, false, List, [], ◌∷◌, ◌++◌, map, ◌≡◌, refl, sym, ap, ◌∙◌, append-nil, append_assoc,
  Result, ok, err, ◌>>=◌, ◌>>◌, Fault, Meets, returns, fails, Meets-bind, Meets-imp, Meets-ok,
  Option, none, some, ℕ, suc,
}
use lazypock.Base.Text.{Text, codes}
use lazypock.Filter.Syntax.{CompareOp, Expr, Operand, Side}
use lazypock.Base.Dict.{lookup}
use lazypock.Query.Context.{
  AuthContext, FilterContext, columns, relations, find_relation, target_context,
}
use lazypock.Query.Operators.{
  Compiled, auth_value, escape_like, literal_value, push_param, null_test, compile_any,
  compile_like, compile_now, compile_value, compile_order, compile_checked, compile_operator,
  value_sql, values_like, values_order, values_checked, compile_values, cast_of,
}
use lazypock.Query.Compile.{
  known, compile_at, compile_path, compile_comparison, compile_expr, compile_with_root, alias_of,
}

-- A call adds `values` to the parameters.
abbrev Adds : List Text → List Text → Compiled → Type 0
Adds params values r = Meets (λ e. Unit {0}) (λ done. done.1 ≡ params ++ values) r

Adds-check :
    (r : Result Fault (Unit {0})) (params values : List Text) (c : Compiled)
    → Adds params values c
    → Adds params values (r >> c)
Adds-check (ok a) params values c h = h
Adds-check (err e) params values c h = fails tt

-- Two calls, one behind the other.
Adds-then :
    (params xs ys : List Text) (r : Compiled) (next : Text × List Text → Compiled)
    → Adds params xs r
    → ((s : Text) (ps : List Text) → Adds ps ys (next (s, ps)))
    → Adds params (xs ++ ys) (r >>= next)
Adds-then params xs ys r next h k = Meets-bind h (λ done e.
    Meets-imp (k done.0 done.1) (λ last g. g ∙ ap (λ ps. ps ++ ys) e ∙ append_assoc params xs ys))

Meets-known {κ} :
    {A : Type κ} (params values : List Text) (o : Option A) {next : A → Compiled}
    → ((a : A) → Adds params values (next a))
    → Adds params values (known o >>= next)
Meets-known params values none h = fails tt
Meets-known params values (some a) h = h a

module _ (show_number : Text → Text) (auth : AuthContext) where
  -- The text that a value is bound as, if it is bound.
  unfoldable pub bound_value : Operand → List Text
  unfolding auth_value
  bound_value (Operand.text s) = s ∷ []
  bound_value (Operand.number n) = show_number n ∷ []
  bound_value (Operand.bool true) = codes "true" ∷ []
  bound_value (Operand.bool false) = codes "false" ∷ []
  bound_value (Operand.auth reference) = auth_value auth reference ∷ []
  bound_value Operand.null = []
  bound_value Operand.now = []

  -- A value beside `~` or `!~` is escaped, whether it is the text that is looked for or the text that is searched.
  unfoldable pub bound_against : CompareOp → Operand → List Text
  unfolding bound_value escape_like
  bound_against CompareOp.like v = map escape_like (bound_value v)
  bound_against CompareOp.not_like v = map escape_like (bound_value v)
  bound_against _ v = bound_value v

  unfoldable pub bound : Expr → List Text
  unfolding bound_against
  bound (Expr.and e f) = bound e ++ bound f
  bound (Expr.or e f) = bound e ++ bound f
  bound (Expr.compare (Side.path p) op (Side.value v)) = bound_against op v
  bound (Expr.compare (Side.value v) op (Side.path p)) = bound_against op v
  bound (Expr.compare (Side.value v) op (Side.value w)) = bound_value v ++ bound_against op w
  bound (Expr.compare (Side.path p) op (Side.path q)) = []

  literal_value-bound :
      (v : Operand)
      → Meets (λ e. Unit {0}) (λ s. s ∷ [] ≡ bound_value v) (literal_value show_number v auth)
  unfolding literal_value bound_value
  literal_value-bound (Operand.text s) = returns refl
  literal_value-bound (Operand.number n) = returns refl
  literal_value-bound (Operand.bool true) = returns refl
  literal_value-bound (Operand.bool false) = returns refl
  literal_value-bound (Operand.auth reference) = returns refl
  literal_value-bound Operand.null = fails tt
  literal_value-bound Operand.now = fails tt

  compile_any-bound :
      (target : Text) (positive : Bool) (v : Operand) (params : List Text)
      → Adds params (bound_value v) (compile_any show_number target positive v auth params)
  unfolding compile_any push_param
  compile_any-bound target positive v params =
      Meets-bind (literal_value-bound v) (λ s h. returns (ap (λ vs. params ++ vs) h))

  compile_like-bound :
      (target keyword : Text) (v : Operand) (swapped : Bool) (params : List Text)
      → Adds params
          (map escape_like (bound_value v))
          (compile_like show_number target keyword v swapped auth params)
  unfolding compile_like push_param
  compile_like-bound target keyword v swapped params =
      Meets-bind (literal_value-bound v)
        (λ s h. returns (ap (λ vs. params ++ map escape_like vs) h))

  compile_value-bound :
      (target type : Text) (op : CompareOp) (v : Operand) (swapped : Bool) (params : List Text)
      → Adds params (bound_value v) (compile_value show_number target type op v swapped auth params)
  unfolding compile_value push_param
  compile_value-bound target type op v swapped params =
      Meets-bind (literal_value-bound v) (λ s h. returns (ap (λ vs. params ++ vs) h))

  compile_order-bound :
      (target type : Text) (op : CompareOp) (v : Operand) (swapped : Bool) (params : List Text)
      → Adds params (bound_value v) (compile_order show_number target type op v swapped auth params)
  unfolding compile_order compile_now bound_value
  compile_order-bound target type op Operand.now swapped params =
      Adds-check _ params [] _ (returns (sym (append-nil params)))
  compile_order-bound target type op (Operand.text s) swapped params =
      compile_value-bound target type op (Operand.text s) swapped params
  compile_order-bound target type op (Operand.number n) swapped params =
      compile_value-bound target type op (Operand.number n) swapped params
  compile_order-bound target type op (Operand.bool b) swapped params =
      compile_value-bound target type op (Operand.bool b) swapped params
  compile_order-bound target type op (Operand.auth r) swapped params =
      compile_value-bound target type op (Operand.auth r) swapped params
  compile_order-bound target type op Operand.null swapped params =
      compile_value-bound target type op Operand.null swapped params

  compile_checked-bound :
      (target type : Text) (op : CompareOp) (v : Operand) (swapped : Bool) (params : List Text)
      → Adds params
          (bound_against op v)
          (compile_checked show_number target type op v swapped auth params)
  unfolding compile_checked bound_against
  compile_checked-bound target type CompareOp.any v swapped params =
      compile_any-bound target true v params
  compile_checked-bound target type CompareOp.not_any v swapped params =
      compile_any-bound target false v params
  compile_checked-bound target type CompareOp.like v swapped params =
      compile_like-bound target (codes "ilike") v swapped params
  compile_checked-bound target type CompareOp.not_like v swapped params =
      compile_like-bound target (codes "not ilike") v swapped params
  compile_checked-bound target type CompareOp.eq v swapped params =
      compile_order-bound target type CompareOp.eq v swapped params
  compile_checked-bound target type CompareOp.not_eq v swapped params =
      compile_order-bound target type CompareOp.not_eq v swapped params
  compile_checked-bound target type CompareOp.gt v swapped params =
      compile_order-bound target type CompareOp.gt v swapped params
  compile_checked-bound target type CompareOp.gte v swapped params =
      compile_order-bound target type CompareOp.gte v swapped params
  compile_checked-bound target type CompareOp.lt v swapped params =
      compile_order-bound target type CompareOp.lt v swapped params
  compile_checked-bound target type CompareOp.lte v swapped params =
      compile_order-bound target type CompareOp.lte v swapped params

  null_test-bound :
      (target : Text) (op : CompareOp) (params : List Text)
      → Adds params (bound_against op Operand.null) (null_test target op params)
  unfolding null_test bound_against bound_value
  null_test-bound target CompareOp.eq params = returns (sym (append-nil params))
  null_test-bound target CompareOp.not_eq params = returns (sym (append-nil params))
  null_test-bound target CompareOp.gt params = fails tt
  null_test-bound target CompareOp.gte params = fails tt
  null_test-bound target CompareOp.lt params = fails tt
  null_test-bound target CompareOp.lte params = fails tt
  null_test-bound target CompareOp.like params = fails tt
  null_test-bound target CompareOp.not_like params = fails tt
  null_test-bound target CompareOp.any params = fails tt
  null_test-bound target CompareOp.not_any params = fails tt

  compile_operator-bound :
      (target type : Text) (op : CompareOp) (v : Operand) (swapped : Bool) (params : List Text)
      → Adds params
          (bound_against op v)
          (compile_operator show_number target type op v swapped auth params)
  unfolding compile_operator
  compile_operator-bound target type op Operand.null swapped params =
      null_test-bound target op params
  compile_operator-bound target type op Operand.now swapped params =
      Adds-check _ params _ _ (compile_checked-bound target type op Operand.now swapped params)
  compile_operator-bound target type op (Operand.text s) swapped params =
      Adds-check _ params _ _ (compile_checked-bound target type op (Operand.text s) swapped params)
  compile_operator-bound target type op (Operand.number n) swapped params =
      Adds-check _ params _ _
        (compile_checked-bound target type op (Operand.number n) swapped params)
  compile_operator-bound target type op (Operand.bool b) swapped params =
      Adds-check _ params _ _ (compile_checked-bound target type op (Operand.bool b) swapped params)
  compile_operator-bound target type op (Operand.auth r) swapped params =
      Adds-check _ params _ _ (compile_checked-bound target type op (Operand.auth r) swapped params)

  compile_at-bound :
      (ctx : FilterContext) (parent : Text) (hops : List Text) (column : Text) (op : CompareOp)
      (v : Operand) (swapped : Bool) (params : List Text) (count : ℕ)
      → Adds params
          (bound_against op v)
          (compile_at show_number auth ctx parent hops column op v swapped params count)
  unfolding compile_at
  compile_at-bound ctx parent [] column op v swapped params count =
      Meets-known params _ (lookup column (columns ctx))
        (λ type. compile_operator-bound _ type op v swapped params)
  compile_at-bound ctx parent (name ∷ hops) column op v swapped params count =
      Meets-known params _ (find_relation name (relations ctx)) (λ r.
        Meets-bind
          (compile_at-bound (target_context r) (alias_of (suc count)) hops column op v swapped
            params (suc count))
          (λ inner h. returns h))

  compile_path-bound :
      (p : List Text) (op : CompareOp) (v : Operand) (swapped : Bool) (ctx : FilterContext)
      (root : Text) (params : List Text)
      → Adds params
          (bound_against op v)
          (compile_path show_number auth p op v swapped ctx root params)
  unfolding compile_path
  compile_path-bound [] op v swapped ctx root params = fails tt
  compile_path-bound (first ∷ more) op v swapped ctx root params =
      Adds-check _ params _ _ (compile_at-bound ctx root _ _ op v swapped params 0)

  value_sql-bound :
      (v : Operand) (cast : Text) (params : List Text)
      → Adds params (bound_value v) (value_sql show_number v cast auth params)
  unfolding value_sql push_param bound_value literal_value
  value_sql-bound Operand.now cast params = returns (sym (append-nil params))
  value_sql-bound Operand.null cast params = fails tt
  value_sql-bound (Operand.text s) cast params = returns refl
  value_sql-bound (Operand.number n) cast params = returns refl
  value_sql-bound (Operand.bool true) cast params = returns refl
  value_sql-bound (Operand.bool false) cast params = returns refl
  value_sql-bound (Operand.auth r) cast params = returns refl

  values_like-bound :
      (v : Operand) (keyword : Text) (w : Operand) (params : List Text)
      → Adds params
          (bound_value v ++ map escape_like (bound_value w))
          (values_like show_number v keyword w auth params)
  unfolding values_like push_param
  values_like-bound v keyword w params =
      Adds-then params (bound_value v) _ _ _ (value_sql-bound v (codes "text") params) (λ s ps.
        Meets-bind (literal_value-bound w)
          (λ needle h. returns (ap (λ vs. ps ++ map escape_like vs) h)))

  values_order-bound :
      (v : Operand) (op : CompareOp) (w : Operand) (params : List Text)
      → Adds params (bound_value v ++ bound_value w) (values_order show_number v op w auth params)
  unfolding values_order
  values_order-bound v op w params =
      Adds-then params (bound_value v) _ _ _ (value_sql-bound v (cast_of v w) params)
        (λ s ps. Meets-bind (value_sql-bound w (cast_of v w) ps) (λ done h. returns h))

  values_checked-bound :
      (v : Operand) (op : CompareOp) (w : Operand) (params : List Text)
      → Adds params
          (bound_value v ++ bound_against op w)
          (values_checked show_number v op w auth params)
  unfolding values_checked bound_against
  values_checked-bound v CompareOp.any w params = fails tt
  values_checked-bound v CompareOp.not_any w params = fails tt
  values_checked-bound v CompareOp.like w params = values_like-bound v (codes "ilike") w params
  values_checked-bound v CompareOp.not_like w params =
      values_like-bound v (codes "not ilike") w params
  values_checked-bound v CompareOp.eq w params = values_order-bound v CompareOp.eq w params
  values_checked-bound v CompareOp.not_eq w params = values_order-bound v CompareOp.not_eq w params
  values_checked-bound v CompareOp.gt w params = values_order-bound v CompareOp.gt w params
  values_checked-bound v CompareOp.gte w params = values_order-bound v CompareOp.gte w params
  values_checked-bound v CompareOp.lt w params = values_order-bound v CompareOp.lt w params
  values_checked-bound v CompareOp.lte w params = values_order-bound v CompareOp.lte w params

  compile_comparison-bound :
      (left : Side) (op : CompareOp) (right : Side) (ctx : FilterContext) (root : Text)
      (params : List Text)
      → Adds params
          (bound (Expr.compare left op right))
          (compile_comparison show_number auth left op right ctx root params)
  unfolding compile_comparison bound compile_values
  compile_comparison-bound (Side.path p) op (Side.value v) ctx root params =
      compile_path-bound p op v false ctx root params
  compile_comparison-bound (Side.value v) op (Side.path p) ctx root params =
      compile_path-bound p op v true ctx root params
  compile_comparison-bound (Side.value v) op (Side.value w) ctx root params =
      Adds-check _ params _ _ (values_checked-bound v op w params)
  compile_comparison-bound (Side.path p) op (Side.path q) ctx root params = fails tt

  pub compile_expr-bound :
      (e : Expr) (ctx : FilterContext) (root : Text) (params : List Text)
      → Adds params (bound e) (compile_expr show_number auth e ctx root params)
  unfolding compile_expr bound
  compile_expr-bound (Expr.and e f) ctx root params =
      Adds-then params (bound e) _ _ _ (compile_expr-bound e ctx root params)
        (λ s ps. Meets-bind (compile_expr-bound f ctx root ps) (λ done h. returns h))
  compile_expr-bound (Expr.or e f) ctx root params =
      Adds-then params (bound e) _ _ _ (compile_expr-bound e ctx root params)
        (λ s ps. Meets-bind (compile_expr-bound f ctx root ps) (λ done h. returns h))
  compile_expr-bound (Expr.compare left op right) ctx root params =
      compile_comparison-bound left op right ctx root params

-- A filter that compiles binds, in the order in which the filter has them, its values and nothing
-- else: the text of each, and none for `null` and `@now`. Beside `~` and `!~` it is the escaped
-- text: of the value on the right where there are two, and of the value on either side of a
-- column, so also where that value is the text that is searched.
pub compile-bound :
    (show_number : Text → Text) (auth : AuthContext) (e : Expr) (ctx : FilterContext)
    (root sql : Text) (params : List Text)
    → compile_with_root show_number auth e ctx root ≡ ok (sql, params)
    → params ≡ bound show_number auth e
unfolding compile_with_root
compile-bound show_number auth e ctx root sql params h =
    Meets-ok (compile_expr-bound show_number auth e ctx root []) h
