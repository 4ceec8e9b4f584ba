-- ===== src/Query/Compile/Interference.antt =====
-- The SQL of a filter depends on the shape of the filter and on the schema, on no value of the filter or the request.
use lazypock.Base.{
  ℕ, suc, Bool, true, false, List, [], ◌∷◌, ◌++◌, Option, none, some, ◌≡◌, refl, sym, ap, ◌∙◌,
  arith, length, length-append, Result, ok, err, ◌>>=◌, ◌>>◌, Fault, decimal, if◌then◌else◌,
}
use lazypock.Base.Text.{Text, codes, text_eq}
use lazypock.Base.Dict.{lookup}
use lazypock.Filter.Syntax.{AuthRef, CompareOp, Expr, Operand, Side}
use lazypock.Query.Context.{
  AuthContext, FilterContext, columns, find_relation, relations, target_context,
}
use lazypock.Query.Operators.{
  Compiled, cast_for, cast_of, compile_any, compile_checked, compile_like, compile_now,
  compile_operator, compile_order, compile_value, compile_values, escape_like, is_null,
  literal_value, null_test, push_param, sql_operator, value_sql, values_checked, values_like,
  values_order, pattern_match, spaced, is_now, is_number,
}
use lazypock.Query.Compile.{
  alias_of, compile_at, compile_comparison, compile_expr, compile_path, compile_with_root,
  bracketed, exists_in, known,
}

-- Two calls that fail alike, or return what `R` relates.
data Alike {ℓ κ} {A : Type ℓ} (R : A → A → Type κ)
    : Result Fault A → Result Fault A → Type (ℓ ⊔ κ) where
  returns : {a b : A} → R a b → Alike R (ok a) (ok b)
  fails : {e : Fault} → Alike R (err e) (err e)

module _ {ℓ κ ℓ' κ'} {A : Type ℓ} {R : A → A → Type κ} {B : Type ℓ'} {S : B → B → Type κ'} where
  Alike-bind :
      {r r' : Result Fault A} {f f' : A → Result Fault B}
      → Alike R r r'
      → ((a b : A) → R a b → Alike S (f a) (f' b))
      → Alike S (r >>= f) (r' >>= f')
  Alike-bind (returns {a} {b} h) k = k a b h
  Alike-bind fails k = fails

module _ {ℓ κ} {A : Type ℓ} {R : A → A → Type κ} where
  Alike-check :
      (r : Result Fault (Unit {0})) {c c' : Result Fault A}
      → Alike R c c'
      → Alike R (r >> c) (r >> c')
  Alike-check (ok done) h = h
  Alike-check (err e) h = fails

  Alike-known {ℓ'} :
      {B : Type ℓ'} (o : Option B) (f f' : B → Result Fault A)
      → ((b : B) → Alike R (f b) (f' b))
      → Alike R (known o >>= f) (known o >>= f')
  Alike-known none f f' h = fails
  Alike-known (some b) f f' h = h b

-- The same SQL, and as many parameters.
abbrev Same : Text × List Text → Text × List Text → Type 0
Same r r' = (r.0 ≡ r'.0) × (length r.1 ≡ length r'.1)

abbrev Anything : Text → Text → Type 0
Anything s t = Unit {0}

-- A value without its contents, which keeps only what it is.
unfoldable pub blank : Operand → Operand
blank (Operand.text s) = Operand.text []
blank (Operand.number n) = Operand.number []
blank (Operand.bool b) = Operand.bool false
blank (Operand.auth reference) = Operand.auth AuthRef.id
blank Operand.null = Operand.null
blank Operand.now = Operand.now

unfoldable pub blank_side : Side → Side
unfolding blank
blank_side (Side.path p) = Side.path p
blank_side (Side.value v) = Side.value (blank v)

-- The shape of a filter: its operators and its paths, with every value blanked.
unfoldable pub shape : Expr → Expr
unfolding blank_side
shape (Expr.and e f) = Expr.and (shape e) (shape f)
shape (Expr.or e f) = Expr.or (shape e) (shape f)
shape (Expr.compare left op right) = Expr.compare (blank_side left) op (blank_side right)

push_param-Same :
    (s t cast : Text) (ps qs : List Text)
    → length ps ≡ length qs
    → Same (push_param s cast ps) (push_param t cast qs)
unfolding push_param
push_param-Same s t cast ps qs h = (
  ap
      (λ n.
        if text_eq cast (codes "text")
        then (codes "$" ++ decimal (suc n)) ++ codes "::text"
        else (codes "$" ++ decimal (suc n)) ++ (codes "::text::" ++ cast))
      h,
  omega (arith, length-append ps (s ∷ []), length-append qs (t ∷ []), h),
)

bracketed_eq :
    (word : Text) {a b c d : Text} → a ≡ b → c ≡ d → bracketed a word c ≡ bracketed b word d
bracketed_eq word {b = b} {c = c} h k =
    ap (λ left. bracketed left word c) h ∙ ap (bracketed b word) k

null_test-Same :
    (target : Text) (op : CompareOp) (ps qs : List Text)
    → length ps ≡ length qs
    → Alike Same (null_test target op ps) (null_test target op qs)
unfolding null_test
null_test-Same target CompareOp.eq ps qs h = returns (refl, h)
null_test-Same target CompareOp.not_eq ps qs h = returns (refl, h)
null_test-Same target CompareOp.gt ps qs h = fails
null_test-Same target CompareOp.gte ps qs h = fails
null_test-Same target CompareOp.lt ps qs h = fails
null_test-Same target CompareOp.lte ps qs h = fails
null_test-Same target CompareOp.like ps qs h = fails
null_test-Same target CompareOp.not_like ps qs h = fails
null_test-Same target CompareOp.any ps qs h = fails
null_test-Same target CompareOp.not_any ps qs h = fails

is_now-blank : (v : Operand) → is_now (blank v) ≡ is_now v
unfolding blank
is_now-blank (Operand.text s) = refl
is_now-blank (Operand.number n) = refl
is_now-blank (Operand.bool b) = refl
is_now-blank (Operand.auth r) = refl
is_now-blank Operand.null = refl
is_now-blank Operand.now = refl

is_number-blank : (v : Operand) → is_number (blank v) ≡ is_number v
unfolding blank
is_number-blank (Operand.text s) = refl
is_number-blank (Operand.number n) = refl
is_number-blank (Operand.bool b) = refl
is_number-blank (Operand.auth r) = refl
is_number-blank Operand.null = refl
is_number-blank Operand.now = refl

cast_of-blank : (v w : Operand) → cast_of (blank v) (blank w) ≡ cast_of v w
cast_of-blank v w = rw (is_now-blank v, is_now-blank w, is_number-blank v, is_number-blank w) refl

is_null-blank : (v : Operand) → is_null (blank v) ≡ is_null v
unfolding blank
is_null-blank (Operand.text s) = refl
is_null-blank (Operand.number n) = refl
is_null-blank (Operand.bool b) = refl
is_null-blank (Operand.auth r) = refl
is_null-blank Operand.null = refl
is_null-blank Operand.now = refl

module _ (show_number : Text → Text) (auth auth' : AuthContext) where
  literal_value-blank :
      (v : Operand)
      → Alike Anything
          (literal_value show_number v auth)
          (literal_value show_number (blank v) auth')
  unfolding literal_value blank
  literal_value-blank (Operand.text s) = returns tt
  literal_value-blank (Operand.number n) = returns tt
  literal_value-blank (Operand.bool true) = returns tt
  literal_value-blank (Operand.bool false) = returns tt
  literal_value-blank (Operand.auth reference) = returns tt
  literal_value-blank Operand.null = fails
  literal_value-blank Operand.now = fails

  compile_any-blank :
      (target : Text) (positive : Bool) (v : Operand) (ps qs : List Text)
      → length ps ≡ length qs
      → Alike Same
          (compile_any show_number target positive v auth ps)
          (compile_any show_number target positive (blank v) auth' qs)
  unfolding compile_any
  compile_any-blank target positive v ps qs h = Alike-bind (literal_value-blank v) (λ s t u.
      let same = push_param-Same s t (codes "text") ps qs h in
      returns (
        ap
            (λ bound.
              if positive
              then bound ++ (codes " = any(" ++ (target ++ codes ")"))
              else codes "not ("
                ++ ((bound ++ (codes " = any(" ++ (target ++ codes ")"))) ++ codes ")"))
            same.0,
        same.1,
      ))

  compile_like-blank :
      (target keyword : Text) (v : Operand) (swapped : Bool) (ps qs : List Text)
      → length ps ≡ length qs
      → Alike Same
          (compile_like show_number target keyword v swapped auth ps)
          (compile_like show_number target keyword (blank v) swapped auth' qs)
  unfolding compile_like
  compile_like-blank target keyword v swapped ps qs h = Alike-bind (literal_value-blank v) (λ s t u.
      let same = push_param-Same (escape_like s) (escape_like t) (codes "text") ps qs h in
      returns (
        ap
            (λ bound.
              if swapped
              then pattern_match bound keyword target
              else pattern_match target keyword bound)
            same.0,
        same.1,
      ))

  compile_value-blank :
      (target type : Text) (op : CompareOp) (v : Operand) (swapped : Bool) (ps qs : List Text)
      → length ps ≡ length qs
      → Alike Same
          (compile_value show_number target type op v swapped auth ps)
          (compile_value show_number target type op (blank v) swapped auth' qs)
  unfolding compile_value
  compile_value-blank target type op v swapped ps qs h =
      Alike-bind (literal_value-blank v) (λ s t u.
        let same = push_param-Same s t (cast_for type) ps qs h in
        returns (
          ap
              (λ bound.
                if swapped
                then spaced bound (sql_operator op) target
                else spaced target (sql_operator op) bound)
              same.0,
          same.1,
        ))

  compile_order-blank :
      (target type : Text) (op : CompareOp) (v : Operand) (swapped : Bool) (ps qs : List Text)
      → length ps ≡ length qs
      → Alike Same
          (compile_order show_number target type op v swapped auth ps)
          (compile_order show_number target type op (blank v) swapped auth' qs)
  unfolding compile_order compile_now blank
  compile_order-blank target type op Operand.now swapped ps qs h = Alike-check _ (returns (refl, h))
  compile_order-blank target type op (Operand.text s) swapped ps qs h =
      compile_value-blank target type op (Operand.text s) swapped ps qs h
  compile_order-blank target type op (Operand.number n) swapped ps qs h =
      compile_value-blank target type op (Operand.number n) swapped ps qs h
  compile_order-blank target type op (Operand.bool b) swapped ps qs h =
      compile_value-blank target type op (Operand.bool b) swapped ps qs h
  compile_order-blank target type op (Operand.auth r) swapped ps qs h =
      compile_value-blank target type op (Operand.auth r) swapped ps qs h
  compile_order-blank target type op Operand.null swapped ps qs h =
      compile_value-blank target type op Operand.null swapped ps qs h

  compile_checked-blank :
      (target type : Text) (op : CompareOp) (v : Operand) (swapped : Bool) (ps qs : List Text)
      → length ps ≡ length qs
      → Alike Same
          (compile_checked show_number target type op v swapped auth ps)
          (compile_checked show_number target type op (blank v) swapped auth' qs)
  unfolding compile_checked
  compile_checked-blank target type CompareOp.any v swapped ps qs h =
      compile_any-blank target true v ps qs h
  compile_checked-blank target type CompareOp.not_any v swapped ps qs h =
      compile_any-blank target false v ps qs h
  compile_checked-blank target type CompareOp.like v swapped ps qs h =
      compile_like-blank target (codes "ilike") v swapped ps qs h
  compile_checked-blank target type CompareOp.not_like v swapped ps qs h =
      compile_like-blank target (codes "not ilike") v swapped ps qs h
  compile_checked-blank target type CompareOp.eq v swapped ps qs h =
      compile_order-blank target type CompareOp.eq v swapped ps qs h
  compile_checked-blank target type CompareOp.not_eq v swapped ps qs h =
      compile_order-blank target type CompareOp.not_eq v swapped ps qs h
  compile_checked-blank target type CompareOp.gt v swapped ps qs h =
      compile_order-blank target type CompareOp.gt v swapped ps qs h
  compile_checked-blank target type CompareOp.gte v swapped ps qs h =
      compile_order-blank target type CompareOp.gte v swapped ps qs h
  compile_checked-blank target type CompareOp.lt v swapped ps qs h =
      compile_order-blank target type CompareOp.lt v swapped ps qs h
  compile_checked-blank target type CompareOp.lte v swapped ps qs h =
      compile_order-blank target type CompareOp.lte v swapped ps qs h

  compile_operator-blank :
      (target type : Text) (op : CompareOp) (v : Operand) (swapped : Bool) (ps qs : List Text)
      → length ps ≡ length qs
      → Alike Same
          (compile_operator show_number target type op v swapped auth ps)
          (compile_operator show_number target type op (blank v) swapped auth' qs)
  unfolding compile_operator blank
  compile_operator-blank target type op Operand.null swapped ps qs h =
      null_test-Same target op ps qs h
  compile_operator-blank target type op Operand.now swapped ps qs h =
      Alike-check _ (compile_checked-blank target type op Operand.now swapped ps qs h)
  compile_operator-blank target type op (Operand.text s) swapped ps qs h =
      Alike-check _ (compile_checked-blank target type op (Operand.text s) swapped ps qs h)
  compile_operator-blank target type op (Operand.number n) swapped ps qs h =
      Alike-check _ (compile_checked-blank target type op (Operand.number n) swapped ps qs h)
  compile_operator-blank target type op (Operand.bool b) swapped ps qs h =
      Alike-check _ (compile_checked-blank target type op (Operand.bool b) swapped ps qs h)
  compile_operator-blank target type op (Operand.auth r) swapped ps qs h =
      Alike-check _ (compile_checked-blank target type op (Operand.auth r) swapped ps qs h)

  compile_at-blank :
      (ctx : FilterContext) (parent : Text) (hops : List Text) (column : Text) (op : CompareOp)
      (v : Operand) (swapped : Bool) (ps qs : List Text) (count : ℕ)
      → length ps ≡ length qs
      → Alike Same
          (compile_at show_number auth ctx parent hops column op v swapped ps count)
          (compile_at show_number auth' ctx parent hops column op (blank v) swapped qs count)
  unfolding compile_at
  compile_at-blank ctx parent [] column op v swapped ps qs count h =
      Alike-known (lookup column (columns ctx)) _ _
        (λ type. compile_operator-blank _ type op v swapped ps qs h)
  compile_at-blank ctx parent (name ∷ hops) column op v swapped ps qs count h =
      Alike-known (find_relation name (relations ctx)) _ _ (λ r.
        Alike-bind
          (compile_at-blank (target_context r) (alias_of (suc count)) hops column op v swapped ps qs
            (suc count) h)
          (λ a b same. returns (ap (exists_in r (alias_of (suc count)) parent) same.0, same.1)))

  compile_path-blank :
      (p : List Text) (op : CompareOp) (v : Operand) (swapped : Bool) (ctx : FilterContext)
      (root : Text) (ps qs : List Text)
      → length ps ≡ length qs
      → Alike Same
          (compile_path show_number auth p op v swapped ctx root ps)
          (compile_path show_number auth' p op (blank v) swapped ctx root qs)
  unfolding compile_path
  compile_path-blank [] op v swapped ctx root ps qs h = fails
  compile_path-blank (first ∷ more) op v swapped ctx root ps qs h =
      Alike-check _ (compile_at-blank ctx root _ _ op v swapped ps qs 0 h)

  value_sql-blank :
      (v : Operand) (cast : Text) (ps qs : List Text)
      → length ps ≡ length qs
      → Alike Same
          (value_sql show_number v cast auth ps)
          (value_sql show_number (blank v) cast auth' qs)
  unfolding value_sql blank literal_value
  value_sql-blank Operand.now cast ps qs h = returns (refl, h)
  value_sql-blank Operand.null cast ps qs h = fails
  value_sql-blank (Operand.text s) cast ps qs h = returns (push_param-Same _ _ cast ps qs h)
  value_sql-blank (Operand.number n) cast ps qs h = returns (push_param-Same _ _ cast ps qs h)
  value_sql-blank (Operand.bool true) cast ps qs h = returns (push_param-Same _ _ cast ps qs h)
  value_sql-blank (Operand.bool false) cast ps qs h = returns (push_param-Same _ _ cast ps qs h)
  value_sql-blank (Operand.auth r) cast ps qs h = returns (push_param-Same _ _ cast ps qs h)

  values_like-blank :
      (v : Operand) (keyword : Text) (w : Operand) (ps qs : List Text)
      → length ps ≡ length qs
      → Alike Same
          (values_like show_number v keyword w auth ps)
          (values_like show_number (blank v) keyword (blank w) auth' qs)
  unfolding values_like
  values_like-blank v keyword w ps qs h =
      Alike-bind (value_sql-blank v (codes "text") ps qs h) (λ a b same.
        Alike-bind (literal_value-blank w) (λ s t u.
          let bound =
            push_param-Same (escape_like s) (escape_like t) (codes "text") a.1 b.1 same.1 in
          returns (
            ap
                  (λ haystack.
                    pattern_match haystack keyword
                      (push_param (escape_like s) (codes "text") a.1).0)
                  same.0
                ∙ ap (pattern_match b.0 keyword) bound.0,
            bound.1,
          )))

  values_order-blank :
      (v : Operand) (op : CompareOp) (w : Operand) (ps qs : List Text)
      → length ps ≡ length qs
      → Alike Same
          (values_order show_number v op w auth ps)
          (values_order show_number (blank v) op (blank w) auth' qs)
  unfolding values_order
  values_order-blank v op w ps qs h = rw (cast_of-blank v w) (
      Alike-bind (value_sql-blank v (cast_of v w) ps qs h) (λ a b same.
        Alike-bind (value_sql-blank w (cast_of v w) a.1 b.1 same.1) (λ c d last. returns (
          ap (λ left. spaced left (sql_operator op) c.0) same.0
              ∙ ap (spaced b.0 (sql_operator op)) last.0,
          last.1,
        ))))

  values_checked-blank :
      (v : Operand) (op : CompareOp) (w : Operand) (ps qs : List Text)
      → length ps ≡ length qs
      → Alike Same
          (values_checked show_number v op w auth ps)
          (values_checked show_number (blank v) op (blank w) auth' qs)
  unfolding values_checked
  values_checked-blank v CompareOp.any w ps qs h = fails
  values_checked-blank v CompareOp.not_any w ps qs h = fails
  values_checked-blank v CompareOp.like w ps qs h = values_like-blank v (codes "ilike") w ps qs h
  values_checked-blank v CompareOp.not_like w ps qs h =
      values_like-blank v (codes "not ilike") w ps qs h
  values_checked-blank v CompareOp.eq w ps qs h = values_order-blank v CompareOp.eq w ps qs h
  values_checked-blank v CompareOp.not_eq w ps qs h =
      values_order-blank v CompareOp.not_eq w ps qs h
  values_checked-blank v CompareOp.gt w ps qs h = values_order-blank v CompareOp.gt w ps qs h
  values_checked-blank v CompareOp.gte w ps qs h = values_order-blank v CompareOp.gte w ps qs h
  values_checked-blank v CompareOp.lt w ps qs h = values_order-blank v CompareOp.lt w ps qs h
  values_checked-blank v CompareOp.lte w ps qs h = values_order-blank v CompareOp.lte w ps qs h

  compile_comparison-blank :
      (left : Side) (op : CompareOp) (right : Side) (ctx : FilterContext) (root : Text)
      (ps qs : List Text)
      → length ps ≡ length qs
      → Alike Same
          (compile_comparison show_number auth left op right ctx root ps)
          (compile_comparison show_number auth' (blank_side left) op (blank_side right) ctx root qs)
  unfolding compile_comparison blank_side compile_values
  compile_comparison-blank (Side.path p) op (Side.value v) ctx root ps qs h =
      compile_path-blank p op v false ctx root ps qs h
  compile_comparison-blank (Side.value v) op (Side.path p) ctx root ps qs h =
      compile_path-blank p op v true ctx root ps qs h
  compile_comparison-blank (Side.value v) op (Side.value w) ctx root ps qs h =
      rw (is_null-blank v, is_null-blank w) (Alike-check _ (values_checked-blank v op w ps qs h))
  compile_comparison-blank (Side.path p) op (Side.path q) ctx root ps qs h = fails

  compile_expr-shape :
      (e : Expr) (ctx : FilterContext) (root : Text) (ps qs : List Text)
      → length ps ≡ length qs
      → Alike Same
          (compile_expr show_number auth e ctx root ps)
          (compile_expr show_number auth' (shape e) ctx root qs)
  unfolding compile_expr shape
  compile_expr-shape (Expr.and e f) ctx root ps qs h =
      Alike-bind (compile_expr-shape e ctx root ps qs h) (λ a b first.
        Alike-bind (compile_expr-shape f ctx root a.1 b.1 first.1)
          (λ c d second. returns (bracketed_eq (codes "and") first.0 second.0, second.1)))
  compile_expr-shape (Expr.or e f) ctx root ps qs h =
      Alike-bind (compile_expr-shape e ctx root ps qs h) (λ a b first.
        Alike-bind (compile_expr-shape f ctx root a.1 b.1 first.1)
          (λ c d second. returns (bracketed_eq (codes "or") first.0 second.0, second.1)))
  compile_expr-shape (Expr.compare left op right) ctx root ps qs h =
      compile_comparison-blank left op right ctx root ps qs h

-- The SQL of a compiled filter, or its error.
unfoldable pub statement : Compiled → Result Fault Text
statement (ok done) = ok done.0
statement (err e) = err e

statement-Alike : {r r' : Compiled} → Alike Same r r' → statement r ≡ statement r'
unfolding statement
statement-Alike (returns h) = ap (λ s. ok s) h.0
statement-Alike fails = refl

-- Two filters of the same shape compile to the same SQL, or fail with the same error, whatever
-- their values are and whoever makes the request.
pub statement-shape :
    (show_number : Text → Text) (auth auth' : AuthContext) (e f : Expr) (ctx : FilterContext)
    (root : Text)
    → shape e ≡ shape f
    → statement (compile_with_root show_number auth e ctx root)
      ≡ statement (compile_with_root show_number auth' f ctx root)
unfolding compile_with_root
statement-shape show_number auth auth' e f ctx root h =
    statement-Alike (compile_expr-shape show_number auth auth e ctx root [] [] refl)
    ∙ ap (λ g. statement (compile_expr show_number auth g ctx root [])) h
    ∙ sym (statement-Alike (compile_expr-shape show_number auth' auth f ctx root [] [] refl))
