-- ===== src/Query/Context/Reach.antt =====
-- What the context of a collection holds: columns that the collection declares, none of them a credential, and contexts of
-- the collections that its relations refer to, up to the depth.
use lazypock.Base.{
  ℕ, zero, suc, Bool, true, false, ◌&&◌, ◌||◌, &&-false, List, [], ◌∷◌, Option, none, some, ◌≡◌,
  ◌⊎◌, refl, arith, any, All, Bool-cases, inl, inr, Result, ok, Fault, Meets, returns, Meets-bind,
  Meets-ok, Meets-self,
}
use lazypock.Base.Text.{Text, codes, text_eq, text_eq_refl}
use lazypock.Base.Dict.{Dict, lookup}
use lazypock.Schema.Json.{Numbers}
use lazypock.Schema.Types.{is_auth, is_view}
use lazypock.Schema.Collections.{Collection, Field}
use lazypock.Query.Operators.{cast_for}
use lazypock.Query.Context.{
  FilterContext, account_columns, add_fields, add_implicit, build, build_with, columns,
  find_relation, implicit_fields, is_credential, nothing, relations, table,
}
use lazypock.Query.Context.Fields.{
  HasField, Refers, Columns, Columns-insert, Behind, add_implicit-Columns, Targets, Sound,
  add_fields-Sound,
}

-- The names that a collection gives to columns, by its kind and by its fields.
abbrev pub declares : Collection → Text → Bool
unfolding text_eq
declares c name =
    any (λ f. text_eq f.0 name) (implicit_fields c)
    || is_auth c.collection_type
      && (text_eq (codes "email") name || text_eq (codes "verified") name)
    || any (λ f. text_eq f.name name) c.fields

unfoldable pub Visible : Collection → Text → Type 0
unfolding declares is_credential
Visible c name = (declares c name ≡ true) × (is_credential c name ≡ false)

account_columns-Columns :
    (P : Text → Type 0) (b : Bool) (cs : Dict Text)
    → (b ≡ true → P (codes "email") × P (codes "verified"))
    → Columns P cs
    → Columns P (account_columns b cs)
unfolding account_columns cast_for text_eq
account_columns-Columns P false cs ps h = h
account_columns-Columns P true cs ps h =
    Columns-insert P (codes "verified") (codes "boolean") _ (ps refl).1 refl
      (Columns-insert P (codes "email") (codes "text") cs (ps refl).0 refl h)

All-imp {ℓ κ} :
    {A : Type ℓ} (P Q : A → Type κ) → ((a : A) → P a → Q a) → (xs : List A) → All P xs → All Q xs
All-imp P Q k [] h = tt
All-imp P Q k (x ∷ xs) h = (k x h.0, All-imp P Q k xs h.1)

any-right : (a b : Bool) → b ≡ true → (a || b) ≡ true
any-right a b h = ground arith

-- Each field's name is the name of one.
All-named {ℓ} :
    {A : Type ℓ} (name : A → Text) (xs : List A)
    → All (λ x. any (λ y. text_eq (name y) (name x)) xs ≡ true) xs
All-named name [] = tt
All-named name (x ∷ xs) = (
  rw (text_eq_refl (name x)) refl,
  All-imp _ _ (λ y h. any-right (text_eq (name x) (name y)) _ h) xs (All-named name xs),
)

visible_or : (a b c : Bool) → (a ≡ true) ⊎ ((b ≡ true) ⊎ (c ≡ true)) → (a || b || c) ≡ true
visible_or a b c h = ground arith

implicit-Visible : (c : Collection) → All (λ f. Visible c f.0) (implicit_fields c)
unfolding Visible
implicit-Visible c = elim (Bool-cases (is_view c.collection_type)) [
  | inl e ↦ rw e ((refl, &&-false (is_auth c.collection_type)), tt)
  | inr e ↦ rw e (
      let shown = &&-false (is_auth c.collection_type) in
      ((refl, shown), ((refl, shown), ((refl, shown), tt))))
]

account-Visible :
    (c : Collection)
    → is_auth c.collection_type ≡ true
    → Visible c (codes "email") × Visible c (codes "verified")
unfolding Visible
account-Visible c h = rw h (
  (
    visible_or (any (λ f. text_eq f.0 (codes "email")) (implicit_fields c)) true _ (inr (inl refl)),
    refl,
  ),
  (
    visible_or (any (λ f. text_eq f.0 (codes "verified")) (implicit_fields c)) true _
        (inr (inl refl)),
    refl,
  ),
)

field-Visible :
    (c : Collection) → All (λ f. is_credential c f.name ≡ false → Visible c f.name) c.fields
unfolding Visible
field-Visible c =
    All-imp _ _
      (λ f h shown. (
        visible_or (any (λ g. text_eq g.0 f.name) (implicit_fields c))
            (is_auth c.collection_type
              && (text_eq (codes "email") f.name || text_eq (codes "verified") f.name))
            _ (inr (inr h)),
        shown,
      ))
      c.fields (All-named (λ f. f.name) c.fields)

-- What `build` hands on to the relations of a collection.
unfoldable pub deeper_at :
    Numbers → List Collection → ℕ → Option (Collection → Result Fault FilterContext)
unfolding build
deeper_at numbers all_collections zero = none
deeper_at numbers all_collections (suc left) = some (build numbers all_collections left)

-- The targets of the fields are what they refer to.
fields-Targets :
    (all_collections : List Collection) (whole fs : List Field)
    → ((f : Field) → HasField f fs → HasField f whole)
    → All (Targets all_collections (Refers all_collections whole)) fs
fields-Targets all_collections whole [] h = tt
fields-Targets all_collections whole (f ∷ fs) h = (
  λ key d e there found. (f, (h f (inl refl), (refl, (e, (key, (there, found)))))),
  fields-Targets all_collections whole fs (λ g k. h g (inr k)),
)

build_with-Sound :
    (numbers : Numbers) (all_collections : List Collection)
    (deeper : Option (Collection → Result Fault FilterContext)) (c : Collection)
    → Meets
        (λ e. Unit {0})
        (λ ctx.
          Columns (Visible c) (columns ctx)
          × Behind (Refers all_collections c.fields) deeper (relations ctx))
        (build_with numbers all_collections deeper c)
unfolding build_with Sound Columns Behind lookup find_relation
build_with-Sound numbers all_collections deeper c =
    Meets-bind
      (add_implicit-Columns numbers (Visible c) (implicit_fields c) [] (implicit-Visible c)
        (λ name type h. cc))
      (λ cs h.
        Meets-bind
          (add_fields-Sound numbers all_collections (Refers all_collections c.fields) (Visible c)
            deeper c c.fields (account_columns (is_auth c.collection_type) cs, nothing)
            (field-Visible c) (fields-Targets all_collections c.fields c.fields (λ f h. h))
            (
              account_columns-Columns (Visible c) (is_auth c.collection_type) cs (account-Visible c)
                  h,
              λ name r g. cc,
            ))
          (λ done sound. returns sound))

pub build-Sound :
    (numbers : Numbers) (all_collections : List Collection) (left : ℕ) (c : Collection)
    (ctx : FilterContext)
    → build numbers all_collections left c ≡ ok ctx
    → Columns (Visible c) (columns ctx)
      × Behind
          (Refers all_collections c.fields)
          (deeper_at numbers all_collections left)
          (relations ctx)
unfolding build deeper_at
build-Sound numbers all_collections zero c ctx h =
    Meets-ok (build_with-Sound numbers all_collections none c) h
build-Sound numbers all_collections (suc left) c ctx h =
    Meets-ok
      (build_with-Sound numbers all_collections (some (build numbers all_collections left)) c) h

build_with-table :
    (numbers : Numbers) (all_collections : List Collection)
    (deeper : Option (Collection → Result Fault FilterContext)) (c : Collection)
    → Meets
        (λ e. Unit {0})
        (λ ctx. table ctx ≡ c.name)
        (build_with numbers all_collections deeper c)
unfolding build_with
build_with-table numbers all_collections deeper c =
    Meets-bind (Meets-self (add_implicit numbers (implicit_fields c) [])) (λ cs u.
      Meets-bind
        (Meets-self (
          add_fields numbers all_collections c deeper c.fields
            (account_columns (is_auth c.collection_type) cs, nothing)))
        (λ done v. returns refl))

-- A context reads the table of the collection that it was built for.
pub build-table :
    (numbers : Numbers) (all_collections : List Collection) (left : ℕ) (c : Collection)
    (ctx : FilterContext)
    → build numbers all_collections left c ≡ ok ctx
    → table ctx ≡ c.name
unfolding build
build-table numbers all_collections zero c ctx h =
    Meets-ok (build_with-table numbers all_collections none c) h
build-table numbers all_collections (suc left) c ctx h =
    Meets-ok
      (build_with-table numbers all_collections (some (build numbers all_collections left)) c) h
