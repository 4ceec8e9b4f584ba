-- ===== src/Schema/Distinct.antt =====
-- The columns of a collection that is validated have distinct names, the built-in ones among them.
use lazypock.Base.{
  Bool, true, false, not, ◌&&◌, ◌||◌, List, [], ◌∷◌, ◌++◌, map, ◌≡◌, refl, arith, if◌then◌else◌,
  Bool-cases, inl, inr, Result, ok, err, guard, ◌>>◌, Fault,
}
use lazypock.Base.Text.{Text, text_eq, text_eq_iff, text_eq_refl}
use lazypock.Schema.Json.{Numbers}
use lazypock.Schema.Types.{
  CollectionType, auth_system_columns, contains, is_auth, system_columns, validate_field_name,
  validate_identifier,
}
use lazypock.Schema.Collections.{
  Collection, Field, validate_collection, validate_field, validate_fields,
}

abbrev pub AllDistinct : List Text → Type 0
unfolding contains
AllDistinct [] = Unit
AllDistinct (x ∷ xs) = (contains x xs ≡ false) × AllDistinct xs

-- The columns of a table before those of its fields.
abbrev pub built_in_columns : CollectionType → List Text
built_in_columns t = system_columns ++ (if is_auth t then auth_system_columns else [])

abbrev pub field_names : List Field → List Text
field_names fs = map (λ f. f.name) fs

then-ok : (r s : Result Fault (Unit {0})) → (r >> s) ≡ ok tt → (r ≡ ok tt) × (s ≡ ok tt)
then-ok (ok done) s h = (refl, h)
then-ok (err e) s h = cc

guard-ok : (b : Bool) (e : Fault) → guard b e ≡ ok tt → b ≡ true
guard-ok true e h = refl
guard-ok false e h = cc

not-false : (b : Bool) → not b ≡ true → b ≡ false
not-false b h = ground arith

or-false : (a b : Bool) → a ≡ false → b ≡ false → (a || b) ≡ false
or-false a b h k = ground arith

or-right : (a b : Bool) → b ≡ true → (a || b) ≡ true
or-right a b h = ground arith

contains-other :
    (x y : Text) (xs : List Text)
    → contains x xs ≡ true
    → contains y xs ≡ false
    → text_eq y x ≡ false
contains-other x y xs h k = elim (Bool-cases (text_eq y x)) [
  | inl e ↦ let same = (text_eq_iff y x).0 e in cc
  | inr e ↦ e
]

contains-append :
    (x : Text) (xs ys : List Text) → contains x (xs ++ ys) ≡ (contains x xs || contains x ys)
unfolding contains
contains-append x [] ys = refl
contains-append x (y ∷ xs) ys = rw (contains-append x xs ys) (or_assoc (text_eq y x) _ _)
  where
    or_assoc : (a b c : Bool) → (a || (b || c)) ≡ ((a || b) || c)
    or_assoc a b c = ground arith

-- A validated field has none of the built-in names.
validate_field_name-other :
    (name : Text) (t : CollectionType)
    → validate_field_name name t ≡ ok tt
    → contains name (built_in_columns t) ≡ false
unfolding validate_field_name
validate_field_name-other name t h =
    let rest = then-ok (validate_identifier name) _ h in
    let both = then-ok (guard (not (contains name system_columns)) Fault.invalid) _ rest.1 in
    rw (contains-append name system_columns (if is_auth t then auth_system_columns else [])) (
      or-false _ _ (not-false _ (guard-ok _ _ both.0))
        (account (is_auth t) (not-false _ (guard-ok _ _ both.1))))
  where
    account :
        (b : Bool)
        → (b && contains name auth_system_columns) ≡ false
        → contains name (if b then auth_system_columns else []) ≡ false
    account true g = g
    account false g = refl

AllDistinct-append :
    (xs ys : List Text)
    → AllDistinct xs
    → AllDistinct ys
    → ((x : Text) → contains x xs ≡ true → contains x ys ≡ false)
    → AllDistinct (xs ++ ys)
unfolding AllDistinct contains
AllDistinct-append [] ys h k apart = k
AllDistinct-append (x ∷ xs) ys h k apart = (
  rw (contains-append x xs ys) (or-false _ _ h.0 (apart x (rw (text_eq_refl x) refl))),
  AllDistinct-append xs ys h.1 k (λ y member. apart y (or-right (text_eq x y) _ member)),
)

built_in-AllDistinct : (t : CollectionType) → AllDistinct (built_in_columns t)
unfolding AllDistinct contains text_eq
built_in-AllDistinct CollectionType.base = (refl, (refl, (refl, tt)))
built_in-AllDistinct CollectionType.view = (refl, (refl, (refl, tt)))
built_in-AllDistinct CollectionType.auth =
    (refl, (refl, (refl, (refl, (refl, (refl, (refl, (refl, tt))))))))

module _ (numbers : Numbers) where
  validate_field-other :
      (f : Field) (t : CollectionType)
      → validate_field numbers f t ≡ ok tt
      → contains f.name (built_in_columns t) ≡ false
  unfolding validate_field
  validate_field-other f t h =
      validate_field_name-other f.name t (then-ok (validate_field_name f.name t) _ h).0

  -- One turn of the loop.
  validate_fields-turn :
      (seen : List Text) (f : Field) (fs : List Field) (t : CollectionType)
      → validate_fields numbers seen (f ∷ fs) t ≡ ok tt
      → (contains f.name seen ≡ false)
        × ((validate_field numbers f t ≡ ok tt)
            × (validate_fields numbers (f.name ∷ seen) fs t ≡ ok tt))
  unfolding validate_fields
  validate_fields-turn seen f fs t h =
      let first = then-ok (guard (not (contains f.name seen)) Fault.invalid) _ h in
      (not-false _ (guard-ok _ _ first.0), then-ok (validate_field numbers f t) _ first.1)

  validate_fields-others :
      (x : Text) (seen : List Text) (fs : List Field) (t : CollectionType)
      → contains x seen ≡ true
      → validate_fields numbers seen fs t ≡ ok tt
      → contains x (field_names fs) ≡ false
  unfolding contains
  validate_fields-others x seen [] t h k = refl
  validate_fields-others x seen (f ∷ fs) t h k =
      let turn = validate_fields-turn seen f fs t k in
      or-false _ _ (contains-other x f.name seen h turn.0)
        (validate_fields-others x (f.name ∷ seen) fs t (or-right (text_eq f.name x) _ h) turn.1.1)

  validate_fields-AllDistinct :
      (seen : List Text) (fs : List Field) (t : CollectionType)
      → validate_fields numbers seen fs t ≡ ok tt
      → AllDistinct (field_names fs)
  unfolding AllDistinct contains
  validate_fields-AllDistinct seen [] t h = tt
  validate_fields-AllDistinct seen (f ∷ fs) t h =
      let turn = validate_fields-turn seen f fs t h in
      (
        validate_fields-others f.name (f.name ∷ seen) fs t (rw (text_eq_refl f.name) refl) turn.1.1,
        validate_fields-AllDistinct (f.name ∷ seen) fs t turn.1.1,
      )

  validate_fields-apart :
      (seen : List Text) (fs : List Field) (t : CollectionType) (x : Text)
      → validate_fields numbers seen fs t ≡ ok tt
      → contains x (built_in_columns t) ≡ true
      → contains x (field_names fs) ≡ false
  unfolding contains
  validate_fields-apart seen [] t x h member = refl
  validate_fields-apart seen (f ∷ fs) t x h member =
      let turn = validate_fields-turn seen f fs t h in
      or-false _ _
        (contains-other x f.name (built_in_columns t) member (validate_field-other f t turn.1.0))
        (validate_fields-apart (f.name ∷ seen) fs t x turn.1.1 member)

-- The columns of a collection that is validated, the built-in ones of its kind and those of its
-- fields, have distinct names.
pub validate_collection-AllDistinct :
    (numbers : Numbers) (c : Collection)
    → validate_collection numbers c ≡ ok tt
    → AllDistinct (built_in_columns c.collection_type ++ field_names c.fields)
unfolding validate_collection
validate_collection-AllDistinct numbers c h =
    let named = then-ok (validate_identifier c.name) _ h in
    let fields = (then-ok _ (validate_fields numbers [] c.fields c.collection_type) named.1).1 in
    AllDistinct-append (built_in_columns c.collection_type) (field_names c.fields)
      (built_in-AllDistinct c.collection_type)
      (validate_fields-AllDistinct numbers [] c.fields c.collection_type fields)
      (λ x member. validate_fields-apart numbers [] c.fields c.collection_type x fields member)
