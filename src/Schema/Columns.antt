-- ===== src/Schema/Columns.antt =====
-- The type of every column is one of seven, and every type of a column has a placeholder for the rows that exist, but a
-- reference's.
use lazypock.Base.{
  Bool, true, false, Option, none, some, ◌≡◌, ◌↔◌, refl, if◌then◌else◌, Bool-cases, Option-cases,
  sym, ◌∙◌, inl, inr, Result, ok, err, ◌>>◌, Fault, Meets, returns, fails, Meets-ok,
}
use lazypock.Base.Text.{Text, codes, text_eq}
use lazypock.Schema.Json.{Json, Numbers}
use lazypock.Schema.Types.{FieldType, contains, validate_identifier}
use lazypock.Schema.Options.{
  column_type, default_sql, is_multiple, type_name, validate_options, zero_default,
}
use lazypock.Schema.Collections.{Field}
use lazypock.Schema.Ddl.{add_column_statements, is_known_column_type}

either_way {ℓ κ} :
    {A : Type ℓ} (P : A → Type κ) (b : Bool) {x y : A} → P x → P y → P (if b then x else y)
either_way P true p q = p
either_way P false p q = q

-- What holds of the seven types holds of every column's.
pub type_name-cases {ℓ} :
    (P : Text → Type ℓ)
    → P (codes "text")
    → P (codes "bigint")
    → P (codes "double precision")
    → P (codes "boolean")
    → P (codes "timestamptz")
    → P (codes "text[]")
    → P (codes "jsonb")
    → (t : FieldType) (options : Json) → P (type_name t options)
unfolding type_name
type_name-cases P text bigint double boolean timestamptz texts jsonb FieldType.text o = text
type_name-cases P text bigint double boolean timestamptz texts jsonb FieldType.editor o = text
type_name-cases P text bigint double boolean timestamptz texts jsonb FieldType.email o = text
type_name-cases P text bigint double boolean timestamptz texts jsonb FieldType.url o = text
type_name-cases P text bigint double boolean timestamptz texts jsonb FieldType.password o = text
type_name-cases P text bigint double boolean timestamptz texts jsonb FieldType.number o =
    either_way P _ bigint double
type_name-cases P text bigint double boolean timestamptz texts jsonb FieldType.bool o = boolean
type_name-cases P text bigint double boolean timestamptz texts jsonb FieldType.date o = timestamptz
type_name-cases P text bigint double boolean timestamptz texts jsonb FieldType.autodate o =
    timestamptz
type_name-cases P text bigint double boolean timestamptz texts jsonb FieldType.select o =
    either_way P _ texts text
type_name-cases P text bigint double boolean timestamptz texts jsonb FieldType.file o =
    either_way P _ jsonb text
type_name-cases P text bigint double boolean timestamptz texts jsonb FieldType.relation o =
    either_way P _ texts text
type_name-cases P text bigint double boolean timestamptz texts jsonb FieldType.json o = jsonb
type_name-cases P text bigint double boolean timestamptz texts jsonb FieldType.geo_point o = jsonb

-- What holds of the name of a type holds of the type of a column, where it has one.
pub column_type-Meets {ℓ} :
    (P : Text → Type ℓ) (numbers : Numbers) (t : FieldType) (options : Json)
    → P (type_name t options)
    → Meets (λ e. Unit {0}) P (column_type numbers t options)
unfolding column_type
column_type-Meets P numbers t options h = check (validate_options numbers t options)
  where
    check : (r : Result Fault (Unit {0})) → Meets (λ e. Unit {0}) P (r >> ok (type_name t options))
    check (ok done) = returns h
    check (err e) = fails tt

-- A field that has a column has it under a type that a column may also be changed to.
pub column_type-known :
    (numbers : Numbers) (t : FieldType) (options : Json) (type : Text)
    → column_type numbers t options ≡ ok type
    → is_known_column_type type ≡ true
unfolding is_known_column_type contains text_eq
column_type-known numbers t options type h =
    Meets-ok
      (column_type-Meets (λ type. is_known_column_type type ≡ true) numbers t options
        (type_name-cases (λ type. is_known_column_type type ≡ true) refl refl refl refl refl refl
          refl t options))
      h

-- A placeholder is missing exactly where the column refers to one row.
zero_default-none :
    (t : FieldType) (options : Json)
    → (zero_default t options ≡ none) ↔ ((t ≡ FieldType.relation) × (is_multiple options ≡ false))
unfolding zero_default
zero_default-none FieldType.text options = (λ h. cc, λ h. absurd (other h.0))
  where
    other : FieldType.text ≡ FieldType.relation → ⊥
    other h = cc
zero_default-none FieldType.editor options = (λ h. cc, λ h. absurd (other h.0))
  where
    other : FieldType.editor ≡ FieldType.relation → ⊥
    other h = cc
zero_default-none FieldType.email options = (λ h. cc, λ h. absurd (other h.0))
  where
    other : FieldType.email ≡ FieldType.relation → ⊥
    other h = cc
zero_default-none FieldType.url options = (λ h. cc, λ h. absurd (other h.0))
  where
    other : FieldType.url ≡ FieldType.relation → ⊥
    other h = cc
zero_default-none FieldType.number options = (λ h. cc, λ h. absurd (other h.0))
  where
    other : FieldType.number ≡ FieldType.relation → ⊥
    other h = cc
zero_default-none FieldType.bool options = (λ h. cc, λ h. absurd (other h.0))
  where
    other : FieldType.bool ≡ FieldType.relation → ⊥
    other h = cc
zero_default-none FieldType.date options = (λ h. cc, λ h. absurd (other h.0))
  where
    other : FieldType.date ≡ FieldType.relation → ⊥
    other h = cc
zero_default-none FieldType.select options = (λ h. cc, λ h. absurd (other h.0))
  where
    other : FieldType.select ≡ FieldType.relation → ⊥
    other h = cc
zero_default-none FieldType.file options = (λ h. cc, λ h. absurd (other h.0))
  where
    other : FieldType.file ≡ FieldType.relation → ⊥
    other h = cc
zero_default-none FieldType.json options = (λ h. cc, λ h. absurd (other h.0))
  where
    other : FieldType.json ≡ FieldType.relation → ⊥
    other h = cc
zero_default-none FieldType.geo_point options = (λ h. cc, λ h. absurd (other h.0))
  where
    other : FieldType.geo_point ≡ FieldType.relation → ⊥
    other h = cc
zero_default-none FieldType.autodate options = (λ h. cc, λ h. absurd (other h.0))
  where
    other : FieldType.autodate ≡ FieldType.relation → ⊥
    other h = cc
zero_default-none FieldType.password options = (λ h. cc, λ h. absurd (other h.0))
  where
    other : FieldType.password ≡ FieldType.relation → ⊥
    other h = cc
zero_default-none FieldType.relation options = elim (Bool-cases (is_multiple options)) [
  | inl e ↦ rw e (λ h. cc, λ h. cc)
  | inr e ↦ rw e (λ h. (refl, refl), λ h. refl)
]

some-ne-none {ℓ} : {A : Type ℓ} {a : A} → some a ≡ none → ⊥
some-ne-none h = cc

-- Of a valid table, a required field that has a column is refused exactly where there is neither
-- a declared default nor a placeholder for the rows that exist: the field refers to one row and
-- declares no default.
pub add_column-refused :
    (numbers : Numbers) (table : Text) (f : Field) (type : Text) (default : Option Text)
    → validate_identifier table ≡ ok tt
    → column_type numbers f.field_type f.options ≡ ok type
    → default_sql numbers f.field_type f.options ≡ ok default
    → f.required ≡ true
    → (add_column_statements numbers table f ≡ err Fault.invalid)
      ↔ ((default ≡ none) × ((f.field_type ≡ FieldType.relation) × (is_multiple f.options ≡ false)))
unfolding add_column_statements
add_column-refused numbers table f type none h k d r =
    let missing = zero_default-none f.field_type f.options in
    elim (Option-cases (zero_default f.field_type f.options)) [
      | inl e ↦ rw (h, k, d, r, e) (λ g. (refl, missing.0 e), λ g. refl)
      | inr (literal, e) ↦
          rw (h, k, d, r, e) (λ g. cc, λ g. absurd (some-ne-none (sym e ∙ missing.1 g.1)))
    ]
add_column-refused numbers table f type (some literal) h k d r = rw (h, k, d, r) (λ g. cc, λ g. cc)
