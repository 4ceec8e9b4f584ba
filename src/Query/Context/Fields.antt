-- ===== src/Query/Context/Fields.antt =====
-- What the fields of a collection add to a context: columns, and behind its relations contexts of what it refers to.
use lazypock.Base.{
  Bool, true, false, ◌||◌, List, [], ◌∷◌, Option, none, some, ◌≡◌, ◌⊎◌, subst, refl, sym, arith,
  if◌then◌else◌, All, Bool-cases, inl, inr, Result, ok, Fault, Meets, returns, fails, Meets-bind,
  Meets-self,
}
use lazypock.Base.Text.{Text, text_eq, text_eq_iff}
use lazypock.Base.Dict.{Dict, lookup, insert, lookup-insert}
use lazypock.Schema.Json.{Json, Members, Numbers}
use lazypock.Schema.Types.{FieldType}
use lazypock.Schema.Options.{column_type, is_multiple, relation_target}
use lazypock.Schema.Columns.{column_type-Meets, type_name-cases}
use lazypock.Schema.Collections.{Collection, Field}
use lazypock.Query.Operators.{cast_for}
use lazypock.Query.Context.{
  FilterContext, RelationTarget, Relations, add_field, add_fields, add_implicit, add_relation,
  add_target, find_relation, find_target, insert_relation, is_credential, is_relation, nothing,
  relation, relation_of, required_target, target, target_context,
}

pub some_eq {ℓ} : {A : Type ℓ} {a b : A} → some a ≡ some b → a ≡ b
some_eq h = cc

pub none-ne-some {ℓ} : {A : Type ℓ} {a : A} → none ≡ some a → ⊥
none-ne-some h = cc

-- Every type of a column is one that the compiler casts to.
pub column_type-cast :
    (numbers : Numbers) (t : FieldType) (options : Json)
    → Meets (λ e. Unit {0}) (λ type. cast_for type ≡ type) (column_type numbers t options)
unfolding cast_for text_eq
column_type-cast numbers t options =
    column_type-Meets (λ type. cast_for type ≡ type) numbers t options
      (type_name-cases (λ type. cast_for type ≡ type) refl refl refl refl refl refl refl t options)

abbrev pub Member : Collection → List Collection → Type 0
Member c [] = ⊥
Member c (d ∷ ds) = (c ≡ d) ⊎ Member c ds

pub find_target-Member :
    (key : Text) (cs : List Collection) (c : Collection) → find_target key cs ≡ some c → Member c cs
unfolding find_target
find_target-Member key (d ∷ ds) c h = elim (Bool-cases (text_eq d.id key || text_eq d.name key)) [
  | inl e ↦ inl (sym (some_eq (rw e at h)))
  | inr e ↦ inr (find_target-Member key ds c (rw e at h))
]
find_target-Member key [] c h = cc

abbrev pub HasField : Field → List Field → Type 0
HasField f [] = ⊥
HasField f (g ∷ gs) = (f ≡ g) ⊎ HasField f gs

-- A relation field of the name, among the fields, has the collection as its target.
abbrev pub Refers : List Collection → List Field → Text → Collection → Type 0
Refers all fs name d =
    (f : Field) × (HasField f fs
      × ((f.name ≡ name)
          × ((is_relation f.field_type ≡ true)
              × ((key : Text) × ((relation_target f.options ≡ some key)
                    × (find_target key all ≡ some d))))))

find_relation-insert :
    (name wanted : Text) (r : RelationTarget) (rs : Relations)
    → find_relation wanted (insert_relation name r rs)
      ≡ (if text_eq name wanted then some r else find_relation wanted rs)
unfolding find_relation insert_relation
find_relation-insert name wanted r nothing = refl
find_relation-insert name wanted r (relation key old more) = ground (
  arith,
  find_relation-insert name wanted r more,
  text_eq_iff key name,
  text_eq_iff key wanted,
  text_eq_iff name wanted,
)

-- The columns: `P` of their names, and a type to cast to.
unfoldable pub Columns : (Text → Type 0) → Dict Text → Type 0
unfolding lookup cast_for
Columns P cs = (name type : Text) → lookup name cs ≡ some type → P name × (cast_for type ≡ type)

pub Columns-insert :
    (P : Text → Type 0) (new value : Text) (cs : Dict Text)
    → P new
    → cast_for value ≡ value
    → Columns P cs
    → Columns P (insert new value cs)
unfolding Columns
Columns-insert P new value cs p k h name type found = elim (Bool-cases (text_eq new name)) [
  | inl e ↦ (
    subst P ((text_eq_iff new name).0 e) p,
    subst (λ t. cast_for t ≡ t) (some_eq (rw (lookup-insert new name value cs, e) at found)) k,
  )
  | inr e ↦ h name type (rw (lookup-insert new name value cs, e) at found)
]

-- What `deeper` made of some collection with `Q`.
abbrev pub Leads :
    (Collection → Type 0)
    → Option (Collection → Result Fault FilterContext)
    → RelationTarget
    → Type 0
Leads Q none r = ⊥
Leads Q (some deeper) r = (c : Collection) × (Q c × (deeper c ≡ ok (target_context r)))

unfoldable pub Behind :
    (Text → Collection → Type 0)
    → Option (Collection → Result Fault FilterContext)
    → Relations
    → Type 0
unfolding find_relation
Behind Q deeper rs =
    (name : Text) (r : RelationTarget) → find_relation name rs ≡ some r → Leads (Q name) deeper r

pub Behind-insert :
    (Q : Text → Collection → Type 0) (deeper : Option (Collection → Result Fault FilterContext))
    (new : Text) (r : RelationTarget) (rs : Relations)
    → Leads (Q new) deeper r
    → Behind Q deeper rs
    → Behind Q deeper (insert_relation new r rs)
unfolding Behind
Behind-insert Q deeper new r rs l h name s found = elim (Bool-cases (text_eq new name)) [
  | inl e ↦
      subst (λ x. Leads (Q x) deeper s) ((text_eq_iff new name).0 e)
        (subst (Leads (Q new) deeper)
          (some_eq (rw (find_relation-insert new name r rs, e) at found)) l)
  | inr e ↦ h name s (rw (find_relation-insert new name r rs, e) at found)
]

required_target-some :
    (o : Option Text) → Meets (λ e. Unit {0}) (λ key. o ≡ some key) (required_target o)
required_target-some none = fails tt
required_target-some (some key) = returns refl

module _ (numbers : Numbers) (P : Text → Type 0) where
  pub add_implicit-Columns :
      (fs : List (Text × FieldType)) (cs : Dict Text)
      → All (λ f. P f.0) fs
      → Columns P cs
      → Meets (λ e. Unit {0}) (Columns P) (add_implicit numbers fs cs)
  unfolding add_implicit
  add_implicit-Columns [] cs ps h = returns h
  add_implicit-Columns ((name, t) ∷ fs) cs ps h =
      Meets-bind (column_type-cast numbers t (Json.object Members.close)) (λ type k.
        add_implicit-Columns fs (insert name type cs) ps.1 (Columns-insert P name type cs ps.0 k h))

-- A relation field leads to collections with `Q` only.
abbrev pub Targets : List Collection → (Text → Collection → Type 0) → Field → Type 0
Targets all Q f =
    (key : Text) (d : Collection)
    → is_relation f.field_type ≡ true
    → relation_target f.options ≡ some key
    → find_target key all ≡ some d
    → Q f.name d

module _ (numbers : Numbers) (all_collections : List Collection)
    (Q : Text → Collection → Type 0) where
  add_target-Behind :
      (deeper : Option (Collection → Result Fault FilterContext)) (f : Field)
      (found : Option Collection) (rs : Relations)
      → ((c : Collection) → found ≡ some c → Q f.name c)
      → Behind Q deeper rs
      → Meets
          (λ e. Unit {0})
          (Behind Q deeper)
          (add_target numbers all_collections deeper f found rs)
  unfolding add_target
  add_target-Behind none f found rs member h = returns h
  add_target-Behind (some deeper) f none rs member h = returns h
  add_target-Behind (some deeper) f (some c) rs member h =
      Meets-bind (Meets-self (deeper c)) (λ inner made. returns (
        Behind-insert Q (some deeper) f.name (target f.name (is_multiple f.options) c.name inner) rs
          (c, (member c refl, made)) h))

  add_relation-Behind :
      (deeper : Option (Collection → Result Fault FilterContext)) (f : Field) (rs : Relations)
      → is_relation f.field_type ≡ true
      → Targets all_collections Q f
      → Behind Q deeper rs
      → Meets (λ e. Unit {0}) (Behind Q deeper) (add_relation numbers all_collections deeper f rs)
  unfolding add_relation
  add_relation-Behind none f rs e q h = returns h
  add_relation-Behind (some deeper) f rs e q h =
      Meets-bind (required_target-some (relation_target f.options)) (λ key there.
        add_target-Behind (some deeper) f (find_target key all_collections) rs
          (λ c. q key c e there) h)

  relation_of-Behind :
      (b : Bool) (deeper : Option (Collection → Result Fault FilterContext)) (f : Field)
      (rs : Relations)
      → is_relation f.field_type ≡ b
      → Targets all_collections Q f
      → Behind Q deeper rs
      → Meets (λ e. Unit {0}) (Behind Q deeper) (relation_of numbers all_collections b deeper f rs)
  unfolding relation_of
  relation_of-Behind false deeper f rs e q h = returns h
  relation_of-Behind true deeper f rs e q h = add_relation-Behind deeper f rs e q h

  module _ (P : Text → Type 0) (deeper : Option (Collection → Result Fault FilterContext)) where
    unfoldable pub Sound : Dict Text × Relations → Type 0
    unfolding Columns Behind
    Sound so_far = Columns P so_far.0 × Behind Q deeper so_far.1

    add_field-Sound :
        (left_out : Bool) (f : Field) (so_far : Dict Text × Relations)
        → (left_out ≡ false → P f.name)
        → Targets all_collections Q f
        → Sound so_far
        → Meets (λ e. Unit {0}) Sound (add_field numbers all_collections left_out deeper f so_far)
    unfolding add_field Sound
    add_field-Sound true f so_far p q h = returns h
    add_field-Sound false f so_far p q h =
        Meets-bind (column_type-cast numbers f.field_type f.options) (λ type k.
          Meets-bind (relation_of-Behind (is_relation f.field_type) deeper f so_far.1 refl q h.1)
            (λ rs behind. returns (Columns-insert P f.name type so_far.0 (p refl) k h.0, behind)))

    pub add_fields-Sound :
        (c : Collection) (fs : List Field) (so_far : Dict Text × Relations)
        → All (λ f. is_credential c f.name ≡ false → P f.name) fs
        → All (Targets all_collections Q) fs
        → Sound so_far
        → Meets (λ e. Unit {0}) Sound (add_fields numbers all_collections c deeper fs so_far)
    unfolding add_fields
    add_fields-Sound c [] so_far ps qs h = returns h
    add_fields-Sound c (f ∷ fs) so_far ps qs h =
        Meets-bind (add_field-Sound (is_credential c f.name) f so_far ps.0 qs.0 h)
          (λ next k. add_fields-Sound c fs next ps.1 qs.1 k)
