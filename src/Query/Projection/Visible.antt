-- ===== src/Query/Projection/Visible.antt =====
-- What a `fields` projection selects, of a record and of the records that it refers to, is never a credential.
use lazypock.Base.{true, List, [], ◌∷◌, Option, none, some, ◌≡◌, All}
use lazypock.Base.Text.{Text}
use lazypock.Base.Dict.{Dict}
use lazypock.Query.Context.{FilterContext, RelationTarget, find_relation, relations, target_context}
use lazypock.Query.Projection.{
  FieldSelection, Nested, entry, has_column, leaf, nested, nested_for, selection,
}

-- Every column that is selected is one of the context, and every nested selection stands behind one of its relations.
mutual
  unfolding has_column find_relation

  Fits : FilterContext → FieldSelection → Type 0
  Fits ctx (selection cs every id name n) = All (λ c. has_column ctx c ≡ true) cs × FitsNested ctx n

  FitsNested : FilterContext → Nested → Type 0
  FitsNested ctx leaf = Unit
  FitsNested ctx (entry key s more) =
      ((r : RelationTarget) × ((find_relation key (relations ctx) ≡ some r)
          × Fits (target_context r) s))
      × FitsNested ctx more

abbrev pub within :
    Option FieldSelection → (FieldSelection → Option FieldSelection) → Option FieldSelection
within none k = none
within (some s) k = k s

-- The selection behind relations.
unfoldable pub descend : List Text → FieldSelection → Option FieldSelection
unfolding nested_for
descend [] s = some s
descend (name ∷ hops) s = within (nested_for name (nested s)) (descend hops)
