-- ===== src/Query/Context/Depth.antt =====
-- What a path can lead to: no context is deeper than the limit, and each is the context of a collection of the schema.
use lazypock.Base.{
  ℕ, zero, suc, ◌+◌, ◌≤◌, List, [], ◌∷◌, some, Option-cases, ◌≡◌, subst, refl, sym, ap, ◌∙◌, arith,
  length, inl, inr, ok,
}
use lazypock.Base.Text.{Text}
use lazypock.Base.Dict.{lookup}
use lazypock.Filter.Syntax.{Expr}
use lazypock.Schema.Json.{Numbers}
use lazypock.Schema.Collections.{Collection}
use lazypock.Query.Operators.{cast_for}
use lazypock.Query.Context.{
  AuthContext, FilterContext, RelationTarget, build, columns, find_relation, for_collection,
  max_path_depth, relations, target_context,
}
use lazypock.Query.Context.Fields.{
  Behind, Columns, Leads, Member, Refers, find_target-Member, some_eq, none-ne-some,
}
use lazypock.Query.Context.Reach.{Visible, build-Sound, deeper_at}
use lazypock.Query.Compile.{compile_with_root, split_last}
use lazypock.Query.Compile.Paths.{
  Holds, Names, Paths, Paths-imp, Whitelisted, compile-Whitelisted, walk,
}

-- Behind a relation stands the context of a collection, built with one less level to go.
relation-built :
    (numbers : Numbers) (all_collections : List Collection) (left : ℕ) (Q : Collection → Type 0)
    (r : RelationTarget)
    → Leads Q (deeper_at numbers all_collections left) r
    → (rest : ℕ) × ((d : Collection) × (Q d
          × ((build numbers all_collections rest d ≡ ok (target_context r)) × (suc rest ≡ left))))
unfolding deeper_at
relation-built numbers all_collections zero Q r h = absurd h
relation-built numbers all_collections (suc left) Q r (d, (member, made)) =
    (left, (d, (member, (made, refl))))

-- The relation fields of the names lead from the one collection to the other.
abbrev pub LeadsTo : List Collection → Collection → List Text → Collection → Type 0
LeadsTo all_collections c [] d = c ≡ d
LeadsTo all_collections c (name ∷ hops) d =
    (e : Collection) × (Refers all_collections c.fields name e × LeadsTo all_collections e hops d)

-- Behind a sequence of relations stands the context of a collection, with as much less depth as there are relations.
unfoldable pub Reached :
    Numbers → List Collection → ℕ → Collection → List Text → FilterContext → Type 0
unfolding build
Reached numbers all_collections left c hops inner =
    (rest : ℕ) × ((d : Collection) × (LeadsTo all_collections c hops d
        × ((build numbers all_collections rest d ≡ ok inner) × (length hops + rest ≡ left))))

LeadsTo-Member :
    (all_collections : List Collection) (c : Collection) (hops : List Text) (d : Collection)
    → LeadsTo all_collections c hops d
    → Member d (c ∷ all_collections)
LeadsTo-Member all_collections c [] d h = inl (sym h)
LeadsTo-Member all_collections c (name ∷ hops) d
      (e, ((f, (there, (same, (is, (key, (to, found)))))), h)) =
    elim (LeadsTo-Member all_collections e hops d h) [
      | inl eq ↦ inr (
          subst (λ x. Member x all_collections) (sym eq)
            (find_target-Member key all_collections e found))
      | inr member ↦ inr member
    ]

pub walk-Reached :
    (numbers : Numbers) (all_collections : List Collection) (left : ℕ) (c : Collection)
    (ctx : FilterContext) (hops : List Text) (inner : FilterContext)
    → build numbers all_collections left c ≡ ok ctx
    → walk ctx hops ≡ some inner
    → Reached numbers all_collections left c hops inner
unfolding walk Reached Behind
walk-Reached numbers all_collections left c ctx [] inner h w =
    (left, (c, (refl, (h ∙ ap (λ x. ok x) (some_eq w), omega arith))))
walk-Reached numbers all_collections left c ctx (name ∷ hops) inner h w =
    elim (Option-cases (find_relation name (relations ctx))) [
      | inl e ↦ absurd (none-ne-some (rw e at w))
      | inr (r, e) ↦
          let next =
            relation-built numbers all_collections left (Refers all_collections c.fields name) r
              ((build-Sound numbers all_collections left c ctx h).1 name r e) in
          let deep =
            walk-Reached numbers all_collections next.0 next.1.0 (target_context r) hops inner
              next.1.1.1.0 (rw e at w) in
          (
            deep.0,
            (
              deep.1.0,
              (
                (next.1.0, (next.1.1.0, deep.1.1.0)),
                (deep.1.1.1.0, omega (arith, deep.1.1.1.1, next.1.1.1.1)),
              ),
            ),
          )
    ]

-- A path leads through at most as many relations as the limit allows, however the collections
-- refer to each other.
pub walk-depth :
    (numbers : Numbers) (all_collections : List Collection) (c : Collection)
    (ctx inner : FilterContext) (hops : List Text)
    → for_collection numbers all_collections c ≡ ok ctx
    → walk ctx hops ≡ some inner
    → length hops ≤ max_path_depth
unfolding for_collection Reached
walk-depth numbers all_collections c ctx inner hops h w =
    let r = walk-Reached numbers all_collections max_path_depth c ctx hops inner h w in
    omega (arith, r.1.1.1.1)

-- Every column that a path leads to has a type that the compiler casts to by its own name.
pub walk-cast :
    (numbers : Numbers) (all_collections : List Collection) (c : Collection)
    (ctx inner : FilterContext) (hops : List Text) (column type : Text)
    → for_collection numbers all_collections c ≡ ok ctx
    → walk ctx hops ≡ some inner
    → lookup column (columns inner) ≡ some type
    → cast_for type ≡ type
unfolding for_collection Reached Columns
walk-cast numbers all_collections c ctx inner hops column type h w l =
    let r = walk-Reached numbers all_collections max_path_depth c ctx hops inner h w in
    ((build-Sound numbers all_collections r.0 r.1.0 inner r.1.1.1.0).0 column type l).1

-- A path along relations to the context of a collection of the schema, with a column that this collection declares and
-- that is no credential of its accounts.
abbrev pub Shown : Numbers → Collection → List Collection → FilterContext → List Text → Type 0
unfolding Visible split_last walk build
Shown numbers c all_collections ctx [] = ⊥
Shown numbers c all_collections ctx (first ∷ more) =
    (inner : FilterContext) × ((walk ctx (split_last first more).0 ≡ some inner)
      × ((d : Collection) × (Member d (c ∷ all_collections)
            × (((rest : ℕ) × (build numbers all_collections rest d ≡ ok inner))
                × Visible d (split_last first more).1))))

-- Every path of a filter that compiles against the context of a collection leads to the context
-- of a collection of the schema, and names a column that this collection declares, which is never
-- the credential of an account.
pub compile-Shown :
    (numbers : Numbers) (show_number : Text → Text) (all_collections : List Collection)
    (c : Collection) (ctx : FilterContext) (auth : AuthContext) (e : Expr) (root : Text)
    (done : Text × List Text)
    → for_collection numbers all_collections c ≡ ok ctx
    → compile_with_root show_number auth e ctx root ≡ ok done
    → Paths (Shown numbers c all_collections ctx) e
unfolding for_collection Reached Columns Whitelisted Names Holds Shown
compile-Shown numbers show_number all_collections c ctx auth e root done h k =
    Paths-imp _ _ shown e (compile-Whitelisted show_number auth e ctx root done k)
  where
    shown :
        (p : List Text)
        → Names ctx p × (length p ≤ max_path_depth)
        → Shown numbers c all_collections ctx p
    shown [] g = absurd g.0
    shown (first ∷ more) ((inner, (w, (type, l))), short) =
        let r =
          walk-Reached numbers all_collections max_path_depth c ctx (split_last first more).0 inner
            h w in
        let sound = build-Sound numbers all_collections r.0 r.1.0 inner r.1.1.1.0 in
        (
          inner,
          (
            w,
            (
              r.1.0,
              (
                LeadsTo-Member all_collections c (split_last first more).0 r.1.0 r.1.1.0,
                ((r.0, r.1.1.1.0), (sound.0 (split_last first more).1 type l).0),
              ),
            ),
          ),
        )
