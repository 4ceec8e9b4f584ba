-- ===== src/Base/Dict.antt =====
-- A hash map as an association list whose keys are distinct.
use lazypock.Base.Tests.{if◌then◌else◌, Bool-cases}
use lazypock.Base.Text.{Text, text_eq, text_eq_iff}
use mathlib.Core.Path.{◌≡◌, refl}
use mathlib.Core.Bool.{Bool}
use mathlib.Core.Logic.{inl, inr}
use mathlib.Core.Option.{Option, none, some}
use mathlib.Core.List.{List, [], ◌∷◌}
use native.Mathlib.Omega.{arith}

abbrev pub Dict {ℓ} : Type ℓ → Type ℓ
Dict V = List (Text × V)

module _ {ℓ} {V : Type ℓ} where
  unfoldable pub lookup : Text → Dict V → Option V
  lookup wanted [] = none
  lookup wanted ((key, value) ∷ more) =
      let deeper = lookup wanted more in if text_eq key wanted then some value else deeper

  unfoldable pub insert : Text → V → Dict V → Dict V
  insert new value [] = (new, value) ∷ []
  insert new value ((key, old) ∷ more) =
      let deeper = insert new value more in
      if text_eq key new then (new, value) ∷ more else (key, old) ∷ deeper

  unfoldable pub remove : Text → Dict V → Dict V
  remove k [] = []
  remove k ((j, v) ∷ m) = let rest = remove k m in if text_eq j k then rest else (j, v) ∷ rest

  -- `retain`, by a test on the values.
  unfoldable pub retain_values : (V → Bool) → Dict V → Dict V
  retain_values p [] = []
  retain_values p ((j, v) ∷ m) = let rest = retain_values p m in if p v then (j, v) ∷ rest else rest

  abbrev pub Distinct : Dict V → Type ℓ
  Distinct [] = Unit
  Distinct ((j, v) ∷ m) = (lookup j m ≡ none) × Distinct m

  abbrev pub kept : (V → Bool) → Option V → Option V
  kept p none = none
  kept p (some v) = if p v then some v else none

  -- A write is read back under its own key, and changes nothing under another.
  pub lookup-insert :
      (new wanted : Text) (value : V) (m : Dict V)
      → lookup wanted (insert new value m)
        ≡ (if text_eq new wanted then some value else lookup wanted m)
  unfolding lookup insert
  lookup-insert new wanted value [] = refl
  lookup-insert new wanted value ((key, old) ∷ more) = ground (
    arith,
    lookup-insert new wanted value more,
    text_eq_iff key new,
    text_eq_iff key wanted,
    text_eq_iff new wanted,
  )

  pub lookup-remove :
      (k j : Text) (m : Dict V) → lookup j (remove k m) ≡ (if text_eq k j then none else lookup j m)
  unfolding lookup remove
  lookup-remove k j [] = ground arith
  lookup-remove k j ((i, w) ∷ m) =
      ground (arith, text_eq_iff k j, text_eq_iff i k, text_eq_iff i j, lookup-remove k j m)

  lookup-retain_none :
      (p : V → Bool) (j : Text) (m : Dict V)
      → lookup j m ≡ none
      → lookup j (retain_values p m) ≡ none
  unfolding lookup retain_values
  lookup-retain_none p j [] h = refl
  lookup-retain_none p j ((i, w) ∷ m) h = ground (arith, lookup-retain_none p j m)

  pub lookup-retain_values :
      (p : V → Bool) (j : Text) (m : Dict V)
      → Distinct m
      → lookup j (retain_values p m) ≡ kept p (lookup j m)
  unfolding lookup retain_values
  lookup-retain_values p j [] h = refl
  lookup-retain_values p j ((i, w) ∷ m) h = ground (
    arith,
    text_eq_iff i j,
    lookup-retain_values p j m h.1,
    lookup-retain_none p i m h.0,
    lookup-retain_none p j m,
  )

  pub insert-Distinct : (k : Text) (v : V) (m : Dict V) → Distinct m → Distinct (insert k v m)
  unfolding lookup insert
  insert-Distinct k v [] h = (refl, tt)
  insert-Distinct k v ((i, w) ∷ m) h = elim (Bool-cases (text_eq i k)) [
    | inl e ↦ rw e (rw ((text_eq_iff i k).0 e) at h.0, h.1)
    | inr e ↦ rw e (
      rw (lookup-insert k i v m) (ground (arith, text_eq_iff i k, text_eq_iff k i, h.0)),
      insert-Distinct k v m h.1,
    )
  ]

  pub remove-Distinct : (k : Text) (m : Dict V) → Distinct m → Distinct (remove k m)
  unfolding remove
  remove-Distinct k [] h = tt
  remove-Distinct k ((i, w) ∷ m) h =
      ground (arith, remove-Distinct k m h.1, lookup-remove k i m, h.0)

  pub retain_values-Distinct :
      (p : V → Bool) (m : Dict V) → Distinct m → Distinct (retain_values p m)
  unfolding retain_values
  retain_values-Distinct p [] h = tt
  retain_values-Distinct p ((i, w) ∷ m) h =
      ground (arith, retain_values-Distinct p m h.1, lookup-retain_none p i m h.0)
