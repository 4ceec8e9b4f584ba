-- ===== src/Base/Outcome.antt =====
-- Rust's `Result`, and its `?` as `do`.
use mathlib.Core.Path.{◌≡◌, refl, subst}
use mathlib.Core.Bool.{Bool, true, false}
use lazypock.Base.Tests.{if◌then◌else◌}

pub data Result {ℓ κ} (E : Type ℓ) (A : Type κ) : Type (ℓ ⊔ κ) where
  ok : A → Result E A
  err : E → Result E A

infixl 5 ◌>>=◌ ◌>>◌
abbrev pub ◌>>=◌ {ℓ κ κ'} :
    {E : Type ℓ} {A : Type κ} {B : Type κ'} → Result E A → (A → Result E B) → Result E B
◌>>=◌ (err e) next = err e
◌>>=◌ (ok a) next = next a

abbrev pub ◌>>◌ {ℓ κ} : {E : Type ℓ} {B : Type κ} → Result E (Unit {0}) → Result E B → Result E B
◌>>◌ first next = first >>= λ done. next

-- An early return with an error, unless the test holds.
abbrev pub guard {ℓ} : {E : Type ℓ} → Bool → E → Result E (Unit {0})
guard false e = err e
guard true e = ok tt

-- What a call promises: `P` of its value, or `Q` of its error.
pub data Meets {ℓ κ ℓ' κ'} {E : Type ℓ} {A : Type κ} (Q : E → Type ℓ') (P : A → Type κ')
    : Result E A → Type (ℓ ⊔ κ ⊔ ℓ' ⊔ κ') where
  returns : {a : A} → P a → Meets Q P (ok a)
  fails : {e : E} → Q e → Meets Q P (err e)

module _ {ℓ κ ℓ' κ'} {E : Type ℓ} {A : Type κ} {Q : E → Type ℓ'} {P : A → Type κ'} where
  pub Meets-ok : {r : Result E A} {a : A} → Meets Q P r → r ≡ ok a → P a
  Meets-ok (returns h) p = subst P (cc) h
  Meets-ok (fails h) p = cc

  pub Meets-err : {r : Result E A} {e : E} → Meets Q P r → r ≡ err e → Q e
  Meets-err (returns h) p = cc
  Meets-err (fails h) p = subst Q (cc) h

  pub Meets-bind {ℓ₂ κ₂} :
      {B : Type ℓ₂} {R : B → Type κ₂} {r : Result E A} {f : A → Result E B}
      → Meets Q P r
      → ((a : A) → P a → Meets Q R (f a))
      → Meets Q R (r >>= f)
  Meets-bind (returns {a} h) k = k a h
  Meets-bind (fails h) k = fails h

  pub Meets-if :
      (b : Bool) {x y : Result E A}
      → (b ≡ true → Meets Q P x)
      → (b ≡ false → Meets Q P y)
      → Meets Q P (if b then x else y)
  Meets-if true hx hy = hx refl
  Meets-if false hx hy = hy refl

  pub Meets-imp {κ₂} :
      {R : A → Type κ₂} {r : Result E A} → Meets Q P r → ((a : A) → P a → R a) → Meets Q R r
  Meets-imp (returns {a} h) k = returns (k a h)
  Meets-imp (fails h) k = fails h

-- A call returns what it returns.
pub Meets-self {ℓ κ} :
    {E : Type ℓ} {A : Type κ} (r : Result E A) → Meets (λ e. Unit {0}) (λ a. r ≡ ok a) r
Meets-self (ok a) = returns refl
Meets-self (err e) = fails tt

-- Behind a check, a call promises what it promises.
pub Meets-then {ℓ κ κ'} :
    {E : Type ℓ} {A : Type κ} {P : A → Type κ'} (r : Result E (Unit {0})) (s : Result E A)
    → Meets (λ e. Unit {0}) P s
    → Meets (λ e. Unit {0}) P (r >> s)
Meets-then (ok done) s h = h
Meets-then (err e) s h = fails tt

-- Behind a test, a call may rely on it.
pub Meets-guard {ℓ κ κ'} :
    {E : Type ℓ} {A : Type κ} {P : A → Type κ'} (b : Bool) (e : E) (s : Result E A)
    → (b ≡ true → Meets (λ e. Unit {0}) P s)
    → Meets (λ e. Unit {0}) P (guard b e >> s)
Meets-guard true e s h = h refl
Meets-guard false e s h = fails tt
