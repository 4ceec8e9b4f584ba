-- ===== src/Schema/Quoting.antt =====
-- What is quoted is read back whole: an identifier or a literal cannot end before its closing quote.
use lazypock.Base.{
  ℕ, false, [], ◌∷◌, ◌++◌, Option, none, some, ◌==◌, ==_refl, if◌then◌else◌, ◌≡◌, refl, ap, ◌∙◌,
  append_assoc, Bool-cases, inl, inr,
}
use lazypock.Base.Text.{Text}
use lazypock.Schema.Types.{doubled, quote_ident, sql_literal}

abbrev onto : ℕ → Option (Text × Text) → Option (Text × Text)
onto c none = none
onto c (some (s, rest)) = some (c ∷ s, rest)

-- SQL's reading of a quoted token, behind its opening quote: a doubled quote is one of the text, and the first
-- other one ends it.
unfoldable pub read_quoted : ℕ → Text → Option (Text × Text)
read_quoted q [] = none
read_quoted q (c ∷ []) = if c == q then some ([], []) else none
read_quoted q (c ∷ d ∷ s) =
    let escaped = onto c (read_quoted q s) in
    let plain = onto c (read_quoted q (d ∷ s)) in
    if c == q then (if d == q then escaped else some ([], d ∷ s)) else plain

-- What stands behind the token does not go on with its quote.
abbrev pub Ends : ℕ → Text → Type 0
Ends q [] = Unit
Ends q (c ∷ s) = (c == q) ≡ false

read_quoted-plain :
    (q c : ℕ) (t : Text) → (c == q) ≡ false → read_quoted q (c ∷ t) ≡ onto c (read_quoted q t)
unfolding read_quoted
read_quoted-plain q c [] h = rw h refl
read_quoted-plain q c (d ∷ t) h = rw h refl

read_quoted-doubled :
    (q : ℕ) (s rest : Text) → Ends q rest → read_quoted q (doubled q s ++ q ∷ rest) ≡ some (s, rest)
unfolding read_quoted doubled
read_quoted-doubled q [] [] h = rw (==_refl q) refl
read_quoted-doubled q [] (c ∷ rest) h = rw (==_refl q, h) refl
read_quoted-doubled q (c ∷ s) rest h = elim (Bool-cases (c == q)) [
  | inl quote ↦ rw quote (rw (quote, read_quoted-doubled q s rest h) refl)
  | inr plain ↦ rw plain (
      read_quoted-plain q c (doubled q s ++ q ∷ rest) plain
      ∙ ap (onto c) (read_quoted-doubled q s rest h))
]

-- A quoted name and a quoted value are read back as what was quoted, and what follows is left,
-- where it does not go on with the quote.
pub read_quoted-quote :
    (s rest : Text)
    → (Ends 0x22 rest
        → (t : Text) × ((quote_ident s ++ rest ≡ 0x22 ∷ t) × (read_quoted 0x22 t ≡ some (s, rest))))
      × (Ends 0x27 rest
          → (t : Text) × ((sql_literal s ++ rest ≡ 0x27 ∷ t)
              × (read_quoted 0x27 t ≡ some (s, rest))))
unfolding quote_ident sql_literal
read_quoted-quote s rest = (
  λ h. (
    doubled 0x22 s ++ 0x22 ∷ rest,
    (
      ap (λ x. 0x22 ∷ x) (append_assoc (doubled 0x22 s) (0x22 ∷ []) rest),
      read_quoted-doubled 0x22 s rest h,
    ),
  ),
  λ h. (
    doubled 0x27 s ++ 0x27 ∷ rest,
    (
      ap (λ x. 0x27 ∷ x) (append_assoc (doubled 0x27 s) (0x27 ∷ []) rest),
      read_quoted-doubled 0x27 s rest h,
    ),
  ),
)
