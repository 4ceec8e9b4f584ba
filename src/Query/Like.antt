-- ===== src/Query/Like.antt =====
-- An escaped value is matched literally: SQL's reading of a pattern, with `\` as its escape character and any comparison of
-- characters, finds the value wherever it occurs, and nothing else.
use lazypock.Base.{
  ℕ, Bool, true, false, ◌&&◌, ◌||◌, List, [], ◌∷◌, ◌++◌, map, Option, none, some, ◌==◌, ◌≡◌, refl,
  ap, arith, if◌then◌else◌, null, Bool-cases, inl, inr,
}
use lazypock.Base.Text.{Text}
use lazypock.Query.Operators.{escape_like, is_like_mark}

pub data Piece : Type 0 where
  run one : Piece
  exactly : ℕ → Piece

abbrev pub piece_of : ℕ → Piece
piece_of c = if c == b'%' then run else if c == b'_' then one else exactly c

abbrev pub before : Piece → Option (List Piece) → Option (List Piece)
before p none = none
before p (some ps) = some (p ∷ ps)

-- A pattern that ends in its escape character is an error.
unfoldable pub pieces : Text → Option (List Piece)
pieces [] = some []
pieces (c ∷ []) = if c == 0x5c then none else some (piece_of c ∷ [])
pieces (c ∷ d ∷ p) =
    let escaped = before (exactly d) (pieces p) in
    let plain = before (piece_of c) (pieces (d ∷ p)) in if c == 0x5c then escaped else plain

abbrev pub some_tail : (Text → Bool) → Text → Bool
some_tail p [] = p []
some_tail p (c ∷ s) = p (c ∷ s) || some_tail p s

module _ (same : ℕ → ℕ → Bool) where
  unfoldable pub fits : List Piece → Text → Bool
  fits [] s = null s
  fits (run ∷ ps) s = some_tail (fits ps) s
  fits (one ∷ ps) [] = false
  fits (one ∷ ps) (c ∷ s) = fits ps s
  fits (exactly d ∷ ps) [] = false
  fits (exactly d ∷ ps) (c ∷ s) = same c d && fits ps s

  abbrev pub on_match : Option (List Piece) → Text → Option Bool
  unfolding fits
  on_match none s = none
  on_match (some ps) s = some (fits ps s)

  unfoldable pub like : Text → Text → Option Bool
  unfolding pieces on_match
  like pattern s = on_match (pieces pattern) s

  unfoldable pub starts : Text → Text → Bool
  starts [] s = true
  starts (d ∷ v) [] = false
  starts (d ∷ v) (c ∷ s) = same c d && starts v s

  unfoldable pub occurs : Text → Text → Bool
  unfolding starts
  occurs v s = some_tail (starts v) s

  fits-last : (s : Text) → some_tail (fits []) s ≡ true
  unfolding fits
  fits-last [] = refl
  fits-last (c ∷ s) = fits-last s

  fits-exactly : (v s : Text) → fits (map exactly v ++ run ∷ []) s ≡ starts v s
  unfolding fits starts
  fits-exactly [] s = fits-last s
  fits-exactly (d ∷ v) [] = refl
  fits-exactly (d ∷ v) (c ∷ s) = ap (λ b. same c d && b) (fits-exactly v s)

some_tail-eq :
    (p q : Text → Bool) → ((s : Text) → p s ≡ q s) → (s : Text) → some_tail p s ≡ some_tail q s
some_tail-eq p q h [] = h []
some_tail-eq p q h (c ∷ s) = rw (h (c ∷ s)) (ap (λ b. q (c ∷ s) || b) (some_tail-eq p q h s))

pieces-plain :
    (c : ℕ) (t : Text) → (c == 0x5c) ≡ false → pieces (c ∷ t) ≡ before (piece_of c) (pieces t)
unfolding pieces
pieces-plain c [] h = rw h refl
pieces-plain c (d ∷ t) h = rw h refl

is_like_mark-false :
    (c : ℕ) → is_like_mark c ≡ false → ((c == 0x5c) ≡ false) × (piece_of c ≡ exactly c)
is_like_mark-false c h = ground arith

pieces-escape : (v : Text) → pieces (escape_like v ++ b'%' ∷ []) ≡ some (map exactly v ++ run ∷ [])
unfolding pieces escape_like
pieces-escape [] = refl
pieces-escape (c ∷ v) = elim (Bool-cases (is_like_mark c)) [
  | inl mark ↦ rw mark (rw (pieces-escape v) refl)
  | inr plain ↦
      let itself = is_like_mark-false c plain in
      rw plain
        (rw (pieces-plain c (escape_like v ++ b'%' ∷ []) itself.0, itself.1, pieces-escape v) refl)
]

-- Between two wildcards, an escaped value matches exactly the texts that it occurs in, by any
-- comparison of characters.
pub like-escape :
    (same : ℕ → ℕ → Bool) (v s : Text)
    → like same (b'%' ∷ (escape_like v ++ b'%' ∷ [])) s ≡ some (occurs same v s)
unfolding like occurs fits on_match
like-escape same v s =
    rw (pieces-plain b'%' (escape_like v ++ b'%' ∷ []) refl, pieces-escape v)
      (ap (λ b. some b)
        (some_tail-eq (fits same (map exactly v ++ run ∷ [])) (starts same v) (fits-exactly same v)
          s))
