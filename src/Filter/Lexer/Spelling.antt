-- ===== src/Filter/Lexer/Spelling.antt =====
-- How tokens are written, and that the lexer reads what is written.
use lazypock.Base.{
  ◌≡◌, ◌⊎◌, true, false, List, [], ◌∷◌, ◌++◌, ◌==◌, ◌||◌, if◌then◌else◌, all, null, All,
}
use lazypock.Base.Text.{Text, codes, text_eq, is_ascii_digit, join}
use lazypock.Filter.Syntax.{as_str, AuthRef, Token}
use lazypock.Filter.Lexer.{
  is_number_character, is_numeral, auth_property, is_segment_start, is_segment_character,
  starts_with_digit,
}

-- Quoting: a quote or a backslash stands behind a backslash.
unfoldable pub escape : Text → Text
escape [] = []
escape (c ∷ s) = let rest = escape s in if c == 0x22 || c == 0x5c then 0x5c ∷ c ∷ rest else c ∷ rest

abbrev pub property : AuthRef → Text
property AuthRef.id = codes "id"
property AuthRef.email = codes "email"
property AuthRef.collection_id = codes "collectionId"
property AuthRef.collection_name = codes "collectionName"
property (AuthRef.claim p) = p

unfoldable pub spell : Token → Text
spell (Token.path ss) = join b'.' ss
spell (Token.text s) = 0x22 ∷ (escape s ++ 0x22 ∷ [])
spell (Token.number d) = d
spell (Token.bool true) = codes "true"
spell (Token.bool false) = codes "false"
spell Token.null = codes "null"
spell Token.now = codes "@now"
spell (Token.auth r) = codes "@request.auth." ++ property r
spell (Token.op o) = as_str o
spell Token.and = codes "&&"
spell Token.or = codes "||"
spell Token.l_paren = codes "("
spell Token.r_paren = codes ")"

-- Tokens written one after the other, a blank behind each.
unfoldable pub spell_all : List Token → Text
spell_all [] = []
spell_all (t ∷ ts) = spell t ++ 0x20 ∷ spell_all ts

-- A letter or an underscore, and then letters, digits and underscores.
abbrev pub IsIdent : Text → Type 0
IsIdent [] = ⊥
IsIdent (c ∷ s) = (is_segment_start c ≡ true) × (all is_segment_character s ≡ true)

-- Digits and dots behind an optional minus, with a digit in front, that read as a number.
abbrev pub IsNumber : Text → Type 0
IsNumber [] = ⊥
IsNumber (c ∷ s) =
    (is_numeral (c ∷ s) ≡ true)
    × (all is_number_character s ≡ true)
    × ((is_ascii_digit c ≡ true) ⊎ ((c ≡ b'-') × (starts_with_digit s ≡ true)))

-- The tokens that have a spelling: what a field path, a number and a claim may be.
abbrev pub IsLexical : Token → Type 0
IsLexical (Token.path []) = ⊥
IsLexical (Token.path (s ∷ ss)) =
    All IsIdent (s ∷ ss)
    × ((text_eq (join b'.' (s ∷ ss)) (codes "true") ≡ false)
        × (text_eq (join b'.' (s ∷ ss)) (codes "false") ≡ false)
        × (text_eq (join b'.' (s ∷ ss)) (codes "null") ≡ false))
IsLexical (Token.number d) = IsNumber d
IsLexical (Token.auth (AuthRef.claim p)) =
    (null p ≡ false) × (all is_segment_character p ≡ true) × (auth_property p ≡ AuthRef.claim p)
IsLexical _ = Unit {0}
