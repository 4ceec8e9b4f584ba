-- ===== src/Filter/Lexer/Literals.antt =====
-- Strings and numbers are read back as they are written.
use lazypock.Base.{
  ℕ, ◌≡◌, refl, ◌∙◌, inl, inr, true, false, [], ◌∷◌, ◌++◌, append_assoc, append-nil, arith, ok,
  ◌==◌, all, null, ==_iff, ==_iff, Bool-cases,
}
use lazypock.Base.Text.{Text, is_ascii_digit, is_ascii_alphabetic, is_whitespace}
use lazypock.Filter.Syntax.{Token}
use lazypock.Filter.Lexer.{
  is_number_character, is_word_character, is_numeral, read_number, read_negative, read_string,
  starts_with_digit, read_token,
}
use lazypock.Filter.Lexer.Spelling.{escape, spell, IsNumber}
use lazypock.Filter.Lexer.Marks.{read_while-all, read_token-digit}

-- What the lexer reads off the front, behind the blanks, as one token.
abbrev pub Lexes : Token → Type 0
Lexes t =
    (c : ℕ) × (s : Text) × (spell t ≡ c ∷ s)
    × (is_whitespace c ≡ false)
    × ((rest : Text) → read_token c (s ++ 0x20 ∷ rest) ≡ ok (t, 0x20 ∷ rest))

pub blank-word : is_word_character 0x20 ≡ false
unfolding is_word_character is_ascii_digit is_ascii_alphabetic
blank-word = refl

blank-number : is_number_character 0x20 ≡ false
unfolding is_number_character is_ascii_digit
blank-number = refl

-- Strings.

null-append : (s t : Text) (c : ℕ) → null (s ++ c ∷ t) ≡ false
null-append [] t c = refl
null-append (x ∷ s) t c = refl

read_string-plain :
    (q : ℕ) (out : Text) (c : ℕ) (s : Text)
    → (c == q) ≡ false
    → (c == 0x5c) ≡ false
    → null s ≡ false
    → read_string q out (c ∷ s) ≡ read_string q (out ++ c ∷ []) s
unfolding read_string
read_string-plain q out c [] h k n = cc
read_string-plain q out c (e ∷ s) h k n = rw (h, k)

-- One character of a quoted text.
read_string-escape_cons :
    (out : Text) (c : ℕ) (s rest : Text)
    → read_string 0x22 out (escape (c ∷ s) ++ 0x22 ∷ rest)
      ≡ read_string 0x22 (out ++ c ∷ []) (escape s ++ 0x22 ∷ rest)
unfolding escape
read_string-escape_cons out c s rest = elim (Bool-cases (c == 0x22)) [
  | inl h ↦ rw ((==_iff c 0x22).0 h) (unfold read_string in refl)
  | inr h ↦ elim (Bool-cases (c == 0x5c)) [
    | inl k ↦ rw ((==_iff c 0x5c).0 k) (unfold read_string in refl)
    | inr k ↦ rw (h, k) (read_string-plain 0x22 out c _ h k (null-append (escape s) rest 0x22))
  ]
]

read_string-escape :
    (out s rest : Text) → read_string 0x22 out (escape s ++ 0x22 ∷ rest) ≡ ok (out ++ s, rest)
read_string-escape out [] [] = unfold escape read_string in rw append-nil
read_string-escape out [] (x ∷ rest) = unfold escape read_string in rw append-nil
read_string-escape out (c ∷ s) rest =
    read_string-escape_cons out c s rest
    ∙ read_string-escape (out ++ c ∷ []) s rest
    ∙ rw append_assoc

pub text-Lexes : (s : Text) → Lexes (Token.text s)
unfolding spell is_whitespace read_token
text-Lexes s = (
  0x22,
  escape s ++ 0x22 ∷ [],
  refl,
  refl,
  λ rest. rw (append_assoc {A = ℕ}, read_string-escape [] s (0x20 ∷ rest)),
)

-- Numbers.

digit-character : (c : ℕ) → is_ascii_digit c ≡ true → is_number_character c ≡ true
unfolding is_number_character
digit-character c h = rw h

digit-ne-blank : (c : ℕ) → is_ascii_digit c ≡ true → is_whitespace c ≡ false
unfolding is_ascii_digit is_whitespace
digit-ne-blank c h = ground arith

read_number-all :
    (d rest : Text)
    → is_numeral d ≡ true
    → all is_number_character d ≡ true
    → read_number (d ++ 0x20 ∷ rest) ≡ ok (Token.number d, 0x20 ∷ rest)
unfolding read_number
read_number-all d rest h k = rw (read_while-all is_number_character d rest k blank-number, h)

read_negative-all :
    (s rest : Text)
    → is_numeral (b'-' ∷ s) ≡ true
    → all is_number_character s ≡ true
    → read_negative (s ++ 0x20 ∷ rest) ≡ ok (Token.number (b'-' ∷ s), 0x20 ∷ rest)
unfolding read_negative
read_negative-all s rest h k = rw (read_while-all is_number_character s rest k blank-number, h)

read_token-negative :
    (s rest : Text)
    → is_numeral (b'-' ∷ s) ≡ true
    → all is_number_character s ≡ true
    → starts_with_digit s ≡ true
    → read_token b'-' (s ++ 0x20 ∷ rest) ≡ ok (Token.number (b'-' ∷ s), 0x20 ∷ rest)
unfolding read_token
read_token-negative [] rest n h k = cc
read_token-negative (c ∷ s) rest n h k = rw k (read_negative-all (c ∷ s) rest n h)

pub number-Lexes : (d : Text) → IsNumber d → Lexes (Token.number d)
unfolding spell
number-Lexes [] h = absurd h
number-Lexes (c ∷ s) (n, h, inl k) = (
  c,
  s,
  refl,
  digit-ne-blank c k,
  λ rest.
      read_token-digit c (s ++ 0x20 ∷ rest) k
      ∙ read_number-all (c ∷ s) rest n (rw (digit-character c k) h),
)
number-Lexes (c ∷ s) (n, h, inr (e, k)) = (
  c,
  s,
  refl,
  rw e (unfold is_whitespace in refl),
  λ rest. rw e (read_token-negative s rest (rw e at n) h k),
)
