-- ===== src/Filter/Lexer/Marks.antt =====
-- Which arm of the lexer's match a first character takes, and how far a word reads.
use lazypock.Base.{
  ℕ, ◌≡◌, refl, ap, ◌∙◌, inl, inr, Bool, true, false, [], ◌∷◌, ◌++◌, arith, ◌==◌, all, All, any,
  String, &&-true, ==_iff, Bool-cases,
}
use lazypock.Base.Text.{Text, codes, is_ascii_digit, is_ascii_alphabetic}
use lazypock.Filter.Lexer.{
  read_while, is_word_character, read_number, is_segment_start, is_segment_character, read_word,
  read_bare, read_token,
}

pub read_while-all :
    (p : ℕ → Bool) (w rest : Text)
    → all p w ≡ true
    → p 0x20 ≡ false
    → read_while p (w ++ 0x20 ∷ rest) ≡ (w, 0x20 ∷ rest)
unfolding read_while
read_while-all p [] rest h k = rw k
read_while-all p (c ∷ w) rest h k =
    let parts = &&-true (p c) (all p w) h in rw (parts.0, read_while-all p w rest parts.1 k)

pub segment-word : (c : ℕ) → is_segment_character c ≡ true → is_word_character c ≡ true
unfolding is_segment_character is_word_character
segment-word c h = rw (h)

pub start-segment : (c : ℕ) → is_segment_start c ≡ true → is_segment_character c ≡ true
unfolding is_segment_character is_segment_start is_ascii_digit is_ascii_alphabetic
start-segment c h = ground arith

pub all-append :
    (p : ℕ → Bool) (s t : Text) → all p s ≡ true → all p t ≡ true → all p (s ++ t) ≡ true
all-append p [] t h k = k
all-append p (c ∷ s) t h k =
    let parts = &&-true (p c) (all p s) h in rw (parts.0) (all-append p s t parts.1 k)

pub all-segment-word :
    (s : Text) → all is_segment_character s ≡ true → all is_word_character s ≡ true
all-segment-word [] h = refl
all-segment-word (c ∷ s) h =
    let parts = &&-true (is_segment_character c) (all is_segment_character s) h in
    rw (segment-word c parts.0) (all-segment-word s parts.1)

any-All : (p : ℕ → Bool) (s : Text) → any p s ≡ false → All (λ c. p c ≡ false) s
any-All p [] h = tt
any-All p (c ∷ s) h = ground (arith, any-All p s)

-- The characters that have an arm of their own.
abbrev marks : String
marks = "()&|\"'@~=!><?-"

-- The first character of a word, a number or an identifier is none of the lexer's marks.
mark-ne : (p : ℕ → Bool) (c k : ℕ) → p c ≡ true → p k ≡ false → (c == k) ≡ false
mark-ne p c k h e = elim (Bool-cases (c == k)) [
  | inl same ↦ cc (ap p ((==_iff c k).0 same))
  | inr apart ↦ apart
]

module _ (p : ℕ → Bool) (c : ℕ) (s : Text) (h : p c ≡ true) where
  read_token-bare : All (λ k. p k ≡ false) (codes marks) → read_token c s ≡ read_bare c s
  unfolding read_token
  read_token-bare k = simp (
    mark-ne p c b'(' h k.0,
    mark-ne p c b')' h k.1.0,
    mark-ne p c b'&' h k.1.1.0,
    mark-ne p c b'|' h k.1.1.1.0,
    mark-ne p c 0x22 h k.1.1.1.1.0,
    mark-ne p c 0x27 h k.1.1.1.1.1.0,
    mark-ne p c b'@' h k.1.1.1.1.1.1.0,
    mark-ne p c b'~' h k.1.1.1.1.1.1.1.0,
    mark-ne p c b'=' h k.1.1.1.1.1.1.1.1.0,
    mark-ne p c b'!' h k.1.1.1.1.1.1.1.1.1.0,
    mark-ne p c b'>' h k.1.1.1.1.1.1.1.1.1.1.0,
    mark-ne p c b'<' h k.1.1.1.1.1.1.1.1.1.1.1.0,
    mark-ne p c b'?' h k.1.1.1.1.1.1.1.1.1.1.1.1.0,
    mark-ne p c b'-' h k.1.1.1.1.1.1.1.1.1.1.1.1.1.0,
  )

pub read_token-digit :
    (c : ℕ) (s : Text) → is_ascii_digit c ≡ true → read_token c s ≡ read_number (c ∷ s)
unfolding read_bare is_ascii_digit
read_token-digit c s h =
    read_token-bare is_ascii_digit c s h (any-All is_ascii_digit (codes marks) refl) ∙ (rw h)

pub start-digit : (c : ℕ) → is_segment_start c ≡ true → is_ascii_digit c ≡ false
unfolding is_segment_start is_ascii_digit is_ascii_alphabetic
start-digit c h = ground arith

pub read_token-start :
    (c : ℕ) (s : Text) → is_segment_start c ≡ true → read_token c s ≡ read_word (c ∷ s)
unfolding read_bare
read_token-start c s h =
    read_token-bare is_segment_start c s h
      (unfold is_segment_start in any-All is_segment_start (codes marks) refl)
    ∙ rw (start-digit c h, h)
