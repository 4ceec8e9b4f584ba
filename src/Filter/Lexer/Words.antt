-- ===== src/Filter/Lexer/Words.antt =====
-- Words, operators and references are read back as they are written.
use lazypock.Base.{
  ℕ, ◌≡◌, refl, ◌∙◌, true, false, List, [], ◌∷◌, ◌++◌, arith, ok, ◌==◌, all, null, retain, not, All,
  &&-true,
}
use lazypock.Base.Text.{
  Text, codes, is_ascii_digit, is_ascii_alphabetic, is_whitespace, split, join, Lacks, split-join,
}
use lazypock.Filter.Syntax.{CompareOp, as_str, AuthRef, Token}
use lazypock.Filter.Lexer.{
  eat, is_word_character, auth_property, at_reference, read_at_reference, is_segment_start,
  is_segment_character, check_segments, word_token, read_word, read_bang, read_order, read_question,
  read_token,
}
use lazypock.Filter.Lexer.Spelling.{property, spell, IsIdent, IsLexical}
use lazypock.Filter.Lexer.Marks.{
  read_while-all, start-segment, all-append, all-segment-word, read_token-start,
}
use lazypock.Filter.Lexer.Literals.{Lexes, blank-word}

-- Words.

IsIdent-segments : (s : Text) → IsIdent s → all is_segment_character s ≡ true
IsIdent-segments [] h = absurd h
IsIdent-segments (c ∷ s) h = rw (start-segment c h.0) h.1

join-word :
    (s : Text) (ss : List Text)
    → All IsIdent (s ∷ ss)
    → all is_word_character (join b'.' (s ∷ ss)) ≡ true
unfolding join
join-word s [] h = all-segment-word s (IsIdent-segments s h.0)
join-word s (t ∷ ss) h =
    all-append is_word_character s (b'.' ∷ join b'.' (t ∷ ss))
      (all-segment-word s (IsIdent-segments s h.0))
      (rw (join-word t ss h.1)
        (unfold is_word_character is_ascii_digit is_ascii_alphabetic in refl))

segment-ne-dot : (c : ℕ) → is_segment_character c ≡ true → (c == b'.') ≡ false
unfolding is_segment_character is_ascii_digit is_ascii_alphabetic
segment-ne-dot c h = ground arith

segments-Lacks : (s : Text) → all is_segment_character s ≡ true → Lacks b'.' s
segments-Lacks [] h = tt
segments-Lacks (c ∷ s) h =
    let parts = &&-true (is_segment_character c) (all is_segment_character s) h in
    (segment-ne-dot c parts.0, segments-Lacks s parts.1)

idents-Lacks : (ss : List Text) → All IsIdent ss → All (Lacks b'.') ss
idents-Lacks [] h = tt
idents-Lacks (s ∷ ss) h = (segments-Lacks s (IsIdent-segments s h.0), idents-Lacks ss h.1)

check_segments-ok : (ss : List Text) → All IsIdent ss → check_segments ss ≡ ok tt
unfolding check_segments
check_segments-ok [] h = refl
check_segments-ok ([] ∷ ss) h = absurd h.0
check_segments-ok ((c ∷ s) ∷ ss) h = rw (h.0.0, h.0.1) (check_segments-ok ss h.1)

word_token-path :
    (s : Text) (ss : List Text)
    → IsLexical (Token.path (s ∷ ss))
    → word_token (join b'.' (s ∷ ss)) ≡ ok (Token.path (s ∷ ss))
unfolding word_token
word_token-path s ss h = rw (
  h.1.0,
  h.1.1,
  h.1.2,
  split-join b'.' s ss (idents-Lacks (s ∷ ss) h.0),
  check_segments-ok (s ∷ ss) h.0,
)

start-ne-blank : (c : ℕ) → is_segment_start c ≡ true → is_whitespace c ≡ false
unfolding is_segment_start is_ascii_alphabetic is_whitespace
start-ne-blank c h = ground arith

-- A word that the lexer knows how to classify is read as that token.
pub word-Lexes :
    (t : Token) (c : ℕ) (s : Text)
    → spell t ≡ c ∷ s
    → is_segment_start c ≡ true
    → all is_word_character (c ∷ s) ≡ true
    → word_token (c ∷ s) ≡ ok t
    → Lexes t
unfolding read_word
word-Lexes t c s e h k w = (
  c,
  s,
  e,
  start-ne-blank c h,
  λ rest.
      read_token-start c (s ++ 0x20 ∷ rest) h
      ∙ rw (read_while-all is_word_character (c ∷ s) rest k blank-word, w),
)

pub path-Lexes : (ss : List Text) → IsLexical (Token.path ss) → Lexes (Token.path ss)
unfolding spell join
path-Lexes [] h = absurd h
path-Lexes ([] ∷ ss) h = absurd h.0.0
path-Lexes ((c ∷ s) ∷ []) h =
    word-Lexes (Token.path ((c ∷ s) ∷ [])) c s refl h.0.0.0 (join-word (c ∷ s) [] h.0)
      (word_token-path (c ∷ s) [] h)
path-Lexes ((c ∷ s) ∷ t ∷ ss) h =
    word-Lexes (Token.path ((c ∷ s) ∷ t ∷ ss)) c (s ++ b'.' ∷ join b'.' (t ∷ ss)) refl h.0.0.0
      (join-word (c ∷ s) (t ∷ ss) h.0) (word_token-path (c ∷ s) (t ∷ ss) h)

-- Marks, operators and references.

pub op-Lexes : (o : CompareOp) → Lexes (Token.op o)
unfolding spell as_str read_token read_bang read_order read_question eat is_whitespace
op-Lexes CompareOp.eq = (b'=', [], refl, refl, λ rest. refl)
op-Lexes CompareOp.not_eq = (b'!', codes "=", refl, refl, λ rest. refl)
op-Lexes CompareOp.gt = (b'>', [], refl, refl, λ rest. refl)
op-Lexes CompareOp.gte = (b'>', codes "=", refl, refl, λ rest. refl)
op-Lexes CompareOp.lt = (b'<', [], refl, refl, λ rest. refl)
op-Lexes CompareOp.lte = (b'<', codes "=", refl, refl, λ rest. refl)
op-Lexes CompareOp.like = (b'~', [], refl, refl, λ rest. refl)
op-Lexes CompareOp.not_like = (b'!', codes "~", refl, refl, λ rest. refl)
op-Lexes CompareOp.any = (b'?', codes "=", refl, refl, λ rest. refl)
op-Lexes CompareOp.not_any = (b'?', codes "!=", refl, refl, λ rest. refl)

-- The word behind `@`, and the reference that its segments name.
read_at-word :
    (w rest : Text) (t : Token)
    → all is_word_character w ≡ true
    → at_reference (retain (λ p. not (null p)) (split b'.' w)) ≡ ok t
    → read_at_reference (w ++ 0x20 ∷ rest) ≡ ok (t, 0x20 ∷ rest)
unfolding read_at_reference
read_at-word w rest t h k = rw (read_while-all is_word_character w rest h blank-word, k)

pub at-Lexes :
    (w : Text) (t : Token)
    → spell t ≡ b'@' ∷ w
    → all is_word_character w ≡ true
    → at_reference (retain (λ p. not (null p)) (split b'.' w)) ≡ ok t
    → Lexes t
unfolding is_whitespace read_token
at-Lexes w t e h k = (b'@', w, e, refl, λ rest. read_at-word w rest t h k)

-- What a reference to a property splits into.
auth-segments :
    (p : Text)
    → null p ≡ false
    → all is_segment_character p ≡ true
    → retain (λ s. not (null s)) (split b'.' (codes "request.auth." ++ p))
      ≡ codes "request" ∷ codes "auth" ∷ p ∷ []
auth-segments p n h = rw parts (rw n)
  where
    parts : split b'.' (codes "request.auth." ++ p) ≡ codes "request" ∷ codes "auth" ∷ p ∷ []
    parts =
        unfold join in
        split-join b'.' (codes "request") (codes "auth" ∷ p ∷ []) (
          unfold is_segment_character is_ascii_digit is_ascii_alphabetic in
          (
            segments-Lacks (codes "request") refl,
            (segments-Lacks (codes "auth") refl, (segments-Lacks p h, tt)),
          ))

pub auth-Lexes :
    (r : AuthRef)
    → null (property r) ≡ false
    → all is_segment_character (property r) ≡ true
    → auth_property (property r) ≡ r
    → Lexes (Token.auth r)
unfolding spell at_reference
auth-Lexes r n h e =
    at-Lexes (codes "request.auth." ++ property r) (Token.auth r) refl
      (all-append is_word_character (codes "request.auth.") (property r)
        (unfold is_word_character is_ascii_digit is_ascii_alphabetic in refl)
        (all-segment-word (property r) h))
      (rw (auth-segments (property r) n h) (rw e))
