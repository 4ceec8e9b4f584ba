-- ===== src/Filter/Lexer/RoundTrip.antt =====
-- The lexer reads back what tokens are written as.
use lazypock.Base.{
  ℕ, zero, suc, ◌≤◌, ◌<◌, ◌≡◌, refl, true, false, List, [], ◌∷◌, ◌++◌, arith, ok, length, All,
  length-append,
}
use lazypock.Base.Text.{Text, codes, is_whitespace, split}
use lazypock.Filter.Syntax.{AuthRef, Token}
use lazypock.Filter.Lexer.{
  eat, skip_whitespace, is_word_character, auth_property, at_reference, word_token, read_token,
  tokenize_round, tokenize_loop, tokenize,
}
use lazypock.Filter.Lexer.Spelling.{spell, spell_all, IsLexical}
use lazypock.Filter.Lexer.Literals.{Lexes, text-Lexes, number-Lexes}
use lazypock.Filter.Lexer.Words.{word-Lexes, path-Lexes, op-Lexes, at-Lexes, auth-Lexes}

-- Every token that has a spelling is read back from it.
token-Lexes : (t : Token) → IsLexical t → Lexes t
unfolding spell word_token at_reference auth_property split is_word_character is_whitespace
    read_token eat
token-Lexes (Token.path ss) h = path-Lexes ss h
token-Lexes (Token.text s) h = text-Lexes s
token-Lexes (Token.number d) h = number-Lexes d h
token-Lexes (Token.bool true) h =
    word-Lexes (Token.bool true) b't' (codes "rue") refl refl refl refl
token-Lexes (Token.bool false) h =
    word-Lexes (Token.bool false) b'f' (codes "alse") refl refl refl refl
token-Lexes Token.null h = word-Lexes Token.null b'n' (codes "ull") refl refl refl refl
token-Lexes Token.now h = at-Lexes (codes "now") Token.now refl refl refl
token-Lexes (Token.auth AuthRef.id) h = auth-Lexes AuthRef.id refl refl refl
token-Lexes (Token.auth AuthRef.email) h = auth-Lexes AuthRef.email refl refl refl
token-Lexes (Token.auth AuthRef.collection_id) h = auth-Lexes AuthRef.collection_id refl refl refl
token-Lexes (Token.auth AuthRef.collection_name) h =
    auth-Lexes AuthRef.collection_name refl refl refl
token-Lexes (Token.auth (AuthRef.claim p)) h = auth-Lexes (AuthRef.claim p) h.0 h.1 h.2
token-Lexes (Token.op o) h = op-Lexes o
token-Lexes Token.and h = (b'&', codes "&", refl, refl, λ rest. refl)
token-Lexes Token.or h = (b'|', codes "|", refl, refl, λ rest. refl)
token-Lexes Token.l_paren h = (b'(', [], refl, refl, λ rest. refl)
token-Lexes Token.r_paren h = (b')', [], refl, refl, λ rest. refl)

-- A spelling begins with a character that is not blank.
pub spell-first :
    (t : Token) → IsLexical t → (c : ℕ) × (s : Text) × (spell t ≡ c ∷ s) × (is_whitespace c ≡ false)
spell-first t h = let (c, s, e, w, read) = token-Lexes t h in (c, s, e, w)

skip_whitespace-blank : (s : Text) → skip_whitespace (0x20 ∷ s) ≡ skip_whitespace s
unfolding skip_whitespace is_whitespace
skip_whitespace-blank s = refl

skip_whitespace-other :
    (c : ℕ) (s : Text) → is_whitespace c ≡ false → skip_whitespace (c ∷ s) ≡ c ∷ s
unfolding skip_whitespace
skip_whitespace-other c s h = rw h

tokenize_loop-blank :
    (f : ℕ) (s : Text) → tokenize_loop (suc f) (0x20 ∷ s) ≡ tokenize_loop (suc f) s
unfolding tokenize_loop
tokenize_loop-blank f s = rw (skip_whitespace-blank s)

tokenize_loop-spell_all :
    (ts : List Token) (f : ℕ)
    → All IsLexical ts
    → length ts < f
    → tokenize_loop f (spell_all ts) ≡ ok ts
unfolding tokenize_loop tokenize_round spell_all
tokenize_loop-spell_all ts zero h k = absurd (omega arith)
tokenize_loop-spell_all [] (suc f) h k = unfold skip_whitespace in refl
tokenize_loop-spell_all (t ∷ ts) (suc zero) h k = absurd (omega arith)
tokenize_loop-spell_all (t ∷ ts) (suc (suc f)) h k =
    let (c, s, e, w, read) = token-Lexes t h.0 in
    rw e (
      rw (skip_whitespace-other c (s ++ 0x20 ∷ spell_all ts) w, read (spell_all ts))
        (rw (
          tokenize_loop-blank f (spell_all ts),
          tokenize_loop-spell_all ts (suc f) h.1 (omega arith),
        )))

length-spell_all : (ts : List Token) → length ts ≤ length (spell_all ts)
unfolding spell_all
length-spell_all [] = omega arith
length-spell_all (t ∷ ts) =
    omega (arith, length-append (spell t) (0x20 ∷ spell_all ts), length-spell_all ts)

-- Tokens that have a spelling, written one after the other with a blank behind each, are read
-- back as the same tokens.
pub tokenize-spell_all : (ts : List Token) → All IsLexical ts → tokenize (spell_all ts) ≡ ok ts
unfolding tokenize
tokenize-spell_all ts h =
    tokenize_loop-spell_all ts (suc (length (spell_all ts))) h (omega (arith, length-spell_all ts))
