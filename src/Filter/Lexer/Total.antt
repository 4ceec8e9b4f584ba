-- ===== src/Filter/Lexer/Total.antt =====
-- The lexer always comes to a result: each round consumes a character.
use lazypock.Base.{
  ℕ, zero, suc, ◌≤◌, ◌<◌, ◌≡◌, ◌≢◌, ◌>>=◌, all, Bool, true, false, List, [], ◌∷◌, ◌++◌, arith,
  Result, ok, ◌==◌, ◌||◌, ◌&&◌, Meets, returns, fails, Meets-bind, Meets-imp, Meets-if, length,
  guard, retain, not, null,
}
use lazypock.Base.Text.{Text, is_ascii_digit, split, codes, text_eq}
use lazypock.Filter.Syntax.{CompareOp, Token, FilterError}
use lazypock.Filter.Lexer.{
  Lexed, eat, skip_whitespace, read_while, is_number_character, is_word_character,
  read_number_digits, read_ident_word, is_numeral, parse_number, read_number, read_negative,
  read_string, at_reference, read_at_reference, check_segment, is_segment_character, check_segments,
  word_token, read_word, expect_pair, read_bang, read_order, read_question, starts_with_digit,
  is_segment_start, read_bare, read_token, tokenize_round, tokenize_loop, tokenize,
}

abbrev pub Kept : FilterError → Type 0
Kept e = e ≢ FilterError.out_of_fuel

-- The call leaves no more than `n` characters.
abbrev Leaves : {A : Type 0} → ℕ → Lexed A → Type 0
Leaves n = Meets Kept (λ r. length r.1 ≤ n)

-- An error that is not for fuel.
abbrev NoFuel : {A : Type 0} → Result FilterError A → Type 0
NoFuel = Meets Kept (λ a. Unit {0})

length-read_while : (p : ℕ → Bool) (s : Text) → length (read_while p s).1 ≤ length s
unfolding read_while
length-read_while p [] = omega arith
length-read_while p (c ∷ s) = ground (arith, length-read_while p s)

length-read_while_first :
    (p : ℕ → Bool) (c : ℕ) (s : Text) → p c ≡ true → length (read_while p (c ∷ s)).1 ≤ length s
unfolding read_while
length-read_while_first p c s h = rw h (length-read_while p s)

length-skip_whitespace : (s : Text) → length (skip_whitespace s) ≤ length s
unfolding skip_whitespace
length-skip_whitespace [] = omega arith
length-skip_whitespace (c ∷ s) = ground (arith, length-skip_whitespace s)

length-eat : (c : ℕ) (s : Text) → length (eat c s).1 ≤ length s
unfolding eat
length-eat c [] = omega arith
length-eat c (d ∷ s) = ground arith

guard-NoFuel : (b : Bool) (e : FilterError) → Kept e → NoFuel (guard b e)
guard-NoFuel true e h = returns tt
guard-NoFuel false e h = fails h

parse_number-NoFuel : (s : Text) → NoFuel (parse_number s)
unfolding parse_number
parse_number-NoFuel s = Meets-if (is_numeral s) (λ h. returns tt) (λ h. fails (λ e. cc))

-- The result of a check, paired with text that is short enough.
Leaves-pair :
    {A B : Type 0} (n : ℕ) (r : Result FilterError A) (f : A → B) (s : Text)
    → NoFuel r
    → length s ≤ n
    → Leaves n (r >>= λ a. ok (f a, s))
Leaves-pair n r f s h k = Meets-bind h λ a _. returns k

digit-number_character : (c : ℕ) → is_ascii_digit c ≡ true → is_number_character c ≡ true
unfolding is_number_character
digit-number_character c h = rw h

-- A number begins with the digit that was seen, so reading it consumes one.
read_number-Leaves :
    (c : ℕ) (s : Text) → is_ascii_digit c ≡ true → Leaves (length s) (read_number (c ∷ s))
unfolding read_number
read_number-Leaves c s h =
    Leaves-pair (length s) (parse_number (read_number_digits (c ∷ s)).0) Token.number _
      (parse_number-NoFuel (read_number_digits (c ∷ s)).0)
      (length-read_while_first is_number_character c s (digit-number_character c h))

read_negative-Leaves : (s : Text) → Leaves (length s) (read_negative s)
unfolding read_negative
read_negative-Leaves s =
    Leaves-pair (length s) (parse_number (b'-' ∷ (read_number_digits s).0)) Token.number _
      (parse_number-NoFuel (b'-' ∷ (read_number_digits s).0))
      (length-read_while is_number_character s)

at_reference-NoFuel : (ss : List Text) → NoFuel (at_reference ss)
unfolding at_reference
at_reference-NoFuel [] = fails (λ e. cc)
at_reference-NoFuel (a ∷ []) =
    Meets-if (text_eq a (codes "now")) (λ h. returns tt)
      λ h. Meets-if (text_eq a (codes "request")) (λ h. fails (λ e. cc)) (λ h. fails (λ e. cc))
at_reference-NoFuel (a ∷ b ∷ []) =
    Meets-if (text_eq a (codes "request") && text_eq b (codes "auth")) (λ h. fails (λ e. cc))
      λ h. Meets-if (text_eq a (codes "request")) (λ h. fails (λ e. cc)) (λ h. fails (λ e. cc))
at_reference-NoFuel (a ∷ b ∷ p ∷ []) =
    Meets-if (text_eq a (codes "request") && text_eq b (codes "auth")) (λ h. returns tt)
      λ h. Meets-if (text_eq a (codes "request")) (λ h. fails (λ e. cc)) (λ h. fails (λ e. cc))
at_reference-NoFuel (a ∷ b ∷ p ∷ q ∷ more) =
    Meets-if (text_eq a (codes "request")) (λ h. fails (λ e. cc)) (λ h. fails (λ e. cc))

read_at_reference-Leaves : (s : Text) → Leaves (length s) (read_at_reference s)
unfolding read_at_reference read_ident_word
read_at_reference-Leaves s =
    let segments = retain (λ p. not (null p)) (split b'.' (read_ident_word s).0) in
    Leaves-pair (length s) (at_reference segments) (λ t. t) _ (at_reference-NoFuel segments)
      (length-read_while is_word_character s)

check_segment-NoFuel : (s : Text) → NoFuel (check_segment s)
unfolding check_segment
check_segment-NoFuel [] = fails (λ e. cc)
check_segment-NoFuel (c ∷ s) =
    Meets-bind (guard-NoFuel (is_segment_start c) FilterError.segment_start (λ e. cc))
      λ _ _. guard-NoFuel (all is_segment_character s) FilterError.segment_character (λ e. cc)

check_segments-NoFuel : (ss : List Text) → NoFuel (check_segments ss)
unfolding check_segments
check_segments-NoFuel [] = returns tt
check_segments-NoFuel (s ∷ ss) = Meets-bind (check_segment-NoFuel s) λ _ _. check_segments-NoFuel ss

word_token-NoFuel : (w : Text) → NoFuel (word_token w)
unfolding word_token
word_token-NoFuel w =
    Meets-if (text_eq w (codes "true")) (λ h. returns tt)
      λ h.
        Meets-if (text_eq w (codes "false")) (λ h. returns tt)
          λ h.
            Meets-if (text_eq w (codes "null")) (λ h. returns tt)
              λ h. Meets-bind (check_segments-NoFuel (split b'.' w)) λ _ _. returns tt

segment_start-word : (c : ℕ) → is_segment_start c ≡ true → is_word_character c ≡ true
unfolding is_segment_start is_word_character is_ascii_digit
segment_start-word c h = ground arith

read_word-Leaves :
    (c : ℕ) (s : Text) → is_segment_start c ≡ true → Leaves (length s) (read_word (c ∷ s))
unfolding read_word read_ident_word read_while
read_word-Leaves c s h =
    let word = (read_ident_word (c ∷ s)).0 in
    Leaves-pair (length s) (word_token word) (λ t. t) _ (word_token-NoFuel word)
      (length-read_while_first is_word_character c s (segment_start-word c h))

read_bare-Leaves : (c : ℕ) (s : Text) → Leaves (length s) (read_bare c s)
unfolding read_bare
read_bare-Leaves c s =
    Meets-if (is_ascii_digit c) (read_number-Leaves c s)
      λ _. Meets-if (is_segment_start c) (read_word-Leaves c s) (λ h. fails (λ e. cc))

expect_pair-Leaves :
    (c : ℕ) (t : Token) (e : FilterError) (s : Text)
    → Kept e
    → Leaves (length s) (expect_pair c t e s)
expect_pair-Leaves c t e s h = Meets-if (eat c s).0 (λ _. returns (length-eat c s)) (λ _. fails h)

read_bang-Leaves : (s : Text) → Leaves (length s) (read_bang s)
unfolding read_bang
read_bang-Leaves [] = fails (λ e. cc)
read_bang-Leaves (c ∷ s) =
    Meets-if (c == b'=') (λ _. returns (omega arith))
      λ _. Meets-if (c == b'~') (λ _. returns (omega arith)) (λ _. fails (λ e. cc))

read_order-Leaves : (o o' : CompareOp) (s : Text) → Leaves (length s) (read_order o o' s)
unfolding read_order
read_order-Leaves o o' s = returns (length-eat b'=' s)

read_question-Leaves : (s : Text) → Leaves (length s) (read_question s)
unfolding read_question
read_question-Leaves [] = fails (λ e. cc)
read_question-Leaves (c ∷ s) =
    Meets-if (c == b'=') (λ _. returns (omega arith))
      λ _.
        Meets-if (c == b'!')
          (λ _.
            Meets-imp
              (expect_pair-Leaves b'=' (Token.op CompareOp.not_any) FilterError.expected_any s
                (λ e. cc))
              λ r h. omega arith)
          (λ _. fails (λ e. cc))

read_string-Leaves : (q : ℕ) (out s : Text) → Leaves (length s) (read_string q out s)
unfolding read_string
read_string-Leaves q out [] = fails (λ e. cc)
read_string-Leaves q out (c ∷ []) =
    Meets-if (c == q) (λ _. returns (omega arith))
      λ _. Meets-if (c == 0x5c) (λ _. fails (λ e. cc)) (λ _. fails (λ e. cc))
read_string-Leaves q out (c ∷ e ∷ s) =
    let escaped : (x : ℕ) → Leaves (suc (suc (length s))) (read_string q (out ++ x ∷ []) s) =
      λ x. Meets-imp (read_string-Leaves q (out ++ x ∷ []) s) (λ r h. omega arith) in
    let plain : Leaves (suc (suc (length s))) (read_string q (out ++ c ∷ []) (e ∷ s)) =
      Meets-imp (read_string-Leaves q (out ++ c ∷ []) (e ∷ s)) (λ r h. omega arith) in
    Meets-if (c == q) (λ _. returns (omega arith))
      λ _.
        Meets-if (c == 0x5c)
          (λ _.
            Meets-if (e == 0x5c) (λ _. escaped 0x5c)
              λ _.
                Meets-if (e == 0x27) (λ _. escaped 0x27)
                  λ _.
                    Meets-if (e == 0x22) (λ _. escaped 0x22)
                      λ _.
                        Meets-if (e == b'n') (λ _. escaped 0x0a)
                          λ _.
                            Meets-if (e == b'r') (λ _. escaped 0x0d)
                              λ _. Meets-if (e == b't') (λ _. escaped 0x09) (λ _. fails (λ e. cc)))
          (λ _. plain)

read_token-Leaves : (c : ℕ) (s : Text) → Leaves (length s) (read_token c s)
unfolding read_token
read_token-Leaves c s =
    Meets-if (c == b'(') (λ _. returns le)
      λ _.
        Meets-if (c == b')') (λ _. returns le)
          λ _.
            Meets-if (c == b'&')
              (λ _. expect_pair-Leaves b'&' Token.and FilterError.expected_and s (λ e. cc))
              λ _.
                Meets-if (c == b'|')
                  (λ _. expect_pair-Leaves b'|' Token.or FilterError.expected_or s (λ e. cc))
                  λ _.
                    Meets-if (c == 0x22 || c == 0x27)
                      (λ _. Meets-bind (read_string-Leaves c [] s) λ r h. returns h)
                      λ _.
                        Meets-if (c == b'@') (λ _. read_at_reference-Leaves s)
                          λ _.
                            Meets-if (c == b'~') (λ _. returns le)
                              λ _.
                                Meets-if (c == b'=') (λ _. returns le)
                                  λ _.
                                    Meets-if (c == b'!') (λ _. read_bang-Leaves s)
                                      λ _.
                                        Meets-if (c == b'>')
                                          (λ _. read_order-Leaves CompareOp.gte CompareOp.gt s)
                                          λ _.
                                            Meets-if (c == b'<')
                                              (λ _. read_order-Leaves CompareOp.lte CompareOp.lt s)
                                              λ _.
                                                Meets-if (c == b'?') (λ _. read_question-Leaves s)
                                                  λ _.
                                                    Meets-if (c == b'-' && starts_with_digit s)
                                                      (λ _. read_negative-Leaves s)
                                                      λ _. read_bare-Leaves c s
  where
    le : length s ≤ length s
    le = omega arith

tokenize_round-NoFuel :
    (again : Text → Result FilterError (List Token)) (s : Text)
    → ((rest : Text) → length rest < length s → NoFuel (again rest))
    → NoFuel (tokenize_round again s)
unfolding tokenize_round
tokenize_round-NoFuel again [] h = returns tt
tokenize_round-NoFuel again (c ∷ rest) h =
    Meets-bind (read_token-Leaves c rest) λ r k. Meets-bind (h r.1 (omega arith)) λ ts _. returns tt

tokenize_loop-NoFuel : (f : ℕ) (s : Text) → length s < f → NoFuel (tokenize_loop f s)
unfolding tokenize_loop
tokenize_loop-NoFuel zero s h = absurd (omega arith)
tokenize_loop-NoFuel (suc f) s h =
    tokenize_round-NoFuel (tokenize_loop f) (skip_whitespace s)
      λ rest k. tokenize_loop-NoFuel f rest (omega (arith, length-skip_whitespace s))

pub tokenize-Meets : (s : Text) → Meets Kept (λ ts. Unit {0}) (tokenize s)
unfolding tokenize
tokenize-Meets s = tokenize_loop-NoFuel (suc (length s)) s (omega arith)
