-- ===== src/Filter/Lexer.antt =====
-- crates/db/src/query/filter.rs: the hand-written lexer. Its state is the text that is left; the
-- byte position serves the messages alone.
pub mod Total
pub mod Spelling
mod Marks
mod Literals
mod Words
pub mod RoundTrip
use lazypock.Base.{
  ℕ, zero, suc, Bool, true, false, not, ◌&&◌, ◌||◌, List, [], ◌∷◌, ◌++◌, Result, ok, err, ◌>>=◌,
  ◌>>◌, guard, leb, ◌==◌, if◌then◌else◌, all, any, length, null, retain,
}
use lazypock.Base.Text.{
  Text, codes, text_eq, is_ascii_digit, is_ascii_alphabetic, is_ascii_alphanumeric, is_whitespace,
  split,
}
use lazypock.Filter.Syntax.{CompareOp, AuthRef, Token, FilterError}

abbrev pub Lexed : Type 0 → Type 0
Lexed A = Result FilterError (A × Text)

-- `eat`: whether the next character is the one expected, which is then consumed.
unfoldable pub eat : ℕ → Text → Bool × Text
eat expected [] = (false, [])
eat expected (c ∷ s) = if c == expected then (true, s) else (false, c ∷ s)

unfoldable pub skip_whitespace : Text → Text
unfolding is_whitespace
skip_whitespace [] = []
skip_whitespace (c ∷ s) = let rest = skip_whitespace s in if is_whitespace c then rest else c ∷ s

-- The loops of `read_number_digits` and `read_ident_word`.
unfoldable pub read_while : (ℕ → Bool) → Text → Text × Text
read_while p [] = ([], [])
read_while p (c ∷ s) =
    let more = read_while p s in if p c then (c ∷ more.0, more.1) else ([], c ∷ s)

unfoldable pub is_number_character : ℕ → Bool
unfolding is_ascii_digit
is_number_character c = is_ascii_digit c || c == b'.'

unfoldable pub is_word_character : ℕ → Bool
unfolding is_ascii_alphanumeric
is_word_character c = is_ascii_alphanumeric c || c == b'_' || c == b'.'

unfoldable pub read_number_digits : Text → Text × Text
unfolding read_while is_number_character
read_number_digits s = read_while is_number_character s

unfoldable pub read_ident_word : Text → Text × Text
unfolding read_while is_word_character
read_ident_word s = read_while is_word_character s

-- `digits.parse::<f64>()` on what the lexer hands it: digits and dots behind an optional minus. It
-- is a numeral if it has a digit and at most one dot.
abbrev pub unsigned : Text → Text
unsigned [] = []
unsigned (c ∷ s) = if c == b'-' then s else c ∷ s

unfoldable pub is_numeral : Text → Bool
unfolding is_ascii_digit
is_numeral s =
    any is_ascii_digit (unsigned s) && leb (length (retain (λ c. c == b'.') (unsigned s))) 1

unfoldable pub parse_number : Text → Result FilterError Text
unfolding is_numeral
parse_number digits = if is_numeral digits then ok digits else err FilterError.bad_number

unfoldable pub read_number : Text → Lexed Token
unfolding parse_number read_number_digits
read_number s =
    let read = read_number_digits s in parse_number read.0 >>= λ n. ok (Token.number n, read.1)

-- The arm for `-` in front of a digit.
unfoldable pub read_negative : Text → Lexed Token
unfolding parse_number read_number_digits
read_negative s =
    let read = read_number_digits s in
    parse_number (b'-' ∷ read.0) >>= λ n. ok (Token.number n, read.1)

-- `read_string`, behind the opening quote.
unfoldable pub read_string : ℕ → Text → Text → Lexed Text
read_string quote out [] = err FilterError.unterminated_string
read_string quote out (c ∷ []) =
    if c == quote
    then ok (out, [])
    else if c == 0x5c
    then err FilterError.unterminated_escape
    else err FilterError.unterminated_string
read_string quote out (c ∷ e ∷ s) =
    let escaped = λ (x : ℕ). read_string quote (out ++ x ∷ []) s in
    let plain = read_string quote (out ++ c ∷ []) (e ∷ s) in
    if c == quote
    then ok (out, e ∷ s)
    else if c == 0x5c
    then (if e == 0x5c
        then escaped 0x5c
        else if e == 0x27
        then escaped 0x27
        else if e == 0x22
        then escaped 0x22
        else if e == b'n'
        then escaped 0x0a
        else if e == b'r'
        then escaped 0x0d
        else if e == b't'
        then escaped 0x09
        else err FilterError.unsupported_escape)
    else plain

unfoldable pub auth_property : Text → AuthRef
unfolding text_eq
auth_property p =
    if text_eq p (codes "id")
    then AuthRef.id
    else if text_eq p (codes "email")
    then AuthRef.email
    else if text_eq p (codes "collectionId")
    then AuthRef.collection_id
    else if text_eq p (codes "collectionName")
    then AuthRef.collection_name
    else AuthRef.claim p

-- The match on the segments of an `@` reference.
unfoldable pub at_reference : List Text → Result FilterError Token
unfolding text_eq auth_property
at_reference [] = err FilterError.unsupported_reference
at_reference (a ∷ []) =
    if text_eq a (codes "now")
    then ok Token.now
    else if text_eq a (codes "request")
    then err FilterError.unsupported_request
    else err FilterError.unsupported_reference
at_reference (a ∷ b ∷ []) =
    if text_eq a (codes "request") && text_eq b (codes "auth")
    then err FilterError.bare_auth
    else if text_eq a (codes "request")
    then err FilterError.unsupported_request
    else err FilterError.unsupported_reference
at_reference (a ∷ b ∷ p ∷ []) =
    if text_eq a (codes "request") && text_eq b (codes "auth")
    then ok (Token.auth (auth_property p))
    else if text_eq a (codes "request")
    then err FilterError.unsupported_request
    else err FilterError.unsupported_reference
at_reference (a ∷ b ∷ p ∷ q ∷ more) =
    if text_eq a (codes "request")
    then err FilterError.unsupported_request
    else err FilterError.unsupported_reference

unfoldable pub read_at_reference : Text → Lexed Token
unfolding read_ident_word split at_reference
read_at_reference s =
    let read = read_ident_word s in
    at_reference (retain (λ p. not (null p)) (split b'.' read.0)) >>= λ t. ok (t, read.1)

unfoldable pub is_segment_start : ℕ → Bool
unfolding is_ascii_alphabetic
is_segment_start c = is_ascii_alphabetic c || c == b'_'

unfoldable pub is_segment_character : ℕ → Bool
unfolding is_ascii_alphanumeric
is_segment_character c = is_ascii_alphanumeric c || c == b'_'

unfoldable pub check_segment : Text → Result FilterError (Unit {0})
unfolding is_segment_start is_segment_character
check_segment [] = err FilterError.empty_segment
check_segment (c ∷ s) =
    guard (is_segment_start c) FilterError.segment_start
    >> guard (all is_segment_character s) FilterError.segment_character

unfoldable pub check_segments : List Text → Result FilterError (Unit {0})
unfolding check_segment
check_segments [] = ok tt
check_segments (s ∷ ss) = check_segment s >> check_segments ss

-- The token of a bare word: a keyword or a field path.
unfoldable pub word_token : Text → Result FilterError Token
unfolding text_eq split check_segments
word_token word =
    if text_eq word (codes "true")
    then ok (Token.bool true)
    else if text_eq word (codes "false")
    then ok (Token.bool false)
    else if text_eq word (codes "null")
    then ok Token.null
    else (check_segments (split b'.' word) >> ok (Token.path (split b'.' word)))

unfoldable pub read_word : Text → Lexed Token
unfolding read_ident_word word_token
read_word s = let read = read_ident_word s in word_token read.0 >>= λ t. ok (t, read.1)

abbrev pub expect_pair : ℕ → Token → FilterError → Text → Lexed Token
expect_pair c t e s = let eaten = eat c s in if eaten.0 then ok (t, eaten.1) else err e

abbrev pub op_token : CompareOp → Text → Lexed Token
op_token o s = ok (Token.op o, s)

-- The arms for `!`, `>`, `<` and `?`, behind that character.
unfoldable pub read_bang : Text → Lexed Token
read_bang [] = err FilterError.expected_not
read_bang (c ∷ s) =
    if c == b'='
    then op_token CompareOp.not_eq s
    else if c == b'~'
    then op_token CompareOp.not_like s
    else err FilterError.expected_not

unfoldable pub read_order : CompareOp → CompareOp → Text → Lexed Token
unfolding eat
read_order with_eq without s =
    let eaten = eat b'=' s in op_token (if eaten.0 then with_eq else without) eaten.1

unfoldable pub read_question : Text → Lexed Token
unfolding eat
read_question [] = err FilterError.expected_any
read_question (c ∷ s) =
    if c == b'='
    then op_token CompareOp.any s
    else if c == b'!'
    then expect_pair b'=' (Token.op CompareOp.not_any) FilterError.expected_any s
    else err FilterError.expected_any

abbrev pub starts_with_digit : Text → Bool
starts_with_digit [] = false
starts_with_digit (c ∷ s) = is_ascii_digit c

-- The arms that begin with a digit, a letter or an underscore.
unfoldable pub read_bare : ℕ → Text → Lexed Token
unfolding read_number read_word is_segment_start
read_bare c s =
    if is_ascii_digit c
    then read_number (c ∷ s)
    else if is_segment_start c
    then read_word (c ∷ s)
    else err FilterError.unexpected_character

-- One round of the loop in `tokenize`: the token that begins with `c`, before `s`.
unfoldable pub read_token : ℕ → Text → Lexed Token
read_token c s =
    if c == b'('
    then ok (Token.l_paren, s)
    else if c == b')'
    then ok (Token.r_paren, s)
    else if c == b'&'
    then expect_pair b'&' Token.and FilterError.expected_and s
    else if c == b'|'
    then expect_pair b'|' Token.or FilterError.expected_or s
    else if c == 0x22 || c == 0x27
    then (read_string c [] s >>= λ r. ok (Token.text r.0, r.1))
    else if c == b'@'
    then read_at_reference s
    else if c == b'~'
    then op_token CompareOp.like s
    else if c == b'='
    then op_token CompareOp.eq s
    else if c == b'!'
    then read_bang s
    else if c == b'>'
    then read_order CompareOp.gte CompareOp.gt s
    else if c == b'<'
    then read_order CompareOp.lte CompareOp.lt s
    else if c == b'?'
    then read_question s
    else if c == b'-' && starts_with_digit s
    then read_negative s
    else read_bare c s

-- What a round does behind the blanks, `again` being the rounds that follow.
unfoldable pub tokenize_round :
    (Text → Result FilterError (List Token)) → Text → Result FilterError (List Token)
unfolding read_token
tokenize_round again [] = ok []
tokenize_round again (c ∷ rest) = read_token c rest >>= λ r. again r.1 >>= λ ts. ok (r.0 ∷ ts)

-- The loop of `tokenize`.
unfoldable pub tokenize_loop : ℕ → Text → Result FilterError (List Token)
unfolding skip_whitespace tokenize_round
tokenize_loop zero s = err FilterError.out_of_fuel
tokenize_loop (suc f) s = tokenize_round (tokenize_loop f) (skip_whitespace s)

-- Each round consumes a character, so one more round than there are characters is enough.
unfoldable pub tokenize : Text → Result FilterError (List Token)
unfolding tokenize_loop eat read_string read_at_reference read_bang read_order read_question
    read_negative read_bare
tokenize s = tokenize_loop (suc (length s)) s
