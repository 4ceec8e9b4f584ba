-- ===== src/Records/Encoding/Arrays.antt =====
-- An array of texts is read back by SQL's reading of an array as the texts that it was made of.
use lazypock.Base.{
  ℕ, zero, suc, ◌<◌, length, length-append, null, false, not, List, [], ◌∷◌, ◌++◌, Option, none,
  some, ◌==◌, ◌≡◌, refl, ap, ◌∙◌, arith, append_assoc, if◌then◌else◌, Bool-cases, inl, inr,
}
use lazypock.Base.Text.{Text}
use lazypock.Records.Encoding.{
  escape_element, is_array_mark, more_elements, pg_text_array, quoted_element,
}

abbrev pub first_of : ℕ → Option (Text × Text) → Option (Text × Text)
first_of c none = none
first_of c (some (s, rest)) = some (c ∷ s, rest)

-- An element behind its opening quote, with what stands behind its closing one: a backslash takes the next character as
-- it is.
unfoldable pub read_element : Text → Option (Text × Text)
read_element [] = none
read_element (c ∷ []) = if c == 0x22 then some ([], []) else none
read_element (c ∷ d ∷ s) =
    let escaped = first_of d (read_element s) in
    let plain = first_of c (read_element (d ∷ s)) in
    if c == 0x22 then some ([], d ∷ s) else if c == 0x5c then escaped else plain

abbrev pub open_quote : Text → Option (Text × Text)
unfolding read_element
open_quote [] = none
open_quote (c ∷ s) = if c == 0x22 then read_element s else none

abbrev pub in_front : Text → Option (List Text) → Option (List Text)
in_front x none = none
in_front x (some xs) = some (x ∷ xs)

abbrev pub and_more : Option (Text × Text) → (Text → Option (List Text)) → Option (List Text)
and_more none next = none
and_more (some (x, rest)) next = in_front x (next rest)

-- What stands behind an element: the closing brace, or a comma and more. There is a round for each element.
unfoldable pub read_more : ℕ → Text → Option (List Text)
unfolding open_quote
read_more zero s = none
read_more (suc n) [] = none
read_more (suc n) (c ∷ s) =
    if c == b'}'
    then (if null s then some [] else none)
    else if c == b','
    then and_more (open_quote s) (read_more n)
    else none

unfoldable pub read_array : Text → Option (List Text)
unfolding open_quote read_more
read_array (c ∷ d ∷ s) =
    if not (c == b'{')
    then none
    else if d == b'}'
    then (if null s then some [] else none)
    else and_more (open_quote (d ∷ s)) (read_more (length s))
read_array _ = none

read_element-plain :
    (c : ℕ) (t : Text)
    → is_array_mark c ≡ false
    → read_element (c ∷ t) ≡ first_of c (read_element t)
unfolding read_element
read_element-plain c [] h = ground arith
read_element-plain c (d ∷ t) h = ground arith

read_element-marked : (c : ℕ) (t : Text) → read_element (0x5c ∷ c ∷ t) ≡ first_of c (read_element t)
unfolding read_element
read_element-marked c t = refl

read_element-close : (c : ℕ) (t : Text) → read_element (0x22 ∷ c ∷ t) ≡ some ([], c ∷ t)
unfolding read_element
read_element-close c t = refl

read_element-escape :
    (s : Text) (c : ℕ) (rest : Text)
    → read_element (escape_element s ++ 0x22 ∷ c ∷ rest) ≡ some (s, c ∷ rest)
unfolding escape_element
read_element-escape [] c rest = read_element-close c rest
read_element-escape (d ∷ s) c rest = elim (Bool-cases (is_array_mark d)) [
  | inl mark ↦ rw mark (
      read_element-marked d (escape_element s ++ 0x22 ∷ c ∷ rest)
      ∙ ap (first_of d) (read_element-escape s c rest))
  | inr plain ↦ rw plain (
      read_element-plain d (escape_element s ++ 0x22 ∷ c ∷ rest) plain
      ∙ ap (first_of d) (read_element-escape s c rest))
]

-- Some character stands behind every element.
more-cons : (ss : List Text) → (c : ℕ) × ((rest : Text) × (more_elements ss ≡ c ∷ rest))
unfolding more_elements
more-cons [] = (b'}', ([], refl))
more-cons (s ∷ ss) = (b',', (quoted_element s ++ more_elements ss, refl))

open_quote-element :
    (s : Text) (ss : List Text)
    → open_quote (quoted_element s ++ more_elements ss) ≡ some (s, more_elements ss)
unfolding open_quote quoted_element
open_quote-element s ss =
    let (c, (rest, e)) = more-cons ss in
    rw (append_assoc (escape_element s) (0x22 ∷ []) (more_elements ss), e)
      (read_element-escape s c rest)

read_more-elements :
    (n : ℕ) (ss : List Text) → length ss < n → read_more n (more_elements ss) ≡ some ss
unfolding read_more more_elements
read_more-elements zero ss h = absurd (omega (arith, h))
read_more-elements (suc n) [] h = refl
read_more-elements (suc n) (s ∷ ss) h =
    rw (open_quote-element s ss) (ap (in_front s) (read_more-elements n ss (omega (arith, h))))

length-more_elements : (ss : List Text) → length ss < length (more_elements ss)
unfolding more_elements
length-more_elements [] = omega arith
length-more_elements (s ∷ ss) =
    omega (arith, length-more_elements ss, length-append (quoted_element s) (more_elements ss))

-- An array is read back as the texts that it was made of.
pub read_array-pg_text_array : (ss : List Text) → read_array (pg_text_array ss) ≡ some ss
unfolding read_array pg_text_array quoted_element
read_array-pg_text_array [] = refl
read_array-pg_text_array (s ∷ ss) = rw (open_quote-element s ss) (
    ap (in_front s) (
      read_more-elements (length ((escape_element s ++ 0x22 ∷ []) ++ more_elements ss)) ss (
        omega (
          arith,
          length-more_elements ss,
          length-append (escape_element s ++ 0x22 ∷ []) (more_elements ss),
        ))))
