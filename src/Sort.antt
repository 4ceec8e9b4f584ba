-- ===== src/Sort.antt =====
-- crates/db/src/query/sort.rs: the `sort` query parameter. An error stands by what was wrong, without the text
-- that it quotes.
pub mod Bounds
mod Tests
use lazypock.Base.{
  ℕ, zero, suc, Bool, true, false, not, ◌&&◌, ◌||◌, List, [], ◌∷◌, ltb, ◌==◌, if◌then◌else◌, all,
  null, length, Result, ok, err, guard, ◌>>=◌, ◌>>◌,
}
use lazypock.Base.Text.{Text, trim, split, is_ascii_alphabetic, is_ascii_alphanumeric}

abbrev pub max_sort_fields : ℕ
max_sort_fields = 8

pub record SortField : Type 0 where
  pub path : List Text
  pub descending : Bool

pub data SortError : Type 0 where
  missing_name malformed not_a_letter unexpected no_field too_many : SortError

abbrev pub is_start : ℕ → Bool
unfolding is_ascii_alphabetic
is_start c = is_ascii_alphabetic c || c == b'_'

abbrev pub is_inner : ℕ → Bool
unfolding is_ascii_alphanumeric
is_inner c = is_ascii_alphanumeric c || c == b'_'

unfoldable pub validate_segment : Text → Result SortError (Unit {0})
unfolding is_start is_inner
validate_segment [] = err SortError.malformed
validate_segment (c ∷ s) = do
  guard (is_start c) SortError.not_a_letter
  guard (all is_inner s) SortError.unexpected

unfoldable pub validate_segments : List Text → Result SortError (Unit {0})
unfolding validate_segment
validate_segments [] = ok tt
validate_segments (s ∷ ss) = validate_segment s >> validate_segments ss

-- The sign of a key, and what it leaves.
abbrev pub direction : Text → Bool × Text
direction [] = (false, [])
direction (c ∷ s) =
    if c == b'-' then (true, s) else if c == b'+' then (false, s) else (false, c ∷ s)

unfoldable pub parse_key : Text → Result SortError SortField
unfolding validate_segments split
parse_key raw = do
  let (descending, path) = direction raw
  guard (not (null path)) SortError.missing_name
  validate_segments (split b'.' path)
  ok (record { path = split b'.' path; descending = descending })

unfoldable pub parse_keys : List Text → Result SortError (List SortField)
unfolding parse_key trim
parse_keys [] = ok []
parse_keys (raw ∷ raws) =
    let more = parse_keys raws in
    if null (trim raw) then more else (parse_key (trim raw) >>= λ f. more >>= λ fs. ok (f ∷ fs))

unfoldable pub parse_sort : Text → Result SortError (List SortField)
unfolding parse_keys split
parse_sort input = do
  fields ← parse_keys (split b',' input)
  guard (not (null fields)) SortError.no_field
  guard (not (ltb max_sort_fields (length fields))) SortError.too_many
  ok fields
