-- ===== src/Sort/Bounds.antt =====
-- What an accepted sort promises.
use lazypock.Base.{
  ◌≤◌, Bool, true, false, not, ◌&&◌, List, [], ◌∷◌, ltb, null, length, all, All, ◌≡◌, refl, arith,
  ok, guard, Meets, returns, fails, Meets-if, Meets-bind, Meets-imp, Meets-ok,
}
use lazypock.Base.Text.{Text, trim, split}
use lazypock.Sort.{
  SortField, SortError, max_sort_fields, is_start, is_inner, validate_segment, validate_segments,
  direction, parse_key, parse_keys, parse_sort,
}

-- A name is a letter or an underscore, and then letters, digits and underscores.
abbrev pub is_name : Text → Bool
unfolding is_start is_inner
is_name [] = false
is_name (c ∷ s) = is_start c && all is_inner s

abbrev pub Named : SortField → Type 0
Named f = All (λ s. is_name s ≡ true) f.path

guard-Meets : (b : Bool) (e : SortError) → Meets (λ e. Unit {0}) (λ u. b ≡ true) (guard b e)
guard-Meets true e = returns refl
guard-Meets false e = fails tt

validate_segment-Meets :
    (s : Text) → Meets (λ e. Unit {0}) (λ u. is_name s ≡ true) (validate_segment s)
unfolding validate_segment is_name
validate_segment-Meets [] = fails tt
validate_segment-Meets (c ∷ s) =
    Meets-bind (guard-Meets (is_start c) SortError.not_a_letter)
      (λ u first. rw first (guard-Meets (all is_inner s) SortError.unexpected))

validate_segments-Meets :
    (ss : List Text)
    → Meets (λ e. Unit {0}) (λ u. All (λ s. is_name s ≡ true) ss) (validate_segments ss)
unfolding validate_segments
validate_segments-Meets [] = returns tt
validate_segments-Meets (s ∷ ss) =
    Meets-bind (validate_segment-Meets s)
      (λ u first. Meets-imp (validate_segments-Meets ss) (λ v more. (first, more)))

parse_key-Meets : (raw : Text) → Meets (λ e. Unit {0}) Named (parse_key raw)
unfolding parse_key
parse_key-Meets raw =
    Meets-bind (guard-Meets (not (null (direction raw).1)) SortError.missing_name) (λ u there.
      Meets-bind (validate_segments-Meets (split b'.' (direction raw).1))
        (λ v valid. returns valid))

parse_keys-Meets : (raws : List Text) → Meets (λ e. Unit {0}) (All Named) (parse_keys raws)
unfolding parse_keys
parse_keys-Meets [] = returns tt
parse_keys-Meets (raw ∷ raws) =
    Meets-if (null (trim raw)) (λ blank. parse_keys-Meets raws)
      (λ there.
        Meets-bind (parse_key-Meets (trim raw))
          (λ f named. Meets-bind (parse_keys-Meets raws) (λ fs more. returns (named, more))))

-- An accepted sort.
abbrev pub Accepted : List SortField → Type 0
Accepted fields = All Named fields × (1 ≤ length fields) × (length fields ≤ max_sort_fields)

parse_sort-Meets : (input : Text) → Meets (λ e. Unit {0}) Accepted (parse_sort input)
unfolding parse_sort
parse_sort-Meets input = Meets-bind (parse_keys-Meets (split b',' input)) (λ fields named.
    Meets-bind (guard-Meets (not (null fields)) SortError.no_field) (λ u some_field.
      Meets-bind (guard-Meets (not (ltb max_sort_fields (length fields))) SortError.too_many)
        (λ v few. returns (named, at_least fields some_field, ground (arith, few)))))
  where
    at_least : (fields : List SortField) → not (null fields) ≡ true → 1 ≤ length fields
    at_least [] h = cc
    at_least (f ∷ fs) h = omega arith

-- An accepted sort has at least one key and at most `max_sort_fields`, and every part of a key's
-- path is a letter or an underscore and then letters, digits and underscores.
pub parse_sort-Accepted :
    (input : Text) (fields : List SortField) → parse_sort input ≡ ok fields → Accepted fields
parse_sort-Accepted input fields h = Meets-ok (parse_sort-Meets input) h
