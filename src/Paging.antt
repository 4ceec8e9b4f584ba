-- ===== src/Paging.antt =====
-- crates/db/src/query/pagination.rs: page requests and keyset cursors. An error stands by its message.
pub mod Pages
pub mod Cursors
mod Tests
use lazypock.Base.{
  ℕ, zero, suc, ◌+◌, ◌-◌, ◌*◌, ◌/◌, ◌%◌, ◌^◌, Bool, true, false, not, ◌&&◌, ◌||◌, List, [], ◌∷◌,
  ◌++◌, Option, none, some, ltb, leb, ◌==◌, if◌then◌else◌, Result, ok, err, ◌>>=◌, ◌>>◌, guard, any,
  null,
}
use lazypock.Base.Text.{byte_length, Text, codes, trim}

abbrev pub default_per_page : ℕ
default_per_page = 30

abbrev pub max_per_page : ℕ
max_per_page = 500

pub record PageRequest : Type 0 where
  pub page : ℕ
  pub per_page : ℕ
  pub skip_total : Bool

abbrev pub unwrap_or : Option ℕ → ℕ → ℕ
unwrap_or none d = d
unwrap_or (some n) d = n

-- `PageRequest::new`.
unfoldable pub new_page : Option ℕ → Option ℕ → Bool → Result Text PageRequest
new_page page per_page skip_total = do
  let p = unwrap_or page 1
  guard (not (p == 0)) (codes "page must be at least 1")
  let n = unwrap_or per_page default_per_page
  guard (not (n == 0)) (codes "perPage must be at least 1")
  guard (leb n max_per_page) (codes "perPage must be at most 500")
  ok (record { page = p; per_page = n; skip_total = skip_total })

unfoldable pub limit : PageRequest → ℕ
limit r = r.per_page

unfoldable pub offset : PageRequest → ℕ
offset r = (r.page - 1) * r.per_page

unfoldable pub total_pages : PageRequest → ℕ → ℕ
total_pages r total_items = (total_items + r.per_page - 1) / r.per_page

abbrev pub max_cursor_id_len : ℕ
max_cursor_id_len = 64

-- `i64::MAX`.
abbrev pub max_i64 : ℕ
max_i64 = 9223372036854775807

-- The integers, over the native numbers: `negsuc n` is -(n + 1).
pub data ℤ : Type 0 where
  pos negsuc : ℕ → ℤ

-- The bits of an `i64`, which `{:x}` writes.
abbrev pub bits : ℤ → ℕ
bits (ℤ.pos n) = n
bits (ℤ.negsuc n) = 18446744073709551615 - n

pub record Cursor : Type 0 where
  pub created_micros : ℤ
  pub id : Text

unfoldable pub hex_digit : ℕ → ℕ
hex_digit n = if ltb n 10 then b'0' + n else 87 + n

-- `{:x}`: the digits of a number, before those that are written already.
unfoldable pub write_hex : ℕ → ℕ → Text → Text
unfolding hex_digit
write_hex zero n rest = rest
write_hex (suc fuel) n rest =
    let more = write_hex fuel (n / 16) (hex_digit (n % 16) ∷ rest) in
    if ltb n 16 then hex_digit n ∷ rest else more

-- Sixteen digits are those of sixty-four bits.
unfoldable pub encode : Cursor → Text
unfolding write_hex
encode c = write_hex 16 (bits c.created_micros) (b'.' ∷ c.id)

unfoldable pub split_once : ℕ → Text → Option (Text × Text)
split_once sep [] = none
split_once sep (c ∷ s) =
    let rest = split_once sep s in
    if c == sep
    then some ([], s)
    else elim rest [ none ↦ none | some (before, after) ↦ some (c ∷ before, after) ]

abbrev pub hex_value : ℕ → Option ℕ
hex_value c =
    if leb b'0' c && leb c b'9'
    then some (c - b'0')
    else if leb b'a' c && leb c b'f'
    then some (c - 87)
    else if leb b'A' c && leb c b'F'
    then some (c - 55)
    else none

-- The digits of `i64::from_str_radix(_, 16)` after those that gave `acc`, with the largest magnitude.
unfoldable pub read_hex : ℕ → ℕ → Text → Option ℕ
read_hex largest acc [] = some acc
read_hex largest acc (c ∷ s) = elim (hex_value c) [
  | none ↦ none
  | some d ↦
      let rest = read_hex largest (acc * 16 + d) s in
      if leb (acc * 16 + d) largest then rest else none
]

abbrev pub negated : Option ℕ → Option ℤ
negated none = none
negated (some zero) = some (ℤ.pos 0)
negated (some (suc n)) = some (ℤ.negsuc n)

abbrev pub positive : Option ℕ → Option ℤ
positive none = none
positive (some n) = some (ℤ.pos n)

-- `i64::from_str_radix(_, 16)`: a sign is allowed, and a sign alone is not.
unfoldable pub read_i64 : Text → Option ℤ
unfolding read_hex
read_i64 [] = none
read_i64 (c ∷ s) =
    if c == b'+'
    then (if null s then none else positive (read_hex max_i64 0 s))
    else if c == b'-'
    then (if null s then none else negated (read_hex (max_i64 + 1) 0 s))
    else positive (read_hex max_i64 0 (c ∷ s))

abbrev pub malformed : Text
malformed = codes "the pagination cursor is malformed"

abbrev pub ok_or {ℓ} : {A : Type ℓ} → Option A → Text → Result Text A
ok_or none e = err e
ok_or (some a) e = ok a

-- `char::is_control`.
abbrev pub is_control : ℕ → Bool
is_control c = ltb c 32 || leb 127 c && leb c 159

abbrev pub is_cursor_id : Text → Bool
is_cursor_id id =
    not (null id || (not (leb (byte_length id) max_cursor_id_len) || any is_control id))

unfoldable pub decode : Text → Result Text Cursor
unfolding trim split_once read_i64
decode input = do
  let raw = trim input
  guard (not (null raw)) (codes "the pagination cursor is empty")
  parts ← ok_or (split_once b'.' raw) malformed
  created ← ok_or (read_i64 parts.0) malformed
  guard (is_cursor_id parts.1) (codes "the pagination cursor does not hold a valid record id")
  ok (record { created_micros = created; id = parts.1 })

pub data Page : Type 0 where
  offset_page : PageRequest → Page
  keyset : Option Cursor → ℕ → Page

abbrev continued : Text → Result Text (Option Cursor)
unfolding decode
continued raw = if null (trim raw) then ok none else (decode raw >>= λ c. ok (some c))

-- `Page::from_params`.
unfoldable pub from_params : Option ℕ → Option ℕ → Bool → Option Text → Result Text Page
unfolding new_page continued
from_params page per_page skip_total none = do
  request ← new_page page per_page skip_total
  ok (Page.offset_page request)
from_params (some p) per_page skip_total (some raw) =
    err (codes "`page` and `after` cannot be combined; keyset paging continues from `after`")
from_params none per_page skip_total (some raw) = do
  request ← new_page none per_page skip_total
  after ← continued raw
  ok (Page.keyset after request.per_page)

unfoldable pub page_limit : Page → ℕ
unfolding limit
page_limit (Page.offset_page request) = limit request
page_limit (Page.keyset after n) = n
